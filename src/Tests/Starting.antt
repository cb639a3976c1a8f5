-- ===== src/Tests/Starting.antt =====
-- The configuration file, its repair, and the start of the program, on small files.
use modular_rust_reverse_pro.Base.{
  true, false, Option, none, some, is_empty, [], ◌∷◌, Text, lit, text_eq, if◌then◌else◌, HashMap,
}
use modular_rust_reverse_pro.Config.Loading.{Format}
use modular_rust_reverse_pro.Modules.Instances.{World}
use modular_rust_reverse_pro.Script.Loader.{DirEntry}
use modular_rust_reverse_pro.Script.Loader.Names.{Unique}
use modular_rust_reverse_pro.Script.Runtime.{StdLib}
use modular_rust_reverse_pro.Start.{Surroundings, Started, start_up}
use modular_rust_reverse_pro.Start.Unique.{start_up-Unique}
use modular_rust_reverse_pro.Tests.Formats.{Value, boolean, string, of_list, values, builder}
use modular_rust_reverse_pro.Tests.Formats
use modular_rust_reverse_pro.Tests.Registering.{host, statics, at}

abbrev format : Format values
format = record { from_str = λ txt. none; to_string_pretty = λ v. some (lit "stored") }

abbrev addresses : HashMap Text Value
addresses =
    (lit "listen_addr", string (lit "127.0.0.1:8080"))
    ∷ (lit "backend_addr", string (lit "127.0.0.1:3000"))
    ∷ []

-- The table of the repaired file.
abbrev both : HashMap Text Value
both =
    (lit "server", Formats.table (of_list addresses))
    ∷ (lit "modules", Formats.table (of_list []))
    ∷ []

parse_table : Text → Option (HashMap Text Value)
parse_table txt = if is_empty txt then none else some both

abbrev hello : DirEntry
hello = record {
  is_file = true;
  is_pcmod = true;
  size = some 60;
  source = some (lit "mod cache\npriority 5\non_request {\nrespond 200 \"text/plain\" \"hi\"\n}\n");
}

abbrev no_calls : StdLib (World host)
no_calls = record { call_request = λ f args c t. (t, none); call_response = λ f args c q a. a }

abbrev around : Surroundings
around = record { config_file = none; mods = hello ∷ hello ∷ []; exists = λ p. true }

abbrev begun : Started host
begun =
    start_up host builder format no_calls 0 at statics (record { states = []; poisoned = false })
      around

start_up-Unique_example : Unique begun.pipeline.mods
start_up-Unique_example =
    start_up-Unique host 0 at builder format no_calls statics
      (record { states = []; poisoned = false }) around
