-- ===== src/Modules/AdminApi/Printing/Pages.antt =====
-- src/modules/admin_api.rs: the list of the modules, what is printed of the configuration file, and the body of each page.
use modular_rust_reverse_pro.Base.{
  ℕ, ◌≡◌, refl, Bool, true, false, not, ◌&&◌, Option, none, some, ◌>>=◌, List, [], ◌∷◌, Text, lit,
  ◌==◌, text_eq, if◌then◌else◌, is_empty, ltb, nat_beq, map, sort_by,
}
use modular_rust_reverse_pro.Strings.Split.{join}
use modular_rust_reverse_pro.Config.{Srv}
use modular_rust_reverse_pro.Metrics.Printing.{snapshot_json}
use modular_rust_reverse_pro.Modules.Helpers.{filter_map}
use modular_rust_reverse_pro.Script.Loader.Listing.{list_loaded_mods}
use modular_rust_reverse_pro.Modules.AdminApi.{
  Page, fixed, status, connections, metrics, config, server, protocols, tls, mods, config_verify,
  config_repair,
}
use modular_rust_reverse_pro.Modules.AdminApi.Repair.{
  Issue, missing_server, missing_key, missing_modules, missing_script, Fix, added_server,
  added_modules, added_script, Verdict, unreadable, unparsable, issues,
}
use modular_rust_reverse_pro.Modules.AdminApi.Printing.{
  Info, new_info, ModuleFile, Seen, print, show_bool, quote, status_json, connections_json,
  server_config_json, protocols_json, tls_json,
}

-- The order of the texts.
unfoldable pub name_le : Text → Text → Bool
name_le [] t = true
name_le (c ∷ s) [] = false
name_le (c ∷ s) (d ∷ t) =
    let rest = name_le s t in if ltb c d then true else if nat_beq c d then rest else false

unfoldable pub module_name : ModuleFile → Option Text
module_name f =
    if f.is_file
    then f.file_stem >>= (λ name.
      if not (name == lit "mod") && not (name == lit "helpers") then some name else none)
    else none

unfoldable pub print_script : Text × Text × Bool → Text
print_script (name, version, enabled) = print (
    lit "{\"name\":\""
    ∷ name
    ∷ lit "\",\"version\":\""
    ∷ version
    ∷ lit "\",\"enabled\":"
    ∷ show_bool enabled
    ∷ lit "}"
    ∷ [])

unfoldable pub mods_list : Seen → Text
unfolding name_le module_name print_script
mods_list s = print (
    lit "{\"rust_modules\":["
    ∷ join (lit ",") (map quote (sort_by name_le (filter_map module_name s.module_files)))
    ∷ lit "],\"script_modules\":["
    ∷ join (lit ",") (map print_script (list_loaded_mods s.scripts))
    ∷ lit "]}"
    ∷ [])

unfoldable pub full_config_json : Info → Seen → Text
unfolding mods_list
full_config_json info s = print (
    lit "{\"server\":" ∷ server_config_json info ∷ lit ",\"modules\":" ∷ mods_list s ∷ lit "}" ∷ [])

unfoldable pub print_issue : Issue → Text
print_issue missing_server = lit "missing [server] section"
print_issue (missing_key key) = print (lit "server." ∷ key ∷ lit " missing" ∷ [])
print_issue missing_modules = lit "missing [modules] section"
print_issue (missing_script name) =
    print (lit "missing config for script module '" ∷ name ∷ lit "'" ∷ [])

unfoldable pub print_verdict : Text → Verdict → Text
unfolding print_issue
print_verdict e unreadable =
    print (lit "{\"ok\":false,\"error\":\"Cannot read config.toml: " ∷ e ∷ lit "\"}" ∷ [])
print_verdict e unparsable =
    print (lit "{\"ok\":false,\"error\":\"Parse error: " ∷ e ∷ lit "\"}" ∷ [])
print_verdict e (issues found) =
    if is_empty found
    then lit "{\"ok\":true,\"issues\":[]}"
    else print (
        lit "{\"ok\":false,\"issues\":["
        ∷ join (lit ",") (map (λ i. quote (print_issue i)) found)
        ∷ lit "]}"
        ∷ [])

unfoldable pub print_fix : Fix → Text
print_fix added_server = lit "added [server] section with defaults"
print_fix added_modules = lit "added [modules] section"
print_fix (added_script name) = print (lit "added defaults for module '" ∷ name ∷ lit "'" ∷ [])

unfoldable pub print_fixes : Text → Option (List Fix) → Text
unfolding print_fix
print_fixes e none = print (lit "{\"ok\":false,\"error\":\"" ∷ e ∷ lit "\"}" ∷ [])
print_fixes e (some fixes) = print (
    lit "{\"ok\":true,\"fixes\":["
    ∷ join (lit ",") (map (λ f. quote (print_fix f)) fixes)
    ∷ lit "]}"
    ∷ [])

-- The body of a page.
unfoldable pub body_of : Info → Seen → Page → Text
unfolding full_config_json mods_list print_verdict print_fixes status_json connections_json
    server_config_json protocols_json tls_json
body_of info s (fixed t) = t
body_of info s status = status_json info s
body_of info s connections = connections_json info s
body_of info s metrics = snapshot_json s.snap
body_of info s config = full_config_json info s
body_of info s server = server_config_json info
body_of info s protocols = protocols_json info
body_of info s tls = tls_json info s
body_of info s mods = mods_list s
body_of info s config_verify = print_verdict s.verify_error s.verdict
body_of info s config_repair = print_fixes s.repair_error s.fixes

-- No page tells anything about the key.
body_of-new_info :
    (start : ℕ) (srv : Srv) (key other : Text) (s : Seen) (p : Page)
    → body_of (new_info start srv key) s p ≡ body_of (new_info start srv other) s p
unfolding body_of new_info
body_of-new_info start srv key other s (fixed t) = refl
body_of-new_info start srv key other s status = refl
body_of-new_info start srv key other s connections = refl
body_of-new_info start srv key other s metrics = refl
body_of-new_info start srv key other s config = refl
body_of-new_info start srv key other s server = refl
body_of-new_info start srv key other s protocols = refl
body_of-new_info start srv key other s tls = refl
body_of-new_info start srv key other s mods = refl
body_of-new_info start srv key other s config_verify = refl
body_of-new_info start srv key other s config_repair = refl
