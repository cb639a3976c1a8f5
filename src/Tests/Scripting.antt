-- ===== src/Tests/Scripting.antt =====
-- The scripts of src/script on short texts.
use modular_rust_reverse_pro.Base.{
  ℕ, ◌≡◌, refl, none, true, List, [], ◌∷◌, Text, lit, text_beq, arith,
}
use modular_rust_reverse_pro.Strings.Chars.{strip_prefix, trim_start_by, trim_end_by}
use modular_rust_reverse_pro.Http.Request.{set_request_header}
use modular_rust_reverse_pro.Modules.Pipeline.{Turn}
use modular_rust_reverse_pro.Script.Syntax.{Commands, nil, cons, set_header_cmd}
use modular_rust_reverse_pro.Script.Blocks.{parse_block}
use modular_rust_reverse_pro.Script.Blocks.Grammar.{IsParsed, parse_block-IsBlock}
use modular_rust_reverse_pro.Script.Runtime.{
  StdLib, exec_request, holds_request, eval_cond, resolve_field, resolve_value,
}

abbrev guarded : List Text
guarded =
    lit "if path starts_with \"/admin\" {"
    ∷ lit "respond 403 \"text/plain\" \"no\""
    ∷ lit "}"
    ∷ lit "}"
    ∷ lit "rest"
    ∷ []

parse_block-IsBlock_example : IsParsed guarded (parse_block 6 guarded)
parse_block-IsBlock_example = parse_block-IsBlock 6 guarded (omega arith)

-- A library with no functions.
abbrev no_std : StdLib ℕ
no_std = record { call_request = λ f args c t. (t, none); call_response = λ f args c q a. a }

abbrev asked : Turn ℕ
asked = record {
  request = record {
    method = lit "GET";
    path = lit "/";
    version = lit "HTTP/1.1";
    headers = [];
    body = [];
  };
  context = record { strings = []; state = []; started_at = 0 };
  world = 0;
}

abbrev marks : Commands
marks = cons (set_header_cmd (lit "X-A") (lit "1")) nil

marks_quiet : (exec_request no_std [] marks asked).1 ≡ none
unfolding exec_request
marks_quiet = refl

is_get :
    holds_request [] (lit "method") (lit "==") (lit "GET") (exec_request no_std [] marks asked).0
    ≡ true
unfolding exec_request holds_request eval_cond text_beq lit resolve_field set_request_header
    resolve_value strip_prefix trim_end_by trim_start_by
is_get = refl
