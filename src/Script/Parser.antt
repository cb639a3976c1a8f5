-- ===== src/Script/Parser.antt =====
-- The definitions of src/script/parser.rs, with the blocks of commands of Script/Blocks.antt.
pub mod Fuel
use modular_rust_reverse_pro.Base.{
  ℕ, zero, suc, ◌+◌, ◌<◌, ◌^◌, Bool, true, false, not, ◌&&◌, ◌||◌, Option, none, some, ◌>>=◌, List,
  [], ◌∷◌, ◌++◌, map, Text, lit, ◌==◌, text_eq, if◌then◌else◌, ltb, length, is_empty, retain,
  unwrap_or, ℤ, pos, nat_beq,
}
use modular_rust_reverse_pro.Strings.Chars.{
  trim, trim_matches, trim_start_matches, trim_end_matches, starts_with, strip_prefix,
  split_at_match,
}
use modular_rust_reverse_pro.Strings.Split.{lines, split, splitn, split_whitespace}
use modular_rust_reverse_pro.Strings.Numbers.{parse_u16, parse_signed}
use modular_rust_reverse_pro.Script.Syntax.{
  Command, Commands, if_cmd, respond, set_header_cmd, log, set_ctx, std_call, nil, cons, FieldType,
  bool, int, str, list, FieldValue, bool_value, int_value, str_value, list_value, ConfigField,
  ScriptDef,
}
use modular_rust_reverse_pro.Script.Blocks.{quote, is_comment, block_at}

abbrev pub i32_half : ℕ
i32_half = 2 ^ 31

abbrev pub i64_half : ℕ
i64_half = 2 ^ 63

-- The elements between the commas, without quotes.
list_elements : List Text → List Text
list_elements parts = map (λ s. trim_matches b'\'' (trim_matches quote (trim s))) parts

field_type : Text → Option FieldType
field_type t =
    if t == lit "bool"
    then some bool
    else if t == lit "int"
    then some int
    else if t == lit "str"
    then some str
    else if t == lit "list"
    then some list
    else none

field_default : FieldType → Text → FieldValue
unfolding list_elements
field_default bool v = bool_value (v == lit "true")
field_default int v = int_value (unwrap_or (parse_signed i64_half v) (pos 0))
field_default str v = str_value (trim_matches quote v)
field_default list v =
    let inner = trim_end_matches b']' (trim_start_matches b'[' v) in
    list_value (if is_empty (trim inner) then [] else list_elements (split b',' inner))

field_of : List Text → Option ConfigField
unfolding field_type field_default
field_of (key ∷ typ ∷ val ∷ []) = do
  t ← field_type typ
  some (record { key = key; typ = t; default = field_default t val })
field_of _ = none

unfoldable pub parse_config_field : Text → Option ConfigField
unfolding field_of
parse_config_field line = field_of (splitn 3 b' ' line)

push_field : Option ConfigField → List ConfigField → List ConfigField
push_field none fs = fs
push_field (some f) fs = f ∷ fs

-- The lines of `config {`: the fields, and the lines behind the closing brace.
unfoldable pub parse_config : List Text → List ConfigField × List Text
unfolding parse_config_field push_field is_comment
parse_config [] = ([], [])
parse_config (l ∷ ls) =
    let cl = trim l in
    let (fields, rest) = parse_config ls in
    if cl == lit "}"
    then ([], ls)
    else if is_comment cl
    then (fields, rest)
    else (push_field (parse_config_field cl) fields, rest)

unquoted : Text → Text
unquoted rest = trim_matches quote (trim rest)

override_names : Text → List Text
override_names rest =
    retain (λ s. not (is_empty s))
      (map (λ s. trim_matches quote (trim s))
        (split b',' (trim_end_matches b']' (trim_start_matches b'[' (trim rest)))))

-- The four keywords with one line.
unfoldable pub header_line : Text → ScriptDef → Option ScriptDef
unfolding unquoted override_names
header_line line def = elim (strip_prefix (lit "mod ") line) [
  | some rest ↦ some (record def { name = unquoted rest })
  | none ↦ elim (strip_prefix (lit "version ") line) [
    | some rest ↦ some (record def { version = unquoted rest })
    | none ↦ elim (strip_prefix (lit "priority ") line) [
      | some rest ↦
          some (record def { priority = unwrap_or (parse_signed i32_half (trim rest)) (pos 75) })
      | none ↦ elim (strip_prefix (lit "overrides ") line) [
        | some rest ↦ some (record def { overrides = override_names rest })
        | none ↦ none
      ]
    ]
  ]
]

-- The blocks: the new definition, and the lines behind it.
unfoldable pub block_line : Text → List Text → ScriptDef → ScriptDef × List Text
unfolding parse_config block_at
block_line line ls def =
    let (fields, after_config) = parse_config ls in
    let (cmds, after_block) = block_at ls in
    if line == lit "config {"
    then (record def { config = def.config ++ fields }, after_config)
    else if line == lit "on_request {"
    then (record def { on_request = cmds }, after_block)
    else if line == lit "on_response {"
    then (record def { on_response = cmds }, after_block)
    else if line == lit "on_init {"
    then (record def { on_init = cmds }, after_block)
    else (def, ls)

-- The loop of `parse`, on fuel.
unfoldable pub parse_loop : ℕ → List Text → ScriptDef → Option ScriptDef
unfolding header_line block_line is_comment
parse_loop zero ls def = none
parse_loop (suc f) [] def = some def
parse_loop (suc f) (l ∷ ls) def =
    let line = trim l in
    let skip = parse_loop f ls def in
    let (def', ls') = block_line line ls def in
    let blocks = parse_loop f ls' def' in
    if is_comment line
    then skip
    else elim (header_line line def) [ none ↦ blocks | some d ↦ parse_loop f ls d ]

pub data ParseResult : Type 0 where
  ok : ScriptDef → ParseResult
  err : Text → ParseResult

abbrev pub blank_def : ScriptDef
blank_def = record {
  name = [];
  version = lit "1.0";
  priority = pos 75;
  overrides = [];
  config = [];
  on_request = nil;
  on_response = nil;
  on_init = nil;
}

unfoldable pub parse : Text → ParseResult
unfolding parse_loop
parse src =
    let ls = lines src in
    let def = unwrap_or (parse_loop (length ls + 1) ls blank_def) blank_def in
    if ltb 10_000 (length ls)
    then err (lit "script too large (>10,000 lines)")
    else if is_empty def.name
    then err (lit "missing 'mod' declaration")
    else ok def
