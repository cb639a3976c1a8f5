-- ===== src/Script/Blocks.antt =====
-- The commands of src/script/parser.rs. The position in the lines is the list of the lines that are left.
pub mod Conditions
pub mod Grammar
use modular_rust_reverse_pro.Base.{
  ℕ, zero, suc, ◌+◌, ◌<◌, ◌^◌, Bool, true, false, not, ◌&&◌, ◌||◌, Option, none, some, ◌>>=◌, List,
  [], ◌∷◌, ◌++◌, map, Text, lit, ◌==◌, text_eq, if◌then◌else◌, ltb, length, is_empty, retain,
  unwrap_or, ℤ, pos, nat_beq,
}
use modular_rust_reverse_pro.Strings.Chars.{
  trim, trim_matches, trim_start_matches, trim_end_matches, starts_with, strip_prefix,
  split_at_match,
}
use modular_rust_reverse_pro.Strings.Split.{lines, split, splitn, split_whitespace}
use modular_rust_reverse_pro.Strings.Numbers.{parse_u16, parse_signed}
use modular_rust_reverse_pro.Script.Syntax.{
  Command, Commands, if_cmd, respond, set_header_cmd, log, set_ctx, std_call, nil, cons, FieldType,
  bool, int, str, list, FieldValue, bool_value, int_value, str_value, list_value, ConfigField,
  ScriptDef,
}

abbrev pub quote : ℕ
quote = b'"'

condition_by : List Text → Text → Option (Text × Text × Text)
condition_by [] s = none
condition_by (op ∷ ops) s =
    let later = condition_by ops s in
    elim (split_at_match op s) [
      | none ↦ later
      | some (before, after) ↦ some (trim before, op, trim_matches quote (trim after))
    ]

-- The operators are tried in this order, each one at its first place in the text.
unfoldable pub parse_condition : Text → Option (Text × Text × Text)
unfolding condition_by
parse_condition s = condition_by (lit "==" ∷ lit "!=" ∷ lit "contains" ∷ []) s

-- What a line that begins with a keyword gives from its pieces; `none` lets the next test go on.
respond_of : List Text → Option Command
respond_of (_ ∷ code ∷ ct ∷ body ∷ []) = some (
    respond (unwrap_or (parse_u16 code) 200)
      (if ct == lit "json" then lit "application/json" else lit "text/plain") body)
respond_of _ = none

set_header_of : List Text → Option Command
set_header_of (_ ∷ name ∷ value ∷ []) = some (set_header_cmd name value)
set_header_of _ = none

log_of : List Text → Option Command
log_of (_ ∷ level ∷ msg ∷ []) = some (log level msg)
log_of _ = none

set_of : List Text → Option Command
set_of (_ ∷ key ∷ value ∷ []) = some (set_ctx key value)
set_of _ = none

std_of : List Text → Option Command
std_of [] = none
std_of (head ∷ args) = some (std_call (unwrap_or (strip_prefix (lit "std.") head) []) args)

or_else : Option Command → Option Command → Option Command
or_else none later = later
or_else (some c) later = some c

when : Bool → Option Command → Option Command
when true c = c
when false c = none

-- The commands of one line. No two of the keywords begin the same line.
unfoldable pub simple_command : Text → Option Command
unfolding respond_of set_header_of log_of set_of std_of or_else when
simple_command line =
    or_else (when (starts_with (lit "respond ") line) (respond_of (splitn 4 b' ' line))) (
      or_else (when (starts_with (lit "set_header ") line) (set_header_of (splitn 3 b' ' line))) (
        or_else (when (starts_with (lit "log ") line) (log_of (splitn 3 b' ' line))) (
          or_else (when (starts_with (lit "set ") line) (set_of (splitn 3 b' ' line)))
            (when (starts_with (lit "std.") line) (std_of (split_whitespace line))))))

abbrev pub Block : Type 0
Block = Option (Commands × List Text)

-- `if <field> <op> <value> {`, given the text behind `if `; the body is read by `block`.
unfoldable pub if_command :
    (List Text → Block) → Text → List Text → Option (Option Command × List Text)
if_command block rest ls = elim (parse_condition (trim (trim_end_matches b'{' rest))) [
  | none ↦ some (none, ls)
  | some (field, op, value) ↦ elim (block ls) [
    | none ↦ none
    | some (body, ls') ↦ some (some (if_cmd field op value body), ls')
  ]
]

-- The command of a line, if it gives one, and the lines behind it.
unfoldable pub parse_command :
    (List Text → Block) → Text → List Text → Option (Option Command × List Text)
unfolding if_command
parse_command block line ls = elim (strip_prefix (lit "if ") line) [
  | some rest ↦ if_command block rest ls
  | none ↦ some (simple_command line, ls)
]

unfoldable pub is_comment : Text → Bool
is_comment line = is_empty line || starts_with (lit "#") line

unfoldable pub push_front : Option Command → Commands × List Text → Commands × List Text
push_front none b = b
push_front (some c) (cs, ls) = (cons c cs, ls)

-- The rest of the block, behind a command.
unfoldable pub after_command : (List Text → Block) → Option (Option Command × List Text) → Block
unfolding push_front
after_command block none = none
after_command block (some (c, ls)) = block ls >>= (λ b. some (push_front c b))

-- On fuel: `none` means that it ran out.
unfoldable pub parse_block : ℕ → List Text → Block
unfolding parse_command is_comment after_command
parse_block zero ls = none
parse_block (suc f) [] = some (nil, [])
parse_block (suc f) (l ∷ ls) =
    let line = trim l in
    let rest = parse_block f ls in
    let command = parse_command (parse_block f) line ls in
    if line == lit "}"
    then some (nil, ls)
    else if is_comment line
    then rest
    else after_command (parse_block f) command

-- The block that begins at these lines, with fuel for all of them.
unfoldable pub block_at : List Text → Commands × List Text
unfolding parse_block
block_at ls = unwrap_or (parse_block (length ls + 1) ls) (nil, [])
