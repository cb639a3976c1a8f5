-- ===== src/Script/Blocks/Conditions.antt =====
-- What the parser makes of an `if` whose condition it cannot read.
use modular_rust_reverse_pro.Base.{
  ℕ, suc, ◌≡◌, refl, false, none, some, ◌>>=◌, List, [], ◌∷◌, Text, lit, text_eq, text_beq, arith,
}
use modular_rust_reverse_pro.Strings.Chars.{trim, strip_prefix, trim_end_matches}
use modular_rust_reverse_pro.Script.Blocks.{
  Block, parse_block, parse_command, if_command, parse_condition, is_comment, push_front,
  after_command,
}

if_line :
    (t rest : Text)
    → strip_prefix (lit "if ") t ≡ some rest
    → (text_beq t (lit "}") ≡ false) × (is_comment t ≡ false)
unfolding strip_prefix lit text_beq is_comment
if_line [] rest h = absurd (cc)
if_line (c ∷ t) rest h = ground arith

after_nothing :
    (block : List Text → Block) (ls : List Text) → after_command block (some (none, ls)) ≡ block ls
unfolding after_command push_front
after_nothing block ls = go (block ls)
  where
    go : (b : Block) → (b >>= λ b. some (push_front none b)) ≡ b
    go none = refl
    go (some b) = refl

unreadable_command :
    (block : List Text → Block) (line rest : Text) (ls : List Text)
    → strip_prefix (lit "if ") line ≡ some rest
    → parse_condition (trim (trim_end_matches b'{' rest)) ≡ none
    → parse_command block line ls ≡ some (none, ls)
unfolding parse_command if_command
unreadable_command block line rest ls h none_fits =
    rw (h, parse_command) (rw (none_fits, if_command))

-- A line that begins with `if `, but whose condition has none of the operators, is dropped alone: the parser goes on
-- with the lines behind it as lines of the same block.
pub unreadable_if :
    (f : ℕ) (l rest : Text) (ls : List Text)
    → strip_prefix (lit "if ") (trim l) ≡ some rest
    → parse_condition (trim (trim_end_matches b'{' rest)) ≡ none
    → parse_block (suc f) (l ∷ ls) ≡ parse_block f ls
unfolding parse_block
unreadable_if f l rest ls h none_fits =
    let (not_close, not_comment) = if_line (trim l) rest h in
    rw (not_close, parse_block)
      (rw not_comment (
        rw (unreadable_command (parse_block f) (trim l) rest ls h none_fits)
          (after_nothing (parse_block f) ls)))
