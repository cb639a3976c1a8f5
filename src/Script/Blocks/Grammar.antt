-- ===== src/Script/Blocks/Grammar.antt =====
-- The blocks of the scripts, as a grammar, and `parse_block` as its parser.
use modular_rust_reverse_pro.Base.{
  ℕ, zero, suc, ◌≤◌, ◌<◌, ◌≡◌, ◌≢◌, refl, ◌∙◌, true, false, Option, none, some, List, [], ◌∷◌, Text,
  lit, ◌==◌, text_eq, text_beq_iff, length, arith, Bool-cases, Option-cases, inl, inr,
}
use modular_rust_reverse_pro.Strings.Chars.{trim, strip_prefix, trim_end_matches}
use modular_rust_reverse_pro.Script.Syntax.{Command, Commands, if_cmd, nil, cons}
use modular_rust_reverse_pro.Script.Blocks.{
  Block, parse_block, parse_command, if_command, parse_condition, simple_command, is_comment,
  push_front, after_command,
}

-- A line that may hold a command.
abbrev pub IsCode : Text → Type 0
IsCode l = (trim l ≢ lit "}") × (is_comment (trim l) ≡ false)

-- The condition behind an `if `.
abbrev pub condition_of : Text → Option (Text × Text × Text)
condition_of rest = parse_condition (trim (trim_end_matches b'{' rest))

-- The commands of the block that begins at these lines, and the lines behind it. The end of the script closes every block.
-- An `if` that can be read has a block of its own; one that cannot, and a line that is no command, is left out
-- alone.
pub data IsBlock : List Text → Commands → List Text → Type 0 where
  at_end : IsBlock [] nil []
  closed : {l : Text} {ls : List Text} → trim l ≡ lit "}" → IsBlock (l ∷ ls) nil ls
  comment :
      {l : Text} {ls rest : List Text} {cs : Commands}
      → trim l ≢ lit "}"
      → is_comment (trim l) ≡ true
      → IsBlock ls cs rest
      → IsBlock (l ∷ ls) cs rest
  conditional :
      {l r field op value : Text} {ls ls' rest : List Text} {body cs : Commands}
      → IsCode l
      → strip_prefix (lit "if ") (trim l) ≡ some r
      → condition_of r ≡ some (field, op, value)
      → IsBlock ls body ls'
      → IsBlock ls' cs rest
      → IsBlock (l ∷ ls) (cons (if_cmd field op value body) cs) rest
  unreadable :
      {l r : Text} {ls rest : List Text} {cs : Commands}
      → IsCode l
      → strip_prefix (lit "if ") (trim l) ≡ some r
      → condition_of r ≡ none
      → IsBlock ls cs rest
      → IsBlock (l ∷ ls) cs rest
  simple :
      {l : Text} {ls rest : List Text} {c : Command} {cs : Commands}
      → IsCode l
      → strip_prefix (lit "if ") (trim l) ≡ none
      → simple_command (trim l) ≡ some c
      → IsBlock ls cs rest
      → IsBlock (l ∷ ls) (cons c cs) rest
  unknown :
      {l : Text} {ls rest : List Text} {cs : Commands}
      → IsCode l
      → strip_prefix (lit "if ") (trim l) ≡ none
      → simple_command (trim l) ≡ none
      → IsBlock ls cs rest
      → IsBlock (l ∷ ls) cs rest

abbrev pub IsParsed : List Text → Block → Type 0
IsParsed ls b =
    (cs : Commands) × (rest : List Text) × (b ≡ some (cs, rest))
    × IsBlock ls cs rest
    × (length rest ≤ length ls)

after_command-some :
    (block : List Text → Block) (o : Option Command) (ls rest : List Text) (cs : Commands)
    → block ls ≡ some (cs, rest)
    → after_command block (some (o, ls)) ≡ some (push_front o (cs, rest))
unfolding after_command
after_command-some block o ls rest cs e = rw e refl

module _ (block : List Text → Block) (l : Text) (ls : List Text) (code : IsCode l)
    (later : (ls' : List Text) → length ls' ≤ length ls → IsParsed ls' (block ls')) where
  simple-IsParsed :
      strip_prefix (lit "if ") (trim l) ≡ none
      → IsParsed (l ∷ ls) (after_command block (some (simple_command (trim l), ls)))
  unfolding push_front
  simple-IsParsed e =
      let (cs, rest, found, w, le) = later ls (omega arith) in
      let all = after_command-some block (simple_command (trim l)) ls rest cs found in
      elim (Option-cases (simple_command (trim l))) [
        | inl absent ↦ (cs, rest, all ∙ rw absent refl, unknown code e absent w, omega arith)
        | inr (c, some_c) ↦
            (cons c cs, rest, all ∙ rw some_c refl, simple code e some_c w, omega arith)
      ]

  if-IsParsed :
      (r : Text)
      → strip_prefix (lit "if ") (trim l) ≡ some r
      → IsParsed (l ∷ ls) (after_command block (if_command block r ls))
  unfolding if_command push_front
  if-IsParsed r e = elim (Option-cases (condition_of r)) [
    | inl absent ↦
        let (cs, rest, found, w, le) = later ls (omega arith) in
        (
          cs,
          rest,
          rw (absent, if_command) (after_command-some block none ls rest cs found),
          unreadable code e absent w,
          omega arith,
        )
    | inr (parts, some_c) ↦
        let (body, ls', inner, w, le) = later ls (omega arith) in
        let (cs, rest, found, w', le') = later ls' le in
        let c = if_cmd parts.0 parts.1 parts.2 body in
        (
          cons c cs,
          rest,
          rw (some_c, inner, if_command) (after_command-some block (some c) ls' rest cs found),
          conditional code e some_c w w',
          omega arith,
        )
  ]

  command-IsParsed : IsParsed (l ∷ ls) (after_command block (parse_command block (trim l) ls))
  unfolding parse_command
  command-IsParsed = elim (Option-cases (strip_prefix (lit "if ") (trim l))) [
    | inl e ↦ rw (e, parse_command) (simple-IsParsed e)
    | inr (r, e) ↦ rw (e, parse_command) (if-IsParsed r e)
  ]

-- With more fuel than lines the parser of blocks returns, and what it returns are the commands and the rest that the
-- grammar gives these lines.
pub parse_block-IsBlock : (f : ℕ) (ls : List Text) → length ls < f → IsParsed ls (parse_block f ls)
unfolding parse_block
parse_block-IsBlock zero ls h = elim h [ ]
parse_block-IsBlock (suc f) [] h = (nil, [], refl, at_end, omega arith)
parse_block-IsBlock (suc f) (l ∷ ls) h = elim (Bool-cases (trim l == lit "}")) [
  | inl close ↦
      rw (close, parse_block)
        (nil, ls, refl, closed ((text_beq_iff (trim l) (lit "}")).0 close), omega arith)
  | inr more ↦
      let not_close : trim l ≢ lit "}" =
        λ e. absurd (cc (more, (text_beq_iff (trim l) (lit "}")).1 e)) in
      elim (Bool-cases (is_comment (trim l))) [
        | inl skip ↦
            let (cs, rest, found, w, le) = parse_block-IsBlock f ls (omega arith) in
            rw (more, parse_block)
              (rw skip (cs, rest, found, comment not_close skip w, omega arith))
        | inr code ↦
            rw (more, parse_block)
              (rw code (
                command-IsParsed (parse_block f) l ls (not_close, code)
                  (λ ls' k. parse_block-IsBlock f ls' (omega arith))))
      ]
]
