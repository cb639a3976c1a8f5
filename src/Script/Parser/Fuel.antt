-- ===== src/Script/Parser/Fuel.antt =====
-- The fuel of the parser is enough.
use modular_rust_reverse_pro.Base.{
  ℕ, zero, suc, ◌+◌, ◌≤◌, ◌<◌, ◌≡◌, refl, Option, none, some, ◌>>=◌, unwrap_or, List, [], ◌∷◌, Text,
  lit, ◌==◌, text_eq, length, arith, Bool-cases, Option-cases, inl, inr,
}
use modular_rust_reverse_pro.Strings.Chars.{trim, strip_prefix}
use modular_rust_reverse_pro.Script.Syntax.{Command, Commands, nil, ScriptDef}
use modular_rust_reverse_pro.Script.Blocks.{
  Block, parse_block, parse_command, if_command, is_comment, push_front, after_command, block_at,
}
use modular_rust_reverse_pro.Script.Parser.{parse_config, block_line, header_line, parse_loop}

-- A block was read, and no more lines are left than `n`.
abbrev pub Reads : ℕ → Block → Type 0
Reads n none = ⊥
Reads n (some b) = length b.1 ≤ n

abbrev ReadsCommand : ℕ → Option (Option Command × List Text) → Type 0
ReadsCommand n none = ⊥
ReadsCommand n (some b) = length b.1 ≤ n

if_command-Reads :
    (block : List Text → Block) (rest : Text) (ls : List Text)
    → Reads (length ls) (block ls)
    → ReadsCommand (length ls) (if_command block rest ls)
unfolding if_command
if_command-Reads block rest ls h = ground arith

parse_command-Reads :
    (block : List Text → Block) (line : Text) (ls : List Text)
    → Reads (length ls) (block ls)
    → ReadsCommand (length ls) (parse_command block line ls)
unfolding parse_command
parse_command-Reads block line ls h = elim (Option-cases (strip_prefix (lit "if ") line)) [
  | inl e ↦ rw (e, parse_command) (omega arith)
  | inr (rest, e) ↦ rw (e, parse_command) (if_command-Reads block rest ls h)
]

Reads-push_front :
    (c : Option Command) (b : Commands × List Text) (n m : ℕ)
    → length b.1 ≤ n
    → n ≤ m
    → Reads m (some (push_front c b))
unfolding push_front
Reads-push_front none b n m h k = omega arith
Reads-push_front (some c) (cs, ls) n m h k = omega arith

Reads-mono : (n m : ℕ) (b : Block) → n ≤ m → Reads n b → Reads m b
Reads-mono n m none h r = r
Reads-mono n m (some b) h r = omega arith

after_command-Reads :
    (block : List Text → Block) (c : Option (Option Command × List Text)) (n m : ℕ)
    → n ≤ m
    → ReadsCommand n c
    → ((ls : List Text) → length ls ≤ n → Reads (length ls) (block ls))
    → Reads m (after_command block c)
unfolding after_command
after_command-Reads block none n m h r k = r
after_command-Reads block (some (c, ls)) n m h r k = go (block ls) (k ls r)
  where
    go : (b : Block) → Reads (length ls) b → Reads m (b >>= (λ b. some (push_front c b)))
    go none q = q
    go (some b) q = Reads-push_front c b (length ls) m q (omega arith)

-- With more fuel than lines the parser of blocks returns a block, and no more lines are left than there were.
pub parse_block-Reads :
    (f : ℕ) (ls : List Text) → length ls < f → Reads (length ls) (parse_block f ls)
unfolding parse_block
parse_block-Reads zero ls h = elim h [ ]
parse_block-Reads (suc f) [] h = omega arith
parse_block-Reads (suc f) (l ∷ ls) h =
    let inner = parse_block-Reads f ls (omega arith) in
    let n = length ls in
    elim (Bool-cases (trim l == lit "}")) [
      | inl close ↦ rw (close, parse_block) (omega arith)
      | inr open_line ↦ elim (Bool-cases (is_comment (trim l))) [
        | inl comment ↦
            rw (open_line, parse_block)
              (rw comment (Reads-mono n (suc n) (parse_block f ls) (omega arith) inner))
        | inr code ↦
            rw (open_line, parse_block)
              (rw code (
                after_command-Reads (parse_block f) (parse_command (parse_block f) (trim l) ls) n
                  (suc n) (omega arith) (parse_command-Reads (parse_block f) (trim l) ls inner)
                  (λ ls' k. parse_block-Reads f ls' (omega arith))))
      ]
    ]

parse_config-le : (ls : List Text) → length (parse_config ls).1 ≤ length ls
unfolding parse_config
parse_config-le [] = omega arith
parse_config-le (l ∷ ls) = ground (arith, parse_config-le ls)

block_at-le : (ls : List Text) → length (block_at ls).1 ≤ length ls
unfolding block_at
block_at-le ls =
    go (parse_block (length ls + 1) ls) (parse_block-Reads (length ls + 1) ls (omega arith))
  where
    go : (b : Block) → Reads (length ls) b → length (unwrap_or b (nil, [])).1 ≤ length ls
    go none r = elim r [ ]
    go (some b) r = r

block_line-le :
    (line : Text) (ls : List Text) (def : ScriptDef) → length (block_line line ls def).1 ≤ length ls
unfolding block_line
block_line-le line ls def = ground (arith, parse_config-le ls, block_at-le ls)

-- With more fuel than lines the loop of `parse` goes through all of a script, so that `parse` judges the whole of
-- its text and never a part.
pub parse_loop_total :
    (f : ℕ) (ls : List Text) (def : ScriptDef)
    → length ls < f
    → (d : ScriptDef) × (parse_loop f ls def ≡ some d)
unfolding parse_loop
parse_loop_total zero ls def h = elim h [ ]
parse_loop_total (suc f) [] def h = (def, refl)
parse_loop_total (suc f) (l ∷ ls) def h = elim (Bool-cases (is_comment (trim l))) [
  | inl comment ↦
      let (d, e) = parse_loop_total f ls def (omega arith) in (d, rw (comment, parse_loop) e)
  | inr code ↦ elim (Option-cases (header_line (trim l) def)) [
    | inl block ↦
        let b = block_line (trim l) ls def in
        let (d, e) = parse_loop_total f b.1 b.0 (omega (arith, block_line-le (trim l) ls def)) in
        (d, rw (code, parse_loop) (rw block e))
    | inr (def', header) ↦
        let (d, e) = parse_loop_total f ls def' (omega arith) in
        (d, rw (code, parse_loop) (rw header e))
  ]
]
