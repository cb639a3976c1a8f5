-- ===== src/Modules/UrlRewriter/Rules.antt =====
-- What a rule makes of a path.
use modular_rust_reverse_pro.Base.{◌≡◌, refl, false, some, List, [], ◌∷◌, ◌++◌, Text, All, arith}
use modular_rust_reverse_pro.Strings.Chars.{
  starts_with, strip_prefix, replace_first, split_at_match,
}
use modular_rust_reverse_pro.Modules.UrlRewriter.{rewrite}

strip_prefix-append : (p rest : Text) → strip_prefix p (p ++ rest) ≡ some rest
unfolding strip_prefix
strip_prefix-append [] rest = refl
strip_prefix-append (c ∷ p) rest = ground (arith, strip_prefix-append p rest)

split_at_match-prefix :
    (p s rest : Text) → strip_prefix p s ≡ some rest → split_at_match p s ≡ some ([], rest)
unfolding split_at_match
split_at_match-prefix p [] rest h = rw (h, split_at_match)
split_at_match-prefix p (c ∷ s) rest h = rw (h, split_at_match)

replace_first-prefix : (p repl rest : Text) → replace_first p repl (p ++ rest) ≡ repl ++ rest
unfolding replace_first
replace_first-prefix p repl rest =
    rw (split_at_match-prefix p (p ++ rest) rest (strip_prefix-append p rest), replace_first)

-- The rules in front of the first one whose prefix the path has do nothing; that one puts its replacement in
-- the place of the prefix, and later rules do nothing.
pub rewrite_first :
    (before after : List (Text × Text)) (p repl rest : Text)
    → All (λ (r : Text × Text). starts_with r.0 (p ++ rest) ≡ false) before
    → rewrite (before ++ (p, repl) ∷ after) (p ++ rest) ≡ repl ++ rest
unfolding rewrite
rewrite_first [] after p repl rest h =
    rw (strip_prefix-append p rest) (replace_first-prefix p repl rest)
rewrite_first ((q, s) ∷ before) after p repl rest h =
    rw h.0 (rewrite_first before after p repl rest h.1)

-- A path that has the prefix of no rule stays as it is.
pub rewrite_none :
    (rules : List (Text × Text)) (path : Text)
    → All (λ (r : Text × Text). starts_with r.0 path ≡ false) rules
    → rewrite rules path ≡ path
unfolding rewrite
rewrite_none [] path h = refl
rewrite_none ((q, s) ∷ rules) path h = rw h.0 (rewrite_none rules path h.1)
