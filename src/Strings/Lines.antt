-- ===== src/Strings/Lines.antt =====
-- Lines that are written with a carriage return and a line feed between them, and read back by `lines`.
use mathlib.Core.List.{append_assoc, append-nil}
use modular_rust_reverse_pro.Base.{
  ℕ, ◌≡◌, refl, sym, ap, ◌∙◌, false, List, [], ◌∷◌, ◌++◌, Text, All, All-append, arith, is_empty,
  nat_beq,
}
use modular_rust_reverse_pro.Strings.Split.{lines, lines_from, strip_cr}
use modular_rust_reverse_pro.Strings.Ascii.{IsPrintable, IsAscii, All-weaken, printable-IsAscii}

abbrev pub IsLine : Text → Type 0
IsLine l = All IsPrintable l × (is_empty l ≡ false)

abbrev pub joined : Text → List Text → Text
joined l [] = l
joined l (m ∷ ms) = l ++ 13 ∷ 10 ∷ joined m ms

strip_cr-last : (w : Text) → strip_cr (w ++ 13 ∷ []) ≡ w
unfolding strip_cr
strip_cr-last [] = refl
strip_cr-last (c ∷ []) = refl
strip_cr-last (c ∷ d ∷ w) = ap (λ s. c ∷ s) (strip_cr-last (d ∷ w))

printable_other : (c : ℕ) → IsPrintable c → nat_beq c 10 ≡ false
printable_other c h = ground arith

lines_from-end : (l : Text) → is_empty l ≡ false → lines_from l [] ≡ l ∷ []
unfolding lines_from
lines_from-end l h = rw h refl

lines_from-word :
    (cur w s : Text) → All IsPrintable w → lines_from cur (w ++ s) ≡ lines_from (cur ++ w) s
unfolding lines_from
lines_from-word cur [] s h = sym (ap (λ x. lines_from x s) (append-nil cur))
lines_from-word cur (c ∷ w) s h =
    rw (printable_other c h.0, lines_from)
      (lines_from-word (cur ++ c ∷ []) w s h.1
        ∙ ap (λ x. lines_from x s) (append_assoc cur (c ∷ []) w))

pub lines-joined :
    (l : Text) (ls : List Text) → IsLine l → All IsLine ls → lines (joined l ls) ≡ l ∷ ls
unfolding lines_from
lines-joined l [] h hs =
    ap (λ x. lines_from [] x) (sym (append-nil l))
    ∙ (lines_from-word [] l [] h.0 ∙ lines_from-end l h.1)
lines-joined l (m ∷ ms) h hs =
    lines_from-word [] l (13 ∷ 10 ∷ joined m ms) h.0
    ∙ rw (strip_cr-last l, lines-joined m ms hs.0 hs.1) refl

pub joined-IsAscii :
    (l : Text) (ls : List Text) → IsLine l → All IsLine ls → All IsAscii (joined l ls)
joined-IsAscii l [] h hs = All-weaken IsPrintable IsAscii l printable-IsAscii h.0
joined-IsAscii l (m ∷ ms) h hs =
    All-append IsAscii l (13 ∷ 10 ∷ joined m ms)
      (All-weaken IsPrintable IsAscii l printable-IsAscii h.0)
      (omega arith, (omega arith, joined-IsAscii m ms hs.0 hs.1))

-- Three words with spaces between them, and what follows them.
pub words :
    (m p v z : Text) → m ++ b' ' ∷ (p ++ b' ' ∷ (v ++ z)) ≡ (m ++ b' ' ∷ (p ++ b' ' ∷ v)) ++ z
words m p v z =
    ap (λ x. m ++ b' ' ∷ x) (sym (append_assoc p (b' ' ∷ v) z))
    ∙ sym (append_assoc m (b' ' ∷ (p ++ b' ' ∷ v)) z)
