-- ===== src/Http/Scan/Joined.antt =====
-- Where the search for the end of the headers stops on lines that were joined.
use mathlib.Core.List.{append_assoc}
use modular_rust_reverse_pro.Base.{
  ℕ, ◌+◌, ◌≡◌, refl, sym, ap, ◌∙◌, some, List, [], ◌∷◌, ◌++◌, Text, text_beq, All, arith, length,
  length-append, drop, drop-append_length,
}
use modular_rust_reverse_pro.Strings.Utf8.{Bytes}
use modular_rust_reverse_pro.Strings.Ascii.{IsPrintable}
use modular_rust_reverse_pro.Strings.Lines.{IsLine, joined}
use modular_rust_reverse_pro.Http.Scan.{blank_line, find_from, find_hdr_end}

find_from-printable :
    (i c : ℕ) (s : Bytes) → IsPrintable c → find_from i (c ∷ s) ≡ find_from (i + 1) s
unfolding find_from text_beq
find_from-printable i c s h = ground arith

find_from-word :
    (i : ℕ) (w s : Bytes) → All IsPrintable w → find_from i (w ++ s) ≡ find_from (i + length w) s
find_from-word i [] s h = ground arith
find_from-word i (c ∷ w) s h =
    find_from-printable i c (w ++ s) h.0
    ∙ (find_from-word (i + 1) w s h.1 ∙ ap (λ n. find_from n s) (omega arith))

-- A line follows, so that the break is no blank line.
find_from-break :
    (i c : ℕ) (s : Bytes)
    → IsPrintable c
    → find_from i (13 ∷ 10 ∷ c ∷ s) ≡ find_from (i + 2) (c ∷ s)
unfolding find_from text_beq
find_from-break i c s h = ground arith

joined-cons : (c : ℕ) (w : Text) (ms : List Text) → joined (c ∷ w) ms ≡ c ∷ joined w ms
joined-cons c w [] = refl
joined-cons c w (m ∷ ms) = refl

find_from-joined :
    (i : ℕ) (l : Text) (ls : List Text) (b : Bytes)
    → IsLine l
    → All IsLine ls
    → find_from i (joined l ls ++ (blank_line ++ b)) ≡ some (i + length (joined l ls))
unfolding find_from text_beq
find_from-joined i l [] b h hs = find_from-word i l (blank_line ++ b) h.0
find_from-joined i l ([] ∷ ms) b h hs = absurd (cc (hs.0.1))
find_from-joined i l ((c ∷ m) ∷ ms) b h hs =
    let later = find_from-joined (i + length l + 2) (c ∷ m) ms b hs.0 hs.1 in
    let shape = joined-cons c m ms in
    ap (λ s. find_from i s) (append_assoc l (13 ∷ 10 ∷ joined (c ∷ m) ms) (blank_line ++ b))
    ∙ (find_from-word i l (13 ∷ 10 ∷ (joined (c ∷ m) ms ++ (blank_line ++ b))) h.0
        ∙ (ap (λ s. find_from (i + length l) (13 ∷ 10 ∷ (s ++ (blank_line ++ b)))) shape
            ∙ (find_from-break (i + length l) c (joined m ms ++ (blank_line ++ b)) hs.0.0.0
                ∙ (ap (λ s. find_from (i + length l + 2) (s ++ (blank_line ++ b))) (sym shape)
                    ∙ (later
                        ∙ ap (λ n. some n)
                            (omega (arith, length-append l (13 ∷ 10 ∷ joined (c ∷ m) ms))))))))

-- The offset of the blank line behind lines that were joined, whatever follows it.
pub find_hdr_end-joined :
    (l : Text) (ls : List Text) (b : Bytes)
    → IsLine l
    → All IsLine ls
    → find_hdr_end (joined l ls ++ (blank_line ++ b)) ≡ some (length (joined l ls))
unfolding find_hdr_end
find_hdr_end-joined l ls b h hs =
    ground (arith, find_from-joined 0 l ls b h hs, length-append (joined l ls) (blank_line ++ b))

-- What stands behind the blank line.
pub drop-blank_line : (x body : Bytes) → drop (length x + 4) (x ++ (blank_line ++ body)) ≡ body
drop-blank_line x body =
    let behind : length x + 4 ≡ length (x ++ blank_line) =
      omega (arith, length-append x blank_line) in
    rw (sym (append_assoc x blank_line body), behind) (drop-append_length (x ++ blank_line) body)
