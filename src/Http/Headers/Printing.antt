-- ===== src/Http/Headers/Printing.antt =====
-- Header lines as they are written and read back.
use mathlib.Core.List.{append_assoc}
use modular_rust_reverse_pro.Base.{
  ◌≡◌, ◌≢◌, refl, sym, ap, ◌∙◌, [], ◌∷◌, ◌++◌, map, Text, lit, All, All-append, arith,
}
use modular_rust_reverse_pro.Strings.Chars.{trim}
use modular_rust_reverse_pro.Strings.Ascii.{
  IsPrintable, is_empty-middle, split_once_first, trim_space,
}
use modular_rust_reverse_pro.Strings.Lines.{IsLine, joined}
use modular_rust_reverse_pro.Http.Headers.{Headers, parse_headers, header_lines}

-- A header that can be sent: printable, a name without a colon, and no space around either.
pub record IsHeader (e : Text × Text) : Type 0 where
  pub name_printable : All IsPrintable e.0
  pub no_colon : All (λ c. c ≢ b':') e.0
  pub name_trimmed : trim e.0 ≡ e.0
  pub value_printable : All IsPrintable e.1
  pub value_trimmed : trim e.1 ≡ e.1

abbrev pub header_line : Text × Text → Text
header_line (k, v) = k ++ b':' ∷ b' ' ∷ v

pub header_line-IsLine : (e : Text × Text) → IsHeader e → IsLine (header_line e)
header_line-IsLine (k, v) h = (
  All-append IsPrintable k (b':' ∷ b' ' ∷ v) h.name_printable
      (omega arith, (omega arith, h.value_printable)),
  is_empty-middle k b':' (b' ' ∷ v),
)

pub All-header_line : (h : Headers) → All IsHeader h → All IsLine (map header_line h)
All-header_line [] all = tt
All-header_line (e ∷ h) all = (header_line-IsLine e all.0, All-header_line h all.1)

regroup : (k v t s : Text) → (k ++ b':' ∷ b' ' ∷ (v ++ t)) ++ s ≡ header_line (k, v) ++ (t ++ s)
regroup k v t s =
    append_assoc k (b':' ∷ b' ' ∷ (v ++ t)) s
    ∙ (ap (λ x. k ++ b':' ∷ b' ' ∷ x) (append_assoc v t s)
        ∙ sym (append_assoc k (b':' ∷ b' ' ∷ v) (t ++ s)))

-- Header lines behind a first line.
pub header_lines-joined :
    (l : Text) (h : Headers) (s : Text)
    → l ++ (lit "\r\n" ++ (header_lines h ++ s)) ≡ joined l (map header_line h) ++ 13 ∷ 10 ∷ s
unfolding header_lines lit
header_lines-joined l [] s = refl
header_lines-joined l ((k, v) ∷ h) s =
    let line = header_line (k, v) in
    let inner = regroup k v (13 ∷ 10 ∷ header_lines h) s ∙ header_lines-joined line h s in
    ap (λ x. l ++ 13 ∷ 10 ∷ x) inner
    ∙ sym (append_assoc l (13 ∷ 10 ∷ joined line (map header_line h)) (13 ∷ 10 ∷ s))

-- What was written is read back.
pub parse_headers-header_line :
    (h : Headers) → All IsHeader h → parse_headers (map header_line h) ≡ h
unfolding parse_headers
parse_headers-header_line [] all = refl
parse_headers-header_line ((k, v) ∷ h) all =
    rw
      (
        is_empty-middle k b':' (b' ' ∷ v),
        split_once_first b':' k (b' ' ∷ v) all.0.no_colon,
        trim_space v,
        all.0.name_trimmed,
        all.0.value_trimmed,
        parse_headers-header_line h all.1,
      )
      refl
