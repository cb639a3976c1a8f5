-- ===== src/Http/Headers/Laws.antt =====
-- What `set_header` and `get_hdr` make of one another.
use modular_rust_reverse_pro.Base.{
  ◌≡◌, refl, true, not, retain, none, some, [], ◌∷◌, Text, if◌then◌else◌, arith, text_beq_iff,
  length, is_some, ◌+◌,
}
use modular_rust_reverse_pro.Strings.Chars.{eq_ignore_ascii_case}
use modular_rust_reverse_pro.Http.Headers.{Headers, get_hdr, set_header}

pub eq_ignore_ascii_case_refl : (s : Text) → eq_ignore_ascii_case s s ≡ true
unfolding eq_ignore_ascii_case
eq_ignore_ascii_case_refl s = (text_beq_iff _ _).1 refl

-- Names that agree but for case are found alike.
pub eq_ignore_ascii_case_congr :
    (k n m : Text)
    → eq_ignore_ascii_case n m ≡ true
    → eq_ignore_ascii_case k n ≡ eq_ignore_ascii_case k m
unfolding eq_ignore_ascii_case
eq_ignore_ascii_case_congr k n m h = rw ((text_beq_iff _ _).0 h)

pub eq_ignore_ascii_case_congr_left :
    (k n m : Text)
    → eq_ignore_ascii_case k n ≡ true
    → eq_ignore_ascii_case k m ≡ eq_ignore_ascii_case n m
unfolding eq_ignore_ascii_case
eq_ignore_ascii_case_congr_left k n m h = rw ((text_beq_iff _ _).0 h)

-- A header that was set is read back under every spelling of its name that differs in ASCII case only,
-- and each other name reads as before.
pub get_hdr-set_header :
    (n m val : Text) (h : Headers)
    → get_hdr (set_header n val h) m ≡ (if eq_ignore_ascii_case n m then some val else get_hdr h m)
unfolding get_hdr set_header
get_hdr-set_header n m val [] = refl
get_hdr-set_header n m val ((k, v) ∷ h) = ground (
  arith,
  eq_ignore_ascii_case_congr k n m,
  eq_ignore_ascii_case_congr_left k n m,
  get_hdr-set_header n m val h,
)

-- A header list grows by one line at most, and only if the name was missing.
pub length-set_header :
    (n val : Text) (h : Headers)
    → length (set_header n val h) ≡ (if is_some (get_hdr h n) then length h else length h + 1)
unfolding get_hdr set_header
length-set_header n val [] = refl
length-set_header n val ((k, v) ∷ h) = ground (arith, length-set_header n val h)

-- Without the lines of one name, that name is not found and every other name reads as before.
pub get_hdr-retain :
    (n m : Text) (h : Headers)
    → get_hdr (retain (λ (e : Text × Text). not (eq_ignore_ascii_case e.0 n)) h) m
      ≡ (if eq_ignore_ascii_case n m then none else get_hdr h m)
unfolding get_hdr
get_hdr-retain n m [] = ground arith
get_hdr-retain n m ((k, v) ∷ h) = ground (
  arith,
  eq_ignore_ascii_case_congr k n m,
  eq_ignore_ascii_case_congr_left k n m,
  get_hdr-retain n m h,
)
