-- ===== src/Modules/AdminApi/Guard.antt =====
-- Who may use the admin interface.
use modular_rust_reverse_pro.Base.{
  ℕ, zero, suc, ◌+◌, ◌*◌, ◌/◌, ◌%◌, ◌≡◌, ◌≢◌, ◌↔◌, text_beq, ◌<◌, refl, sym, ◌∙◌, subst, Bool, true,
  false, not, List, [], ◌∷◌, Text, lit, text_eq, text_beq_iff, All, arith, inl, inr, Bool-cases,
  if◌then◌else◌, nat_beq, nat_beq_iff, length, is_empty, unwrap_or, max,
}
use modular_rust_reverse_pro.Strings.Chars.{starts_with}
use modular_rust_reverse_pro.Strings.Split.{lines, split_whitespace}
use modular_rust_reverse_pro.Strings.Utf8.{Bytes, into_bytes}
use modular_rust_reverse_pro.Modules.AdminApi.{
  xor, or, differences, constant_time_eq, extract_header, fixed, nothing, Reply, say, route,
  route_get, route_post, is_allowed, is_authorized, on_words, on_lines, answer,
}

-- A number of so many bits.
abbrev Below : ℕ → ℕ → Type 0
Below zero x = x ≡ 0
Below (suc f) x = Below f (x / 2)

shift : (f b r : ℕ) → b < 2 → Below f r → Below f ((b + 2 * r) / 2)
shift f b r h below = subst (λ n. Below f n) (omega (arith, h)) below

xor-Below : (f x y : ℕ) → Below f (xor f x y)
unfolding xor
xor-Below zero x y = refl
xor-Below (suc f) x y =
    shift f ((x % 2 + y % 2) % 2) (xor f (x / 2) (y / 2)) (omega arith)
      (xor-Below f (x / 2) (y / 2))

or-Below : (f x y : ℕ) → Below f (or f x y)
unfolding or
or-Below zero x y = refl
or-Below (suc f) x y =
    shift f (max (x % 2) (y % 2)) (or f (x / 2) (y / 2)) (omega arith) (or-Below f (x / 2) (y / 2))

xor-zero : (f x y : ℕ) → Below f x → Below f y → xor f x y ≡ 0 → x ≡ y
unfolding xor
xor-zero zero x y hx hy e = hx ∙ sym hy
xor-zero (suc f) x y hx hy e = omega (arith, xor-zero f (x / 2) (y / 2) hx hy (omega (arith, e)), e)

xor_self : (f x : ℕ) → xor f x x ≡ 0
unfolding xor
xor_self zero x = refl
xor_self (suc f) x = omega (arith, xor_self f (x / 2))

or-zero : (f x y : ℕ) → Below f x → Below f y → or f x y ≡ 0 → (x ≡ 0) × (y ≡ 0)
unfolding or
or-zero zero x y hx hy e = (hx, hy)
or-zero (suc f) x y hx hy e =
    let (l, r) = or-zero f (x / 2) (y / 2) hx hy (omega (arith, e)) in
    (omega (arith, l, e), omega (arith, r, e))

byte-Below : (x : ℕ) → x < 256 → Below 8 x
byte-Below x h = omega arith

differences-zero :
    (diff : ℕ) (a b : Bytes)
    → Below 8 diff
    → All (λ x. x < 256) a
    → All (λ x. x < 256) b
    → length a ≡ length b
    → differences diff a b ≡ 0
    → (diff ≡ 0) × (a ≡ b)
unfolding differences
differences-zero diff [] [] h ha hb e z = (z, refl)
differences-zero diff [] (y ∷ b) h ha hb e z = absurd (omega (arith, e))
differences-zero diff (x ∷ a) [] h ha hb e z = absurd (omega (arith, e))
differences-zero diff (x ∷ a) (y ∷ b) h ha hb e z =
    let (first, rest) =
      differences-zero (or 8 diff (xor 8 x y)) a b (or-Below 8 diff (xor 8 x y)) ha.1 hb.1
        (omega (arith, e)) z in
    let (d, same) = or-zero 8 diff (xor 8 x y) h (xor-Below 8 x y) first in
    (d, cc (xor-zero 8 x y (byte-Below x ha.0) (byte-Below y hb.0) same, rest))

differences_self : (a : Bytes) → differences 0 a a ≡ 0
unfolding differences or
differences_self [] = refl
differences_self (x ∷ a) = rw (xor_self 8 x) (differences_self a)

constant_time_eq_sound :
    (a b : Bytes)
    → All (λ x. x < 256) a
    → All (λ x. x < 256) b
    → constant_time_eq a b ≡ true
    → a ≡ b
unfolding constant_time_eq
constant_time_eq_sound a b ha hb h = elim (Bool-cases (nat_beq (length a) (length b))) [
  | inl same ↦
      (differences-zero 0 a b (omega arith) ha hb ((nat_beq_iff (length a) (length b)).0 same)
        ((nat_beq_iff (differences 0 a b) 0).0 (rw same at h))).1
  | inr other ↦ absurd (cc (rw other at h))
]

constant_time_eq_self : (a : Bytes) → constant_time_eq a a ≡ true
unfolding constant_time_eq
constant_time_eq_self a = ground (arith, differences_self a)

-- The comparison of two byte strings, which looks at all of them, holds exactly if they are equal.
pub constant_time_eq_iff :
    (a b : Bytes)
    → All (λ x. x < 256) a
    → All (λ x. x < 256) b
    → (constant_time_eq a b ≡ true) ↔ (a ≡ b)
constant_time_eq_iff a b ha hb = (
  constant_time_eq_sound a b ha hb,
  λ e. subst (λ c. constant_time_eq a c ≡ true) e (constant_time_eq_self a),
)

-- Nothing is done, and nothing about the state of the program is told.
abbrev pub IsHarmless : Reply → Type 0
IsHarmless r = (r.action ≡ nothing) × ((t : Text) × (r.page ≡ fixed t))

say-IsHarmless : (code : ℕ) (t : Text) → IsHarmless (say code t)
say-IsHarmless code t = (refl, (t, refl))

if-IsHarmless :
    (b : Bool) (x y : Reply)
    → (b ≡ true → IsHarmless x)
    → (b ≡ false → IsHarmless y)
    → IsHarmless (if b then x else y)
if-IsHarmless true x y h k = h refl
if-IsHarmless false x y h k = k refl

route-IsHarmless : (m path : Text) → path ≡ lit "/ping" → IsHarmless (route m path)
unfolding route route_get route_post lit text_beq
route-IsHarmless m path e = rw e (
    if-IsHarmless (text_beq m (lit "GET")) _ _ (λ h. say-IsHarmless 200 _)
      (λ h.
        if-IsHarmless (text_beq m (lit "POST")) _ _ (λ k. say-IsHarmless 404 _)
          (λ k. say-IsHarmless 404 _)))

-- The key that a request brings, or the empty text.
abbrev pub provided : Text → Text
provided raw = unwrap_or (extract_header raw (lit "X-API-Key")) []

wrong_key : (b : Bool) → b ≢ true → b ≡ false
wrong_key true h = absurd (h refl)
wrong_key false h = refl

-- With a wrong key only `/ping` is let through.
authorized_ping :
    (api_key raw path : Text)
    → api_key ≢ []
    → constant_time_eq (into_bytes (provided raw)) (into_bytes api_key) ≡ false
    → not (is_authorized api_key raw path) ≡ false
    → path ≡ lit "/ping"
unfolding is_authorized
authorized_ping [] raw path given wrong h = absurd (given refl)
authorized_ping (c ∷ api_key) raw path given wrong h =
    ground (arith, text_beq_iff path (lit "/ping"))

on_words-IsHarmless :
    (api_key raw : Text) (ws : List Text)
    → api_key ≢ []
    → constant_time_eq (into_bytes (provided raw)) (into_bytes api_key) ≡ false
    → IsHarmless (on_words api_key raw ws)
unfolding on_words is_authorized
on_words-IsHarmless api_key raw [] given wrong = say-IsHarmless 400 _
on_words-IsHarmless api_key raw (m ∷ []) given wrong = say-IsHarmless 400 _
on_words-IsHarmless api_key raw (m ∷ path ∷ more) given wrong =
    if-IsHarmless (not (is_allowed m)) _ _ (λ h. say-IsHarmless 405 _)
      (λ h.
        if-IsHarmless (not (starts_with (lit "/") path)) _ _ (λ k. say-IsHarmless 400 _)
          (λ k.
            if-IsHarmless (not (is_authorized api_key raw path)) _ _ (λ l. say-IsHarmless 403 _)
              (λ l. route-IsHarmless m path (authorized_ping api_key raw path given wrong l))))

on_lines-IsHarmless :
    (api_key raw : Text) (ls : List Text)
    → api_key ≢ []
    → constant_time_eq (into_bytes (provided raw)) (into_bytes api_key) ≡ false
    → IsHarmless (on_lines api_key raw ls)
unfolding on_lines
on_lines-IsHarmless api_key raw [] given wrong = say-IsHarmless 400 _
on_lines-IsHarmless api_key raw (line ∷ ls) given wrong =
    if-IsHarmless (is_empty line) _ _ (λ h. say-IsHarmless 400 _)
      (λ h. on_words-IsHarmless api_key raw (split_whitespace line) given wrong)

-- Where a key is set, a request that brings no key or another one, whatever else it holds, does nothing: the answer is a fixed text,
-- and the proxy neither stops nor changes its configuration. Both keys are taken as their bytes.
pub answer-IsHarmless :
    (api_key raw : Text)
    → All (λ x. x < 256) (into_bytes (provided raw))
    → All (λ x. x < 256) (into_bytes api_key)
    → api_key ≢ []
    → into_bytes (provided raw) ≢ into_bytes api_key
    → IsHarmless (answer api_key raw)
unfolding answer
answer-IsHarmless api_key raw bp bk given other =
    on_lines-IsHarmless api_key raw (lines raw) given (
      wrong_key (constant_time_eq (into_bytes (provided raw)) (into_bytes api_key)) (λ e.
        other (constant_time_eq_sound (into_bytes (provided raw)) (into_bytes api_key) bp bk e)))
