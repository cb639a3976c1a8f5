-- ===== src/Log/Dates.antt =====
-- The date in front of a message.
use modular_rust_reverse_pro.Base.{
  Bool, true, false, if◌then◌else◌, ℕ, zero, suc, ◌+◌, ◌-◌, ◌*◌, ◌/◌, ◌≤◌, ◌<◌, ◌≡◌, refl, sym, ap,
  subst, ◌∙◌, ◌%◌, List, [], ◌∷◌, arith, inl, inr, Bool-cases, ltb, take, get_elem?, some, nat_beq,
  ltb→lt,
}
use modular_rust_reverse_pro.Log.{is_leap, days_in_year, year_loop, months, month_loop, days_to_ymd}

-- The calendar: a year is a leap year if 4 divides it, but not if 100 does, unless 400 does.
abbrev pub gregorian : ℕ → Bool
gregorian y =
    if nat_beq (y % 400) 0 then true else if nat_beq (y % 100) 0 then false else nat_beq (y % 4) 0

abbrev pub month_lengths : Bool → List ℕ
month_lengths leap =
    31 ∷ (if leap then 29 else 28) ∷ 31 ∷ 30 ∷ 31 ∷ 30 ∷ 31 ∷ 31 ∷ 30 ∷ 31 ∷ 30 ∷ 31 ∷ []

is_leap-eq-gregorian : (y : ℕ) → is_leap y ≡ gregorian y
unfolding is_leap
is_leap-eq-gregorian y = ground arith

months-eq-month_lengths : (y : ℕ) → months (is_leap y) ≡ month_lengths (gregorian y)
unfolding months
months-eq-month_lengths y = rw (is_leap-eq-gregorian y) refl

days_in_year-eq : (y : ℕ) → days_in_year y ≡ (if gregorian y then 366 else 365)
unfolding days_in_year
days_in_year-eq y = rw (is_leap-eq-gregorian y) refl

-- The days of so many years from the year `y` on.
days_of_years : ℕ → ℕ → ℕ
days_of_years y zero = 0
days_of_years y (suc n) = (if gregorian y then 366 else 365) + days_of_years (y + 1) n

sum : List ℕ → ℕ
sum [] = 0
sum (x ∷ xs) = x + sum xs

add_none : (a : ℕ) → a + 0 ≡ a
add_none a = omega arith

add_shift : (a n : ℕ) → a + 1 + n ≡ a + suc n
add_shift a n = omega arith

ltb_false→le : (a b : ℕ) → ltb a b ≡ false → b ≤ a
ltb_false→le a b h = ground arith

days_in_year-ge : (y : ℕ) → (365 ≤ days_in_year y) × (days_in_year y ≤ 366)
unfolding days_in_year
days_in_year-ge y = ground arith

sum-months : (y : ℕ) → sum (months (is_leap y)) ≡ days_in_year y
unfolding sum months days_in_year
sum-months y = ground arith

-- The years that have passed, and a remainder within the year that is reached.
year_loop_lem :
    (fuel y remaining : ℕ)
    → remaining < 365 * fuel
    → (n : ℕ) × ((year_loop fuel y remaining).0 ≡ y + n)
      × (remaining ≡ days_of_years y n + (year_loop fuel y remaining).1)
      × ((year_loop fuel y remaining).1 < days_in_year (y + n))
unfolding year_loop days_of_years
year_loop_lem zero y remaining h = absurd (omega (arith, h))
year_loop_lem (suc fuel) y remaining h = elim (Bool-cases (ltb remaining (days_in_year y))) [
  | inl within ↦
      let room : remaining < days_in_year (y + 0) =
        subst (λ k. remaining < days_in_year k) (sym (add_none y)) (ltb→lt _ _ within) in
      rw (within, year_loop) (0, omega arith, omega arith, room)
  | inr past ↦
      let size = days_in_year-ge y in
      let whole = ltb_false→le remaining (days_in_year y) past in
      let (n, year, left, last) =
        year_loop_lem fuel (y + 1) (remaining - days_in_year y) (omega (arith, size, whole, h)) in
      let room =
        subst (λ k. (year_loop fuel (y + 1) (remaining - days_in_year y)).1 < days_in_year k)
          (add_shift y n) last in
      rw (past, year_loop)
        (suc n, year ∙ add_shift y n, omega (arith, left, whole, days_in_year-eq y), room)
]

-- The months that have passed, and a remainder within the month that is reached.
month_loop_lem :
    (ms : List ℕ) (mo remaining : ℕ)
    → remaining < sum ms
    → (k : ℕ) × (dm : ℕ) × ((month_loop ms mo remaining).0 ≡ mo + k)
      × (get_elem? ms k ≡ some dm)
      × (remaining ≡ sum (take k ms) + (month_loop ms mo remaining).1)
      × ((month_loop ms mo remaining).1 < dm)
unfolding month_loop sum
month_loop_lem [] mo remaining h = absurd (omega (arith, h))
month_loop_lem (dm ∷ dms) mo remaining h = elim (Bool-cases (ltb remaining dm)) [
  | inl within ↦ rw (within, month_loop) (0, dm, omega arith, refl, omega arith, ltb→lt _ _ within)
  | inr past ↦
      let whole = ltb_false→le remaining dm past in
      let (k, d, month, elem, left, last) =
        month_loop_lem dms (mo + 1) (remaining - dm) (omega (arith, whole, h)) in
      rw (past, month_loop)
        (suc k, d, month ∙ add_shift mo k, elem, omega (arith, left, whole), last)
]

-- A date: the year is at least 1970, the month has a number from 1 to 12 and `len` days in this year, and the day is one
-- of them.
pub record IsDate (y m d : ℕ) : Type 0 where
  pub since : 1970 ≤ y
  pub len : ℕ
  pub in_months : get_elem? (month_lengths (gregorian y)) (m - 1) ≡ some len
  pub counted : 1 ≤ m
  pub first : 1 ≤ d
  pub last : d ≤ len

-- The days from the first of January 1970 to a date.
pub day_number : ℕ → ℕ → ℕ → ℕ
unfolding days_of_years sum
day_number y m d =
    days_of_years 1970 (y - 1970) + sum (take (m - 1) (month_lengths (gregorian y))) + (d - 1)

-- The parts that the two loops give make a date.
month_loop-IsDate :
    (days y n r mo k len left : ℕ)
    → y ≡ 1970 + n
    → days ≡ days_of_years 1970 n + r
    → mo ≡ 0 + k
    → get_elem? (month_lengths (gregorian y)) k ≡ some len
    → r ≡ sum (take k (month_lengths (gregorian y))) + left
    → left < len
    → IsDate y (mo + 1) (left + 1) × (day_number y (mo + 1) (left + 1) ≡ days)
unfolding day_number
month_loop-IsDate days y n r mo k len left year all month elem rest short =
    let index : mo + 1 - 1 ≡ k = omega (arith, month) in
    let passed : y - 1970 ≡ n = omega (arith, year) in
    (
      record {
        since = omega (arith, year);
        len = len;
        in_months = rw index elem;
        counted = omega arith;
        first = omega arith;
        last = omega (arith, short);
      },
      rw (index, passed) (omega (arith, all, rest)),
    )

-- For each number of days since 1970, `days_to_ymd` gives a date of the calendar with its leap years, and it is the date that
-- so many days have passed to: both loops end within it.
pub days_to_ymd-IsDate :
    (days : ℕ) → let (y, m, d) = days_to_ymd days in IsDate y m d × (day_number y m d ≡ days)
unfolding days_to_ymd
days_to_ymd-IsDate days =
    let (n, year, left, short) = year_loop_lem (days / 365 + 1) 1970 days (omega arith) in
    let y = (year_loop (days / 365 + 1) 1970 days).0 in
    let r = (year_loop (days / 365 + 1) 1970 days).1 in
    let whole : days_in_year (1970 + n) ≡ sum (months (is_leap y)) =
      ap days_in_year (sym year) ∙ sym (sum-months y) in
    let (k, len, month, elem, rest, shorter) =
      month_loop_lem (months (is_leap y)) 0 r (subst (λ m. r < m) whole short) in
    month_loop-IsDate days y n r (month_loop (months (is_leap y)) 0 r).0 k len
      (month_loop (months (is_leap y)) 0 r).1 year left month
      (subst (λ ms. get_elem? ms k ≡ some len) (months-eq-month_lengths y) elem)
      (subst (λ ms. r ≡ sum (take k ms) + (month_loop (months (is_leap y)) 0 r).1)
        (months-eq-month_lengths y) rest)
      shorter
