-- ===== src/Log.antt =====
-- src/log.rs: which messages are printed, and the time in front of them. A message is printed at the time since 1970 that the
-- clock gives, in seconds and milliseconds.
pub mod Dates
pub mod Lines
use modular_rust_reverse_pro.Base.{
  map, ℕ, zero, suc, ◌+◌, ◌-◌, ◌/◌, ◌%◌, ◌*◌, Bool, true, false, not, ◌&&◌, ◌||◌, List, [], ◌∷◌,
  ◌++◌, Text, lit, ◌==◌, text_eq, if◌then◌else◌, ltb, leb, nat_beq, length,
}
use modular_rust_reverse_pro.Strings.Chars.{to_ascii_lowercase}
use modular_rust_reverse_pro.Strings.Numbers.{to_string}

pub record Logger : Type 0 where
  pub enabled : Bool
  pub log_level : ℕ

-- The statics as they start.
abbrev pub started : Logger
started = record { enabled = true; log_level = 0 }

abbrev pub level_debug : ℕ
level_debug = 0

abbrev pub level_info : ℕ
level_info = 1

abbrev pub level_warn : ℕ
level_warn = 2

abbrev pub level_error : ℕ
level_error = 3

unfoldable pub init : Bool → Logger → Logger
init enabled l = record l { enabled = enabled }

-- `to_lowercase` gives one of these names for a text of ASCII letters only.
unfoldable pub level_of : Text → ℕ
level_of level =
    let l = map to_ascii_lowercase level in
    if l == lit "debug"
    then level_debug
    else if l == lit "info"
    then level_info
    else if l == lit "warn" || l == lit "warning"
    then level_warn
    else if l == lit "error"
    then level_error
    else level_info

unfoldable pub set_level : Text → Logger → Logger
unfolding level_of
set_level level l = record l { log_level = level_of level }

unfoldable pub above_level : ℕ → Logger → Bool
above_level level l = leb l.log_level level

unfoldable pub is_leap : ℕ → Bool
is_leap y = nat_beq (y % 4) 0 && not (nat_beq (y % 100) 0) || nat_beq (y % 400) 0

unfoldable pub days_in_year : ℕ → ℕ
unfolding is_leap
days_in_year y = if is_leap y then 366 else 365

-- The loop over the years, on fuel: the year, and the days that remain in it.
unfoldable pub year_loop : ℕ → ℕ → ℕ → ℕ × ℕ
unfolding days_in_year
year_loop zero y remaining = (y, remaining)
year_loop (suc fuel) y remaining =
    let rest = year_loop fuel (y + 1) (remaining - days_in_year y) in
    if ltb remaining (days_in_year y) then (y, remaining) else rest

unfoldable pub months : Bool → List ℕ
months leap = 31 ∷ (if leap then 29 else 28) ∷ 31 ∷ 30 ∷ 31 ∷ 30 ∷ 31 ∷ 31 ∷ 30 ∷ 31 ∷ 30 ∷ 31 ∷ []

unfoldable pub month_loop : List ℕ → ℕ → ℕ → ℕ × ℕ
month_loop [] mo remaining = (mo, remaining)
month_loop (dm ∷ dms) mo remaining =
    if ltb remaining dm then (mo, remaining) else month_loop dms (mo + 1) (remaining - dm)

-- A year has at least 365 days, so that the fuel is enough.
unfoldable pub days_to_ymd : ℕ → ℕ × ℕ × ℕ
unfolding year_loop month_loop months
days_to_ymd days =
    let (y, in_year) = year_loop (days / 365 + 1) 1970 days in
    let (mo, in_month) = month_loop (months (is_leap y)) 0 in_year in (y, mo + 1, in_month + 1)

zeros : ℕ → Text → Text
zeros zero s = s
zeros (suc k) s = b'0' ∷ zeros k s

-- `{n:0width}`
unfoldable pub padded : ℕ → ℕ → Text
unfolding zeros
padded width n = zeros (width - length (to_string n)) (to_string n)

unfoldable pub timestamp : ℕ → ℕ → Text
unfolding days_to_ymd padded
timestamp secs millis =
    let time_secs = secs % 86_400 in
    let (year, month, day) = days_to_ymd (secs / 86_400) in
    padded 4 year
    ++ (lit "-"
        ++ (padded 2 month
            ++ (lit "-"
                ++ (padded 2 day
                    ++ (lit " "
                        ++ (padded 2 (time_secs / 3_600)
                            ++ (lit ":"
                                ++ (padded 2 (time_secs % 3_600 / 60)
                                    ++ (lit ":"
                                        ++ (padded 2 (time_secs % 60)
                                            ++ (lit "." ++ padded 3 millis)))))))))))
