-- ===== src/Log/Lines.antt =====
-- The functions of src/log.rs that print, with the colours of src/colors.rs: the stream and the line that they print, if they do.
use modular_rust_reverse_pro.Base.{
  ℕ, Bool, not, ◌&&◌, ◌||◌, Option, none, some, [], ◌∷◌, ◌++◌, Text, lit, if◌then◌else◌, leb,
}
use modular_rust_reverse_pro.Strings.Numbers.{to_string}
use modular_rust_reverse_pro.Log.{
  Logger, above_level, level_debug, level_info, level_warn, timestamp,
}

pub data Stream : Type 0 where
  stdout stderr : Stream

abbrev escape : Text → Text
escape code = 27 ∷ (lit "[" ++ code)

abbrev pub reset : Text
reset = escape (lit "0m")

abbrev pub bold : Text
bold = escape (lit "1m")

abbrev pub dim : Text
dim = escape (lit "90m")

abbrev pub red : Text
red = escape (lit "31m")

abbrev pub green : Text
green = escape (lit "32m")

abbrev pub yellow : Text
yellow = escape (lit "33m")

abbrev pub cyan : Text
cyan = escape (lit "36m")

abbrev within : ℕ → ℕ → ℕ → Bool
within lo hi n = leb lo n && leb n hi

unfoldable pub status_color : ℕ → Text
status_color c =
    if within 200 299 c
    then green
    else if within 300 399 c
    then cyan
    else if within 400 499 c
    then yellow
    else red

abbrev pub separator_line : Text
separator_line = dim ++ (lit "──────────────────────────────────────────" ++ reset)

abbrev pub Printed : Type 0
Printed = Option (Stream × Text)

module _ (l : Logger) where
  -- The line, if messages of this level are printed.
  leveled : ℕ → Stream → Text → Printed
  unfolding above_level
  leveled level stream line =
      if not l.enabled || not (above_level level l) then none else some (stream, line)

  always : Stream → Text → Printed
  always stream line = if not l.enabled then none else some (stream, line)

  unfoldable pub module_loaded : Text → Printed
  unfolding always
  module_loaded name =
      always stdout (lit "  " ++ (green ++ (lit "✓" ++ (reset ++ (lit " " ++ name)))))

  unfoldable pub module_skipped : Text → Printed
  unfolding always
  module_skipped name =
      always stdout (lit "  " ++ (yellow ++ (lit "⊘ " ++ (name ++ (lit " [overridden]" ++ reset)))))

  unfoldable pub separator : Printed
  unfolding always
  separator = always stdout separator_line

  -- At a time in seconds and milliseconds.
  module _ (secs millis : ℕ) where
    stamped : Text → Text
    unfolding timestamp
    stamped rest = dim ++ (timestamp secs millis ++ (reset ++ (lit " " ++ rest)))

    unfoldable pub debug : Text → Printed
    unfolding leveled stamped
    debug msg =
        leveled level_debug stdout (stamped (dim ++ (lit "DBG" ++ (reset ++ (lit " " ++ msg)))))

    unfoldable pub info : Text → Printed
    unfolding leveled stamped
    info msg = leveled level_info stdout (stamped (bold ++ (cyan ++ (msg ++ reset))))

    unfoldable pub warn : Text → Printed
    unfolding leveled stamped
    warn msg = leveled level_warn stderr (stamped (yellow ++ (lit "⚠ " ++ (msg ++ reset))))

    -- An error is printed at every level.
    unfoldable pub error : Text → Printed
    unfolding always stamped
    error msg = always stderr (stamped (red ++ (lit "✗ " ++ (msg ++ reset))))

    unfoldable pub request : Text → Text → Text → Printed
    unfolding leveled stamped
    request method path ip = leveled level_info stdout (
        stamped (
          yellow
          ++ (lit "→"
              ++ (reset
                  ++ (lit " "
                      ++ (bold
                          ++ (method
                              ++ (reset ++ (lit " " ++ (path ++ (lit " from " ++ ip)))))))))))

    unfoldable pub response : ℕ → ℕ → Bool → Printed
    unfolding leveled stamped status_color
    response status ms is_cache_hit = leveled level_info stdout (
        stamped (
          green
          ++ (lit "←"
              ++ (reset
                  ++ (lit " "
                      ++ (bold
                          ++ (status_color status
                              ++ (to_string status
                                  ++ (reset
                                      ++ (lit " ("
                                          ++ (to_string ms
                                              ++ (lit "ms)"
                                                  ++ (if is_cache_hit
                                                      then lit " "
                                                        ++ (cyan ++ (lit "[CACHE HIT]" ++ reset))
                                                      else [])))))))))))))
