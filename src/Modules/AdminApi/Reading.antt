-- ===== src/Modules/AdminApi/Reading.antt =====
-- src/modules/admin_api.rs: the loop of `handle` that reads a request, and the whole of `handle`.
pub mod Total
use modular_rust_reverse_pro.Base.{
  ℕ, zero, suc, ◌+◌, ◌-◌, ◌*◌, ◌%◌, Option, none, some, ◌>>=◌, List, [], ◌∷◌, ◌++◌, Text, lit,
  if◌then◌else◌, ltb, leb, nat_beq, take, length, unwrap_or, min,
}
use modular_rust_reverse_pro.Strings.Chars.{trim, eq_ignore_ascii_case}
use modular_rust_reverse_pro.Strings.Numbers.{parse_u64, u64_bound}
use modular_rust_reverse_pro.Strings.Split.{lines, split_once}
use modular_rust_reverse_pro.Strings.Utf8.{Bytes, from_utf8_lossy}
use modular_rust_reverse_pro.Http.Scan.{find_hdr_end}
use modular_rust_reverse_pro.Http.Reader.{Event, arrived, expired, failed, read}
use modular_rust_reverse_pro.Modules.AdminApi.{Reply, say, answer}

abbrev pub max_admin_request : ℕ
max_admin_request = 65_536

-- The `find_map` over the lines of the headers: the first `Content-Length` that is a number.
unfoldable pub declared : List Text → Option ℕ
declared [] = none
declared (line ∷ ls) =
    let later = declared ls in
    elim (split_once b':' line) [
      | none ↦ later
      | some (k, v) ↦
          if eq_ignore_ascii_case (trim k) (lit "Content-Length")
          then elim (parse_u64 (trim v)) [ none ↦ later | some n ↦ some n ]
          else later
    ]

-- `body_needed`, for headers that end at `hdr_end`; the addition wraps.
unfoldable pub body_needed : Bytes → ℕ → ℕ
unfolding declared
body_needed bytes hdr_end =
    (hdr_end + 4 + unwrap_or (declared (lines (from_utf8_lossy (take hdr_end bytes)))) 0)
    % u64_bound

-- How the loop is left: with the answer 413, by `return`, or with what was read.
pub data Reading : Type 0 where
  too_large gone : Reading
  got : Bytes → Reading

-- What a round decides: to leave the loop, or to go on with a buffer of so many bytes.
pub data Round : Type 0 where
  stop : Reading → Round
  again : ℕ → Round

unfoldable pub on_needed : ℕ → Bytes → ℕ → Round
on_needed cap bytes needed =
    if ltb max_admin_request needed
    then stop too_large
    else if leb needed (length bytes)
    then stop (got bytes)
    else again (if ltb cap needed then needed else cap)

-- A round behind the read; the second argument is what `windows(4).position` finds.
unfoldable pub on_position : ℕ → Bytes → Option ℕ → Round
unfolding on_needed
on_position cap bytes (some hdr_end) = on_needed cap bytes (body_needed bytes hdr_end)
on_position cap bytes none =
    if nat_beq (length bytes) cap
    then if leb max_admin_request cap
      then stop (got bytes)
      else again (min (cap * 2) max_admin_request)
    else again cap

unfoldable pub on_round : (ℕ → Option Reading) → Round → Option Reading
on_round next (stop r) = some r
on_round next (again cap) = next cap

-- The `match` on what a read returns, for a buffer of `cap` bytes that holds `bytes`.
unfoldable pub on_read : (ℕ → Bytes → Option Reading) → ℕ → Bytes → Event → Option Reading
unfolding on_position on_round
on_read next cap bytes (arrived []) = some (got bytes)
on_read next cap bytes (arrived (b ∷ bs)) =
    let held = bytes ++ (b ∷ bs) in
    on_round (λ cap'. next cap' held) (on_position cap held (find_hdr_end held))
on_read next cap bytes expired = some (got bytes)
on_read next cap bytes (failed m) = some gone

-- The loop, with fuel for the rounds.
unfoldable pub read_loop : ℕ → ℕ → Bytes → List Event → Option Reading
unfolding on_read
read_loop zero cap bytes es = none
read_loop (suc fuel) cap bytes es =
    if leb max_admin_request (length bytes)
    then some too_large
    else let (event, es') = read (cap - length bytes) es in
      on_read (λ cap' held. read_loop fuel cap' held es') cap bytes event

unfoldable pub read_request : List Event → Option Reading
unfolding read_loop
read_request es = read_loop max_admin_request 4096 [] es

-- Without a reply the connection is closed.
unfoldable pub on_reading : Text → Reading → Option Reply
on_reading api_key too_large = some (say 413 (lit "{\"error\":\"request too large\"}"))
on_reading api_key gone = none
on_reading api_key (got []) = none
on_reading api_key (got (b ∷ bs)) = some (answer api_key (from_utf8_lossy (b ∷ bs)))

unfoldable pub handle : Text → List Event → Option (Option Reply)
unfolding read_request on_reading
handle api_key es = read_request es >>= λ r. some (on_reading api_key r)
