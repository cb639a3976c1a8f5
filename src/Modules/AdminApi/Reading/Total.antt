-- ===== src/Modules/AdminApi/Reading/Total.antt =====
-- The reading loop of src/modules/admin_api.rs ends, and what it has read by then.
use modular_rust_reverse_pro.Base.{
  ℕ, ◌≤◌, ◌<◌, ◌≡◌, Option, none, some, List, [], ◌∷◌, ◌++◌, Text, length, ◌⊎◌,
}
use modular_rust_reverse_pro.Strings.Utf8.{Bytes}
use modular_rust_reverse_pro.Http.Scan.{find_hdr_end}
use modular_rust_reverse_pro.Http.Reader.{Event, arrived, expired, failed, read}
use modular_rust_reverse_pro.Modules.AdminApi.Reading.{
  max_admin_request, body_needed, Reading, too_large, gone, got, Round, stop, again,
}

-- Reads with room in the buffer that each brought bytes: all that they brought, and what they leave of the stream.
pub data Reads : List Event → Bytes → List Event → Type 0 where
  begin : {es : List Event} → Reads es [] es
  then_read :
      {es es' : List Event} {bytes : Bytes} (n : ℕ) (b : ℕ) (bs : Bytes)
      → Reads es bytes es'
      → 0 < n
      → (read n es').0 ≡ arrived (b ∷ bs)
      → Reads es (bytes ++ (b ∷ bs)) (read n es').1

-- A read with room in the buffer finds the end of the stream, or the time over.
abbrev pub IsQuiet : List Event → Type 0
IsQuiet es = (n : ℕ) × (0 < n) × (((read n es).0 ≡ arrived []) ⊎ ((read n es).0 ≡ expired))

-- A request of so many bytes is whole: its headers are, and so is the body that they declare.
abbrev pub IsWhole : Bytes → Type 0
IsWhole bytes =
    (hdr_end : ℕ) × (find_hdr_end bytes ≡ some hdr_end)
    × (body_needed bytes hdr_end ≤ max_admin_request)
    × (body_needed bytes hdr_end ≤ length bytes)

-- The headers have no end in the first 65,536 bytes.
abbrev pub IsCut : Bytes → Type 0
IsCut bytes = (length bytes ≡ max_admin_request) × (find_hdr_end bytes ≡ none)

abbrev pub IsReading : List Event → Reading → Type 0
IsReading es (got bytes) =
    (rest : List Event) × Reads es bytes rest
    × (length bytes ≤ max_admin_request)
    × ((IsWhole bytes ⊎ IsCut bytes) ⊎ IsQuiet rest)
IsReading es too_large =
    (rest : List Event) × (bytes : Bytes) × (hdr_end : ℕ) × Reads es bytes rest
    × (find_hdr_end bytes ≡ some hdr_end)
    × (max_admin_request < body_needed bytes hdr_end)
IsReading es gone =
    (rest : List Event) × (bytes : Bytes) × (n : ℕ) × (why : Text) × Reads es bytes rest
    × (0 < n)
    × ((read n rest).0 ≡ failed why)

-- The loop can go on with a buffer of `room` bytes that holds so many.
abbrev CanGoOn : ℕ → ℕ → Type 0
CanGoOn held room = (held < room) × (room ≤ max_admin_request)

abbrev RoundIsReading : List Event → ℕ → Round → Type 0
RoundIsReading es held (stop r) = IsReading es r
RoundIsReading es held (again room) = CanGoOn held room

abbrev size : Event → ℕ
size (arrived b) = length b
size expired = 0
size (failed m) = 0

-- The loop comes to an end on all that is left.
abbrev Ends : List Event → Option Reading → Type 0
Ends es o = (r : Reading) × (o ≡ some r) × IsReading es r
