-- ===== src/Tests/Streaming.antt =====
-- A request over HTTP/2, and the date in front of a message.
use modular_rust_reverse_pro.Base.{ℕ, ◌≡◌, refl, ◌⊎◌, true, none, some, [], ◌∷◌, lit, text_eq}
use modular_rust_reverse_pro.Strings.Utf8.{Bytes, into_bytes}
use modular_rust_reverse_pro.Metrics.{zeroed}
use modular_rust_reverse_pro.Server.Streams.{
  StreamRequest, Finished, h2, whole, broken_off, too_large, interrupted, oversized, handle_stream,
}
use modular_rust_reverse_pro.Server.Streams.Counting.{IsServed, handle_stream-cases}
use modular_rust_reverse_pro.Server.Streams.Bodies.{IsBody}
use modular_rust_reverse_pro.Log.{days_to_ymd}
use modular_rust_reverse_pro.Log.Dates.{IsDate, day_number, days_to_ymd-IsDate}
use modular_rust_reverse_pro.Tests.Serving.{pipe, answering-KeepsCounts}

abbrev posted : StreamRequest
posted = record {
  method = lit "POST";
  path_and_query = some (lit "/form");
  headers = (lit "accept", some (lit "*/*")) ∷ (lit "x-raw", none) ∷ [];
  chunks = some (into_bytes (lit "a=1")) ∷ some (into_bytes (lit "&b=2")) ∷ [];
}

abbrev finished : Finished ℕ
finished =
    handle_stream h2 1_000 none (λ status headers. true) true true pipe (λ t. none) (lit "10.0.0.1")
      posted zeroed 0

handle_stream-cases_example :
    ((((IsBody [] posted.chunks interrupted × (finished.outcome ≡ broken_off))
          ⊎ (IsBody [] posted.chunks oversized × (finished.outcome ≡ too_large)))
        × (finished.metrics ≡ zeroed)
        × (finished.world ≡ 0))
      ⊎ ((body : Bytes) × IsBody [] posted.chunks (whole body)
          × IsServed h2 1_000 none
              (λ status headers. true)
              true
              true
              pipe
              (λ t. none)
              (lit "10.0.0.1")
              posted
              body
              zeroed
              0
              finished))
handle_stream-cases_example =
    handle_stream-cases h2 1_000 none (λ status headers. true) true true pipe (λ t. none)
      (lit "10.0.0.1") (answering-KeepsCounts, tt) (λ t left e. absurd (cc)) posted zeroed 0

-- The 29th of February 2024.
leap_day : days_to_ymd 19_782 ≡ (2024, 2, 29)
unfolding days_to_ymd
leap_day = refl

days_to_ymd-IsDate_example :
    IsDate (days_to_ymd 19_782).0 (days_to_ymd 19_782).1 (days_to_ymd 19_782).2
    × (day_number (days_to_ymd 19_782).0 (days_to_ymd 19_782).1 (days_to_ymd 19_782).2 ≡ 19_782)
days_to_ymd-IsDate_example = days_to_ymd-IsDate 19_782
