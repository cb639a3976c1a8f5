-- ===== src/Server/Streams/Bodies.antt =====
-- What the loop over the chunks of a stream makes of them.
use modular_rust_reverse_pro.Base.{
  ◌≤◌, ◌<◌, ◌≡◌, refl, sym, ap, subst, ◌∙◌, Option, none, some, List, [], ◌∷◌, ◌++◌, map, length,
  ltb, arith, inl, inr, Bool-cases,
}
use mathlib.Core.List.{append-nil, append_assoc}
use modular_rust_reverse_pro.Strings.Utf8.{Bytes}
use modular_rust_reverse_pro.Http.Reader.{max_body_size}
use modular_rust_reverse_pro.Server.Streams.{Body, interrupted, oversized, whole, collect_body}

-- The chunks, one after another.
abbrev pub concat : List Bytes → Bytes
concat [] = []
concat (b ∷ bs) = b ++ concat bs

-- A body is whole if every chunk of it was received, and within the limit; it is broken off by a chunk that was not received,
-- and too large as soon as the chunks that were are longer than the limit.
abbrev pub IsBody : Bytes → List (Option Bytes) → Body → Type 0
IsBody start chunks (whole body) =
    (bs : List Bytes) × (chunks ≡ map some bs)
    × (body ≡ start ++ concat bs)
    × (length body ≤ max_body_size)
IsBody start chunks interrupted =
    (bs : List Bytes) × (rest : List (Option Bytes)) × (chunks ≡ map some bs ++ none ∷ rest)
    × (length (start ++ concat bs) ≤ max_body_size)
IsBody start chunks oversized =
    (bs : List Bytes) × (rest : List (Option Bytes)) × (chunks ≡ map some bs ++ rest)
    × (max_body_size < length (start ++ concat bs))

IsBody-cons :
    (start bytes : Bytes) (chunks : List (Option Bytes)) (b : Body)
    → IsBody (start ++ bytes) chunks b
    → IsBody start (some bytes ∷ chunks) b
IsBody-cons start bytes chunks (whole body) (bs, e, same, within) =
    (bytes ∷ bs, ap (λ cs. some bytes ∷ cs) e, same ∙ append_assoc start bytes (concat bs), within)
IsBody-cons start bytes chunks interrupted (bs, rest, e, within) = (
  bytes ∷ bs,
  rest,
  ap (λ cs. some bytes ∷ cs) e,
  subst (λ t. length t ≤ max_body_size) (append_assoc start bytes (concat bs)) within,
)
IsBody-cons start bytes chunks oversized (bs, rest, e, over) = (
  bytes ∷ bs,
  rest,
  ap (λ cs. some bytes ∷ cs) e,
  subst (λ t. max_body_size < length t) (append_assoc start bytes (concat bs)) over,
)

pub collect_body-IsBody :
    (start : Bytes) (chunks : List (Option Bytes))
    → length start ≤ max_body_size
    → IsBody start chunks (collect_body start chunks)
unfolding collect_body
collect_body-IsBody start [] h = ([], refl, sym (append-nil start), h)
collect_body-IsBody start (none ∷ chunks) h =
    ([], chunks, refl, subst (λ t. length t ≤ max_body_size) (sym (append-nil start)) h)
collect_body-IsBody start (some bytes ∷ chunks) h =
    elim (Bool-cases (ltb max_body_size (length (start ++ bytes)))) [
      | inl over ↦
          rw (over, collect_body)
            (
              bytes ∷ [],
              chunks,
              refl,
              subst (λ t. max_body_size < length (start ++ t)) (sym (append-nil bytes))
                  (ground (arith, over)),
            )
      | inr within ↦
          rw (within, collect_body)
            (IsBody-cons start bytes chunks (collect_body (start ++ bytes) chunks)
              (collect_body-IsBody (start ++ bytes) chunks (ground (arith, within))))
    ]
