-- ===== src/Base/Maps.antt =====
-- `HashMap` as an association list. An insertion replaces the value of a key that is there and
-- appends another key, so the order of the list is one of the orders in which the source's maps may be
-- iterated. No theorem depends on that order.
use Prim.Native.Nat.{◌+◌, ◌≤◌, ◌<◌}
use mathlib.Core.Path.{◌≡◌, refl}
use mathlib.Core.Logic.{inl, inr}
use mathlib.Core.Bool.{true}
use mathlib.Core.List.{List, [], ◌∷◌}
use mathlib.Core.Option.{Option, none, some}
use native.Mathlib.Omega.{arith}
use modular_rust_reverse_pro.Base.Tests.{Eq, ◌==◌, if◌then◌else◌, is_some, Bool-cases, unwrap_or}
use modular_rust_reverse_pro.Base.Lists.{length, All}

abbrev pub HashMap {ℓ κ} : Type ℓ → Type κ → Type (ℓ ⊔ κ)
HashMap K V = List (K × V)

module _ {ℓ κ} {K : Type ℓ} {V : Type κ} ⦃e : Eq K⦄ where
  unfoldable pub lookup : K → HashMap K V → Option V
  lookup k [] = none
  lookup k ((j, v) ∷ m) = if j == k then some v else lookup k m

  unfoldable pub insert : K → V → HashMap K V → HashMap K V
  insert k v [] = (k, v) ∷ []
  insert k v ((j, w) ∷ m) = if j == k then (k, v) ∷ m else (j, w) ∷ insert k v m

  unfoldable pub remove : K → HashMap K V → HashMap K V
  remove k [] = []
  remove k ((j, v) ∷ m) = if j == k then remove k m else (j, v) ∷ remove k m

  pub lookup-insert :
      (new key : K) (val : V) (m : HashMap K V)
      → lookup key (insert new val m) ≡ (if new == key then some val else lookup key m)
  unfolding lookup insert
  lookup-insert new key val [] = refl
  lookup-insert new key val ((old, was) ∷ m) =
      ground (
        arith,
        e.decides new key,
        e.decides old new,
        e.decides old key,
        lookup-insert new key val m,
      )

  pub lookup-insert_self : (k : K) (v : V) (m : HashMap K V) → lookup k (insert k v m) ≡ some v
  lookup-insert_self k v m = ground (arith, lookup-insert k k v m, e.decides k k)

  pub lookup-remove :
      (k j : K) (m : HashMap K V) → lookup j (remove k m) ≡ (if k == j then none else lookup j m)
  unfolding lookup remove
  lookup-remove k j [] = ground arith
  lookup-remove k j ((i, w) ∷ m) =
      ground (arith, e.decides k j, e.decides i k, e.decides i j, lookup-remove k j m)

  pub length-insert-le : (k : K) (v : V) (m : HashMap K V) → length (insert k v m) ≤ length m + 1
  unfolding insert
  length-insert-le k v [] = omega arith
  length-insert-le k v ((i, w) ∷ m) = ground (arith, length-insert-le k v m)

  -- A new key makes the map longer.
  pub length-insert_new :
      (k : K) (v : V) (m : HashMap K V) → lookup k m ≡ none → length (insert k v m) ≡ length m + 1
  unfolding lookup insert
  length-insert_new k v [] h = omega arith
  length-insert_new k v ((i, w) ∷ m) h = ground (arith, length-insert_new k v m)

  pub length-remove-le : (k : K) (m : HashMap K V) → length (remove k m) ≤ length m
  unfolding remove
  length-remove-le k [] = omega arith
  length-remove-le k ((i, w) ∷ m) = ground (arith, length-remove-le k m)

  -- The removal of a key that is there makes the map smaller.
  pub length-remove-lt :
      (k : K) (m : HashMap K V) (v : V) → lookup k m ≡ some v → length (remove k m) < length m
  unfolding lookup remove
  length-remove-lt k [] v h = cc
  length-remove-lt k ((i, w) ∷ m) v h = ground (arith, length-remove-le k m, length-remove-lt k m v)

  lookup-cons :
      (k j : K) (v : V) (m : HashMap K V)
      → is_some (lookup k m) ≡ true
      → is_some (lookup k ((j, v) ∷ m)) ≡ true
  unfolding lookup
  lookup-cons k j v m h = ground arith

  All-lookup-cons :
      (j : K) (v : V) (m es : HashMap K V)
      → All (λ (d : K × V). is_some (lookup d.0 m) ≡ true) es
      → All (λ (d : K × V). is_some (lookup d.0 ((j, v) ∷ m)) ≡ true) es
  All-lookup-cons j v m [] h = tt
  All-lookup-cons j v m ((k, u) ∷ es) h = (lookup-cons k j v m h.0, All-lookup-cons j v m es h.1)

  -- Each key of a map is found in it.
  pub All-lookup : (m : HashMap K V) → All (λ (d : K × V). is_some (lookup d.0 m) ≡ true) m
  unfolding lookup
  All-lookup [] = tt
  All-lookup ((j, v) ∷ m) = (ground (arith, e.decides j j), All-lookup-cons j v m m (All-lookup m))

  -- The removal of a key that is found makes the map smaller.
  pub length-remove-found :
      (k : K) (m : HashMap K V) → is_some (lookup k m) ≡ true → length (remove k m) < length m
  length-remove-found k m h = go (lookup k m) refl
    where
      go : (o : Option V) → lookup k m ≡ o → length (remove k m) < length m
      go none p = absurd (cc (h, p))
      go (some v) p = length-remove-lt k m v p

  -- A property of all values of a map.
  module _ {μ} (P : V → Type μ) where
    pub insert-All :
        (k : K) (v : V) (m : HashMap K V)
        → P v
        → All (λ (d : K × V). P d.1) m
        → All (λ (d : K × V). P d.1) (insert k v m)
    unfolding insert
    insert-All k v [] p h = (p, tt)
    insert-All k v ((j, w) ∷ m) p h = elim (Bool-cases (j == k)) [
      | inl same ↦ rw (same, insert) (p, h.1)
      | inr other ↦ rw (other, insert) (h.0, insert-All k v m p h.1)
    ]

    pub remove-All :
        (k : K) (m : HashMap K V)
        → All (λ (d : K × V). P d.1) m
        → All (λ (d : K × V). P d.1) (remove k m)
    unfolding remove
    remove-All k [] h = tt
    remove-All k ((j, w) ∷ m) h = elim (Bool-cases (j == k)) [
      | inl same ↦ rw (same, remove) (remove-All k m h.1)
      | inr other ↦ rw (other, remove) (h.0, remove-All k m h.1)
    ]

    -- What is found, or else a value that has the property.
    pub lookup-All :
        (k : K) (m : HashMap K V) (d : V)
        → All (λ (x : K × V). P x.1) m
        → P d
        → P (unwrap_or (lookup k m) d)
    unfolding lookup
    lookup-All k [] d h p = p
    lookup-All k ((j, w) ∷ m) d h p = elim (Bool-cases (j == k)) [
      | inl same ↦ rw (same, lookup) h.0
      | inr other ↦ rw (other, lookup) (lookup-All k m d h.1 p)
    ]
