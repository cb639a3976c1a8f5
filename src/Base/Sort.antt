-- ===== src/Base/Sort.antt =====
-- `sort_by_key` of the standard library, which is stable, as an insertion sort.
use Prim.Native.Nat.{suc}
use mathlib.Core.Path.{◌≡◌, refl, ap, ◌∙◌}
use mathlib.Core.Bool.{Bool, true, false}
use mathlib.Core.List.{List, [], ◌∷◌, Perm}
use mathlib.Core.List.Perm
use native.Mathlib.Omega.{arith}
use mathlib.Core.Logic.{inl, inr}
use modular_rust_reverse_pro.Base.Tests.{if◌then◌else◌, Bool-cases}
use modular_rust_reverse_pro.Base.Lists.{retain, All, All-retain, length}

module _ {ℓ} {A : Type ℓ} (le : A → A → Bool) where
  unfoldable pub insert_sorted : A → List A → List A
  insert_sorted x [] = x ∷ []
  insert_sorted x (y ∷ ys) = if le x y then x ∷ y ∷ ys else y ∷ insert_sorted x ys

  unfoldable pub sort_by : List A → List A
  unfolding insert_sorted
  sort_by [] = []
  sort_by (x ∷ xs) = insert_sorted x (sort_by xs)

  -- Each element is below every later one.
  abbrev pub IsSorted : List A → Type ℓ
  IsSorted [] = Unit
  IsSorted (x ∷ xs) = All (λ y. le x y ≡ true) xs × IsSorted xs

  pub insert_sorted-perm : (x : A) (xs : List A) → Perm (insert_sorted x xs) (x ∷ xs)
  unfolding insert_sorted
  insert_sorted-perm x [] = Perm.refl (x ∷ [])
  insert_sorted-perm x (y ∷ ys) = elim (Bool-cases (le x y)) [
    | inl h ↦ rw h (Perm.refl (x ∷ y ∷ ys))
    | inr h ↦ rw h (Perm.trans (Perm.cons y (insert_sorted-perm x ys)) (Perm.swap x y ys))
  ]

  pub sort_by-perm : (xs : List A) → Perm (sort_by xs) xs
  unfolding sort_by
  sort_by-perm [] = Perm.refl []
  sort_by-perm (x ∷ xs) =
      Perm.trans (insert_sorted-perm x (sort_by xs)) (Perm.cons x (sort_by-perm xs))

  module _ (total : (x y : A) → le x y ≡ false → le y x ≡ true)
      (trans : (x y z : A) → le x y ≡ true → le y z ≡ true → le x z ≡ true) where
    below-All :
        (x y : A) (ys : List A)
        → le x y ≡ true
        → All (λ z. le y z ≡ true) ys
        → All (λ z. le x z ≡ true) ys
    below-All x y [] h k = tt
    below-All x y (z ∷ ys) h k = (trans x y z h k.0, below-All x y ys h k.1)

    All-insert_sorted :
        (a x : A) (ys : List A)
        → le a x ≡ true
        → All (λ z. le a z ≡ true) ys
        → All (λ z. le a z ≡ true) (insert_sorted x ys)
    unfolding insert_sorted
    All-insert_sorted a x [] h k = (h, tt)
    All-insert_sorted a x (y ∷ ys) h k = elim (Bool-cases (le x y)) [
      | inl e ↦ rw e (h, k)
      | inr e ↦ rw e (k.0, All-insert_sorted a x ys h k.1)
    ]

    insert_sorted-IsSorted : (x : A) (ys : List A) → IsSorted ys → IsSorted (insert_sorted x ys)
    unfolding insert_sorted
    insert_sorted-IsSorted x [] s = (tt, tt)
    insert_sorted-IsSorted x (y ∷ ys) s = elim (Bool-cases (le x y)) [
      | inl e ↦ rw e ((e, below-All x y ys e s.0), s)
      | inr e ↦ rw e (All-insert_sorted y x ys (total x y e) s.0, insert_sorted-IsSorted x ys s.1)
    ]

    pub sort_by-IsSorted : (xs : List A) → IsSorted (sort_by xs)
    unfolding sort_by
    sort_by-IsSorted [] = tt
    sort_by-IsSorted (x ∷ xs) = insert_sorted-IsSorted x (sort_by xs) (sort_by-IsSorted xs)

  -- Elements that the order does not tell apart keep their order.
  module _ (q : A → Bool) (same : (x y : A) → q x ≡ true → q y ≡ true → le x y ≡ true) where
    insert_sorted_stable : (x : A) (ys : List A) → retain q (insert_sorted x ys) ≡ retain q (x ∷ ys)
    unfolding insert_sorted
    insert_sorted_stable x [] = refl
    insert_sorted_stable x (y ∷ ys) = ground (arith, same x y, insert_sorted_stable x ys)

    pub sort_by_stable : (xs : List A) → retain q (sort_by xs) ≡ retain q xs
    unfolding sort_by
    sort_by_stable [] = refl
    sort_by_stable (x ∷ xs) =
        insert_sorted_stable x (sort_by xs) ∙ ap (λ l. if q x then x ∷ l else l) (sort_by_stable xs)

  module _ {κ} (P : A → Type κ) where
    pub insert_sorted-All : (x : A) (ys : List A) → P x → All P ys → All P (insert_sorted x ys)
    unfolding insert_sorted
    insert_sorted-All x [] h k = (h, tt)
    insert_sorted-All x (y ∷ ys) h k = elim (Bool-cases (le x y)) [
      | inl e ↦ rw e (h, k)
      | inr e ↦ rw e (k.0, insert_sorted-All x ys h k.1)
    ]

    pub sort_by-All : (xs : List A) → All P xs → All P (sort_by xs)
    unfolding sort_by
    sort_by-All [] h = tt
    sort_by-All (x ∷ xs) h = insert_sorted-All x (sort_by xs) h.0 (sort_by-All xs h.1)

  length-insert_sorted : (x : A) (ys : List A) → length (insert_sorted x ys) ≡ suc (length ys)
  unfolding insert_sorted
  length-insert_sorted x [] = refl
  length-insert_sorted x (y ∷ ys) = ground (arith, length-insert_sorted x ys)

  pub length-sort_by : (xs : List A) → length (sort_by xs) ≡ length xs
  unfolding sort_by
  length-sort_by [] = refl
  length-sort_by (x ∷ xs) = length-insert_sorted x (sort_by xs) ∙ ap suc (length-sort_by xs)

  -- What is sorted stays as it is.
  insert_sorted-below :
      (x : A) (ys : List A) → All (λ y. le x y ≡ true) ys → insert_sorted x ys ≡ x ∷ ys
  unfolding insert_sorted
  insert_sorted-below x [] h = refl
  insert_sorted-below x (y ∷ ys) h = rw h.0

  pub sort_by-eq_self : (xs : List A) → IsSorted xs → sort_by xs ≡ xs
  unfolding sort_by
  sort_by-eq_self [] s = refl
  sort_by-eq_self (x ∷ xs) s = rw (sort_by-eq_self xs s.1) (insert_sorted-below x xs s.0)

  pub retain-IsSorted : (p : A → Bool) (xs : List A) → IsSorted xs → IsSorted (retain p xs)
  retain-IsSorted p [] s = tt
  retain-IsSorted p (x ∷ xs) s = elim (Bool-cases (p x)) [
    | inl stays ↦ rw stays (All-retain (λ y. le x y ≡ true) p xs s.0, retain-IsSorted p xs s.1)
    | inr goes ↦ rw goes (retain-IsSorted p xs s.1)
  ]
