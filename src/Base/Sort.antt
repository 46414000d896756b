-- ===== src/Base/Sort.antt =====
-- Python's `sorted(xs, key=...)`: a stable sort by a strict order.
use Prim.Native.Nat.{suc}
use mathlib.Core.Path.{◌≡◌, refl, ap}
use mathlib.Core.Logic.{◌⊎◌, inl, inr}
use mathlib.Core.Bool.{Bool, true, false}
use mathlib.Core.List.{List, [], ◌∷◌}
use team_c_edr.Base.Tests.{Bool-cases, if◌then◌else◌}
use team_c_edr.Base.Lists.{In, here, there, length, In-cons, All}

module _ {ℓ} {A : Type ℓ} (lt : A → A → Bool) where
  -- Before the first element that is not less, so equal elements keep their order.
  unfoldable pub insert_by : A → List A → List A
  insert_by x [] = x ∷ []
  insert_by x (y ∷ ys) = if lt y x then y ∷ insert_by x ys else x ∷ y ∷ ys

  unfoldable pub sort_by : List A → List A
  unfolding insert_by
  sort_by [] = []
  sort_by (x ∷ xs) = insert_by x (sort_by xs)

  insert_by-In : (x : A) (ys : List A) {z : A} → In z (insert_by x ys) → (z ≡ x) ⊎ In z ys
  unfolding insert_by
  insert_by-In x [] m = In-cons m
  insert_by-In x (y ∷ ys) m = elim (Bool-cases (lt y x)) [
    | inl after ↦ elim (In-cons (rw after at m)) [
      | inl e ↦ inr (rw e here)
      | inr later ↦ elim (insert_by-In x ys later) [ inl e ↦ inl e | inr k ↦ inr (there k) ]
    ]
    | inr before ↦ In-cons (rw before at m)
  ]

  insert_by-new : (x : A) (ys : List A) → In x (insert_by x ys)
  unfolding insert_by
  insert_by-new x [] = here
  insert_by-new x (y ∷ ys) = elim (Bool-cases (lt y x)) [
    | inl after ↦ rw after (there (insert_by-new x ys))
    | inr before ↦ rw before here
  ]

  insert_by-old : (x : A) (ys : List A) {z : A} → In z ys → In z (insert_by x ys)
  unfolding insert_by
  insert_by-old x [] m = elim m [ ]
  insert_by-old x (y ∷ ys) m = elim (Bool-cases (lt y x)) [
    | inl after ↦ elim (In-cons m) [
      | inl e ↦ rw (after, e) here
      | inr k ↦ rw after (there (insert_by-old x ys k))
    ]
    | inr before ↦ rw before (there m)
  ]

  -- Sorting loses no element and adds none.
  pub sort_by-In : (xs : List A) {z : A} → In z (sort_by xs) → In z xs
  unfolding sort_by
  sort_by-In [] m = m
  sort_by-In (x ∷ xs) m = elim (insert_by-In x (sort_by xs) m) [
    | inl e ↦ rw e here
    | inr k ↦ there (sort_by-In xs k)
  ]

  pub In-sort_by : (xs : List A) {z : A} → In z xs → In z (sort_by xs)
  unfolding sort_by
  In-sort_by [] m = m
  In-sort_by (x ∷ xs) m = elim (In-cons m) [
    | inl e ↦ rw e (insert_by-new x (sort_by xs))
    | inr k ↦ insert_by-old x (sort_by xs) (In-sort_by xs k)
  ]

  length-insert_by : (x : A) (ys : List A) → length (insert_by x ys) ≡ suc (length ys)
  unfolding insert_by
  length-insert_by x [] = refl
  length-insert_by x (y ∷ ys) = elim (Bool-cases (lt y x)) [
    | inl after ↦ rw after (ap suc (length-insert_by x ys))
    | inr before ↦ rw before refl
  ]

  pub length-sort_by : (xs : List A) → length (sort_by xs) ≡ length xs
  unfolding sort_by
  length-sort_by [] = refl
  length-sort_by (x ∷ xs) = rw (length-insert_by x (sort_by xs)) (ap suc (length-sort_by xs))

  -- Each element is followed by none that is less.
  abbrev pub IsSorted : List A → Type ℓ
  IsSorted [] = Unit
  IsSorted (x ∷ xs) = All (λ y. lt y x ≡ false) xs × IsSorted xs

module _ {ℓ} {A : Type ℓ} (lt : A → A → Bool) (asym : (x y : A) → lt x y ≡ true → lt y x ≡ false)
    (trans : (x y z : A) → lt y x ≡ false → lt z y ≡ false → lt z x ≡ false) where
  insert_by-All :
      (w x : A) (ys : List A)
      → lt x w ≡ false
      → All (λ y. lt y w ≡ false) ys
      → All (λ y. lt y w ≡ false) (insert_by lt x ys)
  unfolding insert_by
  insert_by-All w x [] h a = (h, tt)
  insert_by-All w x (y ∷ ys) h a = elim (Bool-cases (lt y x)) [
    | inl after ↦ rw after (a.0, insert_by-All w x ys h a.1)
    | inr before ↦ rw before (h, a)
  ]

  All-trans :
      (x y : A) (ys : List A)
      → lt y x ≡ false
      → All (λ z. lt z y ≡ false) ys
      → All (λ z. lt z x ≡ false) ys
  All-trans x y [] h a = tt
  All-trans x y (z ∷ ys) h a = (trans x y z h a.0, All-trans x y ys h a.1)

  insert_by-IsSorted : (x : A) (ys : List A) → IsSorted lt ys → IsSorted lt (insert_by lt x ys)
  unfolding insert_by
  insert_by-IsSorted x [] s = (tt, tt)
  insert_by-IsSorted x (y ∷ ys) s = elim (Bool-cases (lt y x)) [
    | inl after ↦ rw after (insert_by-All y x ys (asym y x after) s.0, insert_by-IsSorted x ys s.1)
    | inr before ↦ rw before ((before, All-trans x y ys before s.0), s)
  ]

  pub sort_by-IsSorted : (xs : List A) → IsSorted lt (sort_by lt xs)
  unfolding sort_by
  sort_by-IsSorted [] = tt
  sort_by-IsSorted (x ∷ xs) = insert_by-IsSorted x (sort_by lt xs) (sort_by-IsSorted xs)
