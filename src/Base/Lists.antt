-- ===== src/Base/Lists.antt =====
-- Lists measured by native numbers, Boolean searches, and membership as a family that is matched.
use Prim.Native.Nat.{ℕ, zero, suc, ◌+◌, max}
use mathlib.Core.Path.{◌≡◌, refl, ap}
use mathlib.Core.Logic.{◌⊎◌, inl, inr}
use mathlib.Core.Bool.{Bool, true, false, ◌&&◌, ◌||◌}
use mathlib.Core.List.{List, [], ◌∷◌, ◌++◌, map}
use mathlib.Core.Option.{Option, none, some, some-injective}
use native.Mathlib.Omega.{arith}
use team_c_edr.Base.Tests.{Bool-cases, if◌then◌else◌}

-- `x` stands in the list.
pub data In {ℓ} {A : Type ℓ} (x : A) : List A → Type ℓ where
  here : {xs : List A} → In x (x ∷ xs)
  there : {y : A} {xs : List A} → In x xs → In x (y ∷ xs)

module _ {ℓ} {A : Type ℓ} where
  abbrev pub length : List A → ℕ
  length [] = 0
  length (x ∷ xs) = suc (length xs)

  abbrev pub take : ℕ → List A → List A
  take zero xs = []
  take (suc n) [] = []
  take (suc n) (x ∷ xs) = x ∷ take n xs

  abbrev pub drop : ℕ → List A → List A
  drop zero xs = xs
  drop (suc n) [] = []
  drop (suc n) (x ∷ xs) = drop n xs

  abbrev pub any : (A → Bool) → List A → Bool
  any p [] = false
  any p (x ∷ xs) = p x || any p xs

  abbrev pub all : (A → Bool) → List A → Bool
  all p [] = true
  all p (x ∷ xs) = p x && all p xs

  -- A comprehension with an `if`.
  abbrev pub select : (A → Bool) → List A → List A
  select p [] = []
  select p (x ∷ xs) = if p x then x ∷ select p xs else select p xs

  -- `next((x for x in xs if p x), None)`
  abbrev pub first : (A → Bool) → List A → Option A
  first p [] = none
  first p (x ∷ xs) = if p x then some x else first p xs

  -- `sum(1 for x in xs if p x)`
  abbrev pub count_if : (A → Bool) → List A → ℕ
  count_if p [] = 0
  count_if p (x ∷ xs) = (if p x then 1 else 0) + count_if p xs

  -- `sum(f x for x in xs)`
  abbrev pub sum_of : (A → ℕ) → List A → ℕ
  sum_of f [] = 0
  sum_of f (x ∷ xs) = f x + sum_of f xs

  -- `max((f x for x in xs), default=0)`
  abbrev pub max_of : (A → ℕ) → List A → ℕ
  max_of f [] = 0
  max_of f (x ∷ xs) = max (f x) (max_of f xs)

  abbrev pub All {κ} : (A → Type κ) → List A → Type κ
  All P [] = Unit
  All P (x ∷ xs) = P x × All P xs

module _ {ℓ} {A : Type ℓ} where
  pub length-append : (xs ys : List A) → length (xs ++ ys) ≡ length xs + length ys
  length-append [] ys = omega arith
  length-append (x ∷ xs) ys = omega (arith, length-append xs ys)

  pub In-append_left : {x : A} (xs ys : List A) → In x xs → In x (xs ++ ys)
  In-append_left [] ys m = elim m [ ]
  In-append_left (x ∷ xs) ys here = here
  In-append_left (y ∷ xs) ys (there m) = there (In-append_left xs ys m)

  pub In-append_right : {x : A} (xs ys : List A) → In x ys → In x (xs ++ ys)
  In-append_right [] ys m = m
  In-append_right (y ∷ xs) ys m = there (In-append_right xs ys m)

  pub In-append : {x : A} (xs ys : List A) → In x (xs ++ ys) → In x xs ⊎ In x ys
  In-append [] ys m = inr m
  In-append (y ∷ xs) ys here = inl here
  In-append (y ∷ xs) ys (there m) = elim (In-append xs ys m) [
    | inl l ↦ inl (there l)
    | inr r ↦ inr r
  ]

  pub In-cons : {x y : A} {xs : List A} → In x (y ∷ xs) → (x ≡ y) ⊎ In x xs
  In-cons here = inl refl
  In-cons (there m) = inr m

  pub In-select : (p : A → Bool) (xs : List A) {x : A} → In x xs → p x ≡ true → In x (select p xs)
  In-select p [] m h = elim m [ ]
  In-select p (x ∷ xs) here h = rw h here
  In-select p (y ∷ xs) (there m) h = elim (Bool-cases (p y)) [
    | inl keep ↦ rw keep (there (In-select p xs m h))
    | inr skip ↦ rw skip (In-select p xs m h)
  ]

  pub select-In : (p : A → Bool) (xs : List A) {x : A} → In x (select p xs) → In x xs × (p x ≡ true)
  select-In p [] m = elim m [ ]
  select-In p (y ∷ xs) {x = x} m = elim (Bool-cases (p y)) [
    | inl keep ↦ elim (In-cons (rw keep at m)) [
      | inl same ↦ (rw same here, rw same keep)
      | inr later ↦ let r = select-In p xs later in (there r.0, r.1)
    ]
    | inr skip ↦ let r = select-In p xs (rw skip at m) in (there r.0, r.1)
  ]

  pub All-In {κ} : (P : A → Type κ) {x : A} (xs : List A) → All P xs → In x xs → P x
  All-In P [] h m = elim m [ ]
  All-In P (y ∷ xs) h here = h.0
  All-In P (y ∷ xs) h (there m) = All-In P xs h.1 m

  pub All-append {κ} : (P : A → Type κ) (xs ys : List A) → All P xs → All P ys → All P (xs ++ ys)
  All-append P [] ys h k = k
  All-append P (x ∷ xs) ys h k = (h.0, All-append P xs ys h.1 k)

-- What `first` finds stands in the list and passes the test.
pub first-In {ℓ} :
    {A : Type ℓ} (p : A → Bool) (xs : List A) (x : A) → first p xs ≡ some x → In x xs × (p x ≡ true)
first-In p [] x h = cc
first-In p (y ∷ xs) x h = elim (Bool-cases (p y)) [
  | inl hit ↦ let e = some-injective y x (rw hit at h) in (rw (← e) here, rw (← e) hit)
  | inr miss ↦ let r = first-In p xs x (rw miss at h) in (there r.0, r.1)
]

pub length-map {ℓ κ} :
    {A : Type ℓ} {B : Type κ} (f : A → B) (xs : List A) → length (map f xs) ≡ length xs
length-map f [] = refl
length-map f (x ∷ xs) = ap suc (length-map f xs)
