-- ===== src/Base/Distinct.antt =====
-- Lists whose elements a Boolean test tells apart, as the rows of a table by their keys.

use mathlib.Core.Path.{◌≡◌, refl}
use mathlib.Core.Bool.{Bool, true, false, ◌||◌}
use mathlib.Core.List.{List, [], ◌∷◌, ◌++◌, map}
use native.Mathlib.Omega.{arith}
use team_c_edr.Base.Lists.{In, here, there, any, All, All-append}

pub or_false : (a b : Bool) → (a || b) ≡ false → (a ≡ false) × (b ≡ false)
or_false a b h = ground arith

or_true : (a : Bool) → (a || true) ≡ true
or_true a = ground arith

or_assoc : (a b c : Bool) → (a || (b || c)) ≡ ((a || b) || c)
or_assoc a b c = ground arith

module _ {ℓ} {A : Type ℓ} where
  pub none_passes : (p : A → Bool) (xs : List A) → any p xs ≡ false → All (λ x. p x ≡ false) xs
  none_passes p [] h = tt
  none_passes p (x ∷ xs) h =
      let (l, r) : (p x ≡ false) × (any p xs ≡ false) = or_false (p x) (any p xs) h in
      (l, none_passes p xs r)

  pub any_miss : (p : A → Bool) (xs : List A) → All (λ x. p x ≡ false) xs → any p xs ≡ false
  any_miss p [] h = refl
  any_miss p (x ∷ xs) h = rw (h.0, any_miss p xs h.1) refl

  pub any-append : (p : A → Bool) (xs ys : List A) → any p (xs ++ ys) ≡ (any p xs || any p ys)
  any-append p [] ys = refl
  any-append p (x ∷ xs) ys = rw (any-append p xs ys) (or_assoc (p x) (any p xs) (any p ys))

  pub any_hit : (p : A → Bool) (xs : List A) {x : A} → In x xs → p x ≡ true → any p xs ≡ true
  any_hit p [] m h = elim m [ ]
  any_hit p (x ∷ xs) here h = rw h refl
  any_hit p (y ∷ xs) (there m) h = rw (any_hit p xs m h) (or_true (p y))

  -- No two elements are the same.
  abbrev pub Apart : (A → A → Bool) → List A → Type ℓ
  Apart same [] = Unit
  Apart same (x ∷ xs) = All (λ y. same x y ≡ false) xs × Apart same xs

  pub Apart-snoc :
      (same : A → A → Bool) (xs : List A) (y : A)
      → Apart same xs
      → any (λ x. same x y) xs ≡ false
      → Apart same (xs ++ (y ∷ []))
  Apart-snoc same [] y h k = (tt, tt)
  Apart-snoc same (x ∷ xs) y h k =
      let (l, r) : (same x y ≡ false) × (any (λ z. same z y) xs ≡ false) =
        or_false (same x y) (any (λ z. same z y) xs) k in
      (All-append (λ z. same x z ≡ false) xs (y ∷ []) h.0 (l, tt), Apart-snoc same xs y h.1 r)

  pub All_every {κ} : (P : A → Type κ) → ((x : A) → P x) → (xs : List A) → All P xs
  All_every P h [] = tt
  All_every P h (x ∷ xs) = (h x, All_every P h xs)

  pub All_mono {κ μ} :
      (P : A → Type κ) (Q : A → Type μ)
      → ((x : A) → P x → Q x)
      → (xs : List A) → All P xs
      → All Q xs
  All_mono P Q f [] h = tt
  All_mono P Q f (x ∷ xs) h = (f x h.0, All_mono P Q f xs h.1)

module _ {ℓ κ} {A : Type ℓ} {B : Type κ} where
  pub All-map {μ} :
      (P : B → Type μ) (f : A → B) (xs : List A) → All (λ x. P (f x)) xs → All P (map f xs)
  All-map P f [] h = tt
  All-map P f (x ∷ xs) h = (h.0, All-map P f xs h.1)

  -- A map whose results are the same only where its arguments are.
  pub Apart-map :
      (same : A → A → Bool) (same' : B → B → Bool) (f : A → B)
      → ((x y : A) → same x y ≡ false → same' (f x) (f y) ≡ false)
      → (xs : List A) → Apart same xs
      → Apart same' (map f xs)
  Apart-map same same' f g [] h = tt
  Apart-map same same' f g (x ∷ xs) h = (
    All-map (λ z. same' (f x) z ≡ false) f xs
        (All_mono (λ y. same x y ≡ false) (λ y. same' (f x) (f y) ≡ false) (g x) xs h.0),
    Apart-map same same' f g xs h.1,
  )
