-- ===== src/Base/Order.antt =====
-- The order of texts by code points is a strict weak order.
use Prim.Native.Nat.{ℕ, compare as compare_ℕ, Ordering}
use Prim.Native.Char.{code}
use Prim.Native.String.compare
use Prim.Native.String.{String, [], ◌∷◌, then}
use mathlib.Core.Path.{◌≡◌, refl}
use mathlib.Core.Bool.{true, false}
use native.Mathlib.Omega.{arith}
use text.Mathlib.Text
use text.Mathlib.TextEquality.{Char-path}
use team_c_edr.Base.Text.{str_lt}

then_trans :
    (a b c : ℕ) (p q r : Ordering)
    → (Text.is_lt q ≡ false → Text.is_lt p ≡ false → Text.is_lt r ≡ false)
    → Text.is_lt (then (compare_ℕ b a) p) ≡ false
    → Text.is_lt (then (compare_ℕ c b) q) ≡ false
    → Text.is_lt (then (compare_ℕ c a) r) ≡ false
then_trans a b c p q r ih h k = ground arith

pub str_lt_trans : (x y z : String) → str_lt y x ≡ false → str_lt z y ≡ false → str_lt z x ≡ false
str_lt_trans x [] [] h k = h
str_lt_trans x (b ∷ y) [] h k = cc (rw (compare.nil-cons b y) at k)
str_lt_trans [] y (c ∷ z) h k = rw (compare.cons-nil c z) refl
str_lt_trans (a ∷ x) [] (c ∷ z) h k = cc (rw (compare.nil-cons a x) at h)
str_lt_trans (a ∷ x) (b ∷ y) (c ∷ z) h k = rw (compare.cons-cons c a z x) (
    then_trans (code a) (code b) (code c) _ _ _ (λ q p. str_lt_trans x y z p q)
      (rw (compare.cons-cons b a y x) at h) (rw (compare.cons-cons c b z y) at k))

then_asym :
    (a b : ℕ) (p q : Ordering)
    → (Text.is_lt p ≡ true → Text.is_lt q ≡ false)
    → Text.is_lt (then (compare_ℕ a b) p) ≡ true
    → Text.is_lt (then (compare_ℕ b a) q) ≡ false
then_asym a b p q ih h = ground arith

pub str_lt_asym : (x y : String) → str_lt x y ≡ true → str_lt y x ≡ false
str_lt_asym [] [] h = refl
str_lt_asym (a ∷ x) [] h = cc (rw (compare.cons-nil a x) at h)
str_lt_asym [] (b ∷ y) h = rw (compare.cons-nil b y) refl
str_lt_asym (a ∷ x) (b ∷ y) h =
    rw (compare.cons-cons b a y x) (
      then_asym (code a) (code b) _ _ (λ p. str_lt_asym x y p)
        (rw (compare.cons-cons a b x y) at h))

then_total :
    (a b : ℕ) (p q : Ordering)
    → Text.is_lt (then (compare_ℕ a b) p) ≡ false
    → Text.is_lt (then (compare_ℕ b a) q) ≡ false
    → (a ≡ b) × ((Text.is_lt p ≡ false) × (Text.is_lt q ≡ false))
then_total a b p q h k = ground arith

pub str_lt_total : (x y : String) → str_lt x y ≡ false → str_lt y x ≡ false → x ≡ y
str_lt_total [] [] h k = refl
str_lt_total (a ∷ x) [] h k = cc (rw (compare.nil-cons a x) at k)
str_lt_total [] (b ∷ y) h k = cc (rw (compare.nil-cons b y) at h)
str_lt_total (a ∷ x) (b ∷ y) h k =
    let (e, (p, q)) =
      then_total (code a) (code b) _ _ (rw (compare.cons-cons a b x y) at h)
        (rw (compare.cons-cons b a y x) at k) in
    rw (Char-path a b e, str_lt_total x y p q) refl
