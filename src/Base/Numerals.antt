-- ===== src/Base/Numerals.antt =====
-- The number that a printed numeral stands for, so that two numbers are never printed alike.
use Prim.Native.Nat.{ℕ, zero, suc, ◌+◌, ◌-◌, ◌*◌, ◌/◌, ◌%◌, ◌<◌}
use Prim.Native.Char.{code}
use Prim.Native.String.append
use Prim.Native.String.{String, [], ◌∷◌, ◌++◌}
use mathlib.Core.Path.{◌≡◌, refl, sym, ap, ◌∙◌}
use mathlib.Core.Logic.{inl, inr}
use mathlib.Core.Bool.{Bool, true, false}
use native.Mathlib.Omega.{arith}
use team_c_edr.Base.Tests.{ltb, Bool-cases, if◌then◌else◌}
use team_c_edr.Base.Text.{digit, show_loop, show, show_padded}

-- The digits of a text, read behind those of `n`.
unfoldable value_from : ℕ → String → ℕ
value_from n [] = n
value_from n (c ∷ s) = value_from (10 * n + (code c - 48)) s

value_from-append : (n : ℕ) (s t : String) → value_from n (s ++ t) ≡ value_from (value_from n s) t
unfolding value_from
value_from-append n [] t = rw (append.nil t) refl
value_from-append n (c ∷ s) t =
    rw (append.cons c s t) (value_from-append (10 * n + (code c - 48)) s t)

value_from-digit : (n d : ℕ) → d < 10 → value_from n (digit d) ≡ 10 * n + d
unfolding value_from
value_from-digit n zero h = refl
value_from-digit n (suc zero) h = refl
value_from-digit n (suc (suc zero)) h = refl
value_from-digit n (suc (suc (suc zero))) h = refl
value_from-digit n (suc (suc (suc (suc zero)))) h = refl
value_from-digit n (suc (suc (suc (suc (suc zero))))) h = refl
value_from-digit n (suc (suc (suc (suc (suc (suc zero)))))) h = refl
value_from-digit n (suc (suc (suc (suc (suc (suc (suc zero))))))) h = refl
value_from-digit n (suc (suc (suc (suc (suc (suc (suc (suc zero)))))))) h = refl
value_from-digit n (suc (suc (suc (suc (suc (suc (suc (suc (suc zero))))))))) h = refl
value_from-digit n (suc (suc (suc (suc (suc (suc (suc (suc (suc (suc d)))))))))) h = omega arith

behind_digit :
    (n d : ℕ) (after : String)
    → d < 10
    → value_from n (digit d ++ after) ≡ value_from (10 * n + d) after
behind_digit n d after h =
    value_from-append n (digit d) after ∙ ap (λ k. value_from k after) (value_from-digit n d h)

value_from-show_loop :
    (fuel n : ℕ) (after : String)
    → n < fuel
    → value_from 0 (show_loop fuel n after) ≡ value_from n after
unfolding show_loop
value_from-show_loop zero n after h = omega arith
value_from-show_loop (suc fuel) n after h = elim (Bool-cases (ltb n 10)) [
  | inl last ↦ rw last (
      behind_digit 0 (n % 10) after (ground arith)
      ∙ ap (λ k. value_from k after) (ground (arith, last)))
  | inr more ↦ rw more (
      value_from-show_loop fuel (n / 10) (digit (n % 10) ++ after) (ground (arith, more))
      ∙ (behind_digit (n / 10) (n % 10) after (ground arith)
          ∙ ap (λ k. value_from k after) (ground arith)))
]

value_from-show : (n : ℕ) → value_from 0 (show n) ≡ n
unfolding show value_from
value_from-show n = value_from-show_loop (suc n) n "" (omega arith)

-- Zeros before a numeral do not change the number.
behind_zeros :
    (zeros s : String) → value_from 0 zeros ≡ 0 → value_from 0 (zeros ++ s) ≡ value_from 0 s
behind_zeros zeros s h = value_from-append 0 zeros s ∙ ap (λ k. value_from k s) h

padded :
    (s : String) (a b : Bool)
    → value_from 0 (if a then "00" ++ s else if b then "0" ++ s else s) ≡ value_from 0 s
unfolding value_from
padded s true b = behind_zeros "00" s refl
padded s false true = behind_zeros "0" s refl
padded s false false = refl

value_from-show_padded : (n : ℕ) → value_from 0 (show_padded n) ≡ n
unfolding show_padded
value_from-show_padded n = padded (show n) (ltb n 10) (ltb n 100) ∙ value_from-show n

pub show_padded_injective : (m n : ℕ) → show_padded m ≡ show_padded n → m ≡ n
show_padded_injective m n e =
    sym (value_from-show_padded m) ∙ (ap (value_from 0) e ∙ value_from-show_padded n)
