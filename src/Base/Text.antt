-- ===== src/Base/Text.antt =====
-- Python's operations on whole texts that the program uses.
use Prim.Native.String
use Prim.Native.String.{String, ◌++◌}
use Prim.Native.Nat.{ℕ, zero, suc, ◌/◌, ◌%◌}
use mathlib.Core.Bool.{Bool, false, ◌||◌}
use mathlib.Core.Option.{Option, none, some}
use mathlib.Core.List.{List, [], ◌∷◌}
use text.Mathlib.Text
use mathlib.Core.Path.{◌≡◌, refl}
use team_c_edr.Base.Tests.{ltb, if◌then◌else◌}

-- `s == t`
abbrev pub str_eq : String → String → Bool
str_eq s t = Text.◌==◌ s t

-- `s < t`, by code points.
abbrev pub str_lt : String → String → Bool
str_lt s t = Text.is_lt (String.compare s t)

-- `s in xs` for a list or set of texts.
abbrev pub str_mem : String → List String → Bool
str_mem s [] = false
str_mem s (t ∷ ts) = str_eq s t || str_mem s ts

-- `s or t`
abbrev pub str_or : String → String → String
str_or s t = if str_eq s "" then t else s

-- `e or t` for an `e` that may be `None`.
abbrev pub text_or : Option String → String → String
text_or none t = t
text_or (some s) t = str_or s t

abbrev pub digit : ℕ → String
digit zero = "0"
digit (suc zero) = "1"
digit (suc (suc zero)) = "2"
digit (suc (suc (suc zero))) = "3"
digit (suc (suc (suc (suc zero)))) = "4"
digit (suc (suc (suc (suc (suc zero))))) = "5"
digit (suc (suc (suc (suc (suc (suc zero)))))) = "6"
digit (suc (suc (suc (suc (suc (suc (suc zero))))))) = "7"
digit (suc (suc (suc (suc (suc (suc (suc (suc zero)))))))) = "8"
digit _ = "9"

-- One round for each digit: `suc n` rounds are more than `n` has digits.
unfoldable pub show_loop : ℕ → ℕ → String → String
show_loop zero n after = after
show_loop (suc fuel) n after =
    let text = digit (n % 10) ++ after in
    let more = show_loop fuel (n / 10) text in if ltb n 10 then text else more

-- `str(n)`
unfoldable pub show : ℕ → String
unfolding show_loop
show n = show_loop (suc n) n ""

-- `f"{n:03d}"`
unfoldable pub show_padded : ℕ → String
unfolding show
show_padded n = if ltb n 10 then "00" ++ show n else if ltb n 100 then "0" ++ show n else show n

show_examples : show_padded 42 ++ show 1305 ≡ "0421305"
unfolding show_padded
show_examples = refl
