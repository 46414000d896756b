-- ===== src/Json/Laws.antt =====
-- The dictionary laws: what a key gives after an assignment.
use team_c_edr.Base.{String, false, none, some, ◌≡◌, refl, arith, str_eq, eq_iff, if◌then◌else◌}
use team_c_edr.Json.{Value, Fields, end, field, lookup, has_key, set_key}

pub lookup-set_key :
    (k j : String) (v : Value) (d : Fields)
    → lookup j (set_key k v d) ≡ (if str_eq k j then some v else lookup j d)
unfolding lookup set_key
lookup-set_key k j v end = ground arith
lookup-set_key k j v (field i w d) =
    ground (arith, lookup-set_key k j v d, eq_iff i k, eq_iff i j, eq_iff k j)

-- `k in d` exactly when the lookup finds a value.
pub has_key-lookup : (k : String) (d : Fields) → has_key k d ≡ false → lookup k d ≡ none
unfolding lookup has_key
has_key-lookup k end h = refl
has_key-lookup k (field j v d) h = ground (arith, has_key-lookup k d)

pub lookup-has_key : (k : String) (d : Fields) → lookup k d ≡ none → has_key k d ≡ false
unfolding lookup has_key
lookup-has_key k end h = refl
lookup-has_key k (field j v d) h = ground (arith, lookup-has_key k d)
