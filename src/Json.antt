-- ===== src/Json.antt =====
-- The Python values that JSON text decodes to, and the dictionaries made of them: the `JsonValue` and
-- `JsonObject` of src/agent_shipper.py and src/service_store_payloads.py. An integer is exact, a float
-- is carried as its `repr`. `opaque` stands for any object that is not a JSON value (a tuple, a
-- `datetime`, bytes), carried as its `repr`.
pub mod Laws
use team_c_edr.Base.{
  ℕ, String, Bool, true, false, not, ◌||◌, Option, none, some, List, [], ◌∷◌, str_eq, if◌then◌else◌,
}
use team_c_edr.Base.Int.{ℤ, is_zero}

mutual
  pub data Value : Type 0 where
    null : Value
    bool : Bool → Value
    int : ℤ → Value
    float : String → Value
    str : String → Value
    arr : Items → Value
    obj : Fields → Value
    opaque : String → Value

  pub data Items : Type 0 where
    nil : Items
    cons : Value → Items → Items

  pub data Fields : Type 0 where
    end : Fields
    field : String → Value → Fields → Fields

-- A `dict[str, Any]` in its insertion order.
abbrev pub Event : Type 0
Event = Fields

-- `d.get(k)`; a missing key and a key with `None` are told apart by `has_key`.
unfoldable pub lookup : String → Fields → Option Value
lookup k end = none
lookup k (field j v rest) = if str_eq j k then some v else lookup k rest

abbrev pub or_null : Option Value → Value
or_null none = null
or_null (some v) = v

unfoldable pub get : String → Fields → Value
unfolding lookup
get k d = or_null (lookup k d)

-- `k in d`
unfoldable pub has_key : String → Fields → Bool
has_key k end = false
has_key k (field j v rest) = str_eq j k || has_key k rest

-- `d[k] = v`: the place of an old key is kept.
unfoldable pub set_key : String → Value → Fields → Fields
set_key k v end = field k v end
set_key k v (field j w rest) = if str_eq j k then field j v rest else field j w (set_key k v rest)

-- `bool(v)`
unfoldable pub truthy : Value → Bool
truthy null = false
truthy (bool b) = b
truthy (int z) = not (is_zero z)
truthy (float r) = not (str_eq r "0.0" || str_eq r "-0.0")
truthy (str s) = not (str_eq s "")
truthy (arr nil) = false
truthy (arr (cons v vs)) = true
truthy (obj end) = false
truthy (obj (field k v d)) = true
truthy (opaque r) = true

-- `a or b`
unfoldable pub or_else : Value → Value → Value
unfolding truthy
or_else a b = if truthy a then a else b

-- `isinstance(v, dict)` and `isinstance(v, list)`, with the contents.
abbrev pub as_obj : Value → Option Fields
as_obj (obj d) = some d
as_obj v = none

abbrev pub as_arr : Value → Option Items
as_arr (arr vs) = some vs
as_arr v = none

-- The objects of a list, the others dropped.
unfoldable pub objects : Items → List Fields
objects nil = []
objects (cons (obj d) vs) = d ∷ objects vs
objects (cons v vs) = objects vs

unfoldable pub size : Items → ℕ
size nil = 0
size (cons v vs) = ℕ.suc (size vs)

-- A list of dictionaries as a JSON list.
unfoldable pub from_objects : List Fields → Items
from_objects [] = nil
from_objects (d ∷ ds) = cons (obj d) (from_objects ds)

unfoldable pub texts : List String → Items
texts [] = nil
texts (s ∷ ss) = cons (str s) (texts ss)
