-- ===== src/Python.antt =====
-- What the detector uses of Python: exceptions as values, the hash key of a value, and, as a
-- parameter, the library functions that the program only calls (regular expressions, `datetime`,
-- `urlparse`, `str`, `int`, number formats, case mapping). A `datetime` is its instant in
-- microseconds from a fixed origin before all dates, its hour as written, and whether it has an offset.
use team_c_edr.Base.{
  ℕ, String, Bool, true, false, Option, List, [], ◌∷◌, ◌≡◌, str_eq, ◌==◌, ◌||◌, ◌⊎◌, inl, inr, refl,
  if◌then◌else◌,
}
use team_c_edr.Base.Int.{ℤ, pos, negsuc}
use team_c_edr.Json.{Value, null, bool, int, float, str, arr, obj, opaque}

pub data Raised : Type 0 where
  type_error value_error attribute_error key_error : Raised
  no_valid_events index_error struct_error pcap_flow_error : Raised

-- A call returns a value or raises.
pub data Result {ℓ} (V : Type ℓ) : Type ℓ where
  err : (raised : Raised) → Result V
  ok : (value : V) → Result V

infixl 10 ◌>>=◌
abbrev pub ◌>>=◌ {ℓ κ} : {V : Type ℓ} {W : Type κ} → Result V → (V → Result W) → Result W
err raised >>= next = err raised
ok value >>= next = next value

pub record DateTime : Type 0 where
  pub aware : Bool
  pub instant : ℕ
  pub hour : ℕ

pub record Runtime : Type 0 where
  -- `EMAIL_RE.sub`, `PHONE_RE.sub`, `KOREAN_RRN_RE.sub` of src/privacy.py
  pub sub_email : String → String
  pub sub_phone : String → String
  pub sub_rrn : String → String
  -- `datetime.fromisoformat(s.replace("Z", "+00:00"))`; `none` is a `ValueError`
  pub from_isoformat : String → Option DateTime
  -- `str(urlparse(s).hostname or "")`, or its `ValueError`
  pub hostname : String → Result String
  -- `str(v)`, also as an f-string writes it
  pub to_str : Value → String
  -- `int(v)`
  pub to_int : Value → Result ℤ
  -- `f"{n}"` and `f"{n:,}"`
  pub show_int : ℤ → String
  pub show_commas : ℤ → String
  -- `s.lower()`, `s.endswith(t)`, `t in s`, `s[:12]`
  pub lower : String → String
  pub ends_with : String → String → Bool
  pub contains : String → String → Bool
  pub first_twelve : String → String
  -- `v == w`
  pub equals : Value → Value → Bool
  -- `x < y` for two numbers, written as their `repr`, of which one is a float
  pub float_less : String → String → Bool

-- What two hashable values share if a `set` or `dict` takes them for one key: `True` is 1 and
-- `False` is 0. A float is told apart from the integer that it may equal.
pub data Key : Type 0 where
  no_key : Key
  text_key : String → Key
  int_key : ℤ → Key
  float_key : String → Key

-- `hash(v)`: lists and dictionaries raise a `TypeError`. Events are decoded from JSON, so no `opaque`
-- value comes here; it is taken to raise.
unfoldable pub hash_key : Value → Result Key
hash_key null = ok no_key
hash_key (bool b) = ok (int_key (pos (if b then 1 else 0)))
hash_key (int z) = ok (int_key z)
hash_key (float r) = ok (float_key r)
hash_key (str s) = ok (text_key s)
hash_key (arr vs) = err type_error
hash_key (obj d) = err type_error
hash_key (opaque r) = err type_error

int_eq : ℤ → ℤ → Bool
int_eq (pos n) (pos m) = n == m
int_eq (negsuc n) (negsuc m) = n == m
int_eq z w = false

unfoldable pub key_eq : Key → Key → Bool
unfolding int_eq
key_eq no_key no_key = true
key_eq (text_key s) (text_key t) = str_eq s t
key_eq (int_key z) (int_key w) = int_eq z w
key_eq (float_key r) (float_key q) = str_eq r q
key_eq k j = false

-- `k in seen`
unfoldable pub key_mem : Key → List Key → Bool
key_mem k [] = false
key_mem k (j ∷ js) = key_eq j k || key_mem k js

pub Result-cases {ℓ} :
    {A : Type ℓ} (r : Result A) → ((a : A) × (r ≡ ok a)) ⊎ ((e : Raised) × (r ≡ err e))
Result-cases (ok a) = inl (a, refl)
Result-cases (err e) = inr (e, refl)

-- A successful bind had a successful first part.
pub >>=-eq-ok {ℓ κ} :
    {V : Type ℓ} {W : Type κ} (call : Result V) (next : V → Result W) {w : W}
    → (call >>= next) ≡ ok w
    → (v : V) × (call ≡ ok v) × (next v ≡ ok w)
>>=-eq-ok (err raised) next same = cc
>>=-eq-ok (ok v) next same = (v, refl, same)

-- A bind whose parts succeed succeeds.
pub >>=-returns {ℓ κ} :
    {A : Type ℓ} {B : Type κ} (m : Result A) (f : A → Result B) {a : A}
    → m ≡ ok a
    → ((b : B) × (f a ≡ ok b))
    → (b : B) × ((m >>= f) ≡ ok b)
>>=-returns m f e h = (h.0, rw e h.1)

pub ok-injective {ℓ} : {A : Type ℓ} {a b : A} → ok a ≡ ok b → a ≡ b
ok-injective e = cc
