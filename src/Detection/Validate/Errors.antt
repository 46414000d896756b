-- ===== src/Detection/Validate/Errors.antt =====
-- The schema errors of src/detection_engine.py: an event has none exactly if it has what a valid event
-- has and its id is new.
use team_c_edr.Base.{
  String, Bool, true, false, not, List, [], ◌∷◌, ◌++◌, ◌≡◌, refl, sym, ◌⊎◌, inl, inr, arith, ap,
  select, All, Bool-cases, if◌then◌else◌,
}
use team_c_edr.Json.{Value, Fields, get, has_key, truthy}
use team_c_edr.Python.{Runtime, ok, >>=-eq-ok, Key, hash_key, key_mem}
use team_c_edr.Detection.Privacy.{is_sensitive, sanitize_event}
use team_c_edr.Detection.Privacy.Masking.{sanitize_event_safe}
use team_c_edr.Detection.Validate.{
  required_event_fields, SchemaError, duplicate_id, missing, missing_errors, is_supported,
  type_errors, parses, time_errors, schema_errors,
}

append-eq-nil {ℓ} : {A : Type ℓ} (xs ys : List A) → xs ++ ys ≡ [] → (xs ≡ []) × (ys ≡ [])
append-eq-nil [] ys h = (refl, h)
append-eq-nil (x ∷ xs) ys h = cc

select-eq-nil {ℓ} :
    {A : Type ℓ} (p : A → Bool) (xs : List A) → select p xs ≡ [] → All (λ x. p x ≡ false) xs
select-eq-nil p [] h = tt
select-eq-nil p (x ∷ xs) h = elim (Bool-cases (p x)) [
  | inl keep ↦ cc (rw keep at h)
  | inr skip ↦ (skip, select-eq-nil p xs (rw skip at h))
]

ok_injective {ℓ} : {A : Type ℓ} {a b : A} → ok a ≡ ok b → a ≡ b
ok_injective e = cc

missing_errors-eq-nil : (fs : List String) → missing_errors fs ≡ [] → fs ≡ []
unfolding missing_errors
missing_errors-eq-nil [] h = refl
missing_errors-eq-nil (f ∷ fs) h = cc

missing-eq-nil :
    (event : Fields)
    → missing event ≡ []
    → All (λ f. not (has_key f event) ≡ false) required_event_fields
unfolding missing
missing-eq-nil event h = select-eq-nil (λ f. not (has_key f event)) required_event_fields h

type_errors-eq-nil :
    (v : Value) → type_errors v ≡ ok [] → (truthy v ≡ false) ⊎ (is_supported v ≡ true)
unfolding type_errors
type_errors-eq-nil v h = elim (Bool-cases (truthy v)) [
  | inr falsy ↦ inl falsy
  | inl set ↦ let (k, e, r) = >>=-eq-ok (hash_key v) _ (rw set at h) in inr (ground arith)
]

time_errors-eq-nil :
    (rt : Runtime) (f : String) (event : Fields)
    → time_errors rt f event ≡ []
    → not (has_key f event) ≡ false
    → parses rt (get f event) ≡ true
unfolding time_errors
time_errors-eq-nil rt f event h there_is = ground arith

module _ (rt : Runtime) where
  -- What a valid event has.
  pub record IsValidEvent (event : Fields) : Type 0 where
    pub complete : All (λ f. not (has_key f event) ≡ false) required_event_fields
    pub supported :
        (truthy (get "event_type" event) ≡ false) ⊎ (is_supported (get "event_type" event) ≡ true)
    pub event_time : parses rt (get "event_time" event) ≡ true
    pub received_time : parses rt (get "received_time" event) ≡ true
    pub private_fields : (k : String) → is_sensitive k ≡ true → has_key k event ≡ false

  fresh_key :
      (k : Key) (seen : List Key) (v : Value)
      → (if key_mem k seen then duplicate_id v ∷ [] else []) ≡ []
      → key_mem k seen ≡ false
  fresh_key k seen v h = ground arith

  -- An event without errors.
  pub accepted_facts :
      (raw : Fields) (seen : List Key) (k : Key)
      → let event = (sanitize_event rt raw).0 in
        schema_errors rt event seen ≡ ok (k, [])
        → IsValidEvent event × (hash_key (get "event_id" event) ≡ ok k) × (key_mem k seen ≡ false)
  unfolding schema_errors
  accepted_facts raw seen k h =
      let event = (sanitize_event rt raw).0 in
      let (k', hashed, h1) = >>=-eq-ok (hash_key (get "event_id" event)) _ h in
      let (types, typed, h2) = >>=-eq-ok (type_errors (get "event_type" event)) _ h1 in
      let same = ap (λ (x : Key × List SchemaError). x.0) (ok_injective h2) in
      let (no_missing, e1) =
        append-eq-nil (missing_errors (missing event)) _
          (ap (λ (x : Key × List SchemaError). x.1) (ok_injective h2)) in
      let (no_double, e2) =
        append-eq-nil (if key_mem k' seen then duplicate_id (get "event_id" event) ∷ [] else []) _
          e1 in
      let (no_type, e3) = append-eq-nil types _ e2 in
      let (no_time, no_received) = append-eq-nil (time_errors rt "event_time" event) _ e3 in
      let complete = missing-eq-nil event (missing_errors-eq-nil (missing event) no_missing) in
      (
        record {
          complete = complete;
          supported = type_errors-eq-nil (get "event_type" event) (rw no_type at typed);
          event_time = time_errors-eq-nil rt "event_time" event no_time complete.1.0;
          received_time =
              time_errors-eq-nil rt "received_time" event no_received complete.1.1.1.1.1.0;
          private_fields = λ j s. sanitize_event_safe rt j raw s;
        },
        rw same at hashed,
        rw same at (fresh_key k' seen (get "event_id" event) no_double),
      )

  missing-nil :
      (event : Fields) (fs : List String)
      → All (λ f. not (has_key f event) ≡ false) fs
      → select (λ f. not (has_key f event)) fs ≡ []
  missing-nil event [] h = refl
  missing-nil event (f ∷ fs) h = rw h.0 (missing-nil event fs h.1)

  type_errors-nil :
      (v : Value) (es : List SchemaError)
      → (truthy v ≡ false) ⊎ (is_supported v ≡ true)
      → type_errors v ≡ ok es
      → es ≡ []
  unfolding type_errors
  type_errors-nil v es h e = elim (Bool-cases (truthy v)) [
    | inr falsy ↦ sym (ok_injective (rw falsy at e))
    | inl set ↦
        let (k, e1, e2) = >>=-eq-ok (hash_key v) _ (rw set at e) in ground (arith, ok_injective e2)
  ]

  time_errors-nil :
      (f : String) (event : Fields) → parses rt (get f event) ≡ true → time_errors rt f event ≡ []
  unfolding time_errors
  time_errors-nil f event h = ground arith

  -- An event with errors lacks something that a valid event has, or repeats an id.
  pub rejected_facts :
      (event : Fields) (seen : List Key) (k : Key) (x : SchemaError) (xs : List SchemaError)
      → schema_errors rt event seen ≡ ok (k, x ∷ xs)
      → (hash_key (get "event_id" event) ≡ ok k) × ¬ (IsValidEvent event × (key_mem k seen ≡ false))
  unfolding schema_errors missing missing_errors
  rejected_facts event seen k x xs h =
      let (k', hashed, h1) = >>=-eq-ok (hash_key (get "event_id" event)) _ h in
      let (types, typed, h2) = >>=-eq-ok (type_errors (get "event_type" event)) _ h1 in
      let same = ap (λ (y : Key × List SchemaError). y.0) (ok_injective h2) in
      let errors = ap (λ (y : Key × List SchemaError). y.1) (ok_injective h2) in
      (
        rw same at hashed,
        λ (valid, fresh). cc (
            rw
              (
                missing-nil event required_event_fields valid.complete,
                same,
                fresh,
                type_errors-nil (get "event_type" event) types valid.supported typed,
                time_errors-nil "event_time" event valid.event_time,
                time_errors-nil "received_time" event valid.received_time,
              )
              at errors),
      )
