-- ===== src/Detection/Validate/Laws.antt =====
-- What `_validate_and_sanitize` of src/detection_engine.py promises of the events that it lets
-- through and of those that it turns away.
use team_c_edr.Base.{
  ℕ, suc, ◌+◌, String, true, false, List, [], ◌∷◌, ◌≡◌, refl, ◌≢◌, inl, inr, arith, length, All,
  Bool-cases,
}
use team_c_edr.Json.{Value, Fields, get, has_key, truthy}
use team_c_edr.Python.{Runtime, ok, >>=-eq-ok, Key, hash_key, key_mem, >>=-returns}
use team_c_edr.Detection.Privacy.{is_sensitive, sanitize_event}
use team_c_edr.Detection.Privacy.Masking.{sanitize_event_safe}
use team_c_edr.Detection.Validate.Errors.{IsValidEvent, accepted_facts, rejected_facts}
use team_c_edr.Detection.Validate.{
  SchemaError, type_errors, schema_errors, DlqEvent, Split, file_event, seen_after, validate_from,
  validate_and_sanitize,
}

ok_injective {ℓ} : {A : Type ℓ} {a b : A} → ok a ≡ ok b → a ≡ b
ok_injective e = cc

module _ (rt : Runtime) where
  -- The ids of the events are hashable, differ from one another and from those in `seen`.
  abbrev pub FreshIds : List Key → List Fields → Type 0
  FreshIds seen [] = Unit
  FreshIds seen (event ∷ events) =
      (k : Key) × (hash_key (get "event_id" event) ≡ ok k)
      × (key_mem k seen ≡ false)
      × FreshIds (k ∷ seen) events

  -- The raw events from index `i` on, one by one and in order: the sanitized event is the next valid
  -- event if it is one and its id is new, and otherwise it is the next dead letter, with its index,
  -- its id and its errors.
  pub data Filed : ℕ → List Fields → List Key → List Fields → List DlqEvent → Type 0 where
    nothing : {i : ℕ} {seen : List Key} → Filed i [] seen [] []
    let_through :
        {i : ℕ} {raw : Fields} {raws : List Fields} {seen : List Key} {valid : List Fields}
        {dead : List DlqEvent} (k : Key) (event : Fields)
        → event ≡ (sanitize_event rt raw).0
        → hash_key (get "event_id" event) ≡ ok k
        → IsValidEvent rt event × (key_mem k seen ≡ false)
        → Filed (suc i) raws (k ∷ seen) valid dead
        → Filed i (raw ∷ raws) seen (event ∷ valid) dead
    turned_away :
        {i : ℕ} {raw : Fields} {raws : List Fields} {seen : List Key} {valid : List Fields}
        {dead : List DlqEvent} (k : Key) (event : Fields) (errors : List SchemaError)
        → event ≡ (sanitize_event rt raw).0
        → hash_key (get "event_id" event) ≡ ok k
        → ¬ (IsValidEvent rt event × (key_mem k seen ≡ false))
        → schema_errors rt event seen ≡ ok (k, errors)
        → Filed (suc i) raws seen valid dead
        → Filed i (raw ∷ raws) seen valid (
            record {
              index = i;
              event_id = get "event_id" event;
              errors = errors;
              sanitized_event = event;
            }
            ∷ dead)

  -- A dead letter has at least one error and no sensitive field.
  pub record IsDeadLetter (d : DlqEvent) : Type 0 where
    pub errors : d.errors ≢ []
    pub private_fields : (k : String) → is_sensitive k ≡ true → has_key k d.sanitized_event ≡ false

  -- What the loop over `raws`, from index `i` on and with the ids `seen` before it, gives.
  pub record Sorted (i : ℕ) (raws : List Fields) (seen : List Key) (r : Split) : Type 0 where
    pub filed : Filed i raws seen r.valid_events r.dlq_events
    pub valid : All (IsValidEvent rt) r.valid_events
    pub fresh : FreshIds seen r.valid_events
    pub dead : All IsDeadLetter r.dlq_events
    pub counted : length r.valid_events + length r.dlq_events ≡ length raws

  file_event-Sorted :
      (i : ℕ) (raw : Fields) (raws : List Fields) (seen : List Key) (k : Key)
      (errors : List SchemaError) (rest : Split)
      → schema_errors rt (sanitize_event rt raw).0 seen ≡ ok (k, errors)
      → Sorted (suc i) raws (seen_after rt k errors seen) rest
      → Sorted i (raw ∷ raws) seen (file_event rt i (sanitize_event rt raw).0 errors rest)
  unfolding file_event seen_after
  file_event-Sorted i raw raws seen k [] rest e later =
      let (good, hashed, fresh) = accepted_facts rt raw seen k e in
      record {
        filed = let_through k (sanitize_event rt raw).0 refl hashed (good, fresh) later.filed;
        valid = (good, later.valid);
        fresh = (k, hashed, fresh, later.fresh);
        dead = later.dead;
        counted = omega (arith, later.counted);
      }
  file_event-Sorted i raw raws seen k (x ∷ xs) rest e later = record {
    filed =
        let (hashed, defect) = rejected_facts rt (sanitize_event rt raw).0 seen k x xs e in
        turned_away k (sanitize_event rt raw).0 (x ∷ xs) refl hashed defect e later.filed;
    valid = later.valid;
    fresh = later.fresh;
    dead = (
      record { errors = λ h. cc; private_fields = λ j s. sanitize_event_safe rt j raw s },
      later.dead,
    );
    counted = omega (arith, later.counted);
  }

  validate_from-Sorted :
      (i : ℕ) (raws : List Fields) (seen : List Key) (r : Split)
      → validate_from rt i raws seen ≡ ok r
      → Sorted i raws seen r
  unfolding validate_from
  validate_from-Sorted i [] seen r h =
      rw (← ok_injective h)
        (record { filed = nothing; valid = tt; fresh = tt; dead = tt; counted = refl })
  validate_from-Sorted i (raw ∷ raws) seen r h =
      let event = (sanitize_event rt raw).0 in
      let (checked, e, h1) = >>=-eq-ok (schema_errors rt event seen) _ h in
      let (rest, e2, h2) =
        >>=-eq-ok (validate_from rt (suc i) raws (seen_after rt checked.0 checked.1 seen)) _ h1 in
      let later =
        validate_from-Sorted (suc i) raws (seen_after rt checked.0 checked.1 seen) rest e2 in
      let filed = file_event-Sorted i raw raws seen checked.0 checked.1 rest e later in
      rw (← ok_injective h2) (record {
        filed = filed.filed;
        valid = filed.valid;
        fresh = filed.fresh;
        dead = filed.dead;
        counted = filed.counted;
      })

  -- When validation returns, each raw event was filed in order: its sanitized form is the next valid
  -- event if it has what a valid event has and its id is new, and otherwise it is the next dead letter,
  -- with the index, the id and the schema errors of that event. Every valid event has the seven
  -- required fields, a supported type or none, timestamps that parse and no sensitive field, and its id
  -- is hashable and differs from those of the valid events before it. Every dead letter has an error,
  -- and no sensitive field. The two counts add up to that of the raw events.
  pub validate_and_sanitize-Sorted :
      (raws : List Fields) (r : Split) → validate_and_sanitize rt raws ≡ ok r → Sorted 0 raws [] r
  unfolding validate_and_sanitize
  validate_and_sanitize-Sorted raws r h = validate_from-Sorted 0 raws [] r h

  abbrev pub IsHashable : Value → Type 0
  IsHashable v = (k : Key) × (hash_key v ≡ ok k)

  type_errors-returns :
      (v : Value) → IsHashable v → (es : List SchemaError) × (type_errors v ≡ ok es)
  unfolding type_errors
  type_errors-returns v (k, e) = elim (Bool-cases (truthy v)) [
    | inl set ↦ rw set (>>=-returns (hash_key v) _ e (_, refl))
    | inr falsy ↦ ([], rw falsy refl)
  ]

  schema_errors-returns :
      (event : Fields) (seen : List Key)
      → IsHashable (get "event_id" event)
      → IsHashable (get "event_type" event)
      → (x : Key × List SchemaError) × (schema_errors rt event seen ≡ ok x)
  unfolding schema_errors
  schema_errors-returns event seen (k, e) t =
      let (types, e') = type_errors-returns (get "event_type" event) t in
      >>=-returns (hash_key (get "event_id" event)) _ e
        (>>=-returns (type_errors (get "event_type" event)) _ e' (_, refl))

  validate_from-returns :
      (i : ℕ) (raws : List Fields) (seen : List Key)
      → All
          (λ raw.
            IsHashable (get "event_id" (sanitize_event rt raw).0)
            × IsHashable (get "event_type" (sanitize_event rt raw).0))
          raws
      → (r : Split) × (validate_from rt i raws seen ≡ ok r)
  unfolding validate_from
  validate_from-returns i [] seen h = (_, refl)
  validate_from-returns i (raw ∷ raws) seen h =
      let (checked, e) = schema_errors-returns (sanitize_event rt raw).0 seen h.0.0 h.0.1 in
      let (rest, e2) =
        validate_from-returns (suc i) raws (seen_after rt checked.0 checked.1 seen) h.1 in
      >>=-returns (schema_errors rt (sanitize_event rt raw).0 seen) _ e (
        >>=-returns (validate_from rt (suc i) raws (seen_after rt checked.0 checked.1 seen)) _ e2
          (_, refl))

  -- Validation returns whenever the id and the type of every sanitized event are hashable.
  pub validate_and_sanitize-returns :
      (raws : List Fields)
      → All
          (λ raw.
            IsHashable (get "event_id" (sanitize_event rt raw).0)
            × IsHashable (get "event_type" (sanitize_event rt raw).0))
          raws
      → (r : Split) × (validate_and_sanitize rt raws ≡ ok r)
  unfolding validate_and_sanitize
  validate_and_sanitize-returns raws h = validate_from-returns 0 raws [] h
