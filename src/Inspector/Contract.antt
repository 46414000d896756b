-- ===== src/Inspector/Contract.antt =====
-- The events made of proxy records meet the schema that src/detection_engine.py asks of an event.
use team_c_edr.Base.{
  ℕ, suc, String, true, none, some, Option, Option-cases, inl, inr, List, [], ◌∷◌, ◌≡◌, refl, subst,
  All,
}
use team_c_edr.Json.{str, Fields, get, has_key, truthy}
use team_c_edr.Python.{Runtime, DateTime, ok, hash_key, >>=-eq-ok, ok-injective}
use team_c_edr.Detection.Validate.{parses, missing, type_errors, is_supported}
use team_c_edr.Detection.Validate.Schema.{MeetsSchema, readable, clean-MeetsSchema}
use team_c_edr.Inspector.{
  Proxy, RecordKind, http, tls, application, type_of, record_kind, text_or_default, record_time,
  with_common, fields_of, record_event, add_made, records_from, events_from_l7_records,
}

module _ (rt : Runtime) (proxy : Proxy)
    (iso_parses : (t : DateTime) → parses rt (str (proxy.isoformat t)) ≡ true) where
  supported : (k : RecordKind) → type_errors (str (type_of rt proxy k)) ≡ ok []
  unfolding type_errors is_supported truthy hash_key
  supported http = refl
  supported tls = refl
  supported application = refl

  with_common-MeetsSchema :
      (index : ℕ) (host : String) (r : Fields) (t u : DateTime) (k : RecordKind) (rest : Fields)
      → MeetsSchema rt (with_common rt proxy index host r t u (type_of rt proxy k) rest)
  unfolding with_common get missing has_key
  with_common-MeetsSchema index host r t u k rest =
      let event = with_common rt proxy index host r t u (type_of rt proxy k) rest in
      clean-MeetsSchema rt event _ (type_of rt proxy k) refl refl refl (supported k)
        (readable rt "event_time" event (proxy.isoformat t) (iso_parses t) refl refl)
        (readable rt "received_time" event (proxy.isoformat u) (iso_parses u) refl refl)

  -- What a record is made into, if anything.
  abbrev MadeMeets : Option Fields → Type 0
  MadeMeets none = Unit
  MadeMeets (some event) = MeetsSchema rt event

  made-MeetsSchema :
      (index : ℕ) (host : String) (r : Fields) (made : Option Fields)
      → record_event rt proxy index host r ≡ ok made
      → MadeMeets made
  unfolding record_event
  made-MeetsSchema index host r made h =
      let t = record_time rt proxy (get "event_time" r) (proxy.fallback index) in
      let (received, e, rest) = >>=-eq-ok (proxy.second_later t) _ h in
      elim (Option-cases (
        record_kind
          (text_or_default rt proxy (get "record_type" r) (get "type" r) "http_request"))) [
            | inl unknown ↦ subst MadeMeets (ok-injective (rw unknown at rest)) tt
            | inr (k, known) ↦
                let (fields, e', done) = >>=-eq-ok (fields_of rt proxy k r) _ (rw known at rest) in
                subst MadeMeets (ok-injective done)
                  (with_common-MeetsSchema index host r t received k fields)
          ]

  added-MeetsSchema :
      (made : Option Fields) (events : List Fields)
      → MadeMeets made
      → All (MeetsSchema rt) events
      → All (MeetsSchema rt) (add_made rt proxy made events)
  added-MeetsSchema none events h k = k
  added-MeetsSchema (some event) events h k = (h, k)

  records_from-MeetsSchema :
      (index : ℕ) (host : String) (records events : List Fields)
      → records_from rt proxy index host records ≡ ok events
      → All (MeetsSchema rt) events
  unfolding records_from
  records_from-MeetsSchema index host [] events h = subst (All (MeetsSchema rt)) (ok-injective h) tt
  records_from-MeetsSchema index host (r ∷ records) events h =
      let (made, e, rest) = >>=-eq-ok (record_event rt proxy index host r) _ h in
      let (later, e', done) = >>=-eq-ok (records_from rt proxy (suc index) host records) _ rest in
      subst (All (MeetsSchema rt)) (ok-injective done) (
        added-MeetsSchema made later (made-MeetsSchema index host r made e)
          (records_from-MeetsSchema (suc index) host records later e'))

  -- Every event that the inspection records are mapped to has all the fields that the detector
  -- requires, a supported type and readable times, whatever the records leave out or hold:
  -- `_schema_errors` finds nothing in the event as it is, before its personal data is masked, if its id
  -- is new. The mapping returned, and the times that `isoformat` writes are ones that the detector
  -- reads.
  pub events_from_l7_records-MeetsSchema :
      (host : String) (records events : List Fields)
      → events_from_l7_records rt proxy host records ≡ ok events
      → All (MeetsSchema rt) events
  unfolding events_from_l7_records
  events_from_l7_records-MeetsSchema host records events h =
      records_from-MeetsSchema 1 host records events h
