-- ===== src/Agent/Reading.antt =====
-- What a spooled file of src/agent_shipper.py reads back as: the text that json wrote for a batch is
-- read as the events of that batch.
use team_c_edr.Base.{
  suc, true, List, [], ◌∷◌, ◌≡◌, refl, ◌⊎◌, inl, arith, In, All, length, ap, and_true,
}
use team_c_edr.Json.{Fields, field, end, from_objects, objects, size, get}
use team_c_edr.Agent.{
  ready, SpoolFile, text, Platform, loaded, spool_events, read_document, read_events, Agent, Stamp,
  read_spooled_events, envelope, json_object, json_objects_from_dicts, all_json_fields,
  is_json_value, String, Value, all_json_items,
}
use team_c_edr.Agent.Delivery.{put_file-In, spool_events-Wrote, wrote, not_serialised, not_written}

inl-injective : (u : Agent ⊎ String) {x y : Agent} → u ≡ inl x → u ≡ inl y → x ≡ y
inl-injective u e e' = cc

json_object_same : (d : Fields) → all_json_fields d ≡ true → json_object d ≡ d
unfolding json_object is_json_value
json_object_same end h = refl
json_object_same (field k v d) h =
    let p = and_true (is_json_value v) (all_json_fields d) h in rw p.0 (rw (json_object_same d p.1))

normalized_same :
    (events : List Fields)
    → All (λ d. all_json_fields d ≡ true) events
    → json_objects_from_dicts (objects (from_objects events)) ≡ events
unfolding json_objects_from_dicts objects from_objects
normalized_same [] h = refl
normalized_same (d ∷ ds) h = rw (json_object_same d h.0, normalized_same ds h.1)

size-from_objects : (events : List Fields) → size (from_objects events) ≡ length events
unfolding size from_objects
size-from_objects [] = refl
size-from_objects (d ∷ ds) = ap suc (size-from_objects ds)

-- What json promises: the text of a JSON value decodes to that value.
abbrev pub RoundTrips : Platform → Type 0
RoundTrips io =
    (v : Value) (contents : String)
    → is_json_value v ≡ true
    → io.dumps v ≡ inl contents
    → io.loads contents ≡ loaded v

all_json_items-from_objects :
    (events : List Fields)
    → All (λ d. all_json_fields d ≡ true) events
    → all_json_items (from_objects events) ≡ true
unfolding is_json_value from_objects
all_json_items-from_objects [] h = refl
all_json_items-from_objects (d ∷ ds) h = rw (h.0, all_json_items-from_objects ds h.1) refl

read_document-envelope :
    (t : Stamp) (events : List Fields) (why : String)
    → All (λ d. all_json_fields d ≡ true) events
    → read_document (envelope t events why) ≡ ready events
unfolding read_document read_events envelope get
read_document-envelope t events why h =
    rw (normalized_same events h, size-from_objects events) (ground arith)

envelope-IsJson :
    (t : Stamp) (events : List Fields) (why : String)
    → All (λ d. all_json_fields d ≡ true) events
    → is_json_value (envelope t events why) ≡ true
unfolding is_json_value envelope
envelope-IsJson t events why h = rw (all_json_items-from_objects events h) refl

-- The text of a spooled batch is read as its events.
pub read_spooled_events-dumps :
    (io : Platform) (t : Stamp) (events : List Fields) (why contents : String)
    → RoundTrips io
    → All (λ d. all_json_fields d ≡ true) events
    → io.dumps (envelope t events why) ≡ inl contents
    → read_spooled_events io (text contents) ≡ ready events
unfolding read_spooled_events
read_spooled_events-dumps io t events why contents law h d =
    rw
      (read_spooled_events, law (envelope t events why) contents (envelope-IsJson t events why h) d)
      (read_document-envelope t events why h)

-- A batch that was spooled reads back: if writing it raises no exception, the directory then holds a
-- file of the new name whose text is read as the events of the batch. The batch holds JSON values
-- only, and json decodes the text of a JSON value to that value.
pub read_spooled_events-spool_events :
    (io : Platform) (t : Stamp) (events : List Fields) (why : String) (s s' : Agent)
    → RoundTrips io
    → All (λ d. all_json_fields d ≡ true) events
    → spool_events io t events why s ≡ inl s'
    → (f : SpoolFile) × In f s'.queue
      × (f.name ≡ t.name)
      × (read_spooled_events io f.content ≡ ready events)
read_spooled_events-spool_events io t events why s s' law h e =
    elim (spool_events-Wrote io t events why s)
        as (λ x _.
          x ≡ inl s'
          → (f : SpoolFile) × In f s'.queue
            × (f.name ≡ t.name)
            × (read_spooled_events io f.content ≡ ready events)) [
              | wrote contents d ↦ λ same. (
                record { name = t.name; content = text contents },
                rw (← inl-injective _ refl same) (put_file-In t.name contents s),
                refl,
                read_spooled_events-dumps io t events why contents law h d,
              )
              | not_serialised d ↦ λ same. cc
              | not_written contents w ↦ λ same. cc
            ]
      e
