-- ===== src/Detection/Validate/Schema.antt =====
-- What the collectors promise of an event, and what makes it hold.
use team_c_edr.Base.{String, true, false, List, [], ◌≡◌, refl}
use team_c_edr.Json.{str, Fields, get, has_key}
use team_c_edr.Python.{Runtime, ok, Key, text_key, hash_key, key_mem}
use team_c_edr.Detection.Validate.{
  parses, schema_errors, missing, missing_errors, type_errors, time_errors,
}

-- The only error that `_schema_errors` can find in the event is that its id was seen before.
pub record MeetsSchema (rt : Runtime) (event : Fields) : Type 0 where
  pub key : Key
  pub id : hash_key (get "event_id" event) ≡ ok key
  pub valid :
      (seen : List Key) → key_mem key seen ≡ false → schema_errors rt event seen ≡ ok (key, [])

module _ (rt : Runtime) where
  pub readable :
      (f : String) (event : Fields) (text : String)
      → parses rt (str text) ≡ true
      → has_key f event ≡ true
      → get f event ≡ str text
      → time_errors rt f event ≡ []
  unfolding time_errors
  readable f event text reads h e = rw (h, e, reads) refl

  pub clean-MeetsSchema :
      (event : Fields) (id type : String)
      → get "event_id" event ≡ str id
      → missing event ≡ []
      → get "event_type" event ≡ str type
      → type_errors (str type) ≡ ok []
      → time_errors rt "event_time" event ≡ []
      → time_errors rt "received_time" event ≡ []
      → MeetsSchema rt event
  unfolding schema_errors hash_key missing_errors
  clean-MeetsSchema event id type named complete typed supported first_read last_read = record {
    key = text_key id;
    id = rw named refl;
    valid = λ seen fresh. rw (named, typed, supported, complete, fresh, first_read, last_read) refl;
  }
