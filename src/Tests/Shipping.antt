-- ===== src/Tests/Shipping.antt =====
-- Runs of `ship_events`.
use native.Mathlib.Decide.{ℕ_discrete}
use team_c_edr.Base.{
  show, ap, ◌≢◌, String, Bool-cases, str_eq, eq_iff, none, some, [], ◌∷◌, ◌≡◌, refl, inl, inr, In,
  here, ◌⊎◌, if◌then◌else◌, In-cons, ◌∙◌, sym,
}
use team_c_edr.Base.Int.{pos}
use team_c_edr.Json.{Value, Fields, field, end, int, str, get, objects, from_objects, size}
use team_c_edr.Agent.{
  after_spooling, queued, Outcome, AgentShipConfig, HttpSender, ShipResult, accepted, ready,
  returned, caught, escaped, Platform, Loaded, loaded, malformed, text, undecodable, spool_events,
  put_file, SpoolFile, Agent, Stamp, envelope, done, raised, ship_events, read_spooled_events,
  pending_spool_paths, is_json_value, request, json_objects_from_dicts,
}
use team_c_edr.Agent.Delivery.{Posted, Kept, IsDirectory, IsFresh}
use team_c_edr.Agent.Forwarding.{ship_events-forwards}
use team_c_edr.Agent.Reading.{RoundTrips, read_spooled_events-spool_events}
use team_c_edr.Agent.Settlement.{
  Settled, ship_events-Settled, ship_events-Kept, ship_events-drained,
}

abbrev event : Fields
event = field "event_id" (str "e1") end

abbrev old_event : Fields
old_event = field "event_id" (str "e0") end

abbrev config : AgentShipConfig
config = record {
  collector_url = "https://collector.example/v1/telemetry/events";
  identity = record {
    customer_id = "c";
    tenant_id = "t";
    agent_version = "0.3.0";
    payload_version = "1.1";
    api_token = "secret";
  };
  timeout_seconds = "8.0";
}

abbrev old_stamp : Stamp
old_stamp = record {
  name = "20260701T000000000000Z-0a.json";
  created_at = "2026-07-01T00:00:00+00:00";
}

abbrev stamp : Stamp
stamp = record { name = "20260702T000000000000Z-0b.json"; created_at = "2026-07-02T00:00:00+00:00" }

abbrev spooled : SpoolFile
spooled = record { name = old_stamp.name; content = text "old batch" }

-- Texts are named here; json knows two of them.
abbrev reading : String → Loaded
reading contents =
    if str_eq contents "old batch"
    then loaded (envelope old_stamp (old_event ∷ []) "timeout")
    else if str_eq contents "new batch"
    then loaded (envelope stamp (event ∷ []) "http_503")
    else malformed "Expecting value: line 1 column 1 (char 0)"

abbrev working : Platform
working = record {
  dumps = λ v. inl "new batch";
  loads = reading;
  list_error = λ s. none;
  write_error = λ s name contents. none;
  unlink_error = λ s name. none;
}

abbrev waiting : Agent
waiting = record { queue = spooled ∷ []; sent = [] }

abbrev accepting : HttpSender
accepting before r = returned (record {
  status_code = 202;
  body = field "accepted_count" (int (pos 1)) (field "task_id" (str "job-1") end);
  error = none;
})

-- The first call is answered, the second fails.
abbrev failing_second : HttpSender
failing_second [] r = accepting [] r
failing_second (x ∷ before) r = caught "timed out"

abbrev drained : ShipResult
drained = record {
  status = accepted;
  accepted_count = pos 1;
  task_id = some "job-1";
  replayed_count = 1;
  queued_count = 0;
  error = none;
}

drained_run : (ship_events working accepting config stamp (event ∷ []) waiting).0 ≡ done drained
unfolding ship_events pending_spool_paths read_spooled_events envelope get json_objects_from_dicts
    objects from_objects size
drained_run = refl

single-IsDirectory : (h : SpoolFile) → IsDirectory (h ∷ [])
single-IsDirectory h f g m n e = same (In-cons m) (In-cons n)
  where
    same : (f ≡ h) ⊎ In f [] → (g ≡ h) ⊎ In g [] → f ≡ g
    same (inl p) (inl q) = p ∙ sym q
    same (inl p) (inr q) = elim q [ ]
    same (inr p) q = elim p [ ]

stamp-IsFresh : IsFresh stamp (spooled ∷ [])
stamp-IsFresh f m = elim (In-cons m) [ inl e ↦ rw e refl | inr later ↦ elim later [ ] ]

ship_events-Settled_example :
    let (o, s') = ship_events working failing_second config stamp (event ∷ []) waiting in
    Settled working config stamp (event ∷ []) waiting.queue s' o
ship_events-Settled_example =
    ship_events-Settled working failing_second config stamp (event ∷ []) waiting

ship_events-Kept_example :
    Kept working config spooled
      (ship_events working failing_second config stamp (event ∷ []) waiting).1
ship_events-Kept_example =
    ship_events-Kept working failing_second config stamp (event ∷ []) waiting spooled
      (single-IsDirectory spooled) stamp-IsFresh here

ship_events-drained_example :
    (ship_events working accepting config stamp (event ∷ []) waiting).1.queue ≡ []
ship_events-drained_example =
    ship_events-drained working accepting config stamp (event ∷ []) waiting drained drained_run refl

text_discrete : Discrete String
text_discrete a b = elim (Bool-cases (str_eq a b)) [
  | inl same ↦ yes ((eq_iff a b).0 same)
  | inr other ↦ no (λ e. cc ((eq_iff a b).1 e, other))
]

value_discrete : Discrete Value
value_discrete = hlevel (text_discrete, ℕ_discrete)

-- A json that knows one value.
abbrev known : Value
known = envelope stamp (event ∷ []) "http_503"

abbrev written_or_raised : {v : Value} → Dec (v ≡ known) → String ⊎ String
written_or_raised (yes same) = inl "new batch"
written_or_raised (no other) = inr "RecursionError: maximum recursion depth exceeded"

abbrev one_value : Platform
one_value = record {
  dumps = λ v. written_or_raised (value_discrete v known);
  loads = λ contents. loaded known;
  list_error = λ s. none;
  write_error = λ s name contents. none;
  unlink_error = λ s name. none;
}

written_known :
    (v : Value) (d : Dec (v ≡ known)) (contents : String)
    → written_or_raised d ≡ inl contents
    → loaded known ≡ loaded v
written_known v (yes same) contents h = rw same refl
written_known v (no other) contents h = cc

one_value-RoundTrips : RoundTrips one_value
one_value-RoundTrips v contents is_json h = written_known v (value_discrete v known) contents h

known_written : (d : Dec (known ≡ known)) → written_or_raised d ≡ inl "new batch"
known_written (yes same) = refl
known_written (no other) = absurd (other refl)

known_spooled :
    (s : Agent)
    → spool_events one_value stamp (event ∷ []) "http_503" s
      ≡ inl (put_file stamp.name "new batch" s)
unfolding spool_events
known_spooled s = rw (spool_events, known_written (value_discrete known known)) refl

read_spooled_events-spool_events_example :
    (f : SpoolFile) × In f (put_file stamp.name "new batch" waiting).queue
    × (f.name ≡ stamp.name)
    × (read_spooled_events one_value f.content ≡ ready (event ∷ []))
unfolding is_json_value
read_spooled_events-spool_events_example =
    read_spooled_events-spool_events one_value stamp (event ∷ []) "http_503" waiting
      (put_file stamp.name "new batch" waiting) one_value-RoundTrips (refl, tt)
      (known_spooled waiting)

-- A file that is not UTF-8 ends every call: the batch is neither posted nor spooled.
abbrev damaged : SpoolFile
damaged = record {
  name = old_stamp.name;
  content = undecodable "'utf-8' codec can't decode byte 0xff in position 0: invalid start byte";
}

damaged_blocks :
    ship_events working accepting config stamp
      (event ∷ [])
      (record { queue = damaged ∷ []; sent = [] })
    ≡ (
      raised "'utf-8' codec can't decode byte 0xff in position 0: invalid start byte",
      record { queue = damaged ∷ []; sent = [] },
    )
unfolding ship_events pending_spool_paths read_spooled_events
damaged_blocks = refl

-- An exception that `_send` does not catch leaves the batch neither posted nor spooled.
abbrev broken : HttpSender
broken before r = escaped "IncompleteRead(0 bytes read)"

escaped_batch_lost :
    ship_events working broken config stamp (event ∷ []) (record { queue = []; sent = [] }) ≡ (
      raised "IncompleteRead(0 bytes read)",
      record {
        queue = [];
        sent =
            record {
              request = request config (event ∷ []);
              called = escaped "IncompleteRead(0 bytes read)";
            }
            ∷ [];
      },
    )
unfolding ship_events pending_spool_paths
escaped_batch_lost = refl

-- The collector is down for the first call and back for the second.
abbrev unavailable : HttpSender
unavailable before r = returned (record { status_code = 503; body = end; error = none })

abbrev idle : Agent
idle = record { queue = []; sent = [] }

abbrev stored : SpoolFile
stored = record { name = stamp.name; content = text "new batch" }

abbrev outage : Agent
outage = record {
  queue = stored ∷ [];
  sent =
      record {
        request = request config (event ∷ []);
        called = unavailable [] (request config (event ∷ []));
      }
      ∷ [];
}

abbrev postponed : ShipResult
postponed = record {
  status = queued;
  accepted_count = pos 0;
  task_id = none;
  replayed_count = 0;
  queued_count = 1;
  error = some "http_503";
}

outage_run :
    ship_events one_value unavailable config stamp (event ∷ []) idle ≡ (done postponed, outage)
unfolding ship_events pending_spool_paths spool_events show
outage_run =
    ap (after_spooling postponed (record idle { sent = outage.sent }))
      (known_spooled (record idle { sent = outage.sent }))

abbrev later_stamp : Stamp
later_stamp = record {
  name = "20260703T000000000000Z-0c.json";
  created_at = "2026-07-03T00:00:00+00:00";
}

recovery_run :
    (ship_events one_value accepting config later_stamp (old_event ∷ []) outage).0 ≡ done drained
unfolding ship_events pending_spool_paths read_spooled_events envelope get json_objects_from_dicts
    objects from_objects size
recovery_run = refl

later_stamp-IsFresh : IsFresh later_stamp (stored ∷ [])
later_stamp-IsFresh f m = elim (In-cons m) [ inl e ↦ rw e refl | inr later ↦ elim later [ ] ]

queued_not_accepted : queued ≢ accepted
queued_not_accepted e = cc

ship_events-forwards_example :
    Posted config
      (event ∷ [])
      (ship_events one_value accepting config later_stamp
        (old_event ∷ [])
        (ship_events one_value unavailable config stamp (event ∷ []) idle).1).1.sent
unfolding is_json_value
ship_events-forwards_example =
    ship_events-forwards one_value unavailable accepting config stamp later_stamp (event ∷ [])
      (old_event ∷ []) idle postponed drained one_value-RoundTrips (refl, tt)
      (ap (λ (x : Outcome × Agent). x.0) outage_run) queued_not_accepted
      (rw outage_run (single-IsDirectory stored)) (rw outage_run later_stamp-IsFresh)
      (rw outage_run recovery_run) refl
