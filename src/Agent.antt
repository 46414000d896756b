-- ===== src/Agent.antt =====
-- src/agent_shipper.py: a batch of events is posted to the collector, after the batches that earlier
-- failures left in the queue directory. The directory holds its `*.json` files, each as its text or as
-- the error of reading it; the temporary file of an unfinished write is not among them. The HTTP
-- client is a parameter: what a call gives may depend on all that was sent before. So are json and
-- the calls of the file system, each of which may raise.
pub mod Delivery
pub mod Settlement
pub mod Reading
pub mod Forwarding
use team_c_edr.Base.{
  ℕ, zero, suc, String, ◌<>◌, Bool, true, false, not, ◌&&◌, ◌||◌, Option, none, some, List, [], ◌∷◌,
  ◌++◌, ◌⊎◌, inl, inr, ◌==◌, str_eq, str_lt, text_or, show, length, select, sort_by, if◌then◌else◌,
}
use team_c_edr.Base.Int.{ℤ, pos}
use team_c_edr.Json.{
  Value, null, bool, int, float, str, arr, obj, opaque, Items, nil, cons, Fields, end, field, get,
  as_obj, as_arr, objects, size, from_objects,
}

pub record AgentIdentity : Type 0 where
  pub customer_id : String
  pub tenant_id : String
  pub agent_version : String
  pub payload_version : String
  pub api_token : String

-- `queue_dir` is the state below; the time limit is a float, carried as its `repr`.
pub record AgentShipConfig : Type 0 where
  pub collector_url : String
  pub identity : AgentIdentity
  pub timeout_seconds : String

pub record AgentHttpRequest : Type 0 where
  pub url : String
  pub payload : Fields
  pub headers : List (String × String)
  pub timeout_seconds : String

pub record HttpSendResult : Type 0 where
  pub status_code : ℕ
  pub body : Fields
  pub error : Option String

pub data ShipStatus : Type 0 where
  accepted queued rejected : ShipStatus

pub record ShipResult : Type 0 where
  pub status : ShipStatus
  pub accepted_count : ℤ
  pub task_id : Option String
  pub replayed_count : ℕ
  pub queued_count : ℕ
  pub error : Option String

-- `SpoolReadResult`: its status "blocked" with the error, or "ready" with the events. The third case
-- is an exception that leaves `_read_spooled_events`.
pub data SpoolReadResult : Type 0 where
  blocked : String → SpoolReadResult
  ready : List Fields → SpoolReadResult
  read_raised : String → SpoolReadResult

-- What a call of the HTTP client does: a result, an exception of the kinds that `_send` catches, or
-- another one.
pub data Called : Type 0 where
  returned : HttpSendResult → Called
  caught : String → Called
  escaped : String → Called

pub record Exchange : Type 0 where
  pub request : AgentHttpRequest
  pub called : Called

abbrev pub HttpSender : Type 0
HttpSender = List Exchange → AgentHttpRequest → Called

-- What `path.read_text(encoding="utf-8")` does: it raises an `OSError`, it raises the
-- `UnicodeDecodeError` of bytes that are not UTF-8, or it gives the text.
pub data Content : Type 0 where
  unreadable : String → Content
  undecodable : String → Content
  text : String → Content

pub record SpoolFile : Type 0 where
  pub name : String
  pub content : Content

-- The queue directory, and all that was sent so far.
pub record Agent : Type 0 where
  pub queue : List SpoolFile
  pub sent : List Exchange

-- The clock and the random part of a new file's name.
pub record Stamp : Type 0 where
  pub name : String
  pub created_at : String

-- What `json.loads` does: a value, a `JSONDecodeError`, or another exception (`RecursionError`).
pub data Loaded : Type 0 where
  loaded : Value → Loaded
  malformed : String → Loaded
  load_raised : String → Loaded

-- The library calls, with the text of the exception that they raise. `dumps` and `loads` are those of
-- json. `list_error` is that of listing the directory, `write_error` that of `mkdir`, `write_text` and
-- `replace` for a file name and a text, `unlink_error` that of `unlink` for a file name.
pub record Platform : Type 0 where
  pub dumps : Value → String ⊎ String
  pub loads : String → Loaded
  pub list_error : Agent → Option String
  pub write_error : Agent → String → String → Option String
  pub unlink_error : Agent → String → Option String

unfoldable mutual
  pub is_json_value : Value → Bool
  is_json_value null = true
  is_json_value (bool b) = true
  is_json_value (int z) = true
  is_json_value (float r) = true
  is_json_value (str s) = true
  is_json_value (arr vs) = all_json_items vs
  is_json_value (obj d) = all_json_fields d
  is_json_value (opaque r) = false

  pub all_json_items : Items → Bool
  all_json_items nil = true
  all_json_items (cons v vs) = is_json_value v && all_json_items vs

  pub all_json_fields : Fields → Bool
  all_json_fields end = true
  all_json_fields (field k v d) = is_json_value v && all_json_fields d

unfoldable pub json_object : Fields → Fields
json_object end = end
json_object (field k v d) = if is_json_value v then field k v (json_object d) else json_object d

unfoldable pub json_objects_from_dicts : List Fields → List Fields
json_objects_from_dicts [] = []
json_objects_from_dicts (d ∷ ds) = json_object d ∷ json_objects_from_dicts ds

unfoldable pub identity_headers : AgentIdentity → List (String × String)
identity_headers i =
    ("X-Customer-Id", i.customer_id)
    ∷ ("X-Tenant-Id", i.tenant_id)
    ∷ ("X-Agent-Version", i.agent_version)
    ∷ ("X-Payload-Version", i.payload_version)
    ∷ ("X-Api-Token", i.api_token)
    ∷ []

unfoldable pub request : AgentShipConfig → List Fields → AgentHttpRequest
unfolding identity_headers from_objects
request c events = record {
  url = c.collector_url;
  payload = field "events" (arr (from_objects events)) end;
  headers = identity_headers c.identity;
  timeout_seconds = c.timeout_seconds;
}

unfoldable pub is_accepted : HttpSendResult → Bool
is_accepted r = r.status_code == 202

unfoldable pub is_auth_rejected : HttpSendResult → Bool
is_auth_rejected r = r.status_code == 401 || r.status_code == 403

-- `result.error or f"http_{result.status_code}"`
unfoldable pub reason : HttpSendResult → String
reason r = text_or r.error ("http_" <> show r.status_code)

unfoldable pub int_field : Fields → String → ℤ
int_field d k = elim (get k d) [ int z ↦ z | bool b ↦ pos (if b then 1 else 0) | _ ↦ pos 0 ]

unfoldable pub str_field : Fields → String → Option String
str_field d k = elim (get k d) [ str s ↦ some s | _ ↦ none ]

unfoldable pub read_events : Items → SpoolReadResult
read_events vs =
    let normalized = json_objects_from_dicts (objects vs) in
    if length normalized == size vs then ready normalized else blocked "spool_events_malformed"

-- The part of `_read_spooled_events` after the text was decoded.
unfoldable pub read_document : Value → SpoolReadResult
unfolding read_events
read_document v = elim (as_obj v) [
  | none ↦ blocked "spool_not_object"
  | some parsed ↦ elim (as_arr (get "events" parsed)) [
    | none ↦ blocked "spool_events_not_list"
    | some vs ↦ read_events vs
  ]
]

unfoldable pub read_spooled_events : Platform → Content → SpoolReadResult
unfolding read_document
read_spooled_events io (unreadable why) = blocked ("spool_unreadable:" <> why)
read_spooled_events io (undecodable why) = read_raised why
read_spooled_events io (text contents) = elim (io.loads contents) [
  | loaded v ↦ read_document v
  | malformed why ↦ blocked ("spool_unreadable:" <> why)
  | load_raised why ↦ read_raised why
]

-- The value that `_spool_events` writes.
unfoldable pub envelope : Stamp → List Fields → String → Value
envelope t events why = obj (
    field "created_at" (str t.created_at)
      (field "reason" (str why) (field "events" (arr (from_objects events)) end)))

-- The directory without the file of that name.
unfoldable pub without : String → List SpoolFile → List SpoolFile
without name files = select (λ f. not (str_eq f.name name)) files

-- `spool_path.unlink()`: the new state, or the exception, which leaves the file where it is.
unfoldable pub unlink : Platform → String → Agent → Agent ⊎ String
unfolding without
unlink io name s = elim (io.unlink_error s name) [
  | some e ↦ inr e
  | none ↦ inl (record s { queue = without name s.queue })
]

-- `temp_path.replace(spool_path)` takes the place of a file of that name.
unfoldable pub put_file : String → String → Agent → Agent
unfolding without
put_file name contents s = record s {
  queue = without name s.queue ++ (record { name = name; content = text contents } ∷ []);
}

-- The new state, or the exception of `json.dumps` or of a call of the file system.
unfoldable pub spool_events : Platform → Stamp → List Fields → String → Agent → Agent ⊎ String
unfolding envelope put_file
spool_events io t events why s = elim (io.dumps (envelope t events why)) [
  | inr e ↦ inr e
  | inl contents ↦ elim (io.write_error s t.name contents) [
    | some e ↦ inr e
    | none ↦ inl (put_file t.name contents s)
  ]
]

-- `sorted(...)` over the paths of one directory.
unfoldable pub pending_spool_paths : List SpoolFile → List SpoolFile
unfolding sort_by
pending_spool_paths files = sort_by (λ f g. str_lt f.name g.name) files

-- A result, or the exception that leaves `ship_events`.
pub data Outcome : Type 0 where
  done : ShipResult → Outcome
  raised : String → Outcome

-- `_send`: the exceptions that it catches become a result with status 0.
unfoldable pub answer : Called → HttpSendResult ⊎ String
answer (returned r) = inl r
answer (caught e) = inl (record { status_code = 0; body = end; error = some e })
answer (escaped e) = inr e

unfoldable pub failed_result : ShipStatus → ℕ → ℕ → Option String → ShipResult
failed_result status replayed queued_count why = record {
  status = status;
  accepted_count = pos 0;
  task_id = none;
  replayed_count = replayed;
  queued_count = queued_count;
  error = why;
}

module _ (sender : HttpSender) (c : AgentShipConfig) where
  abbrev pub call : List Fields → Agent → Called
  call events s = sender s.sent (request c events)

  -- The state after a call: the exchange is recorded.
  unfoldable pub after_call : List Fields → Agent → Agent
  after_call events s = record s {
    sent = s.sent ++ (record { request = request c events; called = call events s } ∷ []);
  }

unfoldable pub after_spooling : ShipResult → Agent → Agent ⊎ String → Outcome × Agent
after_spooling result s (inl s') = (done result, s')
after_spooling result s (inr e) = (raised e, s)

module _ (io : Platform) (sender : HttpSender) (c : AgentShipConfig) (t : Stamp)
    (events : List Fields) where
  -- The batch is spooled for a reason, and the result is returned.
  unfoldable pub hold : String → ShipResult → Agent → Outcome × Agent
  unfolding spool_events after_spooling
  hold why result s = after_spooling result s (spool_events io t events why s)

  -- A reply that is not 202: the batch is spooled, and the result is "rejected" for 401 and 403.
  -- The source asks for these two codes before it asks for 202; no code is both.
  unfoldable pub keep_batch : ℕ → HttpSendResult → Agent → Outcome × Agent
  unfolding hold failed_result is_auth_rejected reason
  keep_batch replayed r s =
      hold (reason r)
        (failed_result (if is_auth_rejected r then rejected else queued) replayed 1
          (some (reason r)))
        s

  -- What follows the loop over the spooled files.
  unfoldable pub ship_current : ℕ → Agent → Outcome × Agent
  unfolding keep_batch answer after_call is_accepted int_field str_field
  ship_current replayed s = elim (answer (call sender c events s)) [
    | inr e ↦ (raised e, after_call sender c events s)
    | inl r ↦
        if is_accepted r
        then (
          done (record {
            status = accepted;
            accepted_count = int_field r.body "accepted_count";
            task_id = str_field r.body "task_id";
            replayed_count = replayed;
            queued_count = 0;
            error = none;
          }),
          after_call sender c events s,
        )
        else keep_batch replayed r (after_call sender c events s)
  ]

  -- The loop over the spooled files.
  unfoldable pub replay : List SpoolFile → ℕ → Agent → Outcome × Agent
  unfolding hold keep_batch ship_current answer after_call is_accepted failed_result unlink
  replay [] replayed s = ship_current replayed s
  replay (f ∷ fs) replayed s = elim (read_spooled_events io f.content) [
    | read_raised e ↦ (raised e, s)
    | blocked why ↦
        hold (text_or (some why) "spool_unreadable") (failed_result queued replayed 1 (some why)) s
    | ready old ↦ elim (answer (call sender c old s)) [
      | inr e ↦ (raised e, after_call sender c old s)
      | inl r ↦ elim (is_accepted r) [
        | false ↦ keep_batch replayed r (after_call sender c old s)
        | true ↦ elim (unlink io f.name (after_call sender c old s)) [
          | inr e ↦ (raised e, after_call sender c old s)
          | inl s' ↦ replay fs (suc replayed) s'
        ]
      ]
    ]
  ]

  -- `_pending_spool_paths` may raise before anything is done.
  unfoldable pub ship_events : Agent → Outcome × Agent
  unfolding replay
  ship_events s = elim (io.list_error s) [
    | some e ↦ (raised e, s)
    | none ↦ replay (pending_spool_paths s.queue) 0 s
  ]
