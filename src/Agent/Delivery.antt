-- ===== src/Agent/Delivery.antt =====
-- No batch is lost by `ship_events` of src/agent_shipper.py: what each file of the queue directory and
-- the batch at hand have become when it returns.
use team_c_edr.Base.{
  ℕ, suc, String, true, false, List, [], ◌∷◌, ◌≡◌, refl, ◌⊎◌, inl, inr, arith, In, here, there,
  In-append_left, In-append_right, str_eq, eq_iff, Bool-cases, In-select, select-In, Sum-cases,
  Option-cases,
}
use team_c_edr.Json.{Fields}
use team_c_edr.Agent.{
  AgentShipConfig, HttpSendResult, HttpSender, blocked, ready, read_raised, Exchange, Platform,
  SpoolFile, text, without, put_file, hold, Agent, Stamp, request, is_accepted, answer,
  read_spooled_events, envelope, spool_events, call, after_call, keep_batch, ship_current, replay,
  SpoolReadResult, some, ShipResult, unlink, after_spooling,
}

-- Two files of one directory have different names.
abbrev pub IsDirectory : List SpoolFile → Type 0
IsDirectory files = (f g : SpoolFile) → In f files → In g files → f.name ≡ g.name → f ≡ g

-- No file of the directory has the name that a new file would get.
abbrev pub IsFresh : Stamp → List SpoolFile → Type 0
IsFresh t files = (f : SpoolFile) → In f files → str_eq f.name t.name ≡ false

-- The batch was posted, and the collector answered 202.
pub record Posted (c : AgentShipConfig) (events : List Fields) (sent : List Exchange) : Type 0 where
  pub exchange : Exchange
  pub reply : HttpSendResult
  pub stands : In exchange sent
  pub requested : exchange.request ≡ request c events
  pub answered : answer exchange.called ≡ inl reply
  pub status : is_accepted reply ≡ true

-- The batch stands in a file of the queue directory, as json wrote it.
pub record Spooled (io : Platform) (t : Stamp) (events : List Fields) (s : Agent) : Type 0 where
  pub why : String
  pub contents : String
  pub written : io.dumps (envelope t events why) ≡ inl contents
  pub stands : In (record { name = t.name; content = text contents }) s.queue

-- The file stands in the queue directory, or its events were posted and answered by 202.
pub data Kept (io : Platform) (c : AgentShipConfig) (f : SpoolFile) (s : Agent) : Type 0 where
  still : In f s.queue → Kept io c f s
  delivered :
      (old : List Fields)
      → read_spooled_events io f.content ≡ ready old
      → Posted c old s.sent
      → Kept io c f s

In-without :
    (name : String) (files : List SpoolFile) {f : SpoolFile}
    → In f files
    → str_eq f.name name ≡ false
    → In f (without name files)
unfolding without
In-without name files m ne = In-select _ files m (rw ne)

pub without-In :
    (name : String) (files : List SpoolFile) {f : SpoolFile}
    → In f (without name files)
    → In f files × (str_eq f.name name ≡ false)
unfolding without
without-In name files m = let r = select-In _ files m in (r.0, ground arith)

without-IsDirectory :
    (name : String) (files : List SpoolFile) → IsDirectory files → IsDirectory (without name files)
without-IsDirectory name files d f g m n =
    d f g (without-In name files m).0 (without-In name files n).0

-- After a new file every file is there.
put_file-keeps :
    (name contents : String) (s : Agent) {f : SpoolFile}
    → str_eq f.name name ≡ false
    → In f s.queue
    → In f (put_file name contents s).queue
unfolding put_file
put_file-keeps name contents s fresh m =
    In-append_left (without name s.queue) _ (In-without name s.queue m fresh)

-- What spooling the batch does: the new file, or one of two exceptions.
pub data Wrote (io : Platform) (t : Stamp) (events : List Fields) (why : String) (s : Agent)
    : Agent ⊎ String → Type 0 where
  wrote :
      (contents : String)
      → io.dumps (envelope t events why) ≡ inl contents
      → Wrote io t events why s (inl (put_file t.name contents s))
  not_serialised :
      {e : String} → io.dumps (envelope t events why) ≡ inr e → Wrote io t events why s (inr e)
  not_written :
      {e : String} (contents : String)
      → io.write_error s t.name contents ≡ some e
      → Wrote io t events why s (inr e)

pub spool_events-Wrote :
    (io : Platform) (t : Stamp) (events : List Fields) (why : String) (s : Agent)
    → Wrote io t events why s (spool_events io t events why s)
unfolding spool_events
spool_events-Wrote io t events why s = elim (Sum-cases (io.dumps (envelope t events why))) [
  | inr (e, d) ↦ rw (spool_events, d) (not_serialised d)
  | inl (contents, d) ↦ elim (Option-cases (io.write_error s t.name contents)) [
    | inr (e, w) ↦ rw (spool_events, d, w) (not_written contents w)
    | inl w ↦ rw (spool_events, d, w) (wrote contents d)
  ]
]

pub put_file-In :
    (name contents : String) (s : Agent)
    → In (record { name = name; content = text contents }) (put_file name contents s).queue
unfolding put_file
put_file-In name contents s = In-append_right (without name s.queue) _ here

pub put_file-Spooled :
    (io : Platform) (t : Stamp) (events : List Fields) (why contents : String) (s : Agent)
    → io.dumps (envelope t events why) ≡ inl contents
    → Spooled io t events (put_file t.name contents s)
put_file-Spooled io t events why contents s d = record {
  why = why;
  contents = contents;
  written = d;
  stands = put_file-In t.name contents s;
}

-- A file with the name of `f` in a directory that holds `f` is `f`.
pub kept_or_same :
    (f g : SpoolFile) (files : List SpoolFile)
    → IsDirectory files
    → In f files
    → In g files
    → (f ≡ g) ⊎ In f (without g.name files)
kept_or_same f g files d m n = elim (Bool-cases (str_eq f.name g.name)) [
  | inl same ↦ inl (d f g m n ((eq_iff f.name g.name).0 same))
  | inr other ↦ inr (In-without g.name files m other)
]

pub SpoolReadResult-cases :
    (x : SpoolReadResult)
    → ((e : String) × (x ≡ read_raised e))
      ⊎ (((why : String) × (x ≡ blocked why)) ⊎ ((old : List Fields) × (x ≡ ready old)))
SpoolReadResult-cases (read_raised e) = inl (e, refl)
SpoolReadResult-cases (blocked why) = inr (inl (why, refl))
SpoolReadResult-cases (ready old) = inr (inr (old, refl))

module _ (io : Platform) (sender : HttpSender) (c : AgentShipConfig) (t : Stamp)
    (events : List Fields) where
  after_call-delivered :
      (old was : List Fields) (s : Agent)
      → Posted c was s.sent
      → Posted c was (after_call sender c old s).sent
  unfolding after_call
  after_call-delivered old was s p = record {
    exchange = p.exchange;
    reply = p.reply;
    stands = In-append_left s.sent _ p.stands;
    requested = p.requested;
    answered = p.answered;
    status = p.status;
  }

  after_call-Kept :
      (old : List Fields) (s : Agent) {f : SpoolFile}
      → Kept io c f s
      → Kept io c f (after_call sender c old s)
  unfolding after_call
  after_call-Kept old s (still m) = still m
  after_call-Kept old s (delivered was e p) = delivered was e (after_call-delivered old was s p)

  pub after_call-Posted :
      (old : List Fields) (s : Agent) {r : HttpSendResult}
      → answer (call sender c old s) ≡ inl r
      → is_accepted r ≡ true
      → Posted c old (after_call sender c old s).sent
  unfolding after_call
  after_call-Posted old s {r = r} a ok = record {
    exchange = record { request = request c old; called = call sender c old s };
    reply = r;
    stands = In-append_right s.sent _ here;
    requested = refl;
    answered = a;
    status = ok;
  }

  put_file-Kept :
      (contents : String) (s : Agent) {f : SpoolFile}
      → IsFresh t s.queue
      → Kept io c f s
      → Kept io c f (put_file t.name contents s)
  unfolding put_file
  put_file-Kept contents s {f = f} fresh (still m) =
      still (put_file-keeps t.name contents s (fresh f m) m)
  put_file-Kept contents s fresh (delivered was e p) = delivered was e p

  hold-Kept :
      (why : String) (result : ShipResult) (s : Agent) {f : SpoolFile}
      → IsFresh t s.queue
      → Kept io c f s
      → Kept io c f (hold io sender c t events why result s).1
  unfolding hold
  hold-Kept why result s {f = f} fresh k =
      elim (spool_events-Wrote io t events why s)
        as (λ x _. Kept io c f (after_spooling result s x).1) [
          | wrote contents d ↦ put_file-Kept contents s fresh k
          | not_serialised d ↦ k
          | not_written contents w ↦ k
        ]

  keep_batch-Kept :
      (n : ℕ) (r : HttpSendResult) (s : Agent) {f : SpoolFile}
      → IsFresh t s.queue
      → Kept io c f s
      → Kept io c f (keep_batch io sender c t events n r s).1
  unfolding keep_batch
  keep_batch-Kept n r s fresh k = hold-Kept _ _ s fresh k

  ship_current-Kept :
      (n : ℕ) (s : Agent) {f : SpoolFile}
      → IsFresh t s.queue
      → Kept io c f s
      → Kept io c f (ship_current io sender c t events n s).1
  unfolding ship_current
  ship_current-Kept n s fresh k = elim (Sum-cases (answer (call sender c events s))) [
    | inl (r, e) ↦ elim (Bool-cases (is_accepted r)) [
      | inl ok ↦ rw (ship_current, e, ok) (after_call-Kept events s k)
      | inr bad ↦
          rw (ship_current, e, bad)
            (keep_batch-Kept n r (after_call sender c events s) fresh (after_call-Kept events s k))
    ]
    | inr (b, e) ↦ rw (ship_current, e) (after_call-Kept events s k)
  ]

  -- The head of the loop's list is gone from the directory, and is kept all the same.
  without-Kept :
      (g : SpoolFile) (old : List Fields) (s : Agent) {f : SpoolFile} {r : HttpSendResult}
      → (In f s.queue → f.name ≡ g.name → f ≡ g)
      → read_spooled_events io g.content ≡ ready old
      → answer (call sender c old s) ≡ inl r
      → is_accepted r ≡ true
      → Kept io c f s
      → Kept io c f (record (after_call sender c old s) { queue = without g.name s.queue })
  unfolding after_call
  without-Kept g old s {f = f} unique e a ok (delivered was e' p) =
      delivered was e' (after_call-delivered old was s p)
  without-Kept g old s {f = f} unique e a ok (still m) = elim (Bool-cases (str_eq f.name g.name)) [
    | inl same ↦
        delivered old (rw (unique m ((eq_iff f.name g.name).0 same)) e)
          (after_call-Posted old s a ok)
    | inr other ↦ still (In-without g.name s.queue m other)
  ]

  pub replay-Kept :
      (fs : List SpoolFile) (n : ℕ) (s : Agent) {f : SpoolFile}
      → ((g : SpoolFile) → In f s.queue → In g fs → f.name ≡ g.name → f ≡ g)
      → IsFresh t s.queue
      → Kept io c f s
      → Kept io c f (replay io sender c t events fs n s).1
  unfolding replay unlink
  replay-Kept [] n s unique fresh k = ship_current-Kept n s fresh k
  replay-Kept (g ∷ fs) n s unique fresh k =
      elim (SpoolReadResult-cases (read_spooled_events io g.content)) [
        | inl (b, e) ↦ rw (replay, e) k
        | inr (inl (why, e)) ↦ rw (replay, e) (hold-Kept _ _ s fresh k)
        | inr (inr (old, e)) ↦ elim (Sum-cases (answer (call sender c old s))) [
          | inr (b, a) ↦ rw (replay, e, a) (after_call-Kept old s k)
          | inl (r, a) ↦ elim (Bool-cases (is_accepted r)) [
            | inr bad ↦
                rw (replay, e, a, bad)
                  (keep_batch-Kept n r (after_call sender c old s) fresh (after_call-Kept old s k))
            | inl ok ↦ elim (Option-cases (io.unlink_error (after_call sender c old s) g.name)) [
              | inr (b, u) ↦ rw (replay, e, a, ok, unlink, u) (after_call-Kept old s k)
              | inl u ↦
                  rw (replay, e, a, ok, unlink, u)
                    (replay-Kept fs (suc n) _
                      (λ h m i. unique h (without-In g.name s.queue m).0 (there i))
                      (λ h m. fresh h (without-In g.name s.queue m).0)
                      (without-Kept g old s (λ m. unique g m here) e a ok k))
            ]
          ]
        ]
      ]
