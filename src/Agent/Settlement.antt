-- ===== src/Agent/Settlement.antt =====
-- What `ship_events` of src/agent_shipper.py returns, and what has then become of the batch at hand
-- and of the queue directory as a whole.
use team_c_edr.Base.{
  ℕ, suc, false, List, [], ◌∷◌, ◌≡◌, ◌≢◌, refl, ◌∙◌, inl, inr, arith, In, here, Sum-cases,
  Bool-cases, Option-cases, ap, sort_by-In, In-sort_by, eq_refl, In-cons, In-append_right, there,
  ◌∙◌,
}
use team_c_edr.Json.{Fields}
use team_c_edr.Agent.{
  AgentShipConfig, HttpSendResult, HttpSender, ShipResult, accepted, ready, escaped, Exchange,
  SpoolFile, Platform, read_raised, unlink, hold, after_spooling, Agent, Stamp, is_accepted, answer,
  read_spooled_events, envelope, pending_spool_paths, Outcome, done, raised, call, after_call,
  keep_batch, ship_current, replay, ship_events, Called, str_eq, String, returned, request, caught,
  some, ShipStatus,
}
use team_c_edr.Agent.Delivery.{
  Posted, Spooled, Kept, IsDirectory, IsFresh, after_call-Posted, put_file-Spooled,
  spool_events-Wrote, wrote, not_serialised, not_written, SpoolReadResult-cases, replay-Kept, still,
  without-In,
}

answer-escaped : (x : Called) {e : String} → answer x ≡ inr e → x ≡ escaped e
unfolding answer
answer-escaped (returned r) h = cc
answer-escaped (caught b) h = cc
answer-escaped (escaped b) h = cc

nothing-In {ℓ} : {A : Type ℓ} (xs : List A) → ((x : A) → ¬ (In x xs)) → xs ≡ []
nothing-In [] h = refl
nothing-In (x ∷ xs) h = absurd (h x here)

not_head :
    (g f : SpoolFile) (fs : List SpoolFile) → str_eq f.name g.name ≡ false → In f (g ∷ fs) → In f fs
not_head g f fs ne m = elim (In-cons m) [
  | inl e ↦ absurd (differs (rw e at ne))
  | inr later ↦ later
]
  where
    differs : str_eq g.name g.name ≡ false → ⊥
    differs h = cc (eq_refl g.name)

-- The fate of the batch at hand, by what `ship_events` gave, the files of the directory before it and
-- the state that it left. The last six cases are the ways in which an exception leaves: from the HTTP
-- client, from reading a spooled file, from deleting one that was posted, from listing the directory,
-- from `json.dumps` and from writing the new file.
pub data Settled (io : Platform) (c : AgentShipConfig) (t : Stamp) (events : List Fields)
    (before : List SpoolFile) (s : Agent) : Outcome → Type 0 where
  taken :
      {r : ShipResult}
      → r.status ≡ accepted
      → r.queued_count ≡ 0
      → Posted c events s.sent
      → Settled io c t events before s (done r)
  held :
      {r : ShipResult}
      → r.status ≢ accepted
      → r.queued_count ≡ 1
      → Spooled io t events s
      → Settled io c t events before s (done r)
  interrupted :
      {e : String} (x : Exchange)
      → In x s.sent
      → x.called ≡ escaped e
      → Settled io c t events before s (raised e)
  unread :
      {e : String} (f : SpoolFile)
      → In f before
      → read_spooled_events io f.content ≡ read_raised e
      → Settled io c t events before s (raised e)
  undeleted :
      {e : String} (f : SpoolFile) (old : List Fields)
      → In f before
      → read_spooled_events io f.content ≡ ready old
      → Posted c old s.sent
      → io.unlink_error s f.name ≡ some e
      → Settled io c t events before s (raised e)
  unlisted : {e : String} → io.list_error s ≡ some e → Settled io c t events before s (raised e)
  unserialised :
      {e : String} (why : String)
      → io.dumps (envelope t events why) ≡ inr e
      → Settled io c t events before s (raised e)
  unwritten :
      {e : String} (contents : String)
      → io.write_error s t.name contents ≡ some e
      → Settled io c t events before s (raised e)

abbrev status_of : Outcome → ShipStatus
status_of (done r) = r.status
status_of (raised e) = accepted

abbrev Clears : Outcome → Agent → Type 0
Clears o s =
    (r : ShipResult) → o ≡ done r → r.status ≡ accepted → (f : SpoolFile) → ¬ (In f s.queue)

module _ (io : Platform) (sender : HttpSender) (c : AgentShipConfig) (t : Stamp)
    (events : List Fields) where
  abbrev Settles : List SpoolFile → Outcome × Agent → Type 0
  Settles before x = Settled io c t events before x.1 x.0

  call-interrupted :
      (before : List SpoolFile) (old : List Fields) (s : Agent) {e : String}
      → answer (call sender c old s) ≡ inr e
      → Settled io c t events before (after_call sender c old s) (raised e)
  unfolding after_call
  call-interrupted before old s a =
      interrupted (record { request = request c old; called = call sender c old s })
        (In-append_right s.sent _ here) (answer-escaped (call sender c old s) a)

  hold-Settled :
      (before : List SpoolFile) (why : String) (r : ShipResult) (s : Agent)
      → r.status ≢ accepted
      → r.queued_count ≡ 1
      → Settles before (hold io sender c t events why r s)
  unfolding hold
  hold-Settled before why r s st q =
      elim (spool_events-Wrote io t events why s)
        as (λ x _. Settles before (after_spooling r s x)) [
          | wrote contents d ↦ held st q (put_file-Spooled io t events why contents s d)
          | not_serialised d ↦ unserialised why d
          | not_written contents w ↦ unwritten contents w
        ]

  keep_batch-Settled :
      (before : List SpoolFile) (n : ℕ) (r : HttpSendResult) (s : Agent)
      → Settles before (keep_batch io sender c t events n r s)
  unfolding keep_batch
  keep_batch-Settled before n r s = hold-Settled before _ _ s (ground arith) refl

  ship_current-Settled :
      (before : List SpoolFile) (n : ℕ) (s : Agent)
      → Settles before (ship_current io sender c t events n s)
  unfolding ship_current
  ship_current-Settled before n s = elim (Sum-cases (answer (call sender c events s))) [
    | inl (r, a) ↦ elim (Bool-cases (is_accepted r)) [
      | inl ok ↦
          rw (ship_current, a, ok)
            (taken refl refl (after_call-Posted io sender c t events events s a ok))
      | inr bad ↦
          rw (ship_current, a, bad) (keep_batch-Settled before n r (after_call sender c events s))
    ]
    | inr (e, a) ↦ rw (ship_current, a) (call-interrupted before events s a)
  ]

  replay-Settled :
      (before fs : List SpoolFile) (n : ℕ) (s : Agent)
      → ((f : SpoolFile) → In f fs → In f before)
      → Settles before (replay io sender c t events fs n s)
  unfolding replay unlink
  replay-Settled before [] n s h = ship_current-Settled before n s
  replay-Settled before (g ∷ fs) n s h =
      elim (SpoolReadResult-cases (read_spooled_events io g.content)) [
        | inl (b, e) ↦ rw (replay, e) (unread g (h g here) e)
        | inr (inl (why, e)) ↦ rw (replay, e) (hold-Settled before _ _ s (ground arith) refl)
        | inr (inr (old, e)) ↦ elim (Sum-cases (answer (call sender c old s))) [
          | inr (b, a) ↦ rw (replay, e, a) (call-interrupted before old s a)
          | inl (r, a) ↦ elim (Bool-cases (is_accepted r)) [
            | inr bad ↦
                rw (replay, e, a, bad) (keep_batch-Settled before n r (after_call sender c old s))
            | inl ok ↦ elim (Option-cases (io.unlink_error (after_call sender c old s) g.name)) [
              | inr (b, u) ↦
                  rw (replay, e, a, ok, unlink, u)
                    (undeleted g old (h g here) e
                      (after_call-Posted io sender c t events old s a ok) u)
              | inl u ↦
                  rw (replay, e, a, ok, unlink, u)
                    (replay-Settled before fs (suc n) _ (λ f m. h f (there m)))
            ]
          ]
        ]
      ]

  hold-Clears :
      (why : String) (r : ShipResult) (s : Agent)
      → r.status ≢ accepted
      → let (o, s') = hold io sender c t events why r s in Clears o s'
  unfolding hold
  hold-Clears why r s st =
      elim (spool_events-Wrote io t events why s)
        as (λ x _. let (o, s') = after_spooling r s x in Clears o s') [
          | wrote contents d ↦ (λ q h st' f m. absurd (st (ap status_of h ∙ st')))
          | not_serialised d ↦ (λ q h st' f m. cc)
          | not_written contents w ↦ (λ q h st' f m. cc)
        ]

  ship_current-Clears :
      (n : ℕ) (s : Agent)
      → ((f : SpoolFile) → ¬ (In f s.queue))
      → let (o, s') = ship_current io sender c t events n s in Clears o s'
  unfolding ship_current keep_batch
  ship_current-Clears n s none_left = elim (Sum-cases (answer (call sender c events s))) [
    | inl (r, a) ↦ elim (Bool-cases (is_accepted r)) [
      | inl ok ↦ rw (ship_current, a, ok) (λ q h st. none_left)
      | inr bad ↦
          rw (ship_current, a, bad) (hold-Clears _ _ (after_call sender c events s) (ground arith))
    ]
    | inr (e, a) ↦ rw (ship_current, a) (λ q h st f m. cc)
  ]

  replay-Clears :
      (fs : List SpoolFile) (n : ℕ) (s : Agent)
      → ((f : SpoolFile) → In f s.queue → In f fs)
      → let (o, s') = replay io sender c t events fs n s in Clears o s'
  unfolding replay keep_batch unlink
  replay-Clears [] n s covers = ship_current-Clears n s (λ f m. elim (covers f m) [ ])
  replay-Clears (g ∷ fs) n s covers =
      elim (SpoolReadResult-cases (read_spooled_events io g.content)) [
        | inl (b, e) ↦ rw (replay, e) (λ q h st f m. cc)
        | inr (inl (why, e)) ↦ rw (replay, e) (hold-Clears _ _ s (ground arith))
        | inr (inr (old, e)) ↦ elim (Sum-cases (answer (call sender c old s))) [
          | inr (b, a) ↦ rw (replay, e, a) (λ q h st f m. cc)
          | inl (r, a) ↦ elim (Bool-cases (is_accepted r)) [
            | inr bad ↦
                rw (replay, e, a, bad) (hold-Clears _ _ (after_call sender c old s) (ground arith))
            | inl ok ↦ elim (Option-cases (io.unlink_error (after_call sender c old s) g.name)) [
              | inr (b, u) ↦ rw (replay, e, a, ok, unlink, u) (λ q h st f m. cc)
              | inl u ↦
                  rw (replay, e, a, ok, unlink, u)
                    (replay-Clears fs (suc n) _ (λ f m.
                      not_head g f fs (without-In g.name s.queue m).1
                        (covers f (without-In g.name s.queue m).0)))
            ]
          ]
        ]
      ]

  -- Whatever the HTTP client, json and the file system do, the batch ends up in one of these ways.
  -- With status "accepted", and `queued_count` 0, it was posted and answered by 202. With another
  -- status, and `queued_count` 1, it stands in a file of the queue directory. An exception leaves
  -- `ship_events` only if a call of the HTTP client raised it and it is none of those that `_send`
  -- catches, or reading a spooled file raised it (no UTF-8, or an error of json other than
  -- `JSONDecodeError`), or the directory could not be listed, `json.dumps` failed on the batch, the
  -- new file could not be written, or a file whose events had been posted and answered by 202 could
  -- not be deleted.
  pub ship_events-Settled :
      (s : Agent)
      → let (o, s') = ship_events io sender c t events s in Settled io c t events s.queue s' o
  unfolding ship_events pending_spool_paths
  ship_events-Settled s = elim (Option-cases (io.list_error s)) [
    | inr (e, l) ↦ rw (ship_events, l) (unlisted l)
    | inl l ↦
        rw (ship_events, l)
          (replay-Settled s.queue (pending_spool_paths s.queue) 0 s (λ f m. sort_by-In _ s.queue m))
  ]

  -- No spooled batch is lost: each file of the queue directory is still there when `ship_events` has
  -- returned or raised, or its events were posted and answered by 202. The names of the files of the
  -- directory differ, and differ from the name that a new file would get.
  pub ship_events-Kept :
      (s : Agent) (f : SpoolFile)
      → IsDirectory s.queue
      → IsFresh t s.queue
      → In f s.queue
      → Kept io c f (ship_events io sender c t events s).1
  unfolding ship_events pending_spool_paths
  ship_events-Kept s f d fresh m = elim (Option-cases (io.list_error s)) [
    | inr (e, l) ↦ rw (ship_events, l) (still m)
    | inl l ↦
        rw (ship_events, l)
          (replay-Kept io sender c t events (pending_spool_paths s.queue) 0 s
            (λ g h i. d f g h (sort_by-In _ s.queue i)) fresh (still m))
  ]

  ship_events-Clears : (s : Agent) → let (o, s') = ship_events io sender c t events s in Clears o s'
  unfolding ship_events pending_spool_paths
  ship_events-Clears s = elim (Option-cases (io.list_error s)) [
    | inr (e, l) ↦ rw (ship_events, l) (λ q h st f m. cc)
    | inl l ↦
        rw (ship_events, l)
          (replay-Clears (pending_spool_paths s.queue) 0 s (λ f m. In-sort_by _ s.queue m))
  ]

  -- A batch is accepted only after all that was spooled: with status "accepted" the queue directory
  -- is empty.
  pub ship_events-drained :
      (s : Agent) (r : ShipResult)
      → (ship_events io sender c t events s).0 ≡ done r
      → r.status ≡ accepted
      → (ship_events io sender c t events s).1.queue ≡ []
  ship_events-drained s r h st = nothing-In _ (ship_events-Clears s r h st)
