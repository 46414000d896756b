-- ===== src/Agent/Forwarding.antt =====
-- A batch that `ship_events` of src/agent_shipper.py could not deliver is delivered by a later call.
use team_c_edr.Base.{List, true, ◌≡◌, ◌≢◌, In, All}
use team_c_edr.Json.{Fields}
use team_c_edr.Agent.{
  AgentShipConfig, HttpSender, ShipResult, accepted, Platform, Agent, Stamp, SpoolFile, done, ready,
  ship_events, read_spooled_events, all_json_fields, [],
}
use team_c_edr.Agent.Delivery.{Posted, Spooled, Kept, still, delivered, IsDirectory, IsFresh}
use team_c_edr.Agent.Reading.{RoundTrips, read_spooled_events-dumps}
use team_c_edr.Agent.Settlement.{
  Settled, taken, held, ship_events-Settled, ship_events-Kept, ship_events-drained,
}

held-Spooled :
    {io : Platform} {c : AgentShipConfig} {t : Stamp} {events : List Fields}
    {before : List SpoolFile} {s : Agent} {r : ShipResult}
    → Settled io c t events before s (done r)
    → r.status ≢ accepted
    → Spooled io t events s
held-Spooled (taken a q p) n = absurd (n a)
held-Spooled (held a q p) n = p

-- A file that is kept and no longer in the directory was posted.
Kept-Posted :
    {io : Platform} {c : AgentShipConfig} {f : SpoolFile} {s : Agent} (events : List Fields)
    → Kept io c f s
    → s.queue ≡ []
    → read_spooled_events io f.content ≡ ready events
    → Posted c events s.sent
Kept-Posted {f = f} events (still m) none_left e = absurd (nothing (rw none_left at m))
  where
    nothing : In f [] → ⊥
    nothing m = elim m [ ]
Kept-Posted {c = c} {s = s} events (delivered old e p) none_left e' =
    let same : old ≡ events = cc in rw (← same) p

-- Store and forward: if a call returns with a status other than "accepted", and the next call, with
-- any batch and any HTTP client, returns with status "accepted", then the batch of the first call was
-- posted and answered by 202. The batch holds JSON values only, and json decodes the text of a JSON
-- value to that value. After the first call the names of the files of the directory differ, and
-- differ from the name that the second call would give to a new file.
pub ship_events-forwards :
    (io : Platform) (first second : HttpSender) (c : AgentShipConfig) (t t' : Stamp)
    (events later : List Fields) (s : Agent) (r r' : ShipResult)
    → RoundTrips io
    → All (λ d. all_json_fields d ≡ true) events
    → (ship_events io first c t events s).0 ≡ done r
    → r.status ≢ accepted
    → IsDirectory (ship_events io first c t events s).1.queue
    → IsFresh t' (ship_events io first c t events s).1.queue
    → (ship_events io second c t' later (ship_events io first c t events s).1).0 ≡ done r'
    → r'.status ≡ accepted
    → Posted c events
        (ship_events io second c t' later (ship_events io first c t events s).1).1.sent
ship_events-forwards io first second c t t' events later s r r' law h e n d fresh e' a =
    let s' = (ship_events io first c t events s).1 in
    let spooled = held-Spooled (rw e at (ship_events-Settled io first c t events s)) n in
    Kept-Posted events (ship_events-Kept io second c t' later s' _ d fresh spooled.stands)
      (ship_events-drained io second c t' later s' r' e' a)
      (read_spooled_events-dumps io t events spooled.why spooled.contents law h spooled.written)
