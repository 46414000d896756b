-- ===== src/Detection/Beaconing.antt =====
-- `_detect_beaconing` of src/detection_engine.py: regular connections of one process of one host to
-- one destination.
pub mod Regular
use team_c_edr.Base.{
  ℕ, suc, ◌+◌, ◌-◌, ◌/◌, String, ◌<>◌, Bool, true, false, ◌&&◌, Option, none, some, List, [], ◌∷◌,
  ◌++◌, ltb, leb, ◌==◌, length, count_if, map, str_eq, str_or, show, if◌then◌else◌,
}
use team_c_edr.Json.{Value, str, Fields, get, or_else}
use team_c_edr.Python.{Runtime, Result, ok, err, ◌>>=◌, Key, hash_key, key_eq}
use team_c_edr.Detection.Alerts.{Alert, r004, alert}
use team_c_edr.Detection.Rules.{text_of, event_domain}
use team_c_edr.Detection.Detect.{type_in}
use team_c_edr.Detection.Timeline.{Timed, time_of, sort_by_time}

-- `BEACON_MIN_EVENTS` and `BEACON_INTERVAL_TOLERANCE_SECONDS` of src/config.py
abbrev pub beacon_min_events : ℕ
beacon_min_events = 4

abbrev pub beacon_interval_tolerance_seconds : ℕ
beacon_interval_tolerance_seconds = 5

-- An entry of `groups`; `host` is the hash key of `host_id`.
pub record Group : Type 0 where
  pub host : Key
  pub host_id : Value
  pub process_name : String
  pub destination : String
  pub events : List Fields

unfoldable pub same_group : Group → Group → Bool
same_group g h =
    key_eq g.host h.host
    && (str_eq g.process_name h.process_name && str_eq g.destination h.destination)

-- `groups[...].append(event)`, for the group `g` of one event.
unfoldable pub add_to_group : Group → List Group → List Group
unfolding same_group
add_to_group g [] = g ∷ []
add_to_group g (h ∷ hs) =
    if same_group h g
    then record h { events = h.events ++ g.events } ∷ hs
    else h ∷ add_to_group g hs

unfoldable pub group_event : Runtime → Fields → List Group → Result (List Group)
unfolding add_to_group type_in
group_event rt event groups =
    if type_in (get "event_type" event) ("network_connection" ∷ [])
    then (do
      domain ← event_domain rt event
      let destination = str_or domain (text_of rt ("dst_ip" ∷ []) event)
      if str_eq destination "" then ok groups else (do
        host ← hash_key (get "host_id" event)
        ok (
            add_to_group
              (record {
                host = host;
                host_id = get "host_id" event;
                process_name = rt.to_str (or_else (get "process_name" event) (str "unknown"));
                destination = destination;
                events = event ∷ [];
              })
              groups)))
    else ok groups

unfoldable pub group_events : Runtime → List Fields → List Group → Result (List Group)
unfolding group_event
group_events rt [] groups = ok groups
group_events rt (event ∷ events) groups = do
  groups' ← group_event rt event groups
  group_events rt events groups'

-- Whole seconds between neighbours.
unfoldable pub intervals : List Timed → List ℕ
intervals [] = []
intervals (e ∷ []) = []
intervals (e ∷ f ∷ es) = (time_of f - time_of e) / 1_000_000 ∷ intervals (f ∷ es)

-- `Counter(...).most_common(1)[0]`: the first of the most frequent, with its count.
unfoldable pub most_common : List ℕ → List ℕ → ℕ × ℕ → ℕ × ℕ
most_common all [] best = best
most_common all (x ∷ xs) (b, c) =
    let count = count_if (λ y. x == y) all in
    let rest = most_common all xs in if ltb c count then rest (x, count) else rest (b, c)

-- `abs(interval - most_common_interval) <= BEACON_INTERVAL_TOLERANCE_SECONDS`
abbrev pub is_regular : ℕ → ℕ → Bool
is_regular common interval =
    leb ((interval - common) + (common - interval)) beacon_interval_tolerance_seconds

unfoldable pub is_beacon : List ℕ → ℕ × ℕ → Bool
is_beacon is (common, count) =
    leb 2 count && (leb (beacon_min_events - 1) (count_if (is_regular common) is) && leb common 120)

unfoldable pub beacon_alert : Group → List Timed → List ℕ → ℕ × ℕ → Result (List Alert)
unfolding is_beacon show alert
beacon_alert g [] is (common, count) = ok []
beacon_alert g (first ∷ rest) is (common, count) =
    if is_beacon is (common, count)
    then (do
      a ←
          alert r004 g.host_id (map (λ (e : Timed). get "event_id" e.1) (first ∷ rest))
            ("Periodic outbound connection every ~" <> (show common <> "s"))
            (("process_name=" <> g.process_name)
              ∷ ("destination=" <> g.destination)
              ∷ ("regular_interval_count=" <> show (count_if (is_regular common) is))
              ∷ [])
            first.1 (some (common, length g.events))
      ok (a ∷ []))
    else ok []

unfoldable pub group_alerts : Runtime → Group → Result (List Alert)
unfolding sort_by_time intervals most_common beacon_alert
group_alerts rt g = if ltb (length g.events) beacon_min_events then ok [] else (do
  sorted ← sort_by_time rt g.events
  let is = intervals sorted
  beacon_alert g sorted is (most_common is is (0, 0)))

unfoldable pub all_group_alerts : Runtime → List Group → Result (List Alert)
unfolding group_alerts
all_group_alerts rt [] = ok []
all_group_alerts rt (g ∷ gs) = do
  found ← group_alerts rt g
  rest ← all_group_alerts rt gs
  ok (found ++ rest)

unfoldable pub detect_beaconing : Runtime → List Fields → Result (List Alert)
unfolding group_events all_group_alerts
detect_beaconing rt events = do groups ← group_events rt events []; all_group_alerts rt groups
