-- ===== src/Detection/Beaconing/Regular.antt =====
-- What an alert of `_detect_beaconing` (src/detection_engine.py) says.
use team_c_edr.Base.{
  ℕ, suc, ◌≤◌, true, some, List, [], ◌∷◌, ◌≡◌, refl, ap, ◌∙◌, arith, All, All-append, Bool-cases,
  ltb, length, length-map, length-sort_by, sort_by, inl, inr,
}
use team_c_edr.Json.{Fields, get}
use team_c_edr.Python.{Runtime, ok, >>=-eq-ok, ok-injective}
use team_c_edr.Detection.Alerts.{Alert, r004, base_score, alert, display_host}
use team_c_edr.Detection.Rules.{parse_time}
use team_c_edr.Detection.Timeline.{Timed, read_times, comparable, earlier, sort_by_time}
use team_c_edr.Detection.Beaconing.{
  Group, group_events, intervals, is_beacon, beacon_alert, group_alerts, all_group_alerts,
  detect_beaconing, beacon_min_events,
}

pub length-read_times :
    (rt : Runtime) (events : List Fields) (ts : List Timed)
    → read_times rt events ≡ ok ts
    → length ts ≡ length events
unfolding read_times
length-read_times rt [] ts e = rw (← ok-injective e) refl
length-read_times rt (event ∷ events) ts e =
    let (t, e1, h1) = >>=-eq-ok (parse_time rt (get "event_time" event)) _ e in
    let (rest, e2, h2) = >>=-eq-ok (read_times rt events) _ h1 in
    let e3 : (t, event) ∷ rest ≡ ts = ok-injective h2 in
    rw (← e3) (ap suc (length-read_times rt events rest e2))

length-sort_by_time :
    (rt : Runtime) (events : List Fields) (ts : List Timed)
    → sort_by_time rt events ≡ ok ts
    → length ts ≡ length events
unfolding sort_by_time
length-sort_by_time rt events ts e =
    let (us, e1, h1) = >>=-eq-ok (read_times rt events) _ e in
    elim (Bool-cases (comparable us)) [
      | inl alike ↦
          let e2 : sort_by earlier us ≡ ts = ok-injective (rw alike at h1) in
          rw (← e2) (length-sort_by earlier us ∙ length-read_times rt events us e1)
      | inr mixed ↦ cc (rw mixed at h1)
    ]

-- An R004 alert names the events of a group, at least four, and an interval of at most two minutes.
pub record IsBeacon (a : Alert) : Type 0 where
  pub rule : a.rule ≡ r004
  pub score : a.risk_score ≡ base_score r004
  pub seconds : ℕ
  pub count : ℕ
  pub interval : a.interval ≡ some (seconds, count)
  pub short : seconds ≤ 120
  pub many : 4 ≤ count
  pub events : length a.event_ids ≡ count

short_beacon : (is : List ℕ) (common count : ℕ) → is_beacon is (common, count) ≡ true → common ≤ 120
unfolding is_beacon
short_beacon is common count h = ground arith

beacon_alert-IsBeacon :
    (g : Group) (ts : List Timed) (is : List ℕ) (common count : ℕ) (found : List Alert)
    → length ts ≡ length g.events
    → 4 ≤ length g.events
    → beacon_alert g ts is (common, count) ≡ ok found
    → All IsBeacon found
unfolding beacon_alert alert
beacon_alert-IsBeacon g [] is common count found same enough e = rw (← ok-injective e) tt
beacon_alert-IsBeacon g (t ∷ ts) is common count found same enough e =
    elim (Bool-cases (is_beacon is (common, count))) [
      | inl regular ↦
          let (a, e1, e2) = >>=-eq-ok _ _ (rw regular at e) in
          let (shown, e3, h3) = >>=-eq-ok (display_host g.host_id) _ e1 in
          let e5 : a ∷ [] ≡ found = ok-injective e2 in
          rw (← e5) (
            rw (← ok-injective h3) (record {
              rule = refl;
              score = refl;
              seconds = common;
              count = length g.events;
              interval = refl;
              short = short_beacon is common count regular;
              many = enough;
              events = length-map _ (t ∷ ts) ∙ same;
            }),
            tt,
          )
      | inr irregular ↦ rw (← ok-injective (rw irregular at e)) tt
    ]

group_alerts-IsBeacon :
    (rt : Runtime) (g : Group) (found : List Alert)
    → group_alerts rt g ≡ ok found
    → All IsBeacon found
unfolding group_alerts
group_alerts-IsBeacon rt g found e = elim (Bool-cases (ltb (length g.events) beacon_min_events)) [
  | inl few ↦ rw (← ok-injective (rw few at e)) tt
  | inr enough ↦
      let (ts, e1, e2) = >>=-eq-ok (sort_by_time rt g.events) _ (rw enough at e) in
      beacon_alert-IsBeacon g ts (intervals ts) _ _ found (length-sort_by_time rt g.events ts e1)
        (ground arith) e2
]

all_group_alerts-IsBeacon :
    (rt : Runtime) (gs : List Group) (found : List Alert)
    → all_group_alerts rt gs ≡ ok found
    → All IsBeacon found
unfolding all_group_alerts
all_group_alerts-IsBeacon rt [] found e = rw (← ok-injective e) tt
all_group_alerts-IsBeacon rt (g ∷ gs) found e =
    let (xs, e1, h1) = >>=-eq-ok (group_alerts rt g) _ e in
    let (ys, e2, h2) = >>=-eq-ok (all_group_alerts rt gs) _ h1 in
    rw (← ok-injective h2) (
      All-append IsBeacon xs ys (group_alerts-IsBeacon rt g xs e1)
        (all_group_alerts-IsBeacon rt gs ys e2))

-- Every alert of the beaconing detector is by R004, with that rule's score, names at least four
-- events, as many as it reports, and reports an interval of at most 120 seconds.
pub detect_beaconing-IsBeacon :
    (rt : Runtime) (events : List Fields) (found : List Alert)
    → detect_beaconing rt events ≡ ok found
    → All IsBeacon found
unfolding detect_beaconing
detect_beaconing-IsBeacon rt events found e =
    let (groups, e1, e2) = >>=-eq-ok (group_events rt events []) _ e in
    all_group_alerts-IsBeacon rt groups found e2
