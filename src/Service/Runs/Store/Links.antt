-- ===== src/Service/Runs/Store/Links.antt =====
-- The link tables of a run: which ids they name, and that no link stands twice.
use team_c_edr.Base.{
  String, Bool, true, false, ◌&&◌, List, [], ◌∷◌, ◌++◌, ◌≡◌, All, All-append, Apart, Apart-snoc, In,
  Bool-cases, inl, inr, select, str_eq, str_mem, select, All_mono,
}
use team_c_edr.Json.{Fields, get}
use team_c_edr.Service.Runs.Ids.{
  text_at, ids_at, incident_alert_ids, event_id_set, json_list, alert_event_ids,
}
use team_c_edr.Service.Runs.Pairs.{
  add_pairs, link, pair_mem, alert_event_pairs, incident_alert_pairs,
}
use team_c_edr.Service.Runs.Store.Known.{select_mem, ids_at-hit, all_In, incident-known}

-- Two links are the same.
abbrev pub same_pair : String × String → String × String → Bool
same_pair p q = str_eq p.0 q.0 && str_eq p.1 q.1

module _ (P : String × String → Type 0) where
  add_pairs-All :
      (x : String) (ys : List String) (rows : List (String × String))
      → All (λ y. P (x, y)) ys
      → All P rows
      → All P (add_pairs x ys rows)
  unfolding add_pairs
  add_pairs-All x [] rows h k = k
  add_pairs-All x (y ∷ ys) rows h k = elim (Bool-cases (pair_mem (x, y) rows)) [
    | inl old ↦ rw old (add_pairs-All x ys rows h.1 k)
    | inr new ↦ rw new (
        add_pairs-All x ys (rows ++ ((x, y) ∷ [])) h.1
          (All-append P rows ((x, y) ∷ []) k (h.0, tt)))
  ]

  link-All :
      (key : Fields → String) (others : Fields → List String) (ds : List Fields)
      (rows : List (String × String))
      → All (λ d. str_eq (key d) "" ≡ false → All (λ y. P (key d, y)) (others d)) ds
      → All P rows
      → All P (link key others ds rows)
  unfolding link
  link-All key others [] rows h k = k
  link-All key others (d ∷ ds) rows h k = elim (Bool-cases (str_eq (key d) "")) [
    | inl without ↦ rw without (link-All key others ds rows h.1 k)
    | inr with_key ↦ rw with_key (
        link-All key others ds (add_pairs (key d) (others d) rows) h.1
          (add_pairs-All (key d) (others d) rows (h.0 with_key) k))
  ]

add_pairs-Apart :
    (x : String) (ys : List String) (rows : List (String × String))
    → Apart same_pair rows
    → Apart same_pair (add_pairs x ys rows)
unfolding add_pairs
add_pairs-Apart x [] rows h = h
add_pairs-Apart x (y ∷ ys) rows h = elim (Bool-cases (pair_mem (x, y) rows)) [
  | inl old ↦ rw old (add_pairs-Apart x ys rows h)
  | inr new ↦
      rw new (add_pairs-Apart x ys (rows ++ ((x, y) ∷ [])) (Apart-snoc same_pair rows (x, y) h new))
]

link-Apart :
    (key : Fields → String) (others : Fields → List String) (ds : List Fields)
    (rows : List (String × String))
    → Apart same_pair rows
    → Apart same_pair (link key others ds rows)
unfolding link
link-Apart key others [] rows h = h
link-Apart key others (d ∷ ds) rows h = elim (Bool-cases (str_eq (key d) "")) [
  | inl without ↦ rw without (link-Apart key others ds rows h)
  | inr with_key ↦ rw with_key (
      link-Apart key others ds (add_pairs (key d) (others d) rows)
        (add_pairs-Apart (key d) (others d) rows h))
]

-- Both ends of a link are known.
abbrev pub Linked : List String → List String → String × String → Type 0
Linked known known' p = (str_mem p.0 known ≡ true) × (str_mem p.1 known' ≡ true)

-- The links of objects with an id to known ids.
links-Linked :
    (k : String) (others : Fields → List String) (known : List String) (all_ds ds : List Fields)
    → All (λ d. In d all_ds) ds
    → ((d : Fields) → All (λ y. str_mem y known ≡ true) (others d))
    → All (Linked (ids_at k all_ds) known) (link (text_at k) others ds [])
links-Linked k others known all_ds ds ins h =
    link-All (Linked (ids_at k all_ds) known) (text_at k) others ds []
      (All_mono (λ d. In d all_ds) _
        (λ d m given.
          All_mono (λ y. str_mem y known ≡ true) _ (λ y hy. (ids_at-hit k all_ds d m given, hy))
            (others d) (h d))
        ds ins)
      tt

-- Each row of the two link tables names an alert (an incident) of the result and an event (an alert)
-- of it, and no link stands twice.
pub record WellLinked (known known' : List String) (pairs : List (String × String)) : Type 0 where
  pub linked : All (Linked known known') pairs
  pub apart : Apart same_pair pairs

pub alert_event_pairs-WellLinked :
    (payload : Fields)
    → WellLinked
        (ids_at "alert_id" (json_list (get "alerts" payload)))
        (event_id_set payload)
        (alert_event_pairs payload)
unfolding alert_event_pairs
alert_event_pairs-WellLinked payload =
    let alerts = json_list (get "alerts" payload) in
    let others : Fields → List String =
      λ d. select (λ e. str_mem e (event_id_set payload)) (alert_event_ids d) in
    record {
      linked =
          links-Linked "alert_id" others (event_id_set payload) alerts alerts (all_In alerts [])
            (λ d. select_mem (event_id_set payload) (alert_event_ids d));
      apart = link-Apart (text_at "alert_id") others alerts [] tt;
    }

pub incident_alert_pairs-WellLinked :
    (payload : Fields)
    → WellLinked
        (ids_at "incident_id" (json_list (get "incidents" payload)))
        (ids_at "alert_id" (json_list (get "alerts" payload)))
        (incident_alert_pairs payload)
unfolding incident_alert_pairs
incident_alert_pairs-WellLinked payload =
    let alerts = json_list (get "alerts" payload) in
    let incidents = json_list (get "incidents" payload) in
    let others : Fields → List String = λ d. incident_alert_ids d alerts in
    record {
      linked =
          links-Linked "incident_id" others (ids_at "alert_id" alerts) incidents incidents
            (all_In incidents []) (λ d. incident-known d alerts);
      apart = link-Apart (text_at "incident_id") others incidents [] tt;
    }
