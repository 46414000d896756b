-- ===== src/Detection/Siem/Counts.antt =====
-- What the destination tables count.
use team_c_edr.Base.{
  ℕ, ◌+◌, String, Bool, false, List, [], ◌∷◌, ◌≡◌, refl, sym, ap, ◌∙◌, arith, ◌&&◌, count_if,
  str_eq, eq_iff, eq_refl, Bool-cases, inl, inr, if◌then◌else◌,
}
use team_c_edr.Base.Int.{ℤ}
use team_c_edr.Json.{Fields, get}
use team_c_edr.Python.{Runtime, ok, err, Key, hash_key, key_mem, >>=-eq-ok, ok-injective}
use team_c_edr.Detection.Rules.Network.{int_of}
use team_c_edr.Detection.Siem.{Tally, one_if, add_event, destination, count_destinations}

abbrev pub events_at : String → List (Tally String) → ℕ
events_at d [] = 0
events_at d (row ∷ rows) = if str_eq row.key d then row.event_count else events_at d rows

abbrev pub alerts_at : String → List (Tally String) → ℕ
alerts_at d [] = 0
alerts_at d (row ∷ rows) = if str_eq row.key d then row.alert_count else alerts_at d rows

-- The event contributed to an alert.
abbrev pub is_alerted : List Key → Fields → Bool
is_alerted ids event = elim (hash_key (get "event_id" event)) [
  | err e ↦ false
  | ok k ↦ key_mem k ids
]

alerted-hash_key :
    (ids : List Key) (event : Fields) (k : Key)
    → hash_key (get "event_id" event) ≡ ok k
    → is_alerted ids event ≡ key_mem k ids
alerted-hash_key ids event k h = rw (is_alerted, h) refl

eq_flip : (s t : String) → str_eq s t ≡ false → str_eq t s ≡ false
eq_flip s t h = elim (Bool-cases (str_eq t s)) [
  | inl same ↦ cc (rw ((eq_iff t s).0 same, eq_refl s) at h)
  | inr differ ↦ differ
]

-- One event more at its destination, and nothing elsewhere.
record Added (d k : String) (alerted : Bool) (before after : List (Tally String)) : Type 0 where
  events : events_at d after ≡ one_if (str_eq k d) + events_at d before
  alerts : alerts_at d after ≡ one_if (str_eq k d && alerted) + alerts_at d before

add_event-Added :
    (d k : String) (alerted : Bool) (bytes : ℤ) (rows : List (Tally String))
    → Added d k alerted rows (add_event str_eq k alerted bytes rows)
unfolding add_event
add_event-Added d k alerted bytes [] = record { events = ground arith; alerts = ground arith }
add_event-Added d k alerted bytes (row ∷ rows) = elim (Bool-cases (str_eq row.key k)) [
  | inl same ↦
      rw same
        (rw ((eq_iff row.key k).0 same) (record { events = ground arith; alerts = ground arith }))
  | inr other ↦ elim (Bool-cases (str_eq row.key d)) [
    | inl hit ↦
        let away : str_eq k d ≡ false =
          eq_flip d k (ap (λ s. str_eq s k) (sym ((eq_iff row.key d).0 hit)) ∙ other) in
        rw other (record { events = ground (arith, hit, away); alerts = ground (arith, hit, away) })
    | inr miss ↦
        let a = add_event-Added d k alerted bytes rows in
        rw other (record {
          events = ground (arith, miss, a.events);
          alerts = ground (arith, miss, a.alerts);
        })
  ]
]

module _ (rt : Runtime) (ids : List Key) where
  abbrev pub goes_to : String → Fields → Bool
  goes_to d event = str_eq (destination rt event) d

  -- The numbers of a destination, after some events.
  record Counts (d : String) (events : List Fields) (before after : List (Tally String))
      : Type 0 where
    counted : events_at d after ≡ count_if (goes_to d) events + events_at d before
    alerted :
        alerts_at d after
        ≡ count_if (λ e. goes_to d e && is_alerted ids e) events + alerts_at d before

  count_destinations-Counts :
      (events : List Fields) (rows rows' : List (Tally String)) (d : String)
      → str_eq d "" ≡ false
      → count_destinations rt ids events rows ≡ ok rows'
      → Counts d events rows rows'
  unfolding count_destinations
  count_destinations-Counts [] rows rows' d named h =
      rw (ok-injective h) (record { counted = omega arith; alerted = omega arith })
  count_destinations-Counts (event ∷ events) rows rows' d named h =
      elim (Bool-cases (str_eq (destination rt event) "")) [
        | inl nowhere ↦
            let c = count_destinations-Counts events rows rows' d named (rw nowhere at h) in
            let away : str_eq (destination rt event) d ≡ false =
              rw ((eq_iff (destination rt event) "").0 nowhere) (eq_flip d "" named) in
            record {
              counted = ground (arith, away, c.counted);
              alerted = ground (arith, away, c.alerted);
            }
        | inr somewhere ↦
            let (bytes, read, rest) =
              >>=-eq-ok (int_of rt ("bytes_out" ∷ []) event) _ (rw somewhere at h) in
            let (k, hashed, rest') = >>=-eq-ok (hash_key (get "event_id" event)) _ rest in
            let c =
              count_destinations-Counts events
                (add_event str_eq (destination rt event) (key_mem k ids) bytes rows) rows' d named
                rest' in
            let a = add_event-Added d (destination rt event) (key_mem k ids) bytes rows in
            record {
              counted = ground (arith, c.counted, a.events);
              alerted = ground (arith, c.alerted, a.alerts, alerted-hash_key ids event k hashed);
            }
      ]

-- The table behind the destination intelligence is exact: under every destination it has the number of
-- the events that go there, and how many of them contributed to an alert; a destination that no event
-- names has 0. The count returned, and the destination is not the empty text.
pub count_destinations-exact :
    (rt : Runtime) (ids : List Key) (events : List Fields) (rows : List (Tally String)) (d : String)
    → str_eq d "" ≡ false
    → count_destinations rt ids events [] ≡ ok rows
    → (events_at d rows ≡ count_if (goes_to rt ids d) events)
      × (alerts_at d rows ≡ count_if (λ e. goes_to rt ids d e && is_alerted ids e) events)
count_destinations-exact rt ids events rows d named h =
    let c = count_destinations-Counts rt ids events [] rows d named h in
    (omega (arith, c.counted), omega (arith, c.alerted))
