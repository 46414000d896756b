-- ===== src/Detection/Siem.antt =====
-- The destination tables of src/siem_analyzer.py: `_destination`, `_destination_intelligence`, and the
-- edges, the destination nodes and the summary of `_egress_topology`.
pub mod Counts
use team_c_edr.Base.{
  ℕ, ◌+◌, String, Bool, true, false, not, ◌&&◌, ◌||◌, List, [], ◌∷◌, ltb, leb, ◌==◌, take, map,
  length, count_if, str_eq, str_lt, sort_by, if◌then◌else◌,
}
use team_c_edr.Base.Int.{ℤ, ◌+ℤ◌}
use team_c_edr.Json.{Value, Fields, get, truthy}
use team_c_edr.Python.{Runtime, Result, ok, err, ◌>>=◌, Key, hash_key, key_eq, key_mem}
use team_c_edr.Detection.Alerts.{Alert, display_host}
use team_c_edr.Detection.Rules.{text_of}
use team_c_edr.Detection.Rules.Network.{int_of}
use team_c_edr.Detection.Views.{alerted_event_ids}

-- One key of the counters that the loops keep side by side. A key has the state `alert` just if its
-- alert count is not 0.
pub record Tally {ℓ} (K : Type ℓ) : Type ℓ where
  pub key : K
  pub event_count : ℕ
  pub alert_count : ℕ
  pub bytes_out : ℤ

abbrev pub one_if : Bool → ℕ
one_if b = if b then 1 else 0

module _ {ℓ} {K : Type ℓ} (same : K → K → Bool) where
  -- `counts[key] += 1`, with the bytes and the alert of the event.
  unfoldable pub add_event : K → Bool → ℤ → List (Tally K) → List (Tally K)
  add_event k alerted bytes [] =
      record { key = k; event_count = 1; alert_count = one_if alerted; bytes_out = bytes } ∷ []
  add_event k alerted bytes (row ∷ rows) =
      if same row.key k
      then record row {
        event_count = row.event_count + 1;
        alert_count = row.alert_count + one_if alerted;
        bytes_out = row.bytes_out +ℤ bytes;
      }
        ∷ rows
      else row ∷ add_event k alerted bytes rows

-- `most_common(n)`
unfoldable pub most_common {ℓ} : {K : Type ℓ} → ℕ → List (Tally K) → List (Tally K)
unfolding sort_by
most_common {K = K} n rows =
    take n (sort_by (λ (x : Tally K) (y : Tally K). ltb y.event_count x.event_count) rows)

-- An edge of the topology goes from a host, under its hash key, to a destination.
pub record Edge : Type 0 where
  pub host : Key
  pub host_id : Value
  pub destination : String

abbrev pub same_edge : Edge → Edge → Bool
same_edge x y = key_eq x.host y.host && str_eq x.destination y.destination

pub record Topology : Type 0 where
  pub destinations : List (Tally String)
  pub edges : List (Tally Edge)
  pub endpoint_count : ℕ
  pub external_destination_count : ℕ
  pub alert_edge_count : ℕ

-- The three tables that the loop of `_egress_topology` fills.
pub record Egress : Type 0 where
  pub rows : List (Tally String)
  pub edge_rows : List (Tally Edge)
  pub endpoints : List Key

-- `endpoint_seen.add(host_id)`
abbrev pub add_endpoint : Key → List Key → List Key
add_endpoint k seen = if key_mem k seen then seen else k ∷ seen

-- `sorted(destination_rows.values(), key=lambda row: (row["state"] != "alert", row["id"]))[:18]`
abbrev alert_first : Tally String → Tally String → Bool
alert_first x y =
    let a : Bool = ltb 0 x.alert_count in
    let b : Bool = ltb 0 y.alert_count in
    (a && not b) || ((a && b || not a && not b) && str_lt x.key y.key)

unfoldable pub destination_nodes : List (Tally String) → List (Tally String)
unfolding sort_by
destination_nodes rows = take 18 (sort_by alert_first rows)

module _ (rt : Runtime) where
  -- `_destination`
  unfoldable pub destination : Fields → String
  unfolding text_of
  destination event =
      text_of rt ("domain" ∷ "source_domain" ∷ "dst_ip" ∷ "destination_ip" ∷ []) event

  -- The loop of `_destination_intelligence`.
  unfoldable pub count_destinations :
      List Key → List Fields → List (Tally String) → Result (List (Tally String))
  unfolding destination int_of add_event
  count_destinations ids [] rows = ok rows
  count_destinations ids (event ∷ events) rows =
      if str_eq (destination event) "" then count_destinations ids events rows else (do
        bytes ← int_of rt ("bytes_out" ∷ []) event
        k ← hash_key (get "event_id" event)
        count_destinations ids events
            (add_event str_eq (destination event) (key_mem k ids) bytes rows))

  unfoldable pub destination_intelligence : List Fields → List Alert → Result (List (Tally String))
  unfolding count_destinations alerted_event_ids most_common
  destination_intelligence events alerts = do
    ids ← alerted_event_ids alerts
    rows ← count_destinations ids events []
    ok (most_common 12 rows)

  -- The loop of `_egress_topology` over the events.
  unfoldable pub count_edges : List Key → List Fields → Egress → Result Egress
  unfolding destination int_of add_event
  count_edges ids [] egress = ok egress
  count_edges ids (event ∷ events) egress =
      let host_id : Value = get "host_id" event in
      if not (truthy host_id) || str_eq (destination event) ""
      then count_edges ids events egress
      else (do
        host ← hash_key host_id
        bytes ← int_of rt ("bytes_out" ∷ []) event
        k ← hash_key (get "event_id" event)
        let edge : Edge = record { host = host; host_id = host_id; destination = destination event }
        count_edges ids events (record {
          rows = add_event str_eq (destination event) (key_mem k ids) bytes egress.rows;
          edge_rows = add_event same_edge edge (key_mem k ids) bytes egress.edge_rows;
          endpoints = add_endpoint host egress.endpoints;
        }))

  -- The part of `_egress_topology` that the events decide.
  unfoldable pub egress_topology : List Fields → List Alert → Result Topology
  unfolding count_edges alerted_event_ids most_common destination_nodes
  egress_topology events alerts = do
    ids ← alerted_event_ids alerts
    egress ← count_edges ids events (record { rows = []; edge_rows = []; endpoints = [] })
    let edges : List (Tally Edge) = most_common 24 egress.edge_rows
    ok (record {
      destinations = destination_nodes egress.rows;
      edges = edges;
      endpoint_count = length egress.endpoints;
      external_destination_count = length egress.rows;
      alert_edge_count = count_if (λ (e : Tally Edge). ltb 0 e.alert_count) edges;
    })
