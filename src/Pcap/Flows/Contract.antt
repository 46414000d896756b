-- ===== src/Pcap/Flows/Contract.antt =====
-- The events made of a capture meet the schema that src/detection_engine.py asks of an event.
use team_c_edr.Base.{
  ℕ, suc, String, ◌<>◌, show_padded, ap, subst, true, List, [], ◌∷◌, ◌≡◌, refl, All, All-append,
  Option-cases, inl, inr,
}
use team_c_edr.Json.{str, Fields, get, has_key, truthy}
use team_c_edr.Python.{Runtime, ok, hash_key, >>=-eq-ok, ok-injective}
use team_c_edr.Detection.Validate.{parses, missing, type_errors, is_supported}
use team_c_edr.Detection.Validate.Schema.{MeetsSchema, readable, clean-MeetsSchema}
use team_c_edr.Pcap.{Packet, iter_tcp_packets}
use team_c_edr.Pcap.Http.{Decoders, Request, parse_http_request}
use team_c_edr.Pcap.Flows.{
  Times, FlowState, FlowTable, flow_event, flow_events, http_event, http_events, add_packets,
  events_from_pcap,
}

module _ (times : Times) (rt : Runtime)
    (iso_parses : (t : times.Stamp) → parses rt (str (times.iso t)) ≡ true) where
  flow_event-MeetsSchema :
      (host_id : String) (index : ℕ) (f : FlowState times.Stamp)
      → MeetsSchema rt (flow_event times host_id index f)
  unfolding flow_event get missing type_errors is_supported truthy has_key hash_key
  flow_event-MeetsSchema host_id index f =
      let event = flow_event times host_id index f in
      clean-MeetsSchema rt event ("pcap-flow-" <> show_padded index) "flow_summary" refl refl refl
        refl
        (readable rt "event_time" event (times.iso f.first_ts) (iso_parses f.first_ts) refl refl)
        (readable rt "received_time" event (times.iso f.last_ts) (iso_parses f.last_ts) refl refl)

  http_event-MeetsSchema :
      (host_id : String) (index : ℕ) (p : Packet times.Stamp) (r : Request)
      → MeetsSchema rt (http_event times host_id index p r)
  unfolding http_event get missing type_errors is_supported truthy has_key hash_key
  http_event-MeetsSchema host_id index p r =
      let event = http_event times host_id index p r in
      clean-MeetsSchema rt event ("pcap-http-" <> show_padded index) "http_request" refl refl refl
        refl (readable rt "event_time" event (times.iso p.ts) (iso_parses p.ts) refl refl)
        (readable rt "received_time" event (times.iso p.ts) (iso_parses p.ts) refl refl)

  flow_events-MeetsSchema :
      (host_id : String) (index : ℕ) (flows : FlowTable times)
      → All (MeetsSchema rt) (flow_events times host_id index flows)
  unfolding flow_events
  flow_events-MeetsSchema host_id index [] = tt
  flow_events-MeetsSchema host_id index (entry ∷ flows) = (
    flow_event-MeetsSchema host_id index entry.1,
    flow_events-MeetsSchema host_id (suc index) flows,
  )

  http_events-MeetsSchema :
      (d : Decoders) (host_id : String) (index : ℕ) (packets : List (Packet times.Stamp))
      → All (MeetsSchema rt) (http_events times d host_id index packets)
  unfolding http_events
  http_events-MeetsSchema d host_id index [] = tt
  http_events-MeetsSchema d host_id index (p ∷ packets) =
      elim (Option-cases (parse_http_request d p.segment.payload)) [
        | inl other ↦ rw (http_events, other) (http_events-MeetsSchema d host_id index packets)
        | inr (r, request) ↦
            rw (http_events, request)
              (
                http_event-MeetsSchema host_id index p r,
                http_events-MeetsSchema d host_id (suc index) packets,
              )
      ]

  -- Every event that a capture is turned into has all the fields that the detector requires, a
  -- supported type and readable times: `_schema_errors` finds nothing in the event as it is, before its
  -- personal data is masked, if its id is new. The times that `_iso` writes are ones that the detector
  -- reads.
  pub events_from_pcap-MeetsSchema :
      (d : Decoders) (path : String) (contents : List ℕ) (host_id : String) (events : List Fields)
      (meta : Fields)
      → events_from_pcap times d path contents host_id ≡ ok (events, meta)
      → All (MeetsSchema rt) events
  unfolding events_from_pcap
  events_from_pcap-MeetsSchema d path contents host_id events meta h =
      let (packets, read, made) = >>=-eq-ok (iter_tcp_packets times.stamp contents) _ h in
      let flows = flow_events times host_id 1 (add_packets times packets []) in
      let https = http_events times d host_id 1 packets in
      subst (All (MeetsSchema rt)) (ap (λ (x : List Fields × Fields). x.0) (ok-injective made)) (
        All-append (MeetsSchema rt) flows https
          (flow_events-MeetsSchema host_id 1 (add_packets times packets []))
          (http_events-MeetsSchema d host_id 1 packets))
