-- ===== src/Pcap/Flows/Grouping.antt =====
-- The table of flows is the grouping of the packets by their keys.
use team_c_edr.Base.{
  Bool, true, false, Option, none, some, List, [], ◌∷◌, ◌++◌, ◌≡◌, refl, sym, ◌∙◌, select,
  Bool-cases, inl, inr, if◌then◌else◌, append-nil, append_assoc,
}
use team_c_edr.Pcap.{Packet}
use team_c_edr.Pcap.Flows.{
  Times, FlowKey, FlowState, FlowTable, key_eq, flow_key, new_flow, count_packet, add_packet,
  add_packets,
}
use team_c_edr.Pcap.Flows.Keys.{key_path, key_eq_refl}
use team_c_edr.Pcap.Flows.Summary.{
  lookup_flow, in_flow, IsFlow, no_packet, summary, opened, count_packet-Summarises,
}

module _ (times : Times) where
  -- The flow that a packet is counted in.
  abbrev or_new : Packet times.Stamp → Option (FlowState times.Stamp) → FlowState times.Stamp
  or_new p none = new_flow times p
  or_new p (some f) = f

  lookup-add_packet :
      (k : FlowKey) (p : Packet times.Stamp) (flows : FlowTable times)
      → lookup_flow times k (add_packet times p flows) ≡ (
          if in_flow times k p
          then some (count_packet times p (or_new p (lookup_flow times k flows)))
          else lookup_flow times k flows)
  unfolding add_packet
  lookup-add_packet k p [] = refl
  lookup-add_packet k p ((j, f) ∷ flows) = elim (Bool-cases (key_eq j (flow_key p.segment))) [
    | inl own ↦
        let e = key_path j (flow_key p.segment) own in
        elim (Bool-cases (key_eq (flow_key p.segment) k)) [
          | inl hit ↦ rw (e, key_eq_refl (flow_key p.segment), hit) refl
          | inr miss ↦ rw (e, key_eq_refl (flow_key p.segment), miss) refl
        ]
    | inr other ↦ elim (Bool-cases (key_eq j k)) [
      | inl hit ↦
          let e = key_path j k hit in
          elim (Bool-cases (key_eq (flow_key p.segment) k)) [
            | inl same ↦
                let e' = key_path (flow_key p.segment) k same in
                let bad : true ≡ false = sym (key_eq_refl k) ∙ rw (e, e') at other in cc
            | inr miss ↦ rw (other, hit, miss) refl
          ]
      | inr miss ↦ rw (other, miss) (lookup-add_packet k p flows)
    ]
  ]

  -- A packet of the flow.
  counted-IsFlow :
      (p : Packet times.Stamp) (ps : List (Packet times.Stamp)) (o : Option (FlowState times.Stamp))
      → IsFlow times ps o
      → IsFlow times (ps ++ (p ∷ [])) (some (count_packet times p (or_new p o)))
  counted-IsFlow p _ _ no_packet =
      summary (count_packet-Summarises times p p [] (new_flow times p) (opened times p))
  counted-IsFlow p _ _ (summary {p = q} {ps = ps} {f = f} h) =
      summary (count_packet-Summarises times q p (q ∷ ps) f h)

  select-append :
      (t : Packet times.Stamp → Bool) (ps qs : List (Packet times.Stamp))
      → select t (ps ++ qs) ≡ select t ps ++ select t qs
  select-append t [] qs = refl
  select-append t (p ∷ ps) qs = elim (Bool-cases (t p)) [
    | inl keep ↦ rw (keep, select-append t ps qs) refl
    | inr skip ↦ rw (skip, select-append t ps qs) refl
  ]

  added-IsFlow :
      (k : FlowKey) (seen : List (Packet times.Stamp)) (p : Packet times.Stamp)
      (flows : FlowTable times)
      → IsFlow times (select (in_flow times k) seen) (lookup_flow times k flows)
      → IsFlow times
          (select (in_flow times k) (seen ++ (p ∷ [])))
          (lookup_flow times k (add_packet times p flows))
  added-IsFlow k seen p flows h = elim (Bool-cases (in_flow times k p)) [
    | inl own ↦
        rw (lookup-add_packet k p flows, select-append (in_flow times k) seen (p ∷ []), own)
          (counted-IsFlow p _ _ h)
    | inr other ↦
        rw
          (
            lookup-add_packet k p flows,
            select-append (in_flow times k) seen (p ∷ []),
            other,
            append-nil (select (in_flow times k) seen),
          )
          h
  ]

  grouped :
      (k : FlowKey) (packets seen : List (Packet times.Stamp)) (flows : FlowTable times)
      → IsFlow times (select (in_flow times k) seen) (lookup_flow times k flows)
      → IsFlow times
          (select (in_flow times k) (seen ++ packets))
          (lookup_flow times k (add_packets times packets flows))
  unfolding add_packets
  grouped k [] seen flows h = rw (append-nil seen) h
  grouped k (p ∷ packets) seen flows h = rw (append_assoc seen (p ∷ []) packets) at (
      grouped k packets (seen ++ (p ∷ [])) (add_packet times p flows)
        (added-IsFlow k seen p flows h))

-- The table that the packets build up one by one is their grouping by flow key: under each key it has
-- nothing if no packet has the key, and otherwise one state that tells of just the packets of that key
-- the two ends as the first one has them, the first and the latest time stamp, the packets and bytes
-- of each direction, and the flags that some packet has.
pub add_packets-IsFlow :
    (times : Times) (packets : List (Packet times.Stamp)) (k : FlowKey)
    → IsFlow times
        (select (in_flow times k) packets)
        (lookup_flow times k (add_packets times packets []))
add_packets-IsFlow times packets k = grouped times k packets [] [] no_packet
