-- ===== src/Pcap/Flows/Totals.antt =====
-- The flow summaries count every packet and every payload byte once.
use team_c_edr.Base.{ℕ, ◌+◌, List, [], ◌∷◌, ◌≡◌, arith, length, sum_of, Bool-cases, inl, inr}
use team_c_edr.Pcap.{Packet}
use team_c_edr.Pcap.Flows.{
  Times, FlowKey, FlowState, FlowTable, key_eq, flow_key, new_flow, is_outgoing, count_packet,
  add_packet, add_packets,
}

module _ (times : Times) where
  abbrev pub flow_packets : FlowKey × FlowState times.Stamp → ℕ
  flow_packets e = e.1.packets_out + e.1.packets_in

  abbrev pub flow_bytes : FlowKey × FlowState times.Stamp → ℕ
  flow_bytes e = e.1.bytes_out + e.1.bytes_in

  abbrev pub packet_bytes : Packet times.Stamp → ℕ
  packet_bytes p = p.segment.payload_len

  -- One packet more, and its bytes.
  record Counted (p : Packet times.Stamp) (flows flows' : FlowTable times) : Type 0 where
    packets : sum_of flow_packets flows' ≡ sum_of flow_packets flows + 1
    bytes : sum_of flow_bytes flows' ≡ sum_of flow_bytes flows + packet_bytes p

  count_packet-Counted :
      (p : Packet times.Stamp) (k : FlowKey) (f : FlowState times.Stamp) (flows : FlowTable times)
      → Counted p ((k, f) ∷ flows) ((k, count_packet times p f) ∷ flows)
  unfolding count_packet
  count_packet-Counted p k f flows = elim (Bool-cases (is_outgoing times f p.segment)) [
    | inl out ↦ rw out (record { packets = omega arith; bytes = omega arith })
    | inr back ↦ rw back (record { packets = omega arith; bytes = omega arith })
  ]

  add_packet-Counted :
      (p : Packet times.Stamp) (flows : FlowTable times)
      → Counted p flows (add_packet times p flows)
  unfolding add_packet new_flow
  add_packet-Counted p [] =
      let c = count_packet-Counted p (flow_key p.segment) (new_flow times p) [] in
      record { packets = omega (arith, c.packets); bytes = omega (arith, c.bytes) }
  add_packet-Counted p ((k, f) ∷ flows) = elim (Bool-cases (key_eq k (flow_key p.segment))) [
    | inl own ↦ rw own (count_packet-Counted p k f flows)
    | inr other ↦
        let c = add_packet-Counted p flows in
        rw other (record { packets = omega (arith, c.packets); bytes = omega (arith, c.bytes) })
  ]

  add_packets_total :
      (packets : List (Packet times.Stamp)) (flows : FlowTable times)
      → (sum_of flow_packets (add_packets times packets flows)
          ≡ sum_of flow_packets flows + length packets)
        × (sum_of flow_bytes (add_packets times packets flows)
            ≡ sum_of flow_bytes flows + sum_of packet_bytes packets)
  unfolding add_packets
  add_packets_total [] flows = (omega arith, omega arith)
  add_packets_total (p ∷ packets) flows =
      let c = add_packet-Counted p flows in
      let (e, e') = add_packets_total packets (add_packet times p flows) in
      (omega (arith, c.packets, e), omega (arith, c.bytes, e'))

-- No packet is lost or counted twice: over all flows, the packets of both directions add up to the
-- number of packets of the capture, and the bytes of both directions to the length of their payloads.
pub add_packets_conserves :
    (times : Times) (packets : List (Packet times.Stamp))
    → (sum_of (flow_packets times) (add_packets times packets []) ≡ length packets)
      × (sum_of (flow_bytes times) (add_packets times packets [])
          ≡ sum_of (packet_bytes times) packets)
add_packets_conserves times packets =
    let (e, e') = add_packets_total times packets [] in (omega (arith, e), omega (arith, e'))
