-- ===== src/Tests/Capture.antt =====
-- A capture file with two TCP segments of one flow, one in each direction, and another frame.
use team_c_edr.Base.{
  ℕ, ◌≡◌, ◌⊎◌, refl, List, [], ◌∷◌, ◌++◌, arith, max, show, some, select, sum_of, true, All, length,
}
use team_c_edr.Python.{ok, err, pcap_flow_error}
use team_c_edr.Pcap.Frames.{Segment, parse_ethernet_ipv4_tcp}
use team_c_edr.Pcap.Frames.Safety.{Returns}
use team_c_edr.Pcap.{little, pcap_format, Packet, read_records, iter_tcp_packets}
use team_c_edr.Pcap.Records.{iter_tcp_packets-raises, read_records_enough}
use team_c_edr.Pcap.Encoding.{Capture, encode_records, captured, iter_tcp_packets-encode_records}
use team_c_edr.Pcap.Http.{Decoders, parse_http_request}
use team_c_edr.Pcap.Flows.{
  Times, flow_key, add_packets, flow_events, http_events, pcap_meta, events_from_pcap,
}
use team_c_edr.Pcap.Flows.Contract.{events_from_pcap-MeetsSchema}
use team_c_edr.Detection.Validate.Schema.{MeetsSchema}
use team_c_edr.Tests.Detection.{rt}
use team_c_edr.Json.{Fields, str}
use team_c_edr.Detection.Validate.{parses}
use team_c_edr.Pcap.Flows.Summary.{lookup_flow, in_flow, IsFlow}
use team_c_edr.Pcap.Flows.Grouping.{add_packets-IsFlow}
use team_c_edr.Pcap.Flows.Totals.{flow_packets, flow_bytes, add_packets_conserves}

-- The time stamps are the seconds.
abbrev seconds : Times
seconds = record {
  Stamp = ℕ;
  stamp = λ sec frac resolution. sec;
  later = max;
  duration_ms = λ last first. 0;
  iso = show;
}

-- Ethernet and IPv4 headers of a segment with three bytes of payload.
abbrev headers : ℕ → ℕ → List ℕ
headers from to =
    0 ∷ 0 ∷ 0 ∷ 0 ∷ 0 ∷ 0 ∷ 0 ∷ 0 ∷ 0 ∷ 0 ∷ 0 ∷ 0 ∷ 8 ∷ 0 ∷ 69 ∷ 0 ∷ 0 ∷ 43 ∷ 0 ∷ 0 ∷ 0 ∷ 0 ∷ 64 ∷ 6
    ∷ 0 ∷ 0 ∷ 10 ∷ 0 ∷ 0 ∷ from ∷ 10 ∷ 0 ∷ 0 ∷ to ∷ []

-- From port 1234 to port 80, and back; `PSH` and `ACK`.
abbrev frame_out : List ℕ
frame_out =
    headers 1 2
    ++ (4 ∷ 210 ∷ 0 ∷ 80 ∷ 0 ∷ 0 ∷ 0 ∷ 1 ∷ 0 ∷ 0 ∷ 0 ∷ 0 ∷ 80 ∷ 24 ∷ 0 ∷ 0 ∷ 0 ∷ 0 ∷ 0 ∷ 0 ∷ 71 ∷ 69
        ∷ 84 ∷ [])

abbrev frame_back : List ℕ
frame_back =
    headers 2 1
    ++ (0 ∷ 80 ∷ 4 ∷ 210 ∷ 0 ∷ 0 ∷ 0 ∷ 1 ∷ 0 ∷ 0 ∷ 0 ∷ 0 ∷ 80 ∷ 16 ∷ 0 ∷ 0 ∷ 0 ∷ 0 ∷ 0 ∷ 0 ∷ 111
        ∷ 107 ∷ 33 ∷ [])

abbrev segment_out : Segment
segment_out = record {
  src_ip = "10.0.0.1";
  src_port = 1234;
  dst_ip = "10.0.0.2";
  dst_port = 80;
  payload = 71 ∷ 69 ∷ 84 ∷ [];
  payload_len = 3;
  flags = "PSH" ∷ "ACK" ∷ [];
}

abbrev segment_back : Segment
segment_back = record {
  src_ip = "10.0.0.2";
  src_port = 80;
  dst_ip = "10.0.0.1";
  dst_port = 1234;
  payload = 111 ∷ 107 ∷ 33 ∷ [];
  payload_len = 3;
  flags = "ACK" ∷ [];
}

parse_out : parse_ethernet_ipv4_tcp frame_out ≡ ok (some segment_out)
unfolding parse_ethernet_ipv4_tcp
parse_out = refl

parse_back : parse_ethernet_ipv4_tcp frame_back ≡ ok (some segment_back)
unfolding parse_ethernet_ipv4_tcp
parse_back = refl

abbrev capture : ℕ → List ℕ → Capture
capture sec frame = record { sec = sec; frac = 5; orig_len = 57; frame = frame }

abbrev captures : List Capture
captures = capture 100 frame_out ∷ capture 101 (1 ∷ 2 ∷ []) ∷ capture 102 frame_back ∷ []

abbrev magic : List ℕ
magic = 0xd4 ∷ 0xc3 ∷ 0xb2 ∷ 0xa1 ∷ []

abbrev global_header : List ℕ
global_header =
    magic
    ++ (2 ∷ 0 ∷ 4 ∷ 0 ∷ 0 ∷ 0 ∷ 0 ∷ 0 ∷ 0 ∷ 0 ∷ 0 ∷ 0 ∷ 255 ∷ 255 ∷ 0 ∷ 0 ∷ 1 ∷ 0 ∷ 0 ∷ 0 ∷ [])

abbrev contents : List ℕ
contents = global_header ++ encode_records little captures

abbrev packets : List (Packet ℕ)
packets =
    record { ts = 100; segment = segment_out } ∷ record { ts = 102; segment = segment_back } ∷ []

-- `GET /a` with the host `H`.
abbrev decoders : Decoders
decoders = record { utf8 = λ bs. "/a"; latin1 = λ bs. "h" }

http_example :
    parse_http_request decoders
      (71 ∷ 69 ∷ 84 ∷ 32 ∷ 47 ∷ 97 ∷ 13 ∷ 10 ∷ 72 ∷ 111 ∷ 115 ∷ 116 ∷ 58 ∷ 32 ∷ 72 ∷ 13 ∷ 10 ∷ [])
    ≡ some (record { method = "GET"; path = "/a"; host = "h"; url = "http://h/a" })
unfolding parse_http_request
http_example = refl

iter_tcp_packets-raises_example :
    Returns (iter_tcp_packets seconds.stamp contents)
    ⊎ (iter_tcp_packets seconds.stamp contents ≡ err pcap_flow_error)
iter_tcp_packets-raises_example = iter_tcp_packets-raises seconds.stamp contents

read_records_enough_example :
    read_records seconds.stamp 200 little 1000000 contents 24
    ≡ read_records seconds.stamp 300 little 1000000 contents 24
read_records_enough_example =
    read_records_enough seconds.stamp 200 300 little 1000000 contents 24 (omega arith) (omega arith)

iter_tcp_packets-encode_records_example :
    iter_tcp_packets seconds.stamp (global_header ++ encode_records little captures)
    ≡ captured seconds.stamp 1000000 captures
unfolding pcap_format
iter_tcp_packets-encode_records_example =
    iter_tcp_packets-encode_records seconds.stamp global_header little 1000000 captures refl refl (
      record { sec = omega arith; frac = omega arith; length = omega arith },
      (
        record { sec = omega arith; frac = omega arith; length = omega arith },
        (record { sec = omega arith; frac = omega arith; length = omega arith }, tt),
      ),
    )

-- The clock of the test writes one time.
abbrev one_time : Times
one_time = record {
  Stamp = ℕ;
  stamp = λ sec frac resolution. sec;
  later = max;
  duration_ms = λ last first. 0;
  iso = λ t. "2026-07-01T03:00:00Z";
}

abbrev flow_rows : List Fields
flow_rows = flow_events one_time "mac-1" 1 (add_packets one_time packets [])

abbrev http_rows : List Fields
http_rows = http_events one_time decoders "mac-1" 1 packets

iso_parses : (t : ℕ) → parses rt (str (one_time.iso t)) ≡ true
unfolding parses
iso_parses t = refl

read_packets : iter_tcp_packets one_time.stamp contents ≡ ok packets
unfolding iter_tcp_packets
read_packets = refl

made_of :
    (bytes : List ℕ) (ps : List (Packet ℕ))
    → iter_tcp_packets one_time.stamp bytes ≡ ok ps
    → let flows = flow_events one_time "mac-1" 1 (add_packets one_time ps []) in
      let https = http_events one_time decoders "mac-1" 1 ps in
      events_from_pcap one_time decoders "a.pcap" bytes "mac-1"
      ≡ ok (flows ++ https, pcap_meta one_time "a.pcap" (length ps) flows https)
unfolding events_from_pcap
made_of bytes ps read = rw read refl

events_from_pcap-MeetsSchema_example : All (MeetsSchema rt) (flow_rows ++ http_rows)
events_from_pcap-MeetsSchema_example =
    events_from_pcap-MeetsSchema one_time rt iso_parses decoders "a.pcap" contents "mac-1"
      (flow_rows ++ http_rows) (pcap_meta one_time "a.pcap" 2 flow_rows http_rows)
      (made_of contents packets read_packets)

add_packets-IsFlow_example :
    IsFlow seconds
      (select (in_flow seconds (flow_key segment_out)) packets)
      (lookup_flow seconds (flow_key segment_out) (add_packets seconds packets []))
add_packets-IsFlow_example = add_packets-IsFlow seconds packets (flow_key segment_out)

add_packets_conserves_example :
    (sum_of (flow_packets seconds) (add_packets seconds packets []) ≡ 2)
    × (sum_of (flow_bytes seconds) (add_packets seconds packets []) ≡ 6)
add_packets_conserves_example = add_packets_conserves seconds packets
