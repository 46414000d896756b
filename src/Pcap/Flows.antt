-- ===== src/Pcap/Flows.antt =====
-- `events_from_pcap` of src/pcap_flow.py: the table of flows, the flow summaries and the HTTP events.
-- A set of flags is the list of its members in the order of their first occurrence.
pub mod Keys
pub mod Summary
pub mod Grouping
pub mod Totals
pub mod Contract
use team_c_edr.Base.{
  ℕ, suc, ◌+◌, Bool, false, not, ◌&&◌, ◌||◌, String, ◌<>◌, none, some, List, [], ◌∷◌, ◌++◌, length,
  select, ltb, ◌==◌, str_eq, str_lt, str_mem, sort_by, show_padded, if◌then◌else◌,
}
use team_c_edr.Base.Int.{pos}
use team_c_edr.Json.{Value, bool, int, str, arr, Fields, field, end, texts}
use team_c_edr.Python.{Result, ok, ◌>>=◌}
use team_c_edr.Pcap.Frames.{Segment}
use team_c_edr.Pcap.{Packet, iter_tcp_packets}
use team_c_edr.Pcap.Http.{Decoders, Request, parse_http_request}

-- What the code does with time stamps, which are floats.
pub record Times : Type 1 where
  pub Stamp : Type 0
  -- `ts_sec + (ts_frac / resolution)`
  pub stamp : ℕ → ℕ → ℕ → Stamp
  -- `max(a, b)`
  pub later : Stamp → Stamp → Stamp
  -- `max(0, int((last - first) * 1000))`
  pub duration_ms : Stamp → Stamp → ℕ
  -- `_iso`
  pub iso : Stamp → String

abbrev pub Endpoint : Type 0
Endpoint = String × ℕ

abbrev pub FlowKey : Type 0
FlowKey = Endpoint × Endpoint

abbrev pub endpoint_less : Endpoint → Endpoint → Bool
endpoint_less a b = str_lt a.0 b.0 || (str_eq a.0 b.0 && ltb a.1 b.1)

abbrev pub endpoint_eq : Endpoint → Endpoint → Bool
endpoint_eq a b = str_eq a.0 b.0 && a.1 == b.1

abbrev pub key_eq : FlowKey → FlowKey → Bool
key_eq k l = endpoint_eq k.0 l.0 && endpoint_eq k.1 l.1

abbrev pub source : Segment → Endpoint
source s = (s.src_ip, s.src_port)

abbrev pub destination : Segment → Endpoint
destination s = (s.dst_ip, s.dst_port)

-- `tuple(sorted((a, b)))`
abbrev pub sorted_pair : Endpoint → Endpoint → FlowKey
sorted_pair a b = if endpoint_less b a then (b, a) else (a, b)

-- `_flow_key`
unfoldable pub flow_key : Segment → FlowKey
flow_key s = sorted_pair (source s) (destination s)

pub record FlowState (Stamp : Type 0) : Type 0 where
  pub first_ts : Stamp
  pub last_ts : Stamp
  pub src_ip : String
  pub src_port : ℕ
  pub dst_ip : String
  pub dst_port : ℕ
  pub packets_out : ℕ
  pub packets_in : ℕ
  pub bytes_out : ℕ
  pub bytes_in : ℕ
  pub flags : List String

-- `flags.update(new)`
abbrev pub update_flags : List String → List String → List String
update_flags old new = old ++ select (λ f. not (str_mem f old)) new

module _ (times : Times) where
  unfoldable pub new_flow : Packet times.Stamp → FlowState times.Stamp
  new_flow p = record {
    first_ts = p.ts;
    last_ts = p.ts;
    src_ip = p.segment.src_ip;
    src_port = p.segment.src_port;
    dst_ip = p.segment.dst_ip;
    dst_port = p.segment.dst_port;
    packets_out = 0;
    packets_in = 0;
    bytes_out = 0;
    bytes_in = 0;
    flags = [];
  }

  -- The packet comes from the end that opened the flow.
  abbrev pub is_outgoing : FlowState times.Stamp → Segment → Bool
  is_outgoing f s = str_eq s.src_ip f.src_ip && s.src_port == f.src_port

  -- The updates of a flow by one packet.
  unfoldable pub count_packet : Packet times.Stamp → FlowState times.Stamp → FlowState times.Stamp
  count_packet p f =
      let g : FlowState times.Stamp = record f {
        last_ts = times.later f.last_ts p.ts;
        flags = update_flags f.flags p.segment.flags;
      } in
      if is_outgoing f p.segment
      then record g {
        packets_out = g.packets_out + 1;
        bytes_out = g.bytes_out + p.segment.payload_len;
      }
      else record g { packets_in = g.packets_in + 1; bytes_in = g.bytes_in + p.segment.payload_len }

  abbrev pub FlowTable : Type 0
  FlowTable = List (FlowKey × FlowState times.Stamp)

  -- The flow of the packet is opened if it is not there, then the packet is counted.
  unfoldable pub add_packet : Packet times.Stamp → FlowTable → FlowTable
  unfolding flow_key new_flow count_packet
  add_packet p [] = (flow_key p.segment, count_packet p (new_flow p)) ∷ []
  add_packet p ((k, f) ∷ flows) =
      if key_eq k (flow_key p.segment)
      then (k, count_packet p f) ∷ flows
      else (k, f) ∷ add_packet p flows

  unfoldable pub add_packets : List (Packet times.Stamp) → FlowTable → FlowTable
  unfolding add_packet
  add_packets [] flows = flows
  add_packets (p ∷ packets) flows = add_packets packets (add_packet p flows)

  abbrev natural : ℕ → Value
  natural n = int (pos n)

  unfoldable pub http_event : String → ℕ → Packet times.Stamp → Request → Fields
  unfolding show_padded
  http_event host_id index p r = field "event_id" (str ("pcap-http-" <> show_padded index)) (
      field "event_time" (str (times.iso p.ts)) (
        field "received_time" (str (times.iso p.ts)) (
          field "host_id" (str host_id) (
            field "event_type" (str "http_request") (
              field "source" (str "pcap_flow_analyzer") (
                field "payload_version" (str "v1") (
                  field "process_name" (str "pcap_capture") (
                    field "method" (str r.method) (
                      field "url" (str r.url) (
                        field "url_path" (str r.path) (
                          field "dst_domain" (str r.host) (
                            field "dst_ip" (str p.segment.dst_ip) (
                              field "dst_port" (natural p.segment.dst_port) (
                                field "protocol" (str "http") (
                                  field "decrypted" (bool false) (
                                    field "collection_mode" (str "pcap_l7_plaintext")
                                      end))))))))))))))))

  -- The HTTP events, numbered from `index` on.
  unfoldable pub http_events : Decoders → String → ℕ → List (Packet times.Stamp) → List Fields
  unfolding http_event parse_http_request
  http_events d host_id index [] = []
  http_events d host_id index (p ∷ packets) = elim (parse_http_request d p.segment.payload) [
    | none ↦ http_events d host_id index packets
    | some r ↦ http_event host_id index p r ∷ http_events d host_id (suc index) packets
  ]

  unfoldable pub flow_event : String → ℕ → FlowState times.Stamp → Fields
  unfolding show_padded sort_by
  flow_event host_id index f = field "event_id" (str ("pcap-flow-" <> show_padded index)) (
      field "event_time" (str (times.iso f.first_ts)) (
        field "received_time" (str (times.iso f.last_ts)) (
          field "host_id" (str host_id) (
            field "event_type" (str "flow_summary") (
              field "source" (str "pcap_flow_analyzer") (
                field "payload_version" (str "v1") (
                  field "process_name" (str "pcap_capture") (
                    field "dst_ip" (str f.dst_ip) (
                      field "dst_port" (natural f.dst_port) (
                        field "protocol" (str "tcp") (
                          field "packet_count" (natural (f.packets_out + f.packets_in)) (
                            field "bytes_out" (natural f.bytes_out) (
                              field "bytes_in" (natural f.bytes_in) (
                                field "duration_ms"
                                  (natural (times.duration_ms f.last_ts f.first_ts))
                                  (field "tcp_flags" (arr (texts (sort_by str_lt f.flags))) (
                                    field "collection_mode" (str "pcap_tcp_flow_reassembly")
                                      end))))))))))))))))

  unfoldable pub flow_events : String → ℕ → FlowTable → List Fields
  unfolding flow_event
  flow_events host_id index [] = []
  flow_events host_id index (entry ∷ flows) =
      flow_event host_id index entry.1 ∷ flow_events host_id (suc index) flows

  abbrev pub pcap_meta : String → ℕ → List Fields → List Fields → Fields
  pcap_meta path packets flows https = field "source" (str "pcap_file") (
      field "path" (str path) (
        field "packet_count" (natural packets) (
          field "flow_count" (natural (length flows)) (
            field "http_request_count" (natural (length https))
              (field "raw_event_count" (natural (length (flows ++ https))) end)))))

  -- `contents` is what `path` holds.
  unfoldable pub events_from_pcap :
      Decoders → String → List ℕ → String → Result (List Fields × Fields)
  unfolding iter_tcp_packets add_packets http_events flow_events
  events_from_pcap d path contents host_id = do
    packets ← iter_tcp_packets times.stamp contents
    let flows : List Fields = flow_events host_id 1 (add_packets packets [])
    let https : List Fields = http_events d host_id 1 packets
    ok (flows ++ https, pcap_meta path (length packets) flows https)
