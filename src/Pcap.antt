-- ===== src/Pcap.antt =====
-- src/pcap_flow.py: the records of a capture file. A byte is a number; `data[a:b]` is `slice a b`.
pub mod Frames
pub mod Records
pub mod Encoding
pub mod Http
pub mod Flows
use team_c_edr.Base.{
  ℕ, zero, suc, ◌+◌, ◌-◌, ◌*◌, ◌%◌, ◌/◌, String, Bool, true, false, ◌&&◌, List, [], ◌∷◌, length,
  take, drop, ltb, leb, ◌==◌, if◌then◌else◌, Option, none, some,
}
use team_c_edr.Python.{Result, ok, err, ◌>>=◌, pcap_flow_error, struct_error}
use team_c_edr.Pcap.Frames.{Segment, slice, parse_ethernet_ipv4_tcp}

-- `"<"` and `">"`
pub data Endian : Type 0 where
  little big : Endian

-- What the four bytes of an unsigned `I` stand for.
unfoldable pub from_little : List ℕ → ℕ
from_little [] = 0
from_little (b ∷ bs) = b + 256 * from_little bs

unfoldable pub from_big : ℕ → List ℕ → ℕ
from_big n [] = n
from_big n (b ∷ bs) = from_big (n * 256 + b) bs

abbrev pub word : Endian → List ℕ → ℕ
word little bs = from_little bs
word big bs = from_big 0 bs

unfoldable pub bytes_eq : List ℕ → List ℕ → Bool
bytes_eq [] [] = true
bytes_eq (b ∷ bs) (c ∷ cs) = b == c && bytes_eq bs cs
bytes_eq bs cs = false

-- `_pcap_format`
unfoldable pub pcap_format : List ℕ → Result (Endian × ℕ)
unfolding bytes_eq
pcap_format magic =
    if bytes_eq magic (0xd4 ∷ 0xc3 ∷ 0xb2 ∷ 0xa1 ∷ [])
    then ok (little, 1000000)
    else if bytes_eq magic (0xa1 ∷ 0xb2 ∷ 0xc3 ∷ 0xd4 ∷ [])
    then ok (big, 1000000)
    else if bytes_eq magic (0x4d ∷ 0x3c ∷ 0xb2 ∷ 0xa1 ∷ [])
    then ok (little, 1000000000)
    else if bytes_eq magic (0xa1 ∷ 0xb2 ∷ 0x3c ∷ 0x4d ∷ [])
    then ok (big, 1000000000)
    else err pcap_flow_error

-- `struct.unpack(endian + "IIII", bs)`: seconds, fraction, length.
unfoldable pub unpack_record : Endian → List ℕ → Result (ℕ × (ℕ × ℕ))
unfolding from_little from_big
unpack_record endian bs =
    if length bs == 16
    then ok (word endian (slice 0 4 bs), (word endian (slice 4 8 bs), word endian (slice 8 12 bs)))
    else err struct_error

pub record Packet (T : Type 0) : Type 0 where
  pub ts : T
  pub segment : Segment

abbrev pub add_parsed : {T : Type 0} → T → Option Segment → List (Packet T) → List (Packet T)
add_parsed ts none packets = packets
add_parsed ts (some segment) packets = record { ts = ts; segment = segment } ∷ packets

-- A time stamp is a `float`, made of the seconds, the fraction and the resolution.
module _ {T : Type 0} (stamp : ℕ → ℕ → ℕ → T) where
  -- The loop of `_iter_tcp_packets`, on fuel.
  unfoldable pub read_records : ℕ → Endian → ℕ → List ℕ → ℕ → Result (List (Packet T))
  unfolding unpack_record parse_ethernet_ipv4_tcp
  read_records zero endian resolution contents offset = ok []
  read_records (suc fuel) endian resolution contents offset =
      if leb (offset + 16) (length contents)
      then (do
        (sec, (frac, incl_len)) ← unpack_record endian (slice offset (offset + 16) contents)
        parsed ← parse_ethernet_ipv4_tcp (slice (offset + 16) (offset + 16 + incl_len) contents)
        packets ← read_records fuel endian resolution contents (offset + 16 + incl_len)
        ok (add_parsed (stamp sec frac resolution) parsed packets))
      else ok []

  -- `list(_iter_tcp_packets(path))`; `contents` is the file's `data`.
  unfoldable pub iter_tcp_packets : List ℕ → Result (List (Packet T))
  unfolding read_records pcap_format
  iter_tcp_packets contents = if ltb (length contents) 24 then err pcap_flow_error else (do
    (endian, resolution) ← pcap_format (slice 0 4 contents)
    read_records (length contents) endian resolution contents 24)
