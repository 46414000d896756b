-- ===== src/Pcap/Frames.antt =====
-- `_parse_ethernet_ipv4_tcp` of src/pcap_flow.py, with its reads out of range as exceptions. The eight
-- flags of a segment are listed in the order of the table of `_flags`.
pub mod Safety
use team_c_edr.Base.{
  ℕ, zero, suc, ◌+◌, ◌-◌, ◌*◌, ◌/◌, ◌%◌, min, String, ◌<>◌, Bool, true, false, not, ◌&&◌, ◌||◌,
  Option, none, some, List, [], ◌∷◌, length, take, drop, ltb, ◌==◌, if◌then◌else◌, show,
}
use team_c_edr.Python.{Result, ok, err, ◌>>=◌, index_error, struct_error, value_error}

-- `xs[a:b]`; a range past the end gives what is there.
abbrev pub slice {ℓ} : {A : Type ℓ} → ℕ → ℕ → List A → List A
slice a b xs = take (b - a) (drop a xs)

-- `xs[i]`
unfoldable pub byte_at : ℕ → List ℕ → Result ℕ
byte_at i [] = err index_error
byte_at zero (b ∷ bs) = ok b
byte_at (suc i) (b ∷ bs) = byte_at i bs

-- `struct.unpack("!H", bs)[0]`
unfoldable pub unpack_h : List ℕ → Result ℕ
unpack_h (a ∷ b ∷ []) = ok (a * 256 + b)
unpack_h bs = err struct_error

-- `str(ipaddress.ip_address(bs))` for the four bytes of an IPv4 address.
unfoldable pub ip_text : List ℕ → Result String
unfolding show
ip_text (a ∷ b ∷ c ∷ d ∷ []) =
    ok (show a <> ("." <> (show b <> ("." <> (show c <> ("." <> show d))))))
ip_text bs = err value_error

-- `struct.unpack("!HHIIH", bs)`: the ports, and the offset with the flags.
unfoldable pub unpack_tcp : List ℕ → Result (ℕ × (ℕ × ℕ))
unfolding unpack_h
unpack_tcp bs =
    if length bs == 14
    then (do
      src ← unpack_h (slice 0 2 bs)
      dst ← unpack_h (slice 2 4 bs)
      offset_flags ← unpack_h (slice 12 14 bs)
      ok (src, (dst, offset_flags)))
    else err struct_error

-- `value & bit` for a power of two.
abbrev has_bit : ℕ → ℕ → Bool
has_bit bit value = (value / bit) % 2 == 1

abbrev flag : ℕ → String → ℕ → List String → List String
flag bit name value rest = if has_bit bit value then name ∷ rest else rest

-- `_flags`
unfoldable pub flags : ℕ → List String
flags value = flag 0x001 "FIN" value (
    flag 0x002 "SYN" value (
      flag 0x004 "RST" value (
        flag 0x008 "PSH" value (
          flag 0x010 "ACK" value
            (flag 0x020 "URG" value (flag 0x040 "ECE" value (flag 0x080 "CWR" value [])))))))

pub record Segment : Type 0 where
  pub src_ip : String
  pub src_port : ℕ
  pub dst_ip : String
  pub dst_port : ℕ
  pub payload : List ℕ
  pub payload_len : ℕ
  pub flags : List String

-- The segment behind an IPv4 header of `ihl` bytes.
unfoldable pub parse_tcp : List ℕ → ℕ → Result Segment
unfolding unpack_h ip_text unpack_tcp flags
parse_tcp frame ihl = do
  total_len ← unpack_h (slice 16 18 frame)
  src_ip ← ip_text (slice 26 30 frame)
  dst_ip ← ip_text (slice 30 34 frame)
  (src_port, (dst_port, offset_flags)) ← unpack_tcp (slice (14 + ihl) (14 + ihl + 14) frame)
  let payload : List ℕ =
      slice (14 + ihl + ((offset_flags / 4096) % 16) * 4) (min (length frame) (14 + total_len))
        frame
  ok (record {
    src_ip = src_ip;
    src_port = src_port;
    dst_ip = dst_ip;
    dst_port = dst_port;
    payload = payload;
    payload_len = length payload;
    flags = flags (offset_flags % 512);
  })

unfoldable pub parse_ethernet_ipv4_tcp : List ℕ → Result (Option Segment)
unfolding unpack_h byte_at parse_tcp
parse_ethernet_ipv4_tcp frame = if ltb (length frame) 54 then ok none else (do
  eth_type ← unpack_h (slice 12 14 frame)
  if not (eth_type == 0x0800) then ok none else (do
    version_ihl ← byte_at 14 frame
    let ihl : ℕ = (version_ihl % 16) * 4
    if not (version_ihl / 16 == 4) || ltb (length frame) (14 + ihl + 20) then ok none else (do
      protocol ← byte_at 23 frame
      if not (protocol == 6)
          then ok none
          else (do segment ← parse_tcp frame ihl; ok (some segment)))))
