-- ===== src/Pcap/Encoding.antt =====
-- A reference writer of capture files, and that the reader gives back what it wrote.
use team_c_edr.Base.{
  ℕ, zero, suc, ◌+◌, ◌-◌, ◌/◌, ◌%◌, ◌^◌, ◌≤◌, ◌<◌, ◌≡◌, refl, sym, ap, ◌∙◌, arith, List, [], ◌∷◌,
  ◌++◌, length, take, drop, All, true, false, leb, ltb, length-append, append_assoc,
}
use team_c_edr.Python.{Result, ok, ◌>>=◌}
use team_c_edr.Pcap.Frames.{slice, parse_ethernet_ipv4_tcp}
use team_c_edr.Pcap.{
  Endian, little, big, word, from_little, from_big, pcap_format, unpack_record, Packet, add_parsed,
  read_records, iter_tcp_packets,
}

-- A captured frame with the other fields of its record.
pub record Capture : Type 0 where
  pub sec : ℕ
  pub frac : ℕ
  pub orig_len : ℕ
  pub frame : List ℕ

-- The fields are 32 bits wide.
pub record IsCapture (c : Capture) : Type 0 where
  pub sec : c.sec < 2 ^ 32
  pub frac : c.frac < 2 ^ 32
  pub length : length c.frame < 2 ^ 32

abbrev pub encode_word : Endian → ℕ → List ℕ
encode_word little n = n % 256 ∷ (n / 256) % 256 ∷ (n / 65536) % 256 ∷ (n / 16777216) % 256 ∷ []
encode_word big n = (n / 16777216) % 256 ∷ (n / 65536) % 256 ∷ (n / 256) % 256 ∷ n % 256 ∷ []

word-encode_word : (e : Endian) (n : ℕ) → n < 2 ^ 32 → word e (encode_word e n) ≡ n
unfolding from_little from_big
word-encode_word little n h = omega (arith, h)
word-encode_word big n h = omega (arith, h)

abbrev pub encode_header : Endian → Capture → List ℕ
encode_header e c =
    encode_word e c.sec
    ++ (encode_word e c.frac ++ (encode_word e (length c.frame) ++ encode_word e c.orig_len))

abbrev pub encode_records : Endian → List Capture → List ℕ
encode_records e [] = []
encode_records e (c ∷ cs) = encode_header e c ++ (c.frame ++ encode_records e cs)

length-encode_header : (e : Endian) (c : Capture) → length (encode_header e c) ≡ 16
length-encode_header little c = refl
length-encode_header big c = refl

unpack_record-encode_header :
    (e : Endian) (c : Capture)
    → IsCapture c
    → unpack_record e (encode_header e c) ≡ ok (c.sec, (c.frac, length c.frame))
unfolding unpack_record
unpack_record-encode_header little c h =
    rw
      (
        word-encode_word little c.sec h.sec,
        word-encode_word little c.frac h.frac,
        word-encode_word little (length c.frame) h.length,
      )
      refl
unpack_record-encode_header big c h =
    rw
      (
        word-encode_word big c.sec h.sec,
        word-encode_word big c.frac h.frac,
        word-encode_word big (length c.frame) h.length,
      )
      refl

sub_same : (n m : ℕ) → n + m - n ≡ m
sub_same n m = omega arith

drop-append {ℓ} : {A : Type ℓ} (xs ys : List A) → drop (length xs) (xs ++ ys) ≡ ys
drop-append [] ys = refl
drop-append (x ∷ xs) ys = drop-append xs ys

take-append {ℓ} : {A : Type ℓ} (xs ys : List A) → take (length xs) (xs ++ ys) ≡ xs
take-append [] ys = refl
take-append (x ∷ xs) ys = ap (λ zs. x ∷ zs) (take-append xs ys)

-- The slice of what stands behind a prefix.
slice-append {ℓ} :
    {A : Type ℓ} (a b : ℕ) (pre xs ys : List A)
    → a ≡ length pre
    → b ≡ a + length xs
    → slice a b (pre ++ (xs ++ ys)) ≡ xs
slice-append a b pre xs ys h k =
    rw (k, h, drop-append pre (xs ++ ys), sub_same (length pre) (length xs)) (take-append xs ys)

take_first {ℓ} :
    {A : Type ℓ} (n : ℕ) (xs ys : List A) → n ≤ length xs → take n (xs ++ ys) ≡ take n xs
take_first zero xs ys h = refl
take_first (suc n) [] ys h = let bad : ⊥ = omega (arith, h) in elim bad [ ]
take_first (suc n) (x ∷ xs) ys h = ap (λ zs. x ∷ zs) (take_first n xs ys (omega (arith, h)))

regroup {ℓ} :
    {A : Type ℓ} (pre header frame rest : List A)
    → (pre ++ (header ++ frame)) ++ rest ≡ pre ++ (header ++ (frame ++ rest))
regroup pre header frame rest =
    append_assoc pre (header ++ frame) rest ∙ ap (λ xs. pre ++ xs) (append_assoc header frame rest)

frame_slice :
    (e : Endian) (c : Capture) (pre rest : List ℕ) (offset : ℕ)
    → offset ≡ length pre
    → slice
        (offset + 16)
        (offset + 16 + length c.frame)
        (pre ++ (encode_header e c ++ (c.frame ++ rest)))
      ≡ c.frame
frame_slice e c pre rest offset at_end =
    let same = append_assoc pre (encode_header e c) (c.frame ++ rest) in
    ap (slice (offset + 16) (offset + 16 + length c.frame)) (sym same)
    ∙ slice-append (offset + 16) (offset + 16 + length c.frame) (pre ++ encode_header e c) c.frame
        rest
        (omega (arith, at_end, length-append pre (encode_header e c), length-encode_header e c))
        refl

module _ {T : Type 0} (stamp : ℕ → ℕ → ℕ → T) where
  -- The packets of the captured frames that are TCP segments.
  abbrev pub captured : ℕ → List Capture → Result (List (Packet T))
  captured resolution [] = ok []
  captured resolution (c ∷ cs) = do
    parsed ← parse_ethernet_ipv4_tcp c.frame
    packets ← captured resolution cs
    ok (add_parsed (stamp c.sec c.frac resolution) parsed packets)

  read_records-encode_records :
      (f : ℕ) (e : Endian) (resolution : ℕ) (pre : List ℕ) (cs : List Capture) (offset : ℕ)
      → offset ≡ length pre
      → All IsCapture cs
      → length (encode_records e cs) ≤ f
      → read_records stamp f e resolution (pre ++ encode_records e cs) offset
        ≡ captured resolution cs
  unfolding read_records
  read_records-encode_records zero e resolution pre [] offset at_end h k = refl
  read_records-encode_records (suc f) e resolution pre [] offset at_end h k =
      ground (arith, length-append pre [], at_end)
  read_records-encode_records zero e resolution pre (c ∷ cs) offset at_end h k =
      let bad : ⊥ = omega (
        arith,
        k,
        length-append (encode_header e c) (c.frame ++ encode_records e cs),
        length-encode_header e c,
      ) in
      elim bad [ ]
  read_records-encode_records (suc f) e resolution pre (c ∷ cs) offset at_end h k =
      let header = encode_header e c in
      let rest = encode_records e cs in
      let whole = length-append pre (header ++ (c.frame ++ rest)) in
      let body = length-append header (c.frame ++ rest) in
      let tail = length-append c.frame rest in
      let sixteen = length-encode_header e c in
      let more : leb (offset + 16) (length (pre ++ (header ++ (c.frame ++ rest)))) ≡ true =
        ground (arith, whole, body, sixteen, at_end) in
      let next =
        read_records-encode_records f e resolution (pre ++ (header ++ c.frame)) cs
          (offset + 16 + length c.frame)
          (omega (
            arith,
            at_end,
            sixteen,
            length-append pre (header ++ c.frame),
            length-append header c.frame,
          ))
          h.1 (omega (arith, k, body, tail, sixteen)) in
      rw
        (
          more,
          slice-append offset (offset + 16) pre header (c.frame ++ rest) at_end
              (omega (arith, sixteen)),
          unpack_record-encode_header e c h.0,
        )
        (rw (frame_slice e c pre rest offset at_end, rw (regroup pre header c.frame rest) at next)
          refl)

  -- What the reference writer wrote is read back: for a header of 24 bytes with a known magic number
  -- and fields of 32 bits, reading the file gives the packets of the written frames that are TCP
  -- segments, in order, each with its own time stamp.
  pub iter_tcp_packets-encode_records :
      (header : List ℕ) (e : Endian) (resolution : ℕ) (cs : List Capture)
      → length header ≡ 24
      → pcap_format (take 4 header) ≡ ok (e, resolution)
      → All IsCapture cs
      → iter_tcp_packets stamp (header ++ encode_records e cs) ≡ captured resolution cs
  unfolding iter_tcp_packets
  iter_tcp_packets-encode_records header e resolution cs h magic fields =
      let whole = length-append header (encode_records e cs) in
      let enough : ltb (length (header ++ encode_records e cs)) 24 ≡ false =
        ground (arith, whole, h) in
      rw (enough, take_first 4 header (encode_records e cs) (omega (arith, h)), magic)
        (read_records-encode_records (length (header ++ encode_records e cs)) e resolution header cs
          24 (sym h) fields (omega (arith, whole)))
