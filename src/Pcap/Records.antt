-- ===== src/Pcap/Records.antt =====
-- The loop over the records of a capture file: it ends, and no record makes it raise.
use mathlib.Core.Path.{fun_ext}
use team_c_edr.Base.{
  ℕ, zero, suc, ◌+◌, ◌≤◌, ◌≡◌, refl, arith, List, [], length, Bool, true, false, Bool-cases, inl,
  inr, leb, ltb, ◌⊎◌, ap, if◌then◌else◌,
}
use team_c_edr.Python.{Result, ok, err, ◌>>=◌, pcap_flow_error}
use team_c_edr.Pcap.Frames.{slice, parse_ethernet_ipv4_tcp}
use team_c_edr.Pcap.Frames.Safety.{length-slice, Returns, parse_ethernet_ipv4_tcp-Returns}
use team_c_edr.Pcap.{
  Endian, pcap_format, unpack_record, read_records, bytes_eq, add_parsed, iter_tcp_packets,
}

unpack_record-Returns :
    (endian : Endian) (bs : List ℕ) → length bs ≡ 16 → Returns (unpack_record endian bs)
unfolding unpack_record
unpack_record-Returns endian bs h = rw h (_, refl)

pick-raises {ℓ} :
    {A : Type ℓ} (a b c d : Bool) (w x y z : A)
    → let r : Result A =
        if a
        then ok w
        else if b
        then ok x
        else if c
        then ok y
        else if d
        then ok z
        else err pcap_flow_error in
      Returns r ⊎ (r ≡ err pcap_flow_error)
pick-raises true b c d w x y z = inl (w, refl)
pick-raises false true c d w x y z = inl (x, refl)
pick-raises false false true d w x y z = inl (y, refl)
pick-raises false false false true w x y z = inl (z, refl)
pick-raises false false false false w x y z = inr refl

pcap_format-raises :
    (magic : List ℕ) → Returns (pcap_format magic) ⊎ (pcap_format magic ≡ err pcap_flow_error)
unfolding pcap_format
pcap_format-raises magic =
    pick-raises (bytes_eq magic _) (bytes_eq magic _) (bytes_eq magic _) (bytes_eq magic _) _ _ _ _

module _ {T : Type 0} (stamp : ℕ → ℕ → ℕ → T) where
  read_records-Returns :
      (fuel : ℕ) (endian : Endian) (resolution : ℕ) (contents : List ℕ) (offset : ℕ)
      → Returns (read_records stamp fuel endian resolution contents offset)
  unfolding read_records
  read_records-Returns zero endian resolution contents offset = ([], refl)
  read_records-Returns (suc fuel) endian resolution contents offset =
      elim (Bool-cases (leb (offset + 16) (length contents))) [
        | inl more ↦
            let sixteen = length-slice offset (offset + 16) contents (ground (arith, more)) in
            let (header, e) =
              unpack_record-Returns endian (slice offset (offset + 16) contents)
                (omega (arith, sixteen)) in
            let (parsed, e') =
              parse_ethernet_ipv4_tcp-Returns
                (slice (offset + 16) (offset + 16 + header.1.1) contents) in
            let (packets, e'') =
              read_records-Returns fuel endian resolution contents (offset + 16 + header.1.1) in
            rw (more, e, e', e'') (_, refl)
        | inr done ↦ rw done ([], refl)
      ]

  -- Reading a capture file returns packets or raises the `PcapFlowError` of a file that is too short
  -- or has an unknown magic number; no record makes it raise anything.
  pub iter_tcp_packets-raises :
      (contents : List ℕ)
      → Returns (iter_tcp_packets stamp contents)
        ⊎ (iter_tcp_packets stamp contents ≡ err pcap_flow_error)
  unfolding iter_tcp_packets
  iter_tcp_packets-raises contents = elim (Bool-cases (ltb (length contents) 24)) [
    | inl short ↦ rw short (inr refl)
    | inr enough ↦ elim (pcap_format-raises (slice 0 4 contents)) [
      | inl (format, e) ↦
          rw (enough, e)
            (inl (read_records-Returns (length contents) format.0 format.1 contents 24))
      | inr e ↦ rw (enough, e) (inr refl)
    ]
  ]

  -- The fuel of the loop over the records is enough: with at least as many rounds as bytes are left,
  -- the loop gives the same for any number of rounds, so it stops by its own condition.
  pub read_records_enough :
      (f g : ℕ) (endian : Endian) (resolution : ℕ) (contents : List ℕ) (offset : ℕ)
      → length contents ≤ offset + f
      → length contents ≤ offset + g
      → read_records stamp f endian resolution contents offset
        ≡ read_records stamp g endian resolution contents offset
  unfolding read_records
  read_records_enough zero zero endian resolution contents offset h k = refl
  read_records_enough zero (suc g) endian resolution contents offset h k = ground (arith, h)
  read_records_enough (suc f) zero endian resolution contents offset h k = ground (arith, k)
  read_records_enough (suc f) (suc g) endian resolution contents offset h k =
      ap
        (λ rest.
          if leb (offset + 16) (length contents)
          then (do
            (sec, (frac, incl_len)) ← unpack_record endian (slice offset (offset + 16) contents)
            parsed ← parse_ethernet_ipv4_tcp (slice (offset + 16) (offset + 16 + incl_len) contents)
            packets ← rest incl_len
            ok (add_parsed (stamp sec frac resolution) parsed packets))
          else ok [])
        (fun_ext (λ incl_len.
          read_records_enough f g endian resolution contents (offset + 16 + incl_len)
            (omega (arith, h)) (omega (arith, k))))
