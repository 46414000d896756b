-- ===== src/Pcap/Frames/Safety.antt =====
-- No frame makes `_parse_ethernet_ipv4_tcp` read out of range.
use team_c_edr.Base.{
  if◌then◌else◌, ℕ, zero, suc, ◌+◌, ◌-◌, ◌*◌, ◌%◌, ◌/◌, ◌≤◌, ◌<◌, ◌≡◌, refl, arith, List, [], ◌∷◌,
  length, take, drop, Bool, true, false, ltb, not, ◌||◌, ◌==◌, none, some,
}
use team_c_edr.Python.{Result, ok}
use team_c_edr.Pcap.Frames.{
  slice, byte_at, unpack_h, ip_text, unpack_tcp, parse_tcp, parse_ethernet_ipv4_tcp,
}

pub length-drop {ℓ} : {A : Type ℓ} (n : ℕ) (xs : List A) → length (drop n xs) ≡ length xs - n
length-drop zero xs = omega arith
length-drop (suc n) [] = omega arith
length-drop (suc n) (x ∷ xs) = omega (arith, length-drop n xs)

pub length-take {ℓ} : {A : Type ℓ} (n : ℕ) (xs : List A) → n ≤ length xs → length (take n xs) ≡ n
length-take zero xs h = refl
length-take (suc n) [] h = omega (arith, h)
length-take (suc n) (x ∷ xs) h = omega (arith, length-take n xs (omega (arith, h)))

-- A range that lies in the list has its length.
pub length-slice {ℓ} :
    {A : Type ℓ} (a b : ℕ) (xs : List A) → b ≤ length xs → length (slice a b xs) ≡ b - a
length-slice a b xs h = length-take (b - a) (drop a xs) (omega (arith, length-drop a xs, h))

-- A call returns.
abbrev pub Returns {ℓ} : {A : Type ℓ} → Result A → Type ℓ
Returns {A = A} r = (a : A) × (r ≡ ok a)

unpack_h-Returns : (bs : List ℕ) → length bs ≡ 2 → Returns (unpack_h bs)
unfolding unpack_h
unpack_h-Returns [] h = let bad : ⊥ = omega (arith, h) in elim bad [ ]
unpack_h-Returns (a ∷ []) h = let bad : ⊥ = omega (arith, h) in elim bad [ ]
unpack_h-Returns (a ∷ b ∷ []) h = (_, refl)
unpack_h-Returns (a ∷ b ∷ c ∷ bs) h = let bad : ⊥ = omega (arith, h) in elim bad [ ]

ip_text-Returns : (bs : List ℕ) → length bs ≡ 4 → Returns (ip_text bs)
unfolding ip_text
ip_text-Returns [] h = let bad : ⊥ = omega (arith, h) in elim bad [ ]
ip_text-Returns (a ∷ []) h = let bad : ⊥ = omega (arith, h) in elim bad [ ]
ip_text-Returns (a ∷ b ∷ []) h = let bad : ⊥ = omega (arith, h) in elim bad [ ]
ip_text-Returns (a ∷ b ∷ c ∷ []) h = let bad : ⊥ = omega (arith, h) in elim bad [ ]
ip_text-Returns (a ∷ b ∷ c ∷ d ∷ []) h = (_, refl)
ip_text-Returns (a ∷ b ∷ c ∷ d ∷ e ∷ bs) h = let bad : ⊥ = omega (arith, h) in elim bad [ ]

byte_at-Returns : (i : ℕ) (bs : List ℕ) → i < length bs → Returns (byte_at i bs)
unfolding byte_at
byte_at-Returns i [] h = let bad : ⊥ = omega (arith, h) in elim bad [ ]
byte_at-Returns zero (b ∷ bs) h = (b, refl)
byte_at-Returns (suc i) (b ∷ bs) h = byte_at-Returns i bs (omega (arith, h))

unpack_tcp-Returns : (bs : List ℕ) → length bs ≡ 14 → Returns (unpack_tcp bs)
unfolding unpack_tcp
unpack_tcp-Returns bs h =
    let (src, e) = unpack_h-Returns (slice 0 2 bs) (length-slice 0 2 bs (omega (arith, h))) in
    let (dst, e') = unpack_h-Returns (slice 2 4 bs) (length-slice 2 4 bs (omega (arith, h))) in
    let (offset_flags, e'') =
      unpack_h-Returns (slice 12 14 bs) (length-slice 12 14 bs (omega (arith, h))) in
    rw (h, e, e', e'') (_, refl)

parse_tcp-Returns :
    (frame : List ℕ) (ihl : ℕ) → 14 + ihl + 20 ≤ length frame → Returns (parse_tcp frame ihl)
unfolding parse_tcp
parse_tcp-Returns frame ihl h =
    let (total_len, e) =
      unpack_h-Returns (slice 16 18 frame) (length-slice 16 18 frame (omega (arith, h))) in
    let (src_ip, e') =
      ip_text-Returns (slice 26 30 frame) (length-slice 26 30 frame (omega (arith, h))) in
    let (dst_ip, e'') =
      ip_text-Returns (slice 30 34 frame) (length-slice 30 34 frame (omega (arith, h))) in
    let within = length-slice (14 + ihl) (14 + ihl + 14) frame (omega (arith, h)) in
    let (ports, e3) =
      unpack_tcp-Returns (slice (14 + ihl) (14 + ihl + 14) frame) (omega (arith, within)) in
    rw (e, e', e'', e3) (_, refl)

if-Returns {ℓ} :
    {A : Type ℓ} {x y : Result A} (b : Bool)
    → Returns x
    → (b ≡ false → Returns y)
    → Returns (if b then x else y)
if-Returns true h k = h
if-Returns false h k = k refl

-- Parsing a frame never raises, whatever its bytes are: no index and no unpacking is out of range.
pub parse_ethernet_ipv4_tcp-Returns : (frame : List ℕ) → Returns (parse_ethernet_ipv4_tcp frame)
unfolding parse_ethernet_ipv4_tcp
parse_ethernet_ipv4_tcp-Returns frame =
    if-Returns (ltb (length frame) 54) (none, refl)
      (λ enough.
        let within : 54 ≤ length frame = ground (arith, enough) in
        let (eth_type, e) =
          unpack_h-Returns (slice 12 14 frame) (length-slice 12 14 frame (omega (arith, within))) in
        let (version_ihl, e') = byte_at-Returns 14 frame (omega (arith, within)) in
        let (protocol, e'') = byte_at-Returns 23 frame (omega (arith, within)) in
        rw e (
          if-Returns (not (eth_type == 0x0800)) (none, refl)
            (λ ipv4. rw e' (
              if-Returns
                (not (version_ihl / 16 == 4)
                  || ltb (length frame) (14 + (version_ihl % 16) * 4 + 20))
                (none, refl)
                (λ fits. rw e'' (
                  if-Returns (not (protocol == 6)) (none, refl)
                    (λ tcp.
                      let (segment, e3) =
                        parse_tcp-Returns frame ((version_ihl % 16) * 4) (ground (arith, fits)) in
                      rw e3 (some segment, refl))))))))
