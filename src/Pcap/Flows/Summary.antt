-- ===== src/Pcap/Flows/Summary.antt =====
-- What one flow says of its packets, and that counting a packet keeps it true.
use team_c_edr.Base.{
  ℕ, ◌+◌, Bool, not, ◌&&◌, ◌||◌, Option, none, some, List, [], ◌∷◌, ◌++◌, ◌≡◌, refl, sym, ap, ◌∙◌,
  arith, String, str_eq, ◌==◌, str_mem, select, count_if, sum_of, any, any-append, Bool-cases, inl,
  inr, if◌then◌else◌, eq_iff,
}
use team_c_edr.Pcap.{Packet}
use team_c_edr.Pcap.Flows.{
  Times, FlowKey, FlowState, FlowTable, key_eq, flow_key, new_flow, is_outgoing, count_packet,
  update_flags,
}

module _ (times : Times) where
  abbrev pub lookup_flow : FlowKey → FlowTable times → Option (FlowState times.Stamp)
  lookup_flow k [] = none
  lookup_flow k ((j, f) ∷ flows) = if key_eq j k then some f else lookup_flow k flows

  -- The packet belongs to that flow.
  abbrev pub in_flow : FlowKey → Packet times.Stamp → Bool
  in_flow k p = key_eq (flow_key p.segment) k

  -- The packets come from the same end.
  abbrev pub same_end : Packet times.Stamp → Packet times.Stamp → Bool
  same_end p q =
      str_eq q.segment.src_ip p.segment.src_ip && q.segment.src_port == p.segment.src_port

  abbrev pub latest : times.Stamp → List (Packet times.Stamp) → times.Stamp
  latest t [] = t
  latest t (p ∷ ps) = latest (times.later t p.ts) ps

  -- The flow that `p` opened, after the packets `ps`: the packets and bytes of each direction, the
  -- time stamps, and the flags that some packet has.
  pub record Summarises (p : Packet times.Stamp) (ps : List (Packet times.Stamp))
      (f : FlowState times.Stamp) : Type 0 where
    pub first_ts : f.first_ts ≡ p.ts
    pub last_ts : f.last_ts ≡ latest p.ts ps
    pub src_ip : f.src_ip ≡ p.segment.src_ip
    pub src_port : f.src_port ≡ p.segment.src_port
    pub dst_ip : f.dst_ip ≡ p.segment.dst_ip
    pub dst_port : f.dst_port ≡ p.segment.dst_port
    pub packets_out : f.packets_out ≡ count_if (same_end p) ps
    pub packets_in : f.packets_in ≡ count_if (λ q. not (same_end p q)) ps
    pub bytes_out :
        f.bytes_out
        ≡ sum_of (λ (q : Packet times.Stamp). if same_end p q then q.segment.payload_len else 0) ps
    pub bytes_in :
        f.bytes_in
        ≡ sum_of (λ (q : Packet times.Stamp). if same_end p q then 0 else q.segment.payload_len) ps
    pub flags :
        (x : String)
        → str_mem x f.flags ≡ any (λ (q : Packet times.Stamp). str_mem x q.segment.flags) ps

  -- What the table holds under a key whose packets are `ps`.
  pub data IsFlow : List (Packet times.Stamp) → Option (FlowState times.Stamp) → Type 0 where
    no_packet : IsFlow [] none
    summary :
        {p : Packet times.Stamp} {ps : List (Packet times.Stamp)} {f : FlowState times.Stamp}
        → Summarises p (p ∷ ps) f
        → IsFlow (p ∷ ps) (some f)

  pub opened : (p : Packet times.Stamp) → Summarises p [] (new_flow times p)
  unfolding new_flow
  opened p = record {
    first_ts = refl;
    last_ts = refl;
    src_ip = refl;
    src_port = refl;
    dst_ip = refl;
    dst_port = refl;
    packets_out = refl;
    packets_in = refl;
    bytes_out = refl;
    bytes_in = refl;
    flags = λ x. refl;
  }

  latest-snoc :
      (t : times.Stamp) (ps : List (Packet times.Stamp)) (q : Packet times.Stamp)
      → latest t (ps ++ (q ∷ [])) ≡ times.later (latest t ps) q.ts
  latest-snoc t [] q = refl
  latest-snoc t (p ∷ ps) q = latest-snoc (times.later t p.ts) ps q

count_if-append {ℓ} :
    {A : Type ℓ} (p : A → Bool) (xs ys : List A)
    → count_if p (xs ++ ys) ≡ count_if p xs + count_if p ys
count_if-append p [] ys = omega arith
count_if-append p (x ∷ xs) ys = omega (arith, count_if-append p xs ys)

sum_of-append {ℓ} :
    {A : Type ℓ} (f : A → ℕ) (xs ys : List A) → sum_of f (xs ++ ys) ≡ sum_of f xs + sum_of f ys
sum_of-append f [] ys = omega arith
sum_of-append f (x ∷ xs) ys = omega (arith, sum_of-append f xs ys)

str_mem-append :
    (x : String) (xs ys : List String) → str_mem x (xs ++ ys) ≡ (str_mem x xs || str_mem x ys)
str_mem-append x [] ys = refl
str_mem-append x (y ∷ xs) ys = ground (arith, str_mem-append x xs ys)

or_select :
    (x : String) (old new : List String)
    → (str_mem x old || str_mem x (select (λ f. not (str_mem f old)) new))
      ≡ (str_mem x old || str_mem x new)
or_select x old [] = refl
or_select x old (y ∷ new) = elim (Bool-cases (str_mem y old)) [
  | inl there ↦ elim (Bool-cases (str_eq x y)) [
    | inl same ↦ ground (arith, there, (eq_iff x y).0 same)
    | inr other ↦ ground (arith, there, other, or_select x old new)
  ]
  | inr new_one ↦ ground (arith, new_one, or_select x old new)
]

-- Members that are there are not added again.
str_mem-update_flags :
    (x : String) (old new : List String)
    → str_mem x (update_flags old new) ≡ (str_mem x old || str_mem x new)
str_mem-update_flags x old new =
    str_mem-append x old (select (λ f. not (str_mem f old)) new) ∙ or_select x old new

module _ (times : Times) (p q : Packet times.Stamp) (ps : List (Packet times.Stamp))
    (f : FlowState times.Stamp) (h : Summarises times p ps f) where
  outgoing-same_end : is_outgoing times f q.segment ≡ same_end times p q
  outgoing-same_end = rw (h.src_ip, h.src_port) refl

  flags_grow :
      (x : String)
      → str_mem x (update_flags f.flags q.segment.flags)
        ≡ any (λ (r : Packet times.Stamp). str_mem x r.segment.flags) (ps ++ (q ∷ []))
  flags_grow x = ground (
    arith,
    str_mem-update_flags x f.flags q.segment.flags,
    h.flags x,
    any-append (λ (r : Packet times.Stamp). str_mem x r.segment.flags) ps (q ∷ []),
  )

  abbrev out_bytes : Packet times.Stamp → ℕ
  out_bytes r = if same_end times p r then r.segment.payload_len else 0

  abbrev in_bytes : Packet times.Stamp → ℕ
  in_bytes r = if same_end times p r then 0 else r.segment.payload_len

  -- Counting one more packet, of either direction.
  pub count_packet-Summarises : Summarises times p (ps ++ (q ∷ [])) (count_packet times q f)
  unfolding count_packet
  count_packet-Summarises =
      let outs = count_if-append (same_end times p) ps (q ∷ []) in
      let ins = count_if-append (λ r. not (same_end times p r)) ps (q ∷ []) in
      let sent = sum_of-append out_bytes ps (q ∷ []) in
      let received = sum_of-append in_bytes ps (q ∷ []) in
      let last = ap (λ t. times.later t q.ts) h.last_ts ∙ sym (latest-snoc times p.ts ps q) in
      elim (Bool-cases (same_end times p q)) [
        | inl same ↦
            rw (outgoing-same_end, same)
              (record {
                first_ts = h.first_ts;
                last_ts = last;
                src_ip = h.src_ip;
                src_port = h.src_port;
                dst_ip = h.dst_ip;
                dst_port = h.dst_port;
                packets_out = ground (arith, same, h.packets_out, outs);
                packets_in = ground (arith, same, h.packets_in, ins);
                bytes_out = ground (arith, same, h.bytes_out, sent);
                bytes_in = ground (arith, same, h.bytes_in, received);
                flags = flags_grow;
              })
        | inr other ↦
            rw (outgoing-same_end, other)
              (record {
                first_ts = h.first_ts;
                last_ts = last;
                src_ip = h.src_ip;
                src_port = h.src_port;
                dst_ip = h.dst_ip;
                dst_port = h.dst_port;
                packets_out = ground (arith, other, h.packets_out, outs);
                packets_in = ground (arith, other, h.packets_in, ins);
                bytes_out = ground (arith, other, h.bytes_out, sent);
                bytes_in = ground (arith, other, h.bytes_in, received);
                flags = flags_grow;
              })
      ]
