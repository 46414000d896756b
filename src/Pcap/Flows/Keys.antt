-- ===== src/Pcap/Flows/Keys.antt =====
-- The keys of the flows: their equality, and that a key does not tell the two directions apart.
use team_c_edr.Base.{
  or_false, true, false, ◌&&◌, ◌≡◌, refl, ap, ◌∙◌, arith, String, str_eq, str_lt, ltb, ◌==◌, eq_iff,
  eq_refl, ==_iff, and_true, Bool-cases, inl, inr, str_lt_asym, str_lt_total,
}
use team_c_edr.Pcap.Frames.{Segment}
use team_c_edr.Pcap.Flows.{
  Endpoint, FlowKey, endpoint_less, endpoint_eq, key_eq, sorted_pair, flow_key, source, destination,
}

endpoint_path : (a b : Endpoint) → endpoint_eq a b ≡ true → a ≡ b
endpoint_path (a, m) (b, n) h =
    let (e, e') = and_true (str_eq a b) (m == n) h in rw ((eq_iff a b).0 e, (==_iff m n).0 e') refl

endpoint_eq_refl : (a : Endpoint) → endpoint_eq a a ≡ true
endpoint_eq_refl (a, m) = rw (eq_refl a, (==_iff m m).1 refl) refl

pub key_path : (k l : FlowKey) → key_eq k l ≡ true → k ≡ l
key_path (a, b) (c, d) h =
    let (e, e') = and_true (endpoint_eq a c) (endpoint_eq b d) h in
    rw (endpoint_path a c e, endpoint_path b d e') refl

pub key_eq_refl : (k : FlowKey) → key_eq k k ≡ true
key_eq_refl (a, b) = rw (endpoint_eq_refl a, endpoint_eq_refl b) refl

str_lt_irrefl : (a : String) → str_lt a a ≡ false
str_lt_irrefl a = elim (Bool-cases (str_lt a a)) [
  | inl lt ↦ str_lt_asym a a lt
  | inr not_lt ↦ not_lt
]

less_asym : (a b : Endpoint) → endpoint_less a b ≡ true → endpoint_less b a ≡ false
less_asym (a, m) (b, n) h = elim (Bool-cases (str_lt a b)) [
  | inl lt ↦ elim (Bool-cases (str_eq b a)) [
    | inl same ↦ ground (arith, lt, str_lt_asym a b lt, (eq_iff b a).0 same)
    | inr other ↦ rw (str_lt_asym a b lt, other) refl
  ]
  | inr not_lt ↦
      let (e, p) = and_true (str_eq a b) (ltb m n) (rw not_lt at h) in
      rw ((eq_iff a b).0 e, str_lt_irrefl b, eq_refl b) (ground (arith, p))
]

less_total : (a b : Endpoint) → endpoint_less a b ≡ false → endpoint_less b a ≡ false → a ≡ b
less_total (a, m) (b, n) h k =
    let (lt, e) : (str_lt a b ≡ false) × ((str_eq a b && ltb m n) ≡ false) = or_false _ _ h in
    let (gt, e') : (str_lt b a ≡ false) × ((str_eq b a && ltb n m) ≡ false) = or_false _ _ k in
    let same = str_lt_total a b lt gt in
    let u : ltb m n ≡ false = rw (same, eq_refl b) at e in
    let v : ltb n m ≡ false = rw (same, eq_refl b) at e' in
    let same_port : m ≡ n = ground (arith, u, v) in rw (same, same_port) refl

sorted_pair_symmetric : (a b : Endpoint) → sorted_pair b a ≡ sorted_pair a b
sorted_pair_symmetric a b = elim (Bool-cases (endpoint_less a b)) [
  | inl less ↦ rw (less, less_asym a b less) refl
  | inr not_less ↦ elim (Bool-cases (endpoint_less b a)) [
    | inl less ↦ rw (not_less, less) refl
    | inr neither ↦ rw (not_less, neither, less_total a b not_less neither) refl
  ]
]

-- The key of a flow is the same for both directions: exchanging the two ends of a segment does not
-- change its key.
flow_key_symmetric :
    (s r : Segment) → source r ≡ destination s → destination r ≡ source s → flow_key r ≡ flow_key s
unfolding flow_key
flow_key_symmetric s r e e' =
    ap (λ a. sorted_pair a (destination r)) e
    ∙ ap (sorted_pair (destination s)) e'
    ∙ sorted_pair_symmetric (source s) (destination s)
