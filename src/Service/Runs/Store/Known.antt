-- ===== src/Service/Runs/Store/Known.antt =====
-- The ids that a result's alerts and incidents are linked to are ids of its objects.
use team_c_edr.Base.{
  String, true, false, not, ◌&&◌, Option, none, some, List, [], ◌∷◌, ◌++◌, ◌≡◌, refl, sym, arith,
  All, All-append, In, here, there, Bool-cases, inl, inr, select, str_eq, str_mem, eq_iff, select,
  eq_refl, In-append_right, append_assoc,
}
use team_c_edr.Json.{Fields, get}
use team_c_edr.Service.Runs.Ids.{
  text_at, ids_at, first_of, incident_alert_ids, explicit_alert_ids, related_alert_ids,
  shares_event, or_related, head_text, alert_event_ids, incident_event_ids, text_list,
  primary_event_id, primary_alert_id,
}

-- An object of the list has that id.
pub record Holds (k : String) (ds : List Fields) (x : String) : Type 0 where
  pub object : Fields
  pub listed : In object ds
  pub named : text_at k object ≡ x
  pub given : str_eq x "" ≡ false

in_tail :
    (k : String) (d : Fields) (ds : List Fields) (x : String) → Holds k ds x → Holds k (d ∷ ds) x
in_tail k d ds x h = record {
  object = h.object;
  listed = there h.listed;
  named = h.named;
  given = h.given;
}

pub ids_at-Holds :
    (k : String) (ds : List Fields) (x : String) → str_mem x (ids_at k ds) ≡ true → Holds k ds x
unfolding ids_at
ids_at-Holds k [] x h = cc
ids_at-Holds k (d ∷ ds) x h = elim (Bool-cases (str_eq (text_at k d) "")) [
  | inl empty ↦ in_tail k d ds x (ids_at-Holds k ds x (rw empty at h))
  | inr given ↦ elim (Bool-cases (str_eq x (text_at k d))) [
    | inl same ↦
        let e = (eq_iff _ _).0 same in
        record { object = d; listed = here; named = sym e; given = rw e given }
    | inr other ↦ in_tail k d ds x (ids_at-Holds k ds x (rw (given, other) at h))
  ]
]

-- The members that a test keeps are members.
pub select_mem :
    (known xs : List String) → All (λ x. str_mem x known ≡ true) (select (λ x. str_mem x known) xs)
select_mem known [] = tt
select_mem known (x ∷ xs) = elim (Bool-cases (str_mem x known)) [
  | inl hit ↦ rw hit (hit, select_mem known xs)
  | inr miss ↦ rw miss (select_mem known xs)
]

-- What an optional id names is among the known ids.
abbrev pub NamesKnown : List String → Option String → Type 0
NamesKnown known none = Unit
NamesKnown known (some x) = str_mem x known ≡ true

first_of-NamesKnown : (xs known : List String) → NamesKnown known (first_of xs known)
unfolding first_of
first_of-NamesKnown [] known = tt
first_of-NamesKnown (x ∷ xs) known = elim (Bool-cases (str_mem x known)) [
  | inl hit ↦ rw hit hit
  | inr miss ↦ rw miss (first_of-NamesKnown xs known)
]

explicit-known :
    (incident : Fields) (known : List String)
    → All (λ a. str_mem a known ≡ true) (explicit_alert_ids incident known)
unfolding explicit_alert_ids
explicit-known incident known =
    let listed = select (λ a. str_mem a known) (text_list (get "alert_ids" incident)) in
    let primary = text_at "primary_alert_id" incident in
    let mem = select_mem known (text_list (get "alert_ids" incident)) in
    elim (Bool-cases
      (not (str_eq primary "") && (str_mem primary known && not (str_mem primary listed)))) [
        | inl new ↦ rw new (
            All-append (λ a. str_mem a known ≡ true) listed (primary ∷ []) mem
              (ground (arith, new), tt))
        | inr old ↦ rw old mem
      ]

-- An object with an id puts it among the ids.
pub ids_at-hit :
    (k : String) (ds : List Fields) (d : Fields)
    → In d ds
    → str_eq (text_at k d) "" ≡ false
    → str_mem (text_at k d) (ids_at k ds) ≡ true
unfolding ids_at
ids_at-hit k [] d m given = elim m [ ]
ids_at-hit k (d ∷ ds) d' here given = rw (given, eq_refl (text_at k d)) refl
ids_at-hit k (d' ∷ ds) d (there m) given = ground (arith, ids_at-hit k ds d m given)

related-known :
    (host : String) (ids : List String) (alerts ds : List Fields)
    → All (λ d. In d alerts) ds
    → All (λ a. str_mem a (ids_at "alert_id" alerts) ≡ true) (related_alert_ids host ids ds)
unfolding related_alert_ids shares_event
related-known host ids alerts [] h = tt
related-known host ids alerts (d ∷ ds) h = elim (Bool-cases (shares_event host ids d)) [
  | inl shares ↦ rw shares (
    ids_at-hit "alert_id" alerts d h.0 (ground (arith, shares)),
    related-known host ids alerts ds h.1,
  )
  | inr not_shared ↦ rw not_shared (related-known host ids alerts ds h.1)
]

pub all_In : (ds front : List Fields) → All (λ d. In d (front ++ ds)) ds
all_In [] front = tt
all_In (d ∷ ds) front = (
  In-append_right front (d ∷ ds) here,
  rw (append_assoc front (d ∷ []) ds) at (all_In ds (front ++ (d ∷ []))),
)

or_related-All :
    (P : String → Type 0) (xs ys : List String) → All P xs → All P ys → All P (or_related xs ys)
or_related-All P [] ys h k = k
or_related-All P (x ∷ xs) ys h k = h

pub incident-known :
    (incident : Fields) (alerts : List Fields)
    → All (λ a. str_mem a (ids_at "alert_id" alerts) ≡ true) (incident_alert_ids incident alerts)
unfolding incident_alert_ids
incident-known incident alerts =
    or_related-All (λ a. str_mem a (ids_at "alert_id" alerts) ≡ true)
      (explicit_alert_ids incident (ids_at "alert_id" alerts))
      (related_alert_ids (text_at "host_id" incident) (incident_event_ids incident) alerts)
      (explicit-known incident (ids_at "alert_id" alerts))
      (related-known (text_at "host_id" incident) (incident_event_ids incident) alerts alerts
        (all_In alerts []))

pub primary_event_id-NamesKnown :
    (alert : Fields) (known : List String) → NamesKnown known (primary_event_id alert known)
unfolding primary_event_id
primary_event_id-NamesKnown alert known = first_of-NamesKnown (alert_event_ids alert) known

head_text-NamesKnown :
    (xs known : List String)
    → All (λ a. str_mem a known ≡ true) xs
    → NamesKnown known (head_text xs)
head_text-NamesKnown [] known h = tt
head_text-NamesKnown (x ∷ xs) known h = h.0

pub primary_alert_id-NamesKnown :
    (incident : Fields) (alerts : List Fields)
    → NamesKnown (ids_at "alert_id" alerts) (primary_alert_id incident alerts)
unfolding primary_alert_id
primary_alert_id-NamesKnown incident alerts =
    head_text-NamesKnown (incident_alert_ids incident alerts) (ids_at "alert_id" alerts)
      (incident-known incident alerts)
