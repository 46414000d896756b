-- ===== src/Detection/Privacy/Masking.antt =====
-- What `sanitize_event` of src/privacy.py removes, masks, keeps and records.
use team_c_edr.Base.{
  String, true, false, none, some, List, [], ◌∷◌, ◌≡◌, refl, arith, str_eq, eq_iff, Bool-cases, inl,
  inr, In, here, there, if◌then◌else◌, ap, ◌∙◌, Option,
}
use team_c_edr.Json.{Value, bool, str, Fields, end, field, lookup, has_key}
use team_c_edr.Json.Laws.{lookup-set_key, lookup-has_key}
use team_c_edr.Python.{Runtime}
use team_c_edr.Detection.Privacy.{
  is_sensitive, Mask, removed_sensitive_field, mask_text, is_masked, mask_value, is_changed,
  kept_fields, masks_of, noted, sanitize_event,
}

note_kept : is_sensitive "privacy_masked_fields" ≡ false
unfolding is_sensitive
note_kept = refl

module _ (rt : Runtime) where
  lookup-kept_fields :
      (k : String) (d : Fields)
      → lookup k (kept_fields rt d) ≡ (
          if is_sensitive k
          then none
          else elim (lookup k d) [ none ↦ none | some v ↦ some (mask_value rt v) ])
  unfolding lookup kept_fields
  lookup-kept_fields k end = ground arith
  lookup-kept_fields k (field j v d) = ground (arith, lookup-kept_fields k d, eq_iff j k)

  lookup-noted :
      (k : String) (ms : List Mask) (d : Fields)
      → str_eq "privacy_masked_fields" k ≡ false
      → lookup k (noted rt ms d) ≡ lookup k d
  lookup-noted k [] d ne = refl
  lookup-noted k (m ∷ ms) d ne = rw (lookup-set_key, ne) refl

  mask_value-by_type :
      (v : Value)
      → mask_value rt v
        ≡ elim v [ str s ↦ str (rt.sub_rrn (rt.sub_phone (rt.sub_email s))) | w ↦ w ]
  unfolding mask_value
  mask_value-by_type (str s) = refl
  mask_value-by_type (bool b) = refl
  mask_value-by_type v = refl

  -- The sanitized event, key by key: a sensitive field is gone, a text has the e-mail pattern, then
  -- the phone pattern, then the resident number pattern replaced, any other value is as it was, and no
  -- key is added but "privacy_masked_fields".
  pub sanitize_event-lookup :
      (k : String) (event : Fields)
      → str_eq "privacy_masked_fields" k ≡ false
      → lookup k (sanitize_event rt event).0 ≡ (
          if is_sensitive k then none else elim (lookup k event) [
            | none ↦ none
            | some v ↦
                some (elim v [ str s ↦ str (rt.sub_rrn (rt.sub_phone (rt.sub_email s))) | w ↦ w ])
          ])
  unfolding sanitize_event
  sanitize_event-lookup k event ne =
      lookup-noted k (masks_of rt event) (kept_fields rt event) ne
      ∙ lookup-kept_fields k event
      ∙ ap (λ o. if is_sensitive k then none else o) (by_type (lookup k event))
    where
      by_type :
          (o : Option Value)
          → elim o [ none ↦ none | some v ↦ some (mask_value rt v) ] ≡ elim o [
            | none ↦ none
            | some v ↦
                some (elim v [ str s ↦ str (rt.sub_rrn (rt.sub_phone (rt.sub_email s))) | w ↦ w ])
          ]
      by_type none = refl
      by_type (some v) = ap some (mask_value-by_type v)

  -- No sensitive field is left at the top level of a sanitized event.
  pub sanitize_event_safe :
      (k : String) (event : Fields)
      → is_sensitive k ≡ true
      → has_key k (sanitize_event rt event).0 ≡ false
  sanitize_event_safe k event h =
      lookup-has_key k _ (sanitize_event-lookup k event (not_the_note k h) ∙ rw h refl)
    where
      not_the_note : (j : String) → is_sensitive j ≡ true → str_eq "privacy_masked_fields" j ≡ false
      not_the_note j s = elim (Bool-cases (str_eq "privacy_masked_fields" j)) [
        | inl same ↦ cc (note_kept, s, ap is_sensitive ((eq_iff _ _).0 same))
        | inr other ↦ other
      ]

  mask_value_clean : (v : Value) → is_changed rt v ≡ false → mask_value rt v ≡ v
  unfolding mask_value is_changed is_masked
  mask_value_clean (str t) h = ap str ((eq_iff (mask_text rt t) t).0 (ground arith))
  mask_value_clean (bool b) h = refl
  mask_value_clean _ h = refl

  -- An event with no audit record was not changed.
  kept_fields_clean : (d : Fields) → masks_of rt d ≡ [] → kept_fields rt d ≡ d
  unfolding kept_fields masks_of
  kept_fields_clean end h = refl
  kept_fields_clean (field k v d) h = ground (arith, kept_fields_clean d, mask_value_clean v)

  -- Without an audit record the event is as it was.
  sanitize_event_clean :
      (event : Fields) → (sanitize_event rt event).1 ≡ [] → (sanitize_event rt event).0 ≡ event
  unfolding sanitize_event
  sanitize_event_clean event h = rw h (kept_fields_clean event h)

  removed_mask :
      (k : String) (v : Value) (d : Fields)
      → lookup k d ≡ some v
      → is_sensitive k ≡ true
      → In (record { field_name = k; action = removed_sensitive_field }) (masks_of rt d)
  unfolding lookup masks_of
  removed_mask k v end found h = cc
  removed_mask k v (field j w d) found h = elim (Bool-cases (str_eq j k)) [
    | inl same ↦ let e = (eq_iff j k).0 same in rw (e, h) here
    | inr other ↦
        let later = removed_mask k v d (rw other at found) h in
        elim (Bool-cases (is_sensitive j)) [
          | inl gone ↦ rw gone (there later)
          | inr kept ↦ elim (Bool-cases (is_changed rt w)) [
            | inl changed ↦ rw (kept, changed) (there later)
            | inr same ↦ rw (kept, same) later
          ]
        ]
  ]

  -- Every field that is removed has its audit record.
  pub sanitize_event_audited :
      (k : String) (v : Value) (event : Fields)
      → lookup k event ≡ some v
      → is_sensitive k ≡ true
      → In (record { field_name = k; action = removed_sensitive_field }) (sanitize_event rt event).1
  unfolding sanitize_event
  sanitize_event_audited k v event found h = removed_mask k v event found h
