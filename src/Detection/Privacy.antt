-- ===== src/Detection/Privacy.antt =====
-- src/privacy.py: personal data is removed or masked before events enter the detector.
pub mod Masking
use team_c_edr.Base.{
  String, Bool, true, false, not, Option, none, some, List, [], ◌∷◌, ◌≡◌, refl, ◌≢◌, arith, map,
  str_eq, str_mem, eq_iff, Bool-cases, inl, inr, if◌then◌else◌,
}
use team_c_edr.Json.{
  Value, null, bool, int, float, str, arr, obj, opaque, Fields, end, field, lookup, has_key,
  set_key, texts,
}
use team_c_edr.Python.{Runtime}

-- `PRIVACY_SENSITIVE_FIELDS` of src/config.py
abbrev pub privacy_sensitive_fields : List String
privacy_sensitive_fields =
    "user_name" ∷ "user_email" ∷ "employee_name" ∷ "phone_number" ∷ "resident_registration_number"
    ∷ "message_content" ∷ "chat_content" ∷ "clipboard_text" ∷ "keystrokes" ∷ "raw_payload"
    ∷ "http_body" ∷ "document_text" ∷ []

unfoldable pub is_sensitive : String → Bool
is_sensitive k = str_mem k privacy_sensitive_fields

pub data MaskAction : Type 0 where
  removed_sensitive_field masked_sensitive_pattern : MaskAction

-- An audit record: the field and what was done to it.
pub record Mask : Type 0 where
  pub field_name : String
  pub action : MaskAction

module _ (rt : Runtime) where
  unfoldable pub mask_text : String → String
  mask_text s = rt.sub_rrn (rt.sub_phone (rt.sub_email s))

  -- `masked != value`
  unfoldable pub is_masked : String → Bool
  unfolding mask_text
  is_masked s = not (str_eq (mask_text s) s)

  -- The value that is kept, and whether it was changed.
  unfoldable pub mask_value : Value → Value
  unfolding mask_text
  mask_value (str s) = str (mask_text s)
  mask_value v = v

  unfoldable pub is_changed : Value → Bool
  unfolding is_masked
  is_changed (str s) = is_masked s
  is_changed v = false

  -- The loop over `event.items()`. The keys of a dictionary differ, so each assignment appends.
  unfoldable pub kept_fields : Fields → Fields
  unfolding mask_value
  kept_fields end = end
  kept_fields (field k v rest) =
      if is_sensitive k then kept_fields rest else field k (mask_value v) (kept_fields rest)

  unfoldable pub masks_of : Fields → List Mask
  unfolding is_changed
  masks_of end = []
  masks_of (field k v rest) =
      if is_sensitive k
      then record { field_name = k; action = removed_sensitive_field } ∷ masks_of rest
      else if is_changed v
      then record { field_name = k; action = masked_sensitive_pattern } ∷ masks_of rest
      else masks_of rest

  abbrev noted : List Mask → Fields → Fields
  noted [] d = d
  noted (m ∷ ms) d =
      set_key "privacy_masked_fields" (arr (texts (map (λ x. x.field_name) (m ∷ ms)))) d

  unfoldable pub sanitize_event : Fields → Fields × List Mask
  unfolding kept_fields masks_of
  sanitize_event event = (noted (masks_of event) (kept_fields event), masks_of event)
