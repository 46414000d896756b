-- ===== src/Detection/Rules/Content.antt =====
-- Rules R002, R003 and R009 to R013 of src/detection_engine.py: files, hashes, decrypted requests,
-- application actions, responses and predictions.
use team_c_edr.Base.{
  String, ◌<>◌, Bool, false, not, ◌&&◌, ◌||◌, List, [], ◌∷◌, str_eq, str_mem, str_or, any,
  if◌then◌else◌,
}
use team_c_edr.Json.{Value, bool, str, Fields, get}
use team_c_edr.Python.{Runtime, Result, ◌>>=◌}
use team_c_edr.Detection.Alerts.{Alert, r002, r003, r009, r010, r011, r012, r013}
use team_c_edr.Detection.Signatures.{SignatureDb, AppAction}
use team_c_edr.Detection.Rules.{
  get_default, when, text_of, shown_or_unknown, event_domain, event_alert,
}

abbrev browsers : List String
browsers = "chrome.exe" ∷ "msedge.exe" ∷ "firefox.exe" ∷ "safari" ∷ []

abbrev executable_suffixes : List String
executable_suffixes = ".exe" ∷ ".dll" ∷ ".ps1" ∷ ".bat" ∷ []

-- `v is False`
abbrev pub is_false : Value → Bool
is_false (bool b) = not b
is_false v = false

module _ (rt : Runtime) where
  -- `f"{event.get(k, d)}"`
  shown_or : String → String → Fields → String
  unfolding get_default
  shown_or k d event = rt.to_str (get_default k (str d) event)

  unfoldable pub maybe_add_download_alert : SignatureDb → Fields → Result (List Alert)
  unfolding text_of when event_alert shown_or
  maybe_add_download_alert db event =
      let file_name = rt.lower (text_of rt ("file_name" ∷ "file_path" ∷ []) event) in
      let source_domain = text_of rt ("source_domain" ∷ []) event in
      let hash_value = text_of rt ("hash_sha256" ∷ []) event in
      let parent = rt.lower (text_of rt ("parent_process" ∷ "process_name" ∷ []) event) in
      let browser_parent = str_mem parent browsers in
      when
        (any (rt.ends_with file_name) executable_suffixes
          && (browser_parent
              || (str_mem (rt.lower source_domain) db.malicious_domains
                  || str_mem (rt.lower hash_value) db.malware_hashes)))
        (event_alert r002 event
          ("Executable download needs review: " <> shown_or "file_name" file_name event)
          ("downloaded file has executable extension"
            ∷ ("source_domain=" <> str_or source_domain "unknown")
            ∷ (if browser_parent
                then "browser initiated the download"
                else "signature context raised suspicion")
            ∷ []))

  unfoldable pub maybe_add_unsigned_execution_alert : SignatureDb → Fields → Result (List Alert)
  unfolding text_of when event_alert shown_or shown_or_unknown
  maybe_add_unsigned_execution_alert db event =
      let path = rt.lower (text_of rt ("process_path" ∷ []) event) in
      let hash_value = text_of rt ("hash_sha256" ∷ []) event in
      when
        (is_false (get "signed" event)
          && (rt.contains path "\\downloads\\"
              || (rt.contains path "/downloads/"
                  || str_mem (rt.lower hash_value) db.malware_hashes)))
        (event_alert r003 event
          ("Unsigned executable started: " <> shown_or "process_name" "unknown process" event)
          ("process is unsigned"
            ∷ (if rt.contains path "downloads"
                then "process path is under Downloads"
                else "hash matched suspicious set")
            ∷ ("parent_process=" <> shown_or_unknown rt "parent_process" event)
            ∷ []))

  unfoldable pub maybe_add_l7_url_alert : SignatureDb → Fields → Result (List Alert)
  unfolding text_of when event_alert get_default event_domain
  maybe_add_l7_url_alert db event = do
    let url = rt.lower (text_of rt ("url" ∷ "object_url" ∷ []) event)
    domain ← event_domain rt event
    let category = rt.lower (text_of rt ("url_category" ∷ []) event)
    when
        (str_mem url db.malicious_urls
          || (str_mem domain db.malicious_domains || str_mem category db.blocked_categories))
        (event_alert r009 event ("Decrypted L7 request matched policy: " <> str_or url domain) (
          ("url=" <> str_or url "unknown")
          ∷ ("domain=" <> str_or domain "unknown")
          ∷ ("url_category=" <> str_or category "unknown")
          ∷ ("decrypted=" <> rt.to_str (get_default "decrypted" (bool false) event))
          ∷ []))

  unfoldable pub is_monitored : SignatureDb → String → String → Bool
  is_monitored db app_name action =
      any
        (λ (item : AppAction).
          str_eq (rt.lower item.app) app_name && str_eq (rt.lower item.action) action)
        db.monitored_app_actions

  unfoldable pub maybe_add_application_action_alert : SignatureDb → Fields → Result (List Alert)
  unfolding text_of when event_alert shown_or is_monitored event_domain
  maybe_add_application_action_alert db event = do
    let app_name = rt.lower (text_of rt ("app_name" ∷ "app_id" ∷ []) event)
    let action = rt.lower (text_of rt ("app_action" ∷ []) event)
    domain ← event_domain rt event
    let url = rt.lower (text_of rt ("object_url" ∷ "url" ∷ []) event)
    let app = shown_or "app_name" app_name event
    let shown_action = shown_or "app_action" action event
    when
        (is_monitored db app_name action
          && (str_mem domain db.malicious_domains || str_mem url db.malicious_urls))
        (event_alert r010 event
          ("Risky application action observed: " <> (app <> (" " <> shown_action)))
          (("app=" <> app)
            ∷ ("action=" <> shown_action)
            ∷ ("object_url=" <> str_or url "unknown")
            ∷ "message body was not retained"
            ∷ []))

  unfoldable pub maybe_add_hash_signature_alert : SignatureDb → Fields → Result (List Alert)
  unfolding text_of when event_alert shown_or_unknown
  maybe_add_hash_signature_alert db event =
      let hash_value = rt.lower (text_of rt ("hash_sha256" ∷ "attachment_hash" ∷ []) event) in
      when (not (str_eq hash_value "" || not (str_mem hash_value db.malware_hashes))) (
        event_alert r011 event
          ("Known malware hash observed: " <> (rt.first_twelve hash_value <> "..."))
          (("hash_sha256=" <> hash_value)
            ∷ ("event_type=" <> rt.to_str (get "event_type" event))
            ∷ ("process_name=" <> shown_or_unknown rt "process_name" event)
            ∷ []))

  unfoldable pub maybe_add_response_action_alert : Fields → Result (List Alert)
  unfolding text_of when event_alert shown_or_unknown
  maybe_add_response_action_alert event =
      when (str_mem (text_of rt ("status" ∷ []) event) ("planned" ∷ "queued" ∷ "applied" ∷ [])) (
        event_alert r012 event
          ("Response action generated: " <> shown_or_unknown rt "action_type" event)
          (("status=" <> shown_or_unknown rt "status" event)
            ∷ ("mode=" <> shown_or_unknown rt "mode" event)
            ∷ ("rule_id=" <> shown_or_unknown rt "rule_id" event)
            ∷ []))

  unfoldable pub maybe_add_ai_prediction_alert : Fields → Result (List Alert)
  unfolding text_of when event_alert shown_or_unknown
  maybe_add_ai_prediction_alert event =
      when (str_mem (text_of rt ("prediction" ∷ []) event) ("high" ∷ "critical" ∷ [])) (
        event_alert r013 event
          ("AI model predicted " <> (rt.to_str (get "prediction" event) <> " risk trajectory"))
          (("score=" <> shown_or_unknown rt "score" event)
            ∷ ("confidence=" <> shown_or_unknown rt "confidence" event)
            ∷ ("horizon=" <> shown_or_unknown rt "horizon" event)
            ∷ []))
