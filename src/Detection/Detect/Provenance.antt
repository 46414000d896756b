-- ===== src/Detection/Detect/Provenance.antt =====
-- Where the alerts of one event come from: the rule, the event and the rule's metadata.
use team_c_edr.Base.{true, List, [], ◌∷◌, ◌≡◌, All, ◌⊎◌, inl, inr}
use team_c_edr.Json.{Fields, get}
use team_c_edr.Python.{Runtime, ok, >>=-eq-ok, hash_key}
use team_c_edr.Detection.Alerts.{
  r001, r002, r003, r005, r006, r007, r008, r009, r010, r011, r012, r013, Alert,
}
use team_c_edr.Detection.Signatures.{SignatureDb}
use team_c_edr.Detection.Rules.{text_of, event_domain}
use team_c_edr.Detection.Rules.Network.{
  int_of, rare_at_night, maybe_add_domain_alert, maybe_add_large_outbound_alert,
  maybe_add_rare_asn_alert, maybe_add_shell_network_alert, maybe_add_vpn_abnormal_alert,
}
use team_c_edr.Detection.Rules.Content.{
  maybe_add_download_alert, maybe_add_hash_signature_alert, maybe_add_unsigned_execution_alert,
  maybe_add_l7_url_alert, maybe_add_application_action_alert, maybe_add_response_action_alert,
  maybe_add_ai_prediction_alert,
}
use team_c_edr.Detection.Detect.{type_in, rule_calls, event_alerts}
use team_c_edr.Detection.Detect.About.{
  watched, IsAbout, Good, when_alert-Good, >>=-Good, only-Good, in_order-Good, when_to-Good,
  one_of_three,
}

module _ (event : Fields) (rt : Runtime) (db : SignatureDb) where
  domain-Good :
      type_in (get "event_type" event) (watched r001) ≡ true
      → Good event (maybe_add_domain_alert rt db event)
  unfolding maybe_add_domain_alert
  domain-Good w = >>=-Good event (event_domain rt event) _ (λ d. when_alert-Good event _ r001 _ _ w)

  download-Good :
      type_in (get "event_type" event) (watched r002) ≡ true
      → Good event (maybe_add_download_alert rt db event)
  unfolding maybe_add_download_alert
  download-Good w = when_alert-Good event _ r002 _ _ w

  unsigned-Good :
      type_in (get "event_type" event) (watched r003) ≡ true
      → Good event (maybe_add_unsigned_execution_alert rt db event)
  unfolding maybe_add_unsigned_execution_alert
  unsigned-Good w = when_alert-Good event _ r003 _ _ w

  outbound-Good :
      type_in (get "event_type" event) (watched r005) ≡ true
      → Good event (maybe_add_large_outbound_alert rt event)
  unfolding maybe_add_large_outbound_alert
  outbound-Good w =
      >>=-Good event (int_of rt ("bytes_out" ∷ "byte_count_out" ∷ []) event) _
        (λ n. when_to-Good event rt _ r005 _ _ w)

  rare_asn-Good :
      type_in (get "event_type" event) (watched r006) ≡ true
      → Good event (maybe_add_rare_asn_alert rt event)
  unfolding maybe_add_rare_asn_alert
  rare_asn-Good w =
      >>=-Good event (rare_at_night rt (text_of rt ("destination_asn" ∷ []) event) event) _
        (λ b. when_to-Good event rt b r006 _ _ w)

  shell-Good :
      type_in (get "event_type" event) (watched r007) ≡ true
      → Good event (maybe_add_shell_network_alert rt event)
  unfolding maybe_add_shell_network_alert
  shell-Good w = when_to-Good event rt _ r007 _ _ w

  vpn-Good :
      type_in (get "event_type" event) (watched r008) ≡ true
      → Good event (maybe_add_vpn_abnormal_alert rt event)
  unfolding maybe_add_vpn_abnormal_alert
  vpn-Good w =
      >>=-Good event (int_of rt ("bytes_out" ∷ []) event) _
        (λ n. when_alert-Good event _ r008 _ _ w)

  url-Good :
      type_in (get "event_type" event) (watched r009) ≡ true
      → Good event (maybe_add_l7_url_alert rt db event)
  unfolding maybe_add_l7_url_alert
  url-Good w = >>=-Good event (event_domain rt event) _ (λ d. when_alert-Good event _ r009 _ _ w)

  action-Good :
      type_in (get "event_type" event) (watched r010) ≡ true
      → Good event (maybe_add_application_action_alert rt db event)
  unfolding maybe_add_application_action_alert
  action-Good w = >>=-Good event (event_domain rt event) _ (λ d. when_alert-Good event _ r010 _ _ w)

  hash-Good :
      type_in (get "event_type" event) (watched r011) ≡ true
      → Good event (maybe_add_hash_signature_alert rt db event)
  unfolding maybe_add_hash_signature_alert
  hash-Good w = when_alert-Good event _ r011 _ _ w

  response-Good :
      type_in (get "event_type" event) (watched r012) ≡ true
      → Good event (maybe_add_response_action_alert rt event)
  unfolding maybe_add_response_action_alert
  response-Good w = when_alert-Good event _ r012 _ _ w

  prediction-Good :
      type_in (get "event_type" event) (watched r013) ≡ true
      → Good event (maybe_add_ai_prediction_alert rt event)
  unfolding maybe_add_ai_prediction_alert
  prediction-Good w = when_alert-Good event _ r013 _ _ w

  -- R011 runs for three types.
  watched_hash-Good :
      (type_in (get "event_type" event) ("file_download" ∷ []) ≡ true)
        ⊎ ((type_in (get "event_type" event) ("process_start" ∷ []) ≡ true)
            ⊎ (type_in (get "event_type" event) ("application_action" ∷ []) ≡ true))
      → Good event (maybe_add_hash_signature_alert rt db event)
  watched_hash-Good h = hash-Good (
      one_of_three event (get "event_type" event) "file_download" "process_start"
        "application_action" h)

-- If the rules return for an event, every alert that they raise is by a rule that watches the event's
-- type, is about that event alone, with its host, the display name of that host and its time, and has
-- its rule's score and tactics and the severity of that score.
pub event_alerts-IsAbout :
    (rt : Runtime) (db : SignatureDb) (event : Fields) (alerts : List Alert)
    → event_alerts rt db event ≡ ok alerts
    → All (IsAbout event) alerts
unfolding event_alerts rule_calls
event_alerts-IsAbout rt db event alerts h =
    let (k, hashed, e) = >>=-eq-ok (hash_key (get "event_type" event)) _ h in
    in_order-Good event (rule_calls rt db event) alerts e (
      only-Good event _ _ (domain-Good event rt db),
      (
        only-Good event _ _ (download-Good event rt db),
        (
          only-Good event _ _ (λ w. watched_hash-Good event rt db (inl w)),
          (
            only-Good event _ _ (unsigned-Good event rt db),
            (
              only-Good event _ _ (λ w. watched_hash-Good event rt db (inr (inl w))),
              (
                only-Good event _ _ (outbound-Good event rt db),
                (
                  only-Good event _ _ (rare_asn-Good event rt db),
                  (
                    only-Good event _ _ (shell-Good event rt db),
                    (
                      only-Good event _ _ (vpn-Good event rt db),
                      (
                        only-Good event _ _ (url-Good event rt db),
                        (
                          only-Good event _ _ (action-Good event rt db),
                          (
                            only-Good event _ _ (λ w. watched_hash-Good event rt db (inr (inr w))),
                            (
                              only-Good event _ _ (response-Good event rt db),
                              (only-Good event _ _ (prediction-Good event rt db), tt),
                            ),
                          ),
                        ),
                      ),
                    ),
                  ),
                ),
              ),
            ),
          ),
        ),
      ),
    )
