-- ===== src/Detection/Detect/About.antt =====
-- What it means that an alert of src/detection_engine.py is about one event, and the lemmas on the
-- shapes that the rules share.
use team_c_edr.Base.{
  String, Bool, true, false, none, List, [], ◌∷◌, ◌≡◌, refl, All, All-append, Bool-cases, ◌⊎◌, inl,
  inr, arith,
}
use team_c_edr.Json.{Value, Fields, get}
use team_c_edr.Python.{Runtime, Result, ok, ◌>>=◌, >>=-eq-ok}
use team_c_edr.Detection.Alerts.{
  Rule, r001, r002, r003, r004, r005, r006, r007, r008, r009, r010, r011, r012, r013, Alert, alert,
  base_score, mitre, severity, display_host,
}
use team_c_edr.Detection.Rules.{when, event_alert, destination_of}
use team_c_edr.Detection.Detect.{type_in, only, in_order}

-- The event types that a rule watches.
abbrev pub watched : Rule → List String
watched r001 =
    "dns_query" ∷ "network_connection" ∷ "file_download" ∷ "http_request" ∷ "application_action"
    ∷ "decryption_event" ∷ []
watched r002 = "file_download" ∷ []
watched r003 = "process_start" ∷ []
watched r004 = "network_connection" ∷ []
watched r005 = "network_connection" ∷ "flow_summary" ∷ []
watched r006 = "network_connection" ∷ "flow_summary" ∷ []
watched r007 = "network_connection" ∷ "flow_summary" ∷ []
watched r008 = "network_connection" ∷ "flow_summary" ∷ []
watched r009 = "http_request" ∷ []
watched r010 = "application_action" ∷ []
watched r011 = "file_download" ∷ "process_start" ∷ "application_action" ∷ []
watched r012 = "response_action" ∷ []
watched r013 = "ai_prediction" ∷ []

-- The alert is about this event alone and carries its rule's metadata.
pub record IsAbout (event : Fields) (a : Alert) : Type 0 where
  pub watches : type_in (get "event_type" event) (watched a.rule) ≡ true
  pub host : a.host_id ≡ get "host_id" event
  pub named : display_host a.host_id ≡ ok a.host_display_name
  pub events : a.event_ids ≡ get "event_id" event ∷ []
  pub time : a.event_time ≡ get "event_time" event
  pub score : a.risk_score ≡ base_score a.rule
  pub tactics : a.mitre_mapping ≡ mitre a.rule
  pub label : a.alert_severity ≡ severity a.risk_score
  pub single : a.interval ≡ none

-- All alerts that a call appends are about the event.
abbrev pub Good : Fields → Result (List Alert) → Type 0
Good event r = (found : List Alert) → r ≡ ok found → All (IsAbout event) found

ok_injective {ℓ} : {A : Type ℓ} {a b : A} → ok a ≡ ok b → a ≡ b
ok_injective e = cc

module _ (event : Fields) where
  event_alert-IsAbout :
      (rule : Rule) (title : String) (evidence : List String) (a : Alert)
      → type_in (get "event_type" event) (watched rule) ≡ true
      → event_alert rule event title evidence ≡ ok a
      → IsAbout event a
  unfolding event_alert alert
  event_alert-IsAbout rule title evidence a w h =
      let (shown, e1, h1) = >>=-eq-ok (display_host (get "host_id" event)) _ h in
      rw (← ok_injective h1) (record {
        watches = w;
        host = refl;
        named = e1;
        events = refl;
        time = refl;
        score = refl;
        tactics = refl;
        label = refl;
        single = refl;
      })

  when-Good :
      (test : Bool) (made : Result Alert)
      → ((a : Alert) → made ≡ ok a → IsAbout event a)
      → Good event (when test made)
  unfolding when
  when-Good false made h found e = rw (← ok_injective e) tt
  when-Good true made h found e =
      let (a, e1, e2) = >>=-eq-ok made _ e in rw (← ok_injective e2) (h a e1, tt)

  -- A rule that appends one alert, under a test, on a watched type.
  pub when_alert-Good :
      (test : Bool) (rule : Rule) (title : String) (evidence : List String)
      → type_in (get "event_type" event) (watched rule) ≡ true
      → Good event (when test (event_alert rule event title evidence))
  when_alert-Good test rule title evidence w =
      when-Good test _ (λ a e. event_alert-IsAbout rule title evidence a w e)

  pub >>=-Good {ℓ} :
      {A : Type ℓ} (m : Result A) (f : A → Result (List Alert))
      → ((a : A) → Good event (f a))
      → Good event (m >>= f)
  >>=-Good m f h found e = let (a, e1, e2) = >>=-eq-ok m f e in h a found e2

  pub only-Good :
      (ts : List String) (r : Result (List Alert))
      → (type_in (get "event_type" event) ts ≡ true → Good event r)
      → Good event (only (type_in (get "event_type" event) ts) r)
  unfolding only
  only-Good ts r h found e = elim (Bool-cases (type_in (get "event_type" event) ts)) [
    | inl hit ↦ h hit found (rw hit at e)
    | inr miss ↦ rw (← ok_injective (rw miss at e)) tt
  ]

  pub in_order-Good :
      (rs : List (Result (List Alert))) (found : List Alert)
      → in_order rs ≡ ok found
      → All (Good event) rs
      → All (IsAbout event) found
  unfolding in_order
  in_order-Good [] found e h = rw (← ok_injective e) tt
  in_order-Good (r ∷ rs) found e h =
      let (xs, e1, h1) = >>=-eq-ok r _ e in
      let (ys, e2, h2) = >>=-eq-ok (in_order rs) _ h1 in
      rw (← ok_injective h2)
        (All-append (IsAbout event) xs ys (h.0 xs e1) (in_order-Good rs ys e2 h.1))

  -- A rule whose alert also names the destination.
  pub when_to-Good :
      (rt : Runtime) (test : Bool) (rule : Rule) (title : String) (evidence : String → List String)
      → type_in (get "event_type" event) (watched rule) ≡ true
      → Good event
          (when test (destination_of rt event >>= (λ d. event_alert rule event title (evidence d))))
  when_to-Good rt test rule title evidence w = when-Good test _ (λ a e.
      let (d, e1, e2) = >>=-eq-ok (destination_of rt event) _ e in
      event_alert-IsAbout rule title (evidence d) a w e2)

  pub one_of_three :
      (v : Value) (x y z : String)
      → (type_in v (x ∷ []) ≡ true) ⊎ ((type_in v (y ∷ []) ≡ true) ⊎ (type_in v (z ∷ []) ≡ true))
      → type_in v (x ∷ y ∷ z ∷ []) ≡ true
  unfolding type_in
  one_of_three v x y z h = ground arith
