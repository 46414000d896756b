-- ===== src/Tests/Siem.antt =====
-- Three events: two go to one domain, of which one contributed to an alert, and one goes nowhere.
use team_c_edr.Base.{[], ◌∷◌, ◌≡◌, refl, List, String, count_if, ◌&&◌}
use team_c_edr.Base.Int.{pos}
use team_c_edr.Json.{Fields, field, end, str, int, get}
use team_c_edr.Python.{Key, text_key, hash_key, key_mem, key_eq}
use team_c_edr.Detection.Siem.{Tally, count_destinations}
use team_c_edr.Detection.Siem.Counts.{
  events_at, alerts_at, goes_to, is_alerted, count_destinations-exact,
}
use team_c_edr.Tests.Detection.{rt}

abbrev visit : String → Fields
visit id =
    field "event_id" (str id)
      (field "domain" (str "bad.example") (field "bytes_out" (int (pos 7)) end))

abbrev events : List Fields
events = visit "evt-1" ∷ field "event_id" (str "evt-2") end ∷ visit "evt-3" ∷ []

abbrev alerted : List Key
alerted = text_key "evt-3" ∷ []

abbrev table : List (Tally String)
table = record { key = "bad.example"; event_count = 2; alert_count = 1; bytes_out = pos 14 } ∷ []

count_destinations-exact_example :
    (events_at "bad.example" table ≡ count_if (goes_to rt alerted "bad.example") events)
    × (alerts_at "bad.example" table
        ≡ count_if (λ e. goes_to rt alerted "bad.example" e && is_alerted alerted e) events)
unfolding count_destinations get hash_key key_mem key_eq
count_destinations-exact_example =
    count_destinations-exact rt alerted events table "bad.example" refl refl
