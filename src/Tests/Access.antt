-- ===== src/Tests/Access.antt =====
-- A request with a bearer token, and a remote collector.
use team_c_edr.Base.{
  String, true, false, some, none, ◌≡◌, ◌⊎◌, refl, str_eq, if◌then◌else◌, eq_iff, Bool-cases, inl,
  inr,
}
use team_c_edr.Access.{ApiSettings, Request, Urls, check_token, api_token_for_collector}
use team_c_edr.Access.Granting.{
  Carries, check_token-granted, IsSafe, api_token_for_collector-IsSafe,
}

abbrev settings : ApiSettings
settings = record { require_api_token = true; api_token = "secret"; allow_public_reads = false }

abbrev bearer : Request
bearer = record {
  header = λ name. if str_eq name "Authorization" then "Bearer secret" else "";
  lower = λ s. "bearer secret";
  after_bearer = λ s. "secret";
  compare_digest = λ s t. some (str_eq s t);
}

exact : (s t : String) → bearer.compare_digest s t ≡ some true → s ≡ t
exact s t h = elim (Bool-cases (str_eq s t)) [
  | inl same ↦ (eq_iff s t).0 same
  | inr differ ↦ cc (rw differ at h)
]

abbrev urls : Urls
urls = record {
  hostname = λ url. some "collector.example";
  scheme = λ url. "https";
  lower = λ s. s;
  is_loopback = λ s. none;
}

check_token-granted_example : (settings.require_api_token ≡ false) ⊎ Carries settings bearer
unfolding check_token
check_token-granted_example = check_token-granted settings bearer exact refl

api_token_for_collector-IsSafe_example :
    IsSafe urls "https://collector.example/v1" "secret" "secret"
unfolding api_token_for_collector
api_token_for_collector-IsSafe_example =
    api_token_for_collector-IsSafe urls "https://collector.example/v1" "secret" "secret" refl
