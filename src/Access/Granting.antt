-- ===== src/Access/Granting.antt =====
-- What the checks let through.
use team_c_edr.Base.{
  subst, sym, ◌∙◌, String, true, false, some, ◌≡◌, ◌⊎◌, inl, inr, arith, str_eq, eq_iff, Bool-cases,
  Option-cases, str_or,
}
use team_c_edr.Access.{
  ApiSettings, granted, Request, provided, check_token, compared, Urls, token, is_loopback_hostname,
  token_for, api_token_for_collector,
}

-- The request carries the configured token, and one is configured.
pub record Carries (settings : ApiSettings) (r : Request) : Type 0 where
  pub same : provided r ≡ settings.api_token
  pub configured : str_eq settings.api_token "" ≡ false

compared-granted :
    (r : Request) (s t : String)
    → ((a b : String) → r.compare_digest a b ≡ some true → a ≡ b)
    → compared (r.compare_digest s t) ≡ granted
    → s ≡ t
compared-granted r s t exact h = elim (Option-cases (r.compare_digest s t)) [
  | inl raised ↦ cc (rw raised at h)
  | inr (b, e) ↦ elim (Bool-cases b) [
    | inl same ↦ exact s t (rw same at e)
    | inr differ ↦ cc (rw (e, differ) at h)
  ]
]

-- A request passes the token check only if no token is required or if it carries the configured token,
-- which is not empty. `compare_digest` answers `True` only for equal texts.
pub check_token-granted :
    (settings : ApiSettings) (r : Request)
    → ((a b : String) → r.compare_digest a b ≡ some true → a ≡ b)
    → check_token settings r ≡ granted
    → (settings.require_api_token ≡ false) ⊎ Carries settings r
unfolding check_token
check_token-granted settings r exact h = elim (Bool-cases settings.require_api_token) [
  | inr open_access ↦ inl open_access
  | inl required ↦ elim (Bool-cases (str_eq settings.api_token "")) [
    | inl unset ↦ cc (rw (required, unset) at h)
    | inr configured ↦ elim (Bool-cases (str_eq (provided r) "")) [
      | inl missing ↦ cc (rw (required, configured, missing) at h)
      | inr given ↦ inr (record {
        same =
            compared-granted r (provided r) settings.api_token exact
              (rw (required, configured, given) at h);
        configured = configured;
      })
    ]
  ]
]

-- Where a token may go: to no collector, to one on this host, or to one over https.
pub data IsSafe (u : Urls) (url api_token : String) : String → Type 0 where
  no_collector : url ≡ "" → IsSafe u url api_token (str_or api_token "local-dev-token")
  local_collector :
      (hostname : String)
      → u.hostname url ≡ some hostname
      → is_loopback_hostname u hostname ≡ true
      → IsSafe u url api_token (str_or api_token "local-dev-token")
  remote_collector :
      u.scheme url ≡ "https" → str_eq api_token "" ≡ false → IsSafe u url api_token api_token

token-injective : {s t : String} → token s ≡ token t → s ≡ t
token-injective e = cc

handed_out :
    (u : Urls) (url api_token : String) {s t : String}
    → IsSafe u url api_token s
    → token s ≡ token t
    → IsSafe u url api_token t
handed_out u url api_token safe e = subst (IsSafe u url api_token) (token-injective e) safe

local_token :
    (scheme api_token : String)
    → token_for true scheme api_token ≡ token (str_or api_token "local-dev-token")
unfolding token_for
local_token scheme api_token = ground arith

remote-IsSafe :
    (u : Urls) (url api_token t : String)
    → token_for false (u.scheme url) api_token ≡ token t
    → IsSafe u url api_token t
unfolding token_for
remote-IsSafe u url api_token t h = elim (Bool-cases (str_eq (u.scheme url) "https")) [
  | inr insecure ↦ cc (rw insecure at h)
  | inl secure ↦ elim (Bool-cases (str_eq api_token "")) [
    | inl unset ↦ cc (rw (secure, unset) at h)
    | inr set ↦
        handed_out u url api_token (remote_collector ((eq_iff (u.scheme url) "https").0 secure) set)
          (rw (secure, set) at h)
  ]
]

-- The collector policy gives out a token only for a safe place: without a collector, for a collector on
-- the loopback interface, or over https. The token is the configured one; the development token stands
-- in for a missing one only where nothing leaves the host.
pub api_token_for_collector-IsSafe :
    (u : Urls) (url api_token t : String)
    → api_token_for_collector u url api_token ≡ token t
    → IsSafe u url api_token t
unfolding api_token_for_collector
api_token_for_collector-IsSafe u url api_token t h = elim (Bool-cases (str_eq url "")) [
  | inl empty ↦ handed_out u url api_token (no_collector ((eq_iff url "").0 empty)) (rw empty at h)
  | inr given ↦ elim (Option-cases (u.hostname url)) [
    | inl malformed ↦ cc (rw (given, malformed) at h)
    | inr (hostname, named) ↦ elim (Bool-cases (is_loopback_hostname u hostname)) [
      | inl local ↦
          handed_out u url api_token (local_collector hostname named local)
            (sym (local_token (u.scheme url) api_token) ∙ rw (given, named, local) at h)
      | inr remote ↦ remote-IsSafe u url api_token t (rw (given, named, remote) at h)
    ]
  ]
]
