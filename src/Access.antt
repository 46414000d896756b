-- ===== src/Access.antt =====
-- Who may call and who is called: `require_api_token` of src/api_context.py and
-- `api_token_for_collector` of src/collector_policy.py.
pub mod Granting
use text.Mathlib.Text.{starts_with}
use team_c_edr.Base.{
  ℕ, String, Bool, true, false, not, ◌&&◌, Option, none, some, str_eq, str_or, if◌then◌else◌,
}

pub record ApiSettings : Type 0 where
  pub require_api_token : Bool
  pub api_token : String
  pub allow_public_reads : Bool

-- How a check ends: the request goes on, is refused with an `ApiError`, or another exception leaves.
pub data Check : Type 0 where
  granted : Check
  api_error : (status_code : ℕ) (code : String) → Check
  type_error : Check

-- What the check uses of the HTTP library and of `hmac`.
pub record Request : Type 0 where
  -- `request.headers.get(name, "")`
  pub header : String → String
  -- `s.lower()`, `s[7:].strip()`
  pub lower : String → String
  pub after_bearer : String → String
  -- `compare_digest(s, t)`; `none` is the `TypeError` for texts that are not ASCII
  pub compare_digest : String → String → Option Bool

-- The credential of a request.
unfoldable pub provided : Request → String
provided r =
    let authorization : String = r.header "Authorization" in
    if starts_with (r.lower authorization) "bearer "
    then r.after_bearer authorization
    else r.header "X-Api-Token"

abbrev compared : Option Bool → Check
compared none = type_error
compared (some true) = granted
compared (some false) = api_error 403 "forbidden"

unfoldable pub check_token : ApiSettings → Request → Check
unfolding provided
check_token settings r =
    if not settings.require_api_token
    then granted
    else if str_eq settings.api_token ""
    then api_error 503 "auth_not_configured"
    else if str_eq (provided r) ""
    then api_error 401 "unauthorized"
    else compared (r.compare_digest (provided r) settings.api_token)

-- `require_read_token_dependency`
unfoldable pub check_read_token : ApiSettings → Request → Check
unfolding check_token
check_read_token settings r =
    if settings.allow_public_reads then granted else check_token settings r

-- What the policy uses of `urlparse` and `ipaddress`.
pub record Urls : Type 0 where
  -- `urlparse(url).hostname or ""`; `none` is the `ValueError` of `urlparse`
  pub hostname : String → Option String
  -- `urlparse(url).scheme`
  pub scheme : String → String
  pub lower : String → String
  -- `ipaddress.ip_address(s).is_loopback`; `none` is a `ValueError`
  pub is_loopback : String → Option Bool

abbrev true_only : Option Bool → Bool
true_only none = false
true_only (some b) = b

unfoldable pub is_loopback_hostname : Urls → String → Bool
is_loopback_hostname u hostname =
    if str_eq (u.lower hostname) "localhost" then true else true_only (u.is_loopback hostname)

-- A token, a `CollectorPolicyError` with its code, or the `ValueError` of `urlparse`.
pub data Policy : Type 0 where
  token : String → Policy
  policy_error : (code : String) (exit_code : ℕ) → Policy
  value_error : Policy

-- The policy for a collector that is, or is not, on this host.
unfoldable pub token_for : Bool → String → String → Policy
token_for loopback scheme api_token =
    if not loopback && not (str_eq scheme "https")
    then policy_error "insecure_collector_url" 2
    else if not (str_eq api_token "")
    then token api_token
    else if loopback
    then token "local-dev-token"
    else policy_error "missing_api_token" 2

unfoldable pub api_token_for_collector : Urls → String → String → Policy
unfolding is_loopback_hostname token_for
api_token_for_collector u collector_url api_token =
    if str_eq collector_url ""
    then token (str_or api_token "local-dev-token")
    else elim (u.hostname collector_url) [
      | none ↦ value_error
      | some hostname ↦
          token_for (is_loopback_hostname u hostname) (u.scheme collector_url) api_token
    ]
