-- ===== src/Detection/Signatures.antt =====
-- src/signature_db.py and its defaults in src/config.py: the indicators that the rules look up. The
-- values of the file are taken as texts; reading it is outside the model.
use team_c_edr.Base.{String, Option, none, some, List, [], ◌∷◌, map}
use team_c_edr.Python.{Runtime}

pub record AppAction : Type 0 where
  pub app : String
  pub action : String

pub record SignatureDb : Type 0 where
  pub version : String
  pub malicious_domains : List String
  pub malicious_urls : List String
  pub malicious_ips : List String
  pub malware_hashes : List String
  pub monitored_app_actions : List AppAction
  pub blocked_categories : List String

-- The decoded file; a key that is not there is `none`.
pub record SignatureFile : Type 0 where
  pub version : Option String
  pub malicious_domains : Option (List String)
  pub malicious_urls : Option (List String)
  pub malicious_ips : Option (List String)
  pub malware_hashes : Option (List String)
  pub monitored_app_actions : Option (List AppAction)
  pub blocked_categories : Option (List String)

abbrev pub known_malicious_domains : List String
known_malicious_domains =
    "malware-drop.example" ∷ "c2.badbeacon.example" ∷ "phish-login.example" ∷ []

abbrev pub known_malicious_ips : List String
known_malicious_ips = "203.0.113.77" ∷ "198.51.100.66" ∷ []

abbrev pub known_malware_hashes : List String
known_malware_hashes = "badbeef0000000000000000000000000000000000000000000000000000000001" ∷ []

abbrev pub default {ℓ} : {A : Type ℓ} → Option A → A → A
default none d = d
default (some a) d = a

-- `_lower_set`
unfoldable pub lower_set : Runtime → List String → List String
lower_set rt = map rt.lower

-- What `load_signature_db` makes of the file, or of an empty one if there is none.
unfoldable pub load_signature_db : Runtime → SignatureFile → SignatureDb
unfolding lower_set
load_signature_db rt file = record {
  version = default file.version "builtin";
  malicious_domains = lower_set rt (default file.malicious_domains known_malicious_domains);
  malicious_urls = lower_set rt (default file.malicious_urls []);
  malicious_ips = default file.malicious_ips known_malicious_ips;
  malware_hashes = lower_set rt (default file.malware_hashes known_malware_hashes);
  monitored_app_actions = default file.monitored_app_actions [];
  blocked_categories = lower_set rt (default file.blocked_categories []);
}
