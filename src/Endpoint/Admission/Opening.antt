-- ===== src/Endpoint/Admission/Opening.antt =====
-- eap_manager.go: NewAdmissionManager.
use Prim.Native.String
use soha_app.Base.{
  String, Bool, true, not, ◌&&◌, ◌||◌, Option, none, some, List, [], ◌∷◌, leb, ◌==◌, if◌then◌else◌,
  str_eq, blank, contains, length, codes, all,
}
use soha_app.Endpoint.Identifier.{matches_identifier}
use soha_app.Endpoint.Manager.Floor.{matches_digest}
use soha_app.Endpoint.Proxy.Names.{byte_length}
use soha_app.Endpoint.Admission.State.{
  AdmissionManager, EapHistory, EapIdentity, EapProfileIdentity, EapSelection, EapState,
}

-- What NewAdmissionManager finds in the file.
pub data EapFile : Type 0 where
  missing unreadable : EapFile
  held : EapState → EapFile

-- The state before any was stored
abbrev pub initial_state : String → EapState
initial_state device_id = record {
  version = 1;
  device_id = device_id;
  epoch = 0;
  selections = [];
  active = none;
  pending = none;
  cleanup = [];
}

valid_hash : String → Bool
valid_hash text = blank text || matches_digest (String.◌++◌ "sha256:" text)

valid_prior : EapProfileIdentity → Bool
unfolding valid_hash
valid_prior p = matches_digest p.fingerprint && valid_hash p.identity_sha256

valid_selections : List String → List EapSelection → Bool
unfolding valid_prior valid_hash
valid_selections seen [] = true
valid_selections seen (s ∷ ss) =
    matches_identifier s.profile.id
    && not (blank s.adapter.id)
    && not (contains seen s.profile.id)
    && (blank s.fingerprint || matches_identifier s.request_id)
    && leb (length s.prior_identities) 16
    && all valid_prior s.prior_identities
    && valid_hash s.identity_sha256
    && valid_selections (s.profile.id ∷ seen) ss

valid_identity : Option EapIdentity → Bool
valid_identity none = true
valid_identity (some identity) =
    matches_identifier identity.request_id && leb (byte_length (codes identity.csr)) 4096

unfoldable pub valid_stored : String → EapState → Bool
unfolding valid_selections valid_identity
valid_stored device_id s =
    s.version == 1
    && str_eq s.device_id device_id
    && leb (length s.selections) 8
    && leb (length s.cleanup) 16
    && valid_selections [] s.selections
    && valid_identity s.active
    && valid_identity s.pending

abbrev pub opened_manager : EapState → EapHistory → AdmissionManager
opened_manager s history = record {
  state = s;
  saved = s;
  profiles = [];
  valid_until = 0;
  observed_at = 0;
  diagnostic = "";
  history = history;
}

-- NewAdmissionManager
unfoldable pub new_admission_manager : String → EapFile → EapHistory → Option AdmissionManager
unfolding valid_stored
new_admission_manager device_id missing history =
    some (opened_manager (initial_state device_id) history)
new_admission_manager device_id unreadable history = none
new_admission_manager device_id (held s) history =
    if valid_stored device_id s then some (opened_manager s history) else none
