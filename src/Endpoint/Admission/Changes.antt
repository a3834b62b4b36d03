-- ===== src/Endpoint/Admission/Changes.antt =====
-- eap_manager.go: what the operations look for in the state, and how they change it.
use soha_app.Base.{
  ℕ, suc, String, Bool, true, false, not, ◌&&◌, ◌||◌, Option, none, some, List, [], ◌∷◌, ◌++◌, ◌==◌,
  if◌then◌else◌, str_eq, blank, is_some, is_empty,
}
use soha_app.Base.Errors.{Error, fail, failed, ok}
use soha_app.Endpoint.Protocol.{AdmissionProfile, Time}
use soha_app.Endpoint.Admission.State.{
  AdmissionManager, EapActivation, EapAdapter, EapCertificate, EapIdentity, EapProfileIdentity,
  EapSelection, EapState, diagnose,
}
use soha_app.Endpoint.Admission.Store.{artifacts_of, queue_artifacts, queue_identity}
use soha_app.Endpoint.Admission.Identity.{prior_of}

unfoldable pub find_adapter : String → String → List EapAdapter → Option EapAdapter
find_adapter id medium [] = none
find_adapter id medium (a ∷ others) =
    if str_eq a.id id && str_eq a.medium medium && a.enabled
    then some a
    else find_adapter id medium others

-- Another adapter for the profile, or another profile on the wired adapter
unfoldable pub conflicts : AdmissionProfile → String → List EapSelection → Bool
conflicts profile adapter [] = false
conflicts profile adapter (s ∷ ss) =
    str_eq s.profile.id profile.id && not (str_eq s.adapter.id adapter)
    || not (str_eq s.profile.id profile.id)
      && str_eq s.adapter.id adapter
      && str_eq profile.access_medium "wired"
    || conflicts profile adapter ss

unfoldable pub is_selected : String → List EapSelection → Bool
is_selected id [] = false
is_selected id (s ∷ ss) = str_eq s.profile.id id || is_selected id ss

-- The identities that the system knows a selection's profile by
abbrev pub identities_of : EapSelection → List EapProfileIdentity
identities_of s = s.prior_identities ++ (prior_of s ∷ [])

-- The diagnostic that a failure leaves
unfoldable pub on_failure : String → Error × AdmissionManager → Error × AdmissionManager
on_failure text (ok, m) = (ok, m)
on_failure text (failed e, m) = (failed e, diagnose text m)

unfoldable pub first_identity : List EapSelection → String
first_identity [] = ""
first_identity (s ∷ ss) = s.profile.identity

unfoldable pub has_certificate : Option EapIdentity → Bool
has_certificate none = false
has_certificate (some identity) = is_some identity.certificate

unfoldable pub and_then_all :
    Bool × AdmissionManager → (AdmissionManager → Bool × AdmissionManager) → Bool × AdmissionManager
and_then_all (true, m) f = f m
and_then_all (false, m) f = (false, m)

unfoldable pub settled_selections : List EapSelection → List EapSelection
settled_selections [] = []
settled_selections (s ∷ ss) =
    record s {
      prior_identities = [];
      artifact_path = "";
      artifact_sha256 = if blank s.artifact_path then s.artifact_sha256 else "";
    }
    ∷ settled_selections ss

unfoldable pub queue_all_artifacts : List EapSelection → EapState → EapState
queue_all_artifacts [] st = st
queue_all_artifacts (s ∷ ss) st = queue_all_artifacts ss (queue_artifacts (artifacts_of s) st)

unfoldable pub is_settled : EapSelection → Bool
is_settled s = is_empty s.prior_identities && blank s.artifact_path

unfoldable pub is_receipt : EapCertificate → EapActivation → Bool
is_receipt c a =
    str_eq a.credential_id c.credential_id
    && str_eq a.fingerprint c.fingerprint
    && str_eq a.status "active"
    && a.expires_at == c.expires_at

unfoldable pub mark_stale : EapIdentity → EapState → EapState
mark_stale pending s = record s { pending = some (record pending { stale = true }) }

-- The pending identity becomes the active one, and the one before is cleaned up.
unfoldable pub promote : EapIdentity → EapCertificate → Time → EapState → EapState
unfolding queue_identity
promote pending c now s = record (queue_identity s.active s) {
  active =
      some (record pending {
        certificate = some (record c { status = "active" });
        activated_at = now;
      });
  pending = none;
}

unfoldable pub refuse_expired : AdmissionManager → Error × AdmissionManager
refuse_expired m =
    (fail "EAP certificate expired; prepare the network again", diagnose "certificate_expired" m)

unfoldable pub pending_is_stale : Option EapIdentity → Bool
pending_is_stale none = false
pending_is_stale (some identity) = identity.stale

unfoldable pub find_selection : String → ℕ → List EapSelection → Option (ℕ × EapSelection)
find_selection id index [] = none
find_selection id index (s ∷ ss) =
    if str_eq s.profile.id id then some (index, s) else find_selection id (suc index) ss
