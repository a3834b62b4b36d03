-- ===== src/Endpoint/Admission/Keys.antt =====
-- eap_manager.go, eap_cleanup.go: which keys of the system the state accounts for.
use soha_app.Base.{
  String, Bool, true, false, not, ◌&&◌, ◌||◌, ◌≡◌, Option, none, some, List, [], ◌∷◌, str_eq,
}
use soha_app.Base.Errors.{Error, failed, ok}
use soha_app.Endpoint.Admission.State.{
  AdmissionManager, EapCleanup, EapHistory, EapIdentity, EapState, adapters_listed,
  artifacts_recovered, certificate_activated, certificate_issued, credentials_cleaned, csr_created,
  profile_connected, profile_read_back, profile_removed, profile_staged, state_saved, ◌then_do◌,
}

unfoldable pub names_request : String → Option EapIdentity → Bool
names_request id none = false
names_request id (some identity) = str_eq identity.request_id id

unfoldable pub queued : String → List EapCleanup → Bool
queued id [] = false
queued id (job ∷ jobs) = str_eq job.request_id id || queued id jobs

-- The state accounts for the key of this request: an identity has it, or its cleanup is owed.
unfoldable pub owes : String → EapState → Bool
unfolding names_request queued
owes id s = names_request id s.active || names_request id s.pending || queued id s.cleanup

-- The system was asked to create the key of this request, and no cleanup of it has succeeded since.
unfoldable pub has_key : String → EapHistory → Bool
has_key id [] = false
has_key id (csr_created request ∷ h) = str_eq request id || has_key id h
has_key id (credentials_cleaned job ok ∷ h) = not (str_eq job.request_id id) && has_key id h
has_key id (credentials_cleaned job (failed e) ∷ h) = has_key id h
has_key id (adapters_listed ∷ h) = has_key id h
has_key id (certificate_issued request csr subject ∷ h) = has_key id h
has_key id (certificate_activated credential fingerprint ∷ h) = has_key id h
has_key id (profile_staged request profile adapter ∷ h) = has_key id h
has_key id (profile_read_back request profile c adapter e ∷ h) = has_key id h
has_key id (profile_removed profile adapter identities e ∷ h) = has_key id h
has_key id (profile_connected request profile c adapter ∷ h) = has_key id h
has_key id (artifacts_recovered artifacts ∷ h) = has_key id h
has_key id (state_saved s e ∷ h) = has_key id h

-- A key that there is is accounted for, in memory and in the file.
abbrev pub is_ready : String → AdmissionManager → Bool
is_ready id m = not (has_key id m.history) || owes id m.state && owes id m.saved

-- And the file accounts for all that the memory does.
abbrev pub is_sound : String → AdmissionManager → Bool
is_sound id m = is_ready id m && (not (owes id m.state) || owes id m.saved)

pub then_do-Sound :
    (id : String) (r : Error × AdmissionManager) (f : AdmissionManager → Error × AdmissionManager)
    → is_sound id r.1 ≡ true
    → ((m : AdmissionManager) → is_sound id m ≡ true → is_sound id (f m).1 ≡ true)
    → is_sound id (r then_do f).1 ≡ true
then_do-Sound id (ok, m) f h k = k m h
then_do-Sound id (failed e, m) f h k = h
