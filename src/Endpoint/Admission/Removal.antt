-- ===== src/Endpoint/Admission/Removal.antt =====
-- eap_manager.go: Remove, and the removals of Check.
pub mod Keys
pub mod Releases
use Prim.Native.String
use soha_app.Base.{
  ℕ, suc, ◌+◌, String, Bool, true, false, not, ◌&&◌, ◌||◌, Option, none, some, List, [], ◌∷◌, ◌++◌,
  ltb, leb, ◌==◌, if◌then◌else◌, str_eq, blank, contains, length, is_some, is_empty, codes, all,
}
use soha_app.Base.Errors.{Error, fail, failed, is_ok, join, ok}
use soha_app.Endpoint.Protocol.{AdmissionConfiguration, AdmissionProfile, Time}
use soha_app.Endpoint.Identifier.{matches_identifier}
use soha_app.Endpoint.Manager.State.{Answer, got, refused}
use soha_app.Endpoint.Manager.Floor.{matches_digest}
use soha_app.Endpoint.Proxy.Names.{byte_length}
use soha_app.Endpoint.Admission.State.{
  AdmissionManager, Certified, EapActivation, EapAdapter, EapCertificate, EapHistory, EapIdentity,
  EapProfileIdentity, EapSelection, EapState, EapSystem, active_current, adapters_listed,
  certificate_activated, certified, current_profile, deferring, diagnose, profile_error,
  is_unchanged, log_event, profile_connected, profile_read_back, profile_removed, stale_identity,
  target_certificate, uncertified, ◌then_do◌,
}
use soha_app.Endpoint.Admission.Validation.{validate_admission_profile}
use soha_app.Endpoint.Admission.Store.{
  artifacts_of, clean_up, detach_selection, queue_artifacts, queue_identity, recover_artifacts,
  save,
}
use soha_app.Endpoint.Admission.Identity.{ensure_identity, join_saved, lasts, prior_of, stage}
use soha_app.Endpoint.Admission.Changes.{
  identities_of, on_failure, first_identity, has_certificate, and_then_all, settled_selections,
  queue_all_artifacts, is_settled, is_receipt, mark_stale, promote, refuse_expired,
  pending_is_stale, find_adapter, conflicts, is_selected, find_selection,
}

module _ (env : EapSystem) where
  detach_and_save : ℕ → EapSelection → AdmissionManager → Error × AdmissionManager
  unfolding save
  detach_and_save index s m = save env (record m { state = detach_selection index s m.state })

  -- A selection is removed from the system, and then from the state.
  conclude_removal : String → ℕ → EapSelection → Error → AdmissionManager → Error × AdmissionManager
  unfolding detach_and_save
  conclude_removal text index s (failed e) m = (failed e, if blank text then m else diagnose text m)
  conclude_removal text index s ok m = detach_and_save index s m

  remove_selection : String → ℕ → EapSelection → AdmissionManager → Error × AdmissionManager
  unfolding conclude_removal
  remove_selection text index s m =
      let e = env.remove m.history s.profile s.adapter (identities_of s) in
      conclude_removal text index s e
        (log_event (profile_removed s.profile s.adapter (identities_of s) e) m)

  check_selection : ℕ → EapSelection → AdmissionManager → Error × AdmissionManager
  unfolding remove_selection
  check_selection index s m =
      if is_unchanged env (current_profile env s.profile.id m) s
      then (ok, m)
      else remove_selection "configuration_removal_failed" index s m

  -- The first loop of Check, which begins with the last selection
  unfoldable pub check_selections :
      ℕ → List EapSelection → AdmissionManager → Error × AdmissionManager
  unfolding check_selection
  check_selections index [] m = (ok, m)
  check_selections index (s ∷ ss) m =
      check_selections (suc index) ss m then_do check_selection index s

  remove_found : Option (ℕ × EapSelection) → AdmissionManager → Error × AdmissionManager
  unfolding remove_selection
  remove_found none m = (fail "EAP profile is not managed by this service", m)
  remove_found (some (index, s)) m = remove_selection "" index s m then_do clean_up env

  -- Remove
  unfoldable pub remove_profile : String → AdmissionManager → Error × AdmissionManager
  unfolding find_selection remove_found
  remove_profile id m =
      deferring (remove_found (find_selection id 0 m.state.selections) m) (recover_artifacts env)
