-- ===== src/Endpoint/Admission/Checking.antt =====
-- eap_manager.go: Check.
pub mod Keys
use Prim.Native.String
use soha_app.Base.{
  ℕ, suc, ◌+◌, String, Bool, true, false, not, ◌&&◌, ◌||◌, Option, none, some, List, [], ◌∷◌, ◌++◌,
  ltb, leb, ◌==◌, if◌then◌else◌, str_eq, blank, contains, length, is_some, is_empty, codes, all,
}
use soha_app.Base.Errors.{Error, fail, failed, is_ok, join, ok}
use soha_app.Endpoint.Protocol.{AdmissionConfiguration, AdmissionProfile, Time}
use soha_app.Endpoint.Identifier.{matches_identifier}
use soha_app.Endpoint.Manager.State.{Answer, got, refused}
use soha_app.Endpoint.Manager.Floor.{matches_digest}
use soha_app.Endpoint.Proxy.Names.{byte_length}
use soha_app.Endpoint.Admission.State.{
  AdmissionManager, Certified, EapActivation, EapAdapter, EapCertificate, EapHistory, EapIdentity,
  EapProfileIdentity, EapSelection, EapState, EapSystem, active_current, adapters_listed,
  certificate_activated, certified, current_profile, deferring, diagnose, profile_error,
  is_unchanged, log_event, profile_connected, profile_read_back, profile_removed, stale_identity,
  target_certificate, uncertified, ◌then_do◌,
}
use soha_app.Endpoint.Admission.Validation.{validate_admission_profile}
use soha_app.Endpoint.Admission.Store.{
  artifacts_of, clean_up, detach_selection, queue_artifacts, queue_identity, recover_artifacts,
  save,
}
use soha_app.Endpoint.Admission.Identity.{ensure_identity, join_saved, lasts, prior_of, stage}
use soha_app.Endpoint.Admission.Changes.{
  identities_of, on_failure, first_identity, has_certificate, and_then_all, settled_selections,
  queue_all_artifacts, is_settled, is_receipt, mark_stale, promote, refuse_expired,
  pending_is_stale, find_adapter, conflicts, is_selected, find_selection,
}
use soha_app.Endpoint.Admission.Removal.{check_selections}

module _ (env : EapSystem) where
  -- The renewal in Check, if it is due
  renew_identity : AdmissionManager → Error × AdmissionManager
  unfolding on_failure first_identity has_certificate active_current lasts
  renew_identity m =
      if not (is_some m.state.pending)
        && has_certificate m.state.active
        && not (lasts env (active_current env m) m)
      then on_failure "certificate_renewal_failed"
          (ensure_identity env (first_identity m.state.selections) m)
        then_do (λ m1. on_failure "certificate_installation_required" (stage env "" m1))
      else (ok, m)

  read_selection_back : EapCertificate → EapSelection → AdmissionManager → Bool × AdmissionManager
  read_selection_back c s m =
      let e = env.readback m.history s.request_id s.profile c s.adapter in
      if str_eq s.fingerprint c.fingerprint
      then (is_ok e, log_event (profile_read_back s.request_id s.profile c s.adapter e) m)
      else (false, m)

  -- Every selection is installed with the certificate, as far as the loop looks.
  read_all_back : EapCertificate → List EapSelection → AdmissionManager → Bool × AdmissionManager
  unfolding read_selection_back and_then_all
  read_all_back c [] m = (true, m)
  read_all_back c (s ∷ ss) m = and_then_all (read_selection_back c s m) (read_all_back c ss)

  -- What was staged is installed, so that its artifacts are no longer needed.
  settle_artifacts : AdmissionManager → Error × AdmissionManager
  unfolding settled_selections queue_all_artifacts is_settled save
  settle_artifacts m =
      let queued = queue_all_artifacts m.state.selections m.state in
      if all is_settled m.state.selections
      then (ok, m)
      else save env (record m {
        state = record queued { selections = settled_selections m.state.selections };
      })

  receive_activation :
      EapIdentity
      → EapCertificate
      → Certified EapActivation
      → AdmissionManager
      → Error × AdmissionManager
  unfolding is_receipt mark_stale promote join_saved save
  receive_activation pending c (uncertified messages) m =
      (failed messages, diagnose "activation_retry_pending" m)
  receive_activation pending c (stale_identity messages) m = join_saved (failed messages) (
      save env
        (diagnose "certificate_prepare_required" (record m { state = mark_stale pending m.state })))
  receive_activation pending c (certified a) m =
      if is_receipt c a
      then save env (record m { state = promote pending c (env.now m.history) m.state })
      else (fail "EAP activation receipt does not match the installed identity", m)

  activate_identity :
      EapCertificate → Option EapIdentity → AdmissionManager → Error × AdmissionManager
  unfolding receive_activation
  activate_identity c none m = (ok, m)
  activate_identity c (some pending) m =
      receive_activation pending c (env.activate m.history c.credential_id c.fingerprint)
        (log_event (certificate_activated c.credential_id c.fingerprint) m)

  check_installed : EapCertificate → Bool × AdmissionManager → Error × AdmissionManager
  unfolding settle_artifacts activate_identity
  check_installed c (false, m) = (ok, diagnose "installation_or_readback_required" m)
  check_installed c (true, m) =
      settle_artifacts m
      then_do (λ m1. activate_identity c m1.state.pending m1)
      then_do clean_up env

  check_certificate : Option EapCertificate → AdmissionManager → Error × AdmissionManager
  unfolding check_installed refuse_expired read_all_back
  check_certificate none m = refuse_expired m
  check_certificate (some c) m =
      if ltb (env.now m.history) c.expires_at
      then check_installed c (read_all_back c m.state.selections m)
      else refuse_expired m

  -- Check behind the removal of what is no longer authorized
  check_remaining : AdmissionManager → Error × AdmissionManager
  unfolding pending_is_stale renew_identity check_certificate
  check_remaining m =
      if is_empty m.state.selections
      then clean_up env m
      else if pending_is_stale m.state.pending
      then (ok, diagnose "certificate_prepare_required" m)
      else renew_identity m then_do (λ m1. check_certificate (target_certificate m1.state) m1)

  -- Check
  unfoldable pub check_admission : AdmissionManager → Error × AdmissionManager
  unfolding check_selections check_remaining
  check_admission m =
      deferring (check_selections env 0 m.state.selections (diagnose "" m) then_do check_remaining)
        (recover_artifacts env)
