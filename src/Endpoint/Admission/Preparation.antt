-- ===== src/Endpoint/Admission/Preparation.antt =====
-- eap_manager.go: Prepare.
pub mod Keys
use Prim.Native.String
use soha_app.Base.{
  ℕ, suc, ◌+◌, String, Bool, true, false, not, ◌&&◌, ◌||◌, Option, none, some, List, [], ◌∷◌, ◌++◌,
  ltb, leb, ◌==◌, if◌then◌else◌, str_eq, blank, contains, length, is_some, is_empty, codes, all,
}
use soha_app.Base.Errors.{Error, fail, failed, is_ok, join, ok}
use soha_app.Endpoint.Protocol.{AdmissionConfiguration, AdmissionProfile, Time}
use soha_app.Endpoint.Identifier.{matches_identifier}
use soha_app.Endpoint.Manager.State.{Answer, got, refused}
use soha_app.Endpoint.Manager.Floor.{matches_digest}
use soha_app.Endpoint.Proxy.Names.{byte_length}
use soha_app.Endpoint.Admission.State.{
  AdmissionManager, Certified, EapActivation, EapAdapter, EapCertificate, EapHistory, EapIdentity,
  EapProfileIdentity, EapSelection, EapState, EapSystem, active_current, adapters_listed,
  certificate_activated, certified, current_profile, deferring, diagnose, profile_error,
  is_unchanged, log_event, profile_connected, profile_read_back, profile_removed, stale_identity,
  target_certificate, uncertified, ◌then_do◌,
}
use soha_app.Endpoint.Admission.Validation.{validate_admission_profile}
use soha_app.Endpoint.Admission.Store.{
  artifacts_of, clean_up, detach_selection, queue_artifacts, queue_identity, recover_artifacts,
  save,
}
use soha_app.Endpoint.Admission.Identity.{ensure_identity, join_saved, lasts, prior_of, stage}
use soha_app.Endpoint.Admission.Changes.{
  identities_of, on_failure, first_identity, has_certificate, and_then_all, settled_selections,
  queue_all_artifacts, is_settled, is_receipt, mark_stale, promote, refuse_expired,
  pending_is_stale, find_adapter, conflicts, is_selected, find_selection,
}

module _ (env : EapSystem) where
  select_profile : AdmissionProfile → EapAdapter → AdmissionManager → Error × AdmissionManager
  unfolding is_selected save
  select_profile profile adapter m =
      if is_selected profile.id m.state.selections
      then (ok, m)
      else if leb 8 (length m.state.selections)
      then (fail "at most eight managed EAP profiles may be installed", m)
      else save env (record m {
        state = record m.state {
          selections =
              m.state.selections
              ++ (record {
                profile = profile;
                adapter = adapter;
                fingerprint = "";
                identity_sha256 = "";
                prior_identities = [];
                request_id = "";
                artifact_path = "";
                artifact_sha256 = "";
              }
                  ∷ []);
        };
      })

  prepare_adapter :
      AdmissionProfile → String → Option EapAdapter → AdmissionManager → Error × AdmissionManager
  unfolding conflicts select_profile
  prepare_adapter profile adapter_id none m = (fail "selected EAP adapter is unavailable", m)
  prepare_adapter profile adapter_id (some adapter) m =
      if conflicts profile adapter_id m.state.selections
      then (fail "remove the existing EAP adapter selection before changing it", m)
      else select_profile profile adapter m
        then_do ensure_identity env profile.identity
        then_do stage env profile.id

  prepare_listed :
      AdmissionProfile
      → String
      → Answer (List EapAdapter)
      → AdmissionManager
      → Error × AdmissionManager
  unfolding find_adapter prepare_adapter
  prepare_listed profile adapter_id (refused e) m = (fail e, m)
  prepare_listed profile adapter_id (got adapters) m =
      prepare_adapter profile adapter_id (find_adapter adapter_id profile.access_medium adapters) m

  prepare_profile : String → Option AdmissionProfile → AdmissionManager → Error × AdmissionManager
  unfolding prepare_listed
  prepare_profile adapter_id none m = (profile_error env m, m)
  prepare_profile adapter_id (some profile) m =
      prepare_listed profile adapter_id (env.adapters m.history) (log_event adapters_listed m)

  -- Prepare
  unfoldable pub prepare : String → String → AdmissionManager → Error × AdmissionManager
  unfolding prepare_profile
  prepare profile_id adapter_id m =
      deferring (prepare_profile adapter_id (current_profile env profile_id m) m)
        (recover_artifacts env)
