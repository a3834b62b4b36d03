-- ===== src/Endpoint/Admission/Observation.antt =====
-- eap_manager.go: Observe.
pub mod Keys
pub mod Outcome
use Prim.Native.String
use soha_app.Base.{
  ℕ, suc, ◌+◌, String, Bool, true, false, not, ◌&&◌, ◌||◌, Option, none, some, List, [], ◌∷◌, ◌++◌,
  ltb, leb, ◌==◌, if◌then◌else◌, str_eq, blank, contains, length, is_some, is_empty, codes, all,
}
use soha_app.Base.Errors.{Error, fail, failed, is_ok, join, ok}
use soha_app.Endpoint.Protocol.{AdmissionConfiguration, AdmissionProfile, Time}
use soha_app.Endpoint.Identifier.{matches_identifier}
use soha_app.Endpoint.Manager.State.{Answer, got, refused}
use soha_app.Endpoint.Manager.Floor.{matches_digest}
use soha_app.Endpoint.Proxy.Names.{byte_length}
use soha_app.Endpoint.Admission.State.{
  AdmissionManager, Certified, EapActivation, EapAdapter, EapCertificate, EapHistory, EapIdentity,
  EapProfileIdentity, EapSelection, EapState, EapSystem, active_current, adapters_listed,
  certificate_activated, certified, current_profile, deferring, diagnose, profile_error,
  is_unchanged, log_event, profile_connected, profile_read_back, profile_removed, stale_identity,
  target_certificate, uncertified, ◌then_do◌,
}
use soha_app.Endpoint.Admission.Validation.{validate_admission_profile}
use soha_app.Endpoint.Admission.Store.{
  artifacts_of, clean_up, detach_selection, queue_artifacts, queue_identity, recover_artifacts,
  save,
}
use soha_app.Endpoint.Admission.Identity.{ensure_identity, join_saved, lasts, prior_of, stage}
use soha_app.Endpoint.Admission.Changes.{
  identities_of, on_failure, first_identity, has_certificate, and_then_all, settled_selections,
  queue_all_artifacts, is_settled, is_receipt, mark_stale, promote, refuse_expired,
  pending_is_stale, find_adapter, conflicts, is_selected, find_selection,
}

abbrev pub withdraw : String → AdmissionManager → AdmissionManager
withdraw text m = record m { valid_until = 0; diagnostic = text }

module _ (env : EapSystem) where
  -- The loop of Observe: valid profiles, none twice, all of one subject.
  unfoldable pub valid_profiles : Time → List String → String → List AdmissionProfile → Bool
  valid_profiles now seen subject [] = true
  valid_profiles now seen subject (p ∷ ps) =
      is_ok (validate_admission_profile env.x509 p now)
      && not (contains seen p.id)
      && (blank subject || str_eq p.identity subject)
      && valid_profiles now (p.id ∷ seen) p.identity ps

  -- A configuration that is expired, older than the one before, of a lower epoch, or too long.
  is_unavailable : AdmissionConfiguration → Time → Time → AdmissionManager → Bool
  is_unavailable c valid_until observed_at m =
      not (ltb (env.now m.history) valid_until)
      || ltb observed_at m.observed_at
      || ltb c.restriction_epoch m.state.epoch
      || ltb 64 (length c.profiles)

  -- Observe behind the presence of a configuration. One with a negative epoch, which is refused as a
  -- missing one is, counts as missing.
  unfoldable pub observe_with :
      Option AdmissionConfiguration → Time → Time → AdmissionManager → Error × AdmissionManager
  unfolding is_unavailable valid_profiles save
  observe_with none valid_until observed_at m = (
    fail "EAP configuration is missing, stale or expired",
    withdraw "configuration_unavailable" m,
  )
  observe_with (some c) valid_until observed_at m =
      if is_unavailable c valid_until observed_at m
      then (
        fail "EAP configuration is missing, stale or expired",
        withdraw "configuration_unavailable" m,
      )
      else if not (valid_profiles (env.now m.history) [] "" c.profiles)
      then (
        fail "EAP configuration contains an invalid or ambiguous profile",
        withdraw "configuration_invalid" m,
      )
      else save env (record m {
        profiles = c.profiles;
        valid_until = valid_until;
        observed_at = observed_at;
        state = record m.state { epoch = c.restriction_epoch };
      })

  -- Observe
  abbrev pub observe :
      Option AdmissionConfiguration → Time → Time → AdmissionManager → Error × AdmissionManager
  observe = observe_with
