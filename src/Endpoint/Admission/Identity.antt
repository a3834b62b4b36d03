-- ===== src/Endpoint/Admission/Identity.antt =====
-- eap_manager.go: ensureIdentity and stage.
pub mod Keys
use soha_app.Base.{
  ℕ, zero, suc, ◌+◌, String, Bool, true, false, not, ◌&&◌, ◌||◌, Option, none, some, List, [], ◌∷◌,
  ◌++◌, ltb, leb, if◌then◌else◌, str_eq, blank, length, is_some,
}
use soha_app.Base.Errors.{Error, fail, failed, join, ok}
use soha_app.Endpoint.Protocol.{AdmissionProfile, Time}
use soha_app.Endpoint.Manager.State.{Answer, got, refused}
use soha_app.Endpoint.Admission.State.{
  AdmissionManager, Certified, EapCertificate, EapIdentity, EapProfileIdentity, EapSelection,
  EapStagedProfile, EapState, EapSystem, active_current, certificate_issued, certified, csr_created,
  current_profile, diagnose, has_prior, is_unchanged, log_event, profile_staged, stale_identity,
  uncertified, ◌then_do◌,
}
use soha_app.Endpoint.Admission.Validation.{validate_eap_certificate}
use soha_app.Endpoint.Admission.Store.{artifacts_of, queue_artifacts, queue_identity, save}

-- time.Hour
abbrev pub hour : Time
hour = 3600000000000

is_stale : Option EapIdentity → Bool
is_stale none = false
is_stale (some identity) = identity.stale

-- A pending identity that the control plane no longer takes is cleaned up.
unfoldable pub drop_stale : EapState → EapState
unfolding is_stale queue_identity
drop_stale s =
    if is_stale s.pending then record (queue_identity s.pending s) { pending = none } else s

abbrev pub set_pending : EapIdentity → AdmissionManager → AdmissionManager
set_pending identity m = record m { state = record m.state { pending = some identity } }

unfoldable pub join_saved : Error → Error × AdmissionManager → Error × AdmissionManager
join_saved e (saved, m) = (join e saved, m)

abbrev pub prior_of : EapSelection → EapProfileIdentity
prior_of s = record { fingerprint = s.fingerprint; identity_sha256 = s.identity_sha256 }

is_new_prior : EapSelection → Bool
is_new_prior s = not (blank s.fingerprint) && not (has_prior s.prior_identities (prior_of s))

restaged : EapIdentity → EapCertificate → EapStagedProfile → EapSelection → EapSelection
unfolding is_new_prior
restaged identity c staged s = record s {
  prior_identities =
      if is_new_prior s then s.prior_identities ++ (prior_of s ∷ []) else s.prior_identities;
  identity_sha256 = staged.identity_sha256;
  fingerprint = c.fingerprint;
  request_id = identity.request_id;
  artifact_path = staged.artifact.path;
  artifact_sha256 = staged.artifact.sha256;
}

set_selection : ℕ → EapSelection → List EapSelection → List EapSelection
set_selection index new [] = []
set_selection zero new (s ∷ ss) = new ∷ ss
set_selection (suc index) new (s ∷ ss) = s ∷ set_selection index new ss

-- The state with a selection that was staged, and the artifact that it had queued.
stage_selection :
    ℕ → EapIdentity → EapCertificate → EapSelection → EapStagedProfile → EapState → EapState
unfolding restaged set_selection queue_artifacts
stage_selection index identity c s staged st =
    let queued = queue_artifacts (artifacts_of s) st in
    record queued {
      selections = set_selection index (restaged identity c staged s) queued.selections;
    }

or_else : Option EapIdentity → Option EapIdentity → Option EapIdentity
or_else none o = o
or_else (some identity) o = some identity

module _ (env : EapSystem) where
  -- The certificate outlives the next hour.
  unfoldable pub lasts : Option EapCertificate → AdmissionManager → Bool
  lasts none m = false
  lasts (some c) m = ltb (env.now m.history + hour) c.expires_at

  begin_pending : AdmissionManager → Error × AdmissionManager
  unfolding save
  begin_pending m =
      if is_some m.state.pending
      then (ok, m)
      else if leb 16 (length m.state.cleanup)
      then (fail "EAP cleanup must complete before another identity is created", m)
      else save env (
          set_pending
            (record {
              request_id = env.random_id m.history;
              csr = "";
              certificate = none;
              stale = false;
              activated_at = 0;
            })
            m)

  receive_csr : EapIdentity → Answer String → AdmissionManager → Error × AdmissionManager
  unfolding save
  receive_csr pending (refused e) m = (fail e, m)
  receive_csr pending (got csr) m = save env (set_pending (record pending { csr = csr }) m)

  request_csr : Option EapIdentity → AdmissionManager → Error × AdmissionManager
  unfolding receive_csr
  request_csr none m = (ok, m)
  request_csr (some pending) m =
      if blank pending.csr
      then receive_csr pending (env.create_csr m.history pending.request_id)
          (log_event (csr_created pending.request_id) m)
      else (ok, m)

  accept_certificate :
      EapIdentity → EapCertificate → Error → AdmissionManager → Error × AdmissionManager
  unfolding save
  accept_certificate pending c (failed e) m = (failed e, m)
  accept_certificate pending c ok m =
      save env (set_pending (record pending { certificate = some c }) m)

  receive_certificate :
      EapIdentity → String → Certified EapCertificate → AdmissionManager → Error × AdmissionManager
  unfolding save join_saved accept_certificate
  receive_certificate pending subject (uncertified messages) m = (failed messages, m)
  receive_certificate pending subject (stale_identity messages) m = join_saved (failed messages) (
      save env
        (diagnose "certificate_prepare_required" (set_pending (record pending { stale = true }) m)))
  receive_certificate pending subject (certified c) m =
      accept_certificate pending c
        (validate_eap_certificate env.x509 c pending.csr m.state.device_id subject
          (env.now m.history))
        m

  request_certificate : String → Option EapIdentity → AdmissionManager → Error × AdmissionManager
  unfolding receive_certificate
  request_certificate subject none m = (ok, m)
  request_certificate subject (some pending) m =
      if is_some pending.certificate
      then (ok, m)
      else receive_certificate pending subject
          (env.issue m.history pending.request_id pending.csr m.state.device_id subject)
          (log_event (certificate_issued pending.request_id pending.csr subject) m)

  -- ensureIdentity
  unfoldable pub ensure_identity : String → AdmissionManager → Error × AdmissionManager
  unfolding drop_stale lasts begin_pending request_csr request_certificate active_current
  ensure_identity subject m =
      let m1 = record m { state = drop_stale m.state } in
      if not (is_some m1.state.pending) && lasts (active_current env m1) m1
      then (ok, m1)
      else begin_pending m1
        then_do (λ m2. request_csr m2.state.pending m2)
        then_do (λ m3. request_certificate subject m3.state.pending m3)

  receive_staged :
      ℕ
      → EapIdentity
      → EapCertificate
      → EapSelection
      → Answer EapStagedProfile
      → AdmissionManager
      → Error × AdmissionManager
  unfolding stage_selection save
  receive_staged index identity c s (refused e) m = (fail e, m)
  receive_staged index identity c s (got staged) m =
      save env (record m { state = stage_selection index identity c s staged m.state })

  stage_profile :
      ℕ
      → EapIdentity
      → EapCertificate
      → EapSelection
      → Option AdmissionProfile
      → AdmissionManager
      → Error × AdmissionManager
  unfolding receive_staged
  stage_profile index identity c s none m =
      (fail "EAP policy changed; remove the old configuration before preparing it again", m)
  stage_profile index identity c s (some profile) m =
      receive_staged index identity c s
        (env.stage m.history identity.request_id profile c s.adapter)
        (log_event (profile_staged identity.request_id profile s.adapter) m)

  -- The body of the loop of stage
  stage_one :
      String
      → EapIdentity
      → EapCertificate
      → ℕ
      → EapSelection
      → AdmissionManager
      → Error × AdmissionManager
  unfolding is_new_prior stage_profile is_unchanged
  stage_one force identity c index s m =
      let profile = current_profile env s.profile.id m in
      if not (is_unchanged env profile s)
      then (fail "EAP policy changed; remove the old configuration before preparing it again", m)
      else if str_eq s.fingerprint c.fingerprint && not (str_eq s.profile.id force)
      then (ok, m)
      else if is_new_prior s && leb 16 (length s.prior_identities)
      then (fail "remove the managed EAP profile before preparing more certificate generations", m)
      else stage_profile index identity c s profile m

  stage_from :
      String
      → EapIdentity
      → EapCertificate
      → ℕ
      → List EapSelection
      → AdmissionManager
      → Error × AdmissionManager
  unfolding stage_one
  stage_from force identity c index [] m = (ok, m)
  stage_from force identity c index (s ∷ ss) m =
      stage_one force identity c index s m then_do stage_from force identity c (suc index) ss

  stage_certified :
      String → EapIdentity → Option EapCertificate → AdmissionManager → Error × AdmissionManager
  unfolding stage_from
  stage_certified force identity none m = (fail "EAP certificate is unavailable or expired", m)
  stage_certified force identity (some c) m =
      if ltb (env.now m.history) c.expires_at
      then stage_from force identity c 0 m.state.selections m
      else (fail "EAP certificate is unavailable or expired", m)

  stage_identity : String → Option EapIdentity → AdmissionManager → Error × AdmissionManager
  unfolding stage_certified
  stage_identity force none m = (fail "EAP certificate is unavailable or expired", m)
  stage_identity force (some identity) m = stage_certified force identity identity.certificate m

  -- stage
  unfoldable pub stage : String → AdmissionManager → Error × AdmissionManager
  unfolding stage_identity or_else
  stage force m = stage_identity force (or_else m.state.pending m.state.active) m
