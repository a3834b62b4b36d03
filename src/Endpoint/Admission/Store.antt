-- ===== src/Endpoint/Admission/Store.antt =====
-- eap_manager.go: save; eap_cleanup.go: what is owed to the system, and how it is settled.
pub mod Keys
pub mod Drains
pub mod Outcome
use soha_app.Base.{
  ℕ, zero, suc, String, Bool, true, false, not, ◌&&◌, ◌||◌, Option, none, some, List, [], ◌∷◌, ◌++◌,
  ltb, if◌then◌else◌, str_eq, blank, contains, length, is_empty, is_some,
}
use soha_app.Base.Errors.{Error, fail, failed, ok}
use soha_app.Endpoint.Admission.Validation.{eap_certificate_hash}
use soha_app.Endpoint.Admission.State.{
  AdmissionManager, EapArtifact, EapCertificate, EapCleanup, EapIdentity, EapSelection, EapState,
  EapSystem, artifact_eq, artifacts_recovered, credentials_cleaned, diagnose, log_event,
  state_saved, ◌then_do◌,
}

-- The error of save: the state is too long, holds too many cleanups, or was not written.
save_error : EapState → Error → Error
save_error s written =
    if ltb 16 (length s.cleanup) then fail "EAP state exceeds the safe size" else written

-- The deferred part of save: a failed commit must not leave a newer identity usable only in memory.
commit : Error → AdmissionManager → Error × AdmissionManager
commit ok m = (ok, record m { saved = m.state })
commit (failed e) m = (
  failed e,
  record m { state = m.saved; valid_until = 0; diagnostic = "state_persistence_failed" },
)

add_texts : List String → List String → List String
add_texts stored [] = stored
add_texts stored (t ∷ ts) = add_texts (if contains stored t then stored else stored ++ (t ∷ [])) ts

has_artifact : List EapArtifact → EapArtifact → Bool
has_artifact [] a = false
has_artifact (b ∷ bs) a = artifact_eq b a || has_artifact bs a

add_artifacts : List EapArtifact → List EapArtifact → List EapArtifact
unfolding has_artifact
add_artifacts stored [] = stored
add_artifacts stored (a ∷ rest) =
    add_artifacts (if has_artifact stored a then stored else stored ++ (a ∷ [])) rest

keep_certificate : Option EapCertificate → Option EapCertificate → Option EapCertificate
keep_certificate none new = new
keep_certificate (some c) new = some c

merge_cleanup : EapCleanup → EapCleanup → EapCleanup
unfolding add_texts add_artifacts keep_certificate
merge_cleanup stored job = record stored {
  certificate = keep_certificate stored.certificate job.certificate;
  ca_certificates = add_texts stored.ca_certificates job.ca_certificates;
  artifacts = add_artifacts stored.artifacts job.artifacts;
}

-- The loop of queueCleanup: merged into the first of the same request, else appended.
insert_cleanup : EapCleanup → List EapCleanup → List EapCleanup
unfolding merge_cleanup
insert_cleanup job [] = job ∷ []
insert_cleanup job (stored ∷ rest) =
    if str_eq stored.request_id job.request_id
    then merge_cleanup stored job ∷ rest
    else stored ∷ insert_cleanup job rest

issuer_of : Option EapCertificate → List String
issuer_of none = []
issuer_of (some c) = c.ca_certificate_pem ∷ []

with_issuer : EapCleanup → EapCleanup
unfolding issuer_of
with_issuer job = record job { ca_certificates = job.ca_certificates ++ issuer_of job.certificate }

is_nothing : EapCleanup → Bool
is_nothing job = blank job.request_id && is_empty job.ca_certificates && is_empty job.artifacts

-- queueCleanup
unfoldable pub queue_cleanup : EapCleanup → EapState → EapState
unfolding with_issuer is_nothing insert_cleanup
queue_cleanup job s =
    let full = with_issuer job in
    if is_nothing full then s else record s { cleanup = insert_cleanup full s.cleanup }

-- The cleanup of an identity's key, certificate and issuer.
abbrev pub identity_cleanup : EapIdentity → EapCleanup
identity_cleanup identity = record {
  request_id = identity.request_id;
  certificate = identity.certificate;
  ca_certificates = [];
  artifacts = [];
}

unfoldable pub queue_identity : Option EapIdentity → EapState → EapState
queue_identity none s = s
queue_identity (some identity) s = queue_cleanup (identity_cleanup identity) s

abbrev pub artifacts_of : EapSelection → List EapArtifact
artifacts_of s =
    if blank s.artifact_path
    then []
    else record { path = s.artifact_path; sha256 = s.artifact_sha256 } ∷ []

-- The cleanup of artifacts, and that of a profile's trusted issuers with them
abbrev pub artifacts_cleanup : List String → List EapArtifact → EapCleanup
artifacts_cleanup issuers artifacts = record {
  request_id = "";
  certificate = none;
  ca_certificates = issuers;
  artifacts = artifacts;
}

unfoldable pub queue_artifacts : List EapArtifact → EapState → EapState
queue_artifacts artifacts s = queue_cleanup (artifacts_cleanup [] artifacts) s

without_selection : ℕ → List EapSelection → List EapSelection
without_selection index [] = []
without_selection zero (s ∷ ss) = ss
without_selection (suc index) (s ∷ ss) = s ∷ without_selection index ss

-- The identities go with the last selection.
release_identities : EapState → EapState
unfolding queue_identity
release_identities s =
    if is_empty s.selections
    then record (queue_identity s.pending (queue_identity s.active s)) {
      active = none;
      pending = none;
    }
    else s

forget_selection : ℕ → EapSelection → EapState → EapState
unfolding without_selection
forget_selection index selection s =
    let queued =
      queue_cleanup (artifacts_cleanup selection.profile.ca_certificates (artifacts_of selection))
        s in
    record queued { selections = without_selection index queued.selections }

-- detachSelection
unfoldable pub detach_selection : ℕ → EapSelection → EapState → EapState
unfolding release_identities forget_selection
detach_selection index selection s = release_identities (forget_selection index selection s)

module _ (env : EapSystem) where
  -- save
  unfoldable pub save : AdmissionManager → Error × AdmissionManager
  unfolding save_error commit
  save m =
      let e = save_error m.state (env.write m.history m.state) in
      commit e (log_event (state_saved m.state e) m)

  retained_digests : List String → List String
  retained_digests [] = []
  retained_digests (t ∷ ts) = eap_certificate_hash env.x509 t ∷ retained_digests ts

  selected_digests : List EapSelection → List String
  unfolding retained_digests
  selected_digests [] = []
  selected_digests (s ∷ ss) = retained_digests s.profile.ca_certificates ++ selected_digests ss

  identity_digests : Option EapIdentity → List String
  identity_digests none = []
  identity_digests (some identity) = elim identity.certificate [
    | none ↦ []
    | some c ↦ eap_certificate_hash env.x509 c.ca_certificate_pem ∷ []
  ]

  -- The issuers that are still in use
  unfoldable pub retained_by : EapState → List String
  unfolding selected_digests identity_digests
  retained_by s =
      selected_digests s.selections ++ identity_digests s.active ++ identity_digests s.pending

  unretained : List String → List String → List String
  unretained retained [] = []
  unretained retained (t ∷ ts) =
      if contains retained (eap_certificate_hash env.x509 t)
      then unretained retained ts
      else t ∷ unretained retained ts

  conclude_cleanup : List EapCleanup → Error → AdmissionManager → Error × AdmissionManager
  unfolding save
  conclude_cleanup rest (failed e) m = (failed e, diagnose "cleanup_retry_pending" m)
  conclude_cleanup rest ok m = save (record m { state = record m.state { cleanup = rest } })

  -- The body of the loop: one job, by the jobs in front of it
  settle_job :
      List String → List EapCleanup → EapCleanup → AdmissionManager → Error × AdmissionManager
  unfolding unretained conclude_cleanup
  settle_job retained rest job m =
      let asked = record job { ca_certificates = unretained retained job.ca_certificates } in
      let e = env.cleanup m.history asked in
      conclude_cleanup rest e (log_event (credentials_cleaned asked e) m)

  -- The loop of cleanup, which begins with the last job; `before` stand in front of the jobs that are left.
  settle_jobs :
      List String → List EapCleanup → List EapCleanup → AdmissionManager → Error × AdmissionManager
  unfolding settle_job
  settle_jobs retained before [] m = (ok, m)
  settle_jobs retained before (job ∷ jobs) m =
      settle_jobs retained (before ++ (job ∷ [])) jobs m then_do settle_job retained before job

  -- cleanup
  unfoldable pub clean_up : AdmissionManager → Error × AdmissionManager
  unfolding settle_jobs
  clean_up m = settle_jobs (retained_by m.state) [] m.state.cleanup m

  kept_artifacts : List EapSelection → List EapArtifact
  kept_artifacts [] = []
  kept_artifacts (s ∷ ss) = artifacts_of s ++ kept_artifacts ss

  conclude_recovery : Error → AdmissionManager → Error × AdmissionManager
  conclude_recovery ok m = (ok, m)
  conclude_recovery (failed e) m =
      (failed e, if blank m.diagnostic then diagnose "cleanup_retry_pending" m else m)

  -- recoverArtifacts
  unfoldable pub recover_artifacts : AdmissionManager → Error × AdmissionManager
  unfolding kept_artifacts conclude_recovery
  recover_artifacts m =
      let retained = kept_artifacts m.state.selections in
      let e = env.recover_artifacts m.history retained in
      conclude_recovery e (log_event (artifacts_recovered retained) m)
