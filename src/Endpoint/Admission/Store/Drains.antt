-- ===== src/Endpoint/Admission/Store/Drains.antt =====
-- eap_cleanup.go: with a system and a disk that work, cleanup settles all that is owed.
use mathlib.Core.List.{append-nil, append_assoc}
use soha_app.Base.{
  suc, ◌+◌, ◌≤◌, String, false, ◌≡◌, Option, none, some, List, [], ◌∷◌, ◌++◌, ◌∙◌, sym, ap, arith,
  refl, ltb, length, length-append, Bool-cases, inl, inr, str_eq,
}
use soha_app.Base.Errors.{Error, failed, ok}
use soha_app.Endpoint.Admission.State.{
  AdmissionManager, EapArtifact, EapCleanup, EapHistory, EapIdentity, EapSelection, EapState,
  EapSystem, credentials_cleaned, log_event, ◌then_do◌,
}
use soha_app.Endpoint.Admission.Store.{
  clean_up, commit, insert_cleanup, queue_cleanup, queue_identity, retained_by, save, save_error,
  settle_job, settle_jobs, unretained, recover_artifacts, conclude_recovery, kept_artifacts,
  conclude_cleanup, merge_cleanup, with_issuer, identity_cleanup, artifacts_cleanup, artifacts_of,
  forget_selection, release_identities, detach_selection, without_selection,
}

-- The system cleans up what it is asked to, and the disk takes what it is given.
abbrev pub Works : EapSystem → Type 0
Works env =
    ((h : EapHistory) (job : EapCleanup) → env.cleanup h job ≡ ok)
    × ((h : EapHistory) (s : EapState) → env.write h s ≡ ok)

insert_cleanup-length :
    (job : EapCleanup) (jobs : List EapCleanup)
    → length (insert_cleanup job jobs) ≤ suc (length jobs)
unfolding insert_cleanup merge_cleanup
insert_cleanup-length job [] = omega arith
insert_cleanup-length job (stored ∷ rest) =
    elim (Bool-cases (str_eq stored.request_id job.request_id)) [
      | inl same ↦ ground (arith, same)
      | inr other ↦ ground (arith, other, insert_cleanup-length job rest)
    ]

-- A cleanup that is queued takes one place at most.
pub queue_cleanup-length :
    (job : EapCleanup) (s : EapState)
    → length (queue_cleanup job s).cleanup ≤ suc (length s.cleanup)
unfolding queue_cleanup
queue_cleanup-length job s = ground (arith, insert_cleanup-length (with_issuer job) s.cleanup)

queue_cleanup-selections :
    (job : EapCleanup) (s : EapState) → (queue_cleanup job s).selections ≡ s.selections
unfolding queue_cleanup
queue_cleanup-selections job s = ground arith

queue_identity-selections :
    (o : Option EapIdentity) (s : EapState) → (queue_identity o s).selections ≡ s.selections
unfolding queue_identity
queue_identity-selections none s = refl
queue_identity-selections (some identity) s = queue_cleanup-selections (identity_cleanup identity) s

queue_identity-length :
    (o : Option EapIdentity) (s : EapState)
    → length (queue_identity o s).cleanup ≤ suc (length s.cleanup)
unfolding queue_identity
queue_identity-length none s = omega arith
queue_identity-length (some identity) s = queue_cleanup-length (identity_cleanup identity) s

forget_selection-last :
    (s : EapSelection) (st : EapState)
    → st.selections ≡ s ∷ []
    → ((forget_selection 0 s st).selections ≡ [])
      × (length (forget_selection 0 s st).cleanup ≤ suc (length st.cleanup))
unfolding forget_selection without_selection
forget_selection-last s st e =
    let job = artifacts_cleanup s.profile.ca_certificates (artifacts_of s) in
    (ground (arith, e, queue_cleanup-selections job st), queue_cleanup-length job st)

release_identities-last :
    (st : EapState)
    → st.selections ≡ []
    → ((release_identities st).selections ≡ [])
      × ((release_identities st).active ≡ none)
      × ((release_identities st).pending ≡ none)
      × (length (release_identities st).cleanup ≤ 2 + length st.cleanup)
unfolding release_identities
release_identities-last st e =
    let first = queue_identity st.active st in
    ground (
      arith,
      e,
      queue_identity-length st.active st,
      queue_identity-length st.pending first,
      queue_identity-selections st.active st,
      queue_identity-selections st.pending first,
    )

-- With the last selection the identities go, and at most three cleanups are owed for it.
pub detach_selection-last :
    (s : EapSelection) (st : EapState)
    → st.selections ≡ s ∷ []
    → ((detach_selection 0 s st).selections ≡ [])
      × ((detach_selection 0 s st).active ≡ none)
      × ((detach_selection 0 s st).pending ≡ none)
      × (length (detach_selection 0 s st).cleanup ≤ 3 + length st.cleanup)
unfolding detach_selection
detach_selection-last s st e =
    let (none_left, few) = forget_selection-last s st e in
    let (selections, active, pending, cleanup) =
      release_identities-last (forget_selection 0 s st) none_left in
    (selections, active, pending, omega (arith, few, cleanup))

module _ (env : EapSystem) (works : Works env) where
  -- A state with room for its cleanups is saved.
  pub save-Works :
      (m : AdmissionManager)
      → ltb 16 (length m.state.cleanup) ≡ false
      → ((save env m).0 ≡ ok) × ((save env m).1.state ≡ m.state)
  unfolding save save_error commit
  save-Works m room = let written = works.1 m.history m.state in ground (arith, room, written)

  conclude_cleanup-Works :
      (rest : List EapCleanup) (e : Error) (m : AdmissionManager)
      → e ≡ ok
      → ltb 16 (length rest) ≡ false
      → ((conclude_cleanup env rest e m).0 ≡ ok)
        × ((conclude_cleanup env rest e m).1.state ≡ record m.state { cleanup = rest })
  unfolding conclude_cleanup
  conclude_cleanup-Works rest ok m e room =
      save-Works (record m { state = record m.state { cleanup = rest } }) room
  conclude_cleanup-Works rest (failed messages) m e room = absurd (ground (arith, e))

  settle_job-Works :
      (retained : List String) (rest : List EapCleanup) (job : EapCleanup) (m : AdmissionManager)
      → ltb 16 (length rest) ≡ false
      → ((settle_job env retained rest job m).0 ≡ ok)
        × ((settle_job env retained rest job m).1.state ≡ record m.state { cleanup = rest })
  unfolding settle_job
  settle_job-Works retained rest job m room =
      let asked = record job { ca_certificates = unretained env retained job.ca_certificates } in
      let e = env.cleanup m.history asked in
      conclude_cleanup-Works rest e (log_event (credentials_cleaned asked e) m)
        (works.0 m.history asked) room

  then_settle_job-Works :
      (retained : List String) (rest : List EapCleanup) (job : EapCleanup)
      (r : Error × AdmissionManager)
      → r.0 ≡ ok
      → ltb 16 (length rest) ≡ false
      → ((r then_do settle_job env retained rest job).0 ≡ ok)
        × ((r then_do settle_job env retained rest job).1.state
            ≡ record r.1.state { cleanup = rest })
  then_settle_job-Works retained rest job (ok, m) e room = settle_job-Works retained rest job m room
  then_settle_job-Works retained rest job (failed messages, m) e room = absurd (ground (arith, e))

  settle_jobs-Works :
      (retained : List String) (before jobs : List EapCleanup) (m : AdmissionManager)
      → m.state.cleanup ≡ before ++ jobs
      → length before + length jobs ≤ 16
      → ((settle_jobs env retained before jobs m).0 ≡ ok)
        × ((settle_jobs env retained before jobs m).1.state ≡ record m.state { cleanup = before })
  unfolding settle_jobs
  settle_jobs-Works retained before [] m c few =
      (refl, ap (λ cs. record m.state { cleanup = cs }) (c ∙ append-nil before))
  settle_jobs-Works retained before (job ∷ jobs) m c few =
      let longer = before ++ (job ∷ []) in
      let (fine, state) =
        settle_jobs-Works retained longer jobs m (c ∙ sym (append_assoc before (job ∷ []) jobs))
          (omega (arith, length-append before (job ∷ []), few)) in
      let (settled, after) =
        then_settle_job-Works retained before job (settle_jobs env retained longer jobs m) fine
          (ground (arith, few)) in
      (settled, after ∙ ap (λ (st : EapState). record st { cleanup = before }) state)

  -- Cleanup settles all that is owed.
  pub clean_up-Works :
      (m : AdmissionManager)
      → length m.state.cleanup ≤ 16
      → ((clean_up env m).0 ≡ ok) × ((clean_up env m).1.state ≡ record m.state { cleanup = [] })
  unfolding clean_up
  clean_up-Works m few =
      settle_jobs-Works (retained_by env m.state) [] m.state.cleanup m refl (omega (arith, few))

module _ (env : EapSystem)
    (recovers : (h : EapHistory) (artifacts : List EapArtifact)
      → env.recover_artifacts h artifacts ≡ ok) where
  pub recover_artifacts-Works :
      (m : AdmissionManager)
      → ((recover_artifacts env m).0 ≡ ok) × ((recover_artifacts env m).1.state ≡ m.state)
  unfolding recover_artifacts conclude_recovery
  recover_artifacts-Works m =
      let retained = kept_artifacts env m.state.selections in
      let fine = recovers m.history retained in ground (arith, fine)
