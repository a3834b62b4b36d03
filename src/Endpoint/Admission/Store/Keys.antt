-- ===== src/Endpoint/Admission/Store/Keys.antt =====
-- eap_manager.go, eap_cleanup.go: saving and cleaning up lose no key.
use soha_app.Base.{
  ℕ, String, true, false, ◌||◌, ◌≡◌, Option, none, some, List, [], ◌∷◌, ◌++◌, ◌∙◌, arith, refl, sym,
  ap, str_eq, str_eq_iff, blank, blank_iff, Bool-cases, inl, inr,
}
use mathlib.Core.List.{append-nil, append_assoc}
use soha_app.Base.Errors.{Error, Error-cases, failed, ok}
use soha_app.Endpoint.Admission.State.{
  deferring, AdmissionManager, EapArtifact, EapCleanup, EapIdentity, EapSelection, EapState,
  EapSystem, ◌then_do◌, credentials_cleaned, log_event,
}
use soha_app.Endpoint.Admission.Store.{
  clean_up, commit, conclude_cleanup, detach_selection, forget_selection, artifacts_of,
  artifacts_cleanup, identity_cleanup, insert_cleanup, is_nothing, merge_cleanup, queue_artifacts,
  queue_cleanup, queue_identity, recover_artifacts, release_identities, retained_by, save,
  save_error, settle_job, settle_jobs, unretained, with_issuer, conclude_recovery,
}
use soha_app.Endpoint.Admission.Keys.{has_key, is_ready, is_sound, names_request, owes, queued}

module _ (id : String) (named : blank id ≡ false) where
  insert_cleanup-queued :
      (job : EapCleanup) (jobs : List EapCleanup)
      → queued id (insert_cleanup job jobs) ≡ (queued id jobs || str_eq job.request_id id)
  unfolding insert_cleanup queued merge_cleanup
  insert_cleanup-queued job [] = ground arith
  insert_cleanup-queued job (stored ∷ rest) =
      elim (Bool-cases (str_eq stored.request_id job.request_id)) [
        | inl same ↦
            let e : stored.request_id ≡ job.request_id = (str_eq_iff _ _).0 same in
            ground (arith, same, e)
        | inr other ↦ ground (arith, other, insert_cleanup-queued job rest)
      ]

  blank-other : (request : String) → blank request ≡ true → str_eq request id ≡ false
  blank-other request b = elim (Bool-cases (str_eq request id)) [
    | inl same ↦
        let e : request ≡ id = (str_eq_iff request id).0 same in
        let empty : blank id ≡ true = rw (← e) b in ground (arith, named, empty)
    | inr other ↦ other
  ]

  pub queue_cleanup-owes :
      (job : EapCleanup) (s : EapState)
      → owes id (queue_cleanup job s) ≡ (owes id s || str_eq job.request_id id)
  unfolding queue_cleanup owes is_nothing with_issuer
  queue_cleanup-owes job s =
      ground (arith, blank-other job.request_id, insert_cleanup-queued (with_issuer job) s.cleanup)

  -- The three parts of what the queueing of a cleanup does
  pub queue_cleanup-keeps :
      (job : EapCleanup) (s : EapState)
      → ((queue_cleanup job s).active ≡ s.active)
        × ((queue_cleanup job s).pending ≡ s.pending)
        × ((queue_cleanup job s).selections ≡ s.selections)
  unfolding queue_cleanup
  queue_cleanup-keeps job s = ground arith

  queue_cleanup-queued :
      (job : EapCleanup) (s : EapState)
      → queued id (queue_cleanup job s).cleanup ≡ (queued id s.cleanup || str_eq job.request_id id)
  unfolding queue_cleanup is_nothing with_issuer
  queue_cleanup-queued job s =
      ground (arith, blank-other job.request_id, insert_cleanup-queued (with_issuer job) s.cleanup)

  -- Queueing the cleanup of an identity accounts for its key.
  pub queue_identity-queued :
      (o : Option EapIdentity) (s : EapState)
      → queued id (queue_identity o s).cleanup ≡ (queued id s.cleanup || names_request id o)
  unfolding queue_identity names_request
  queue_identity-queued none s = ground arith
  queue_identity-queued (some identity) s = queue_cleanup-queued (identity_cleanup identity) s

  pub queue_identity-keeps :
      (o : Option EapIdentity) (s : EapState)
      → ((queue_identity o s).active ≡ s.active)
        × ((queue_identity o s).pending ≡ s.pending)
        × ((queue_identity o s).selections ≡ s.selections)
  unfolding queue_identity
  queue_identity-keeps none s = (refl, refl, refl)
  queue_identity-keeps (some identity) s = queue_cleanup-keeps (identity_cleanup identity) s

  pub queue_artifacts-owes :
      (artifacts : List EapArtifact) (s : EapState)
      → owes id (queue_artifacts artifacts s) ≡ owes id s
  unfolding queue_artifacts
  queue_artifacts-owes artifacts s = ground (
    arith,
    blank-other "" ((blank_iff "").1 refl),
    queue_cleanup-owes (artifacts_cleanup [] artifacts) s,
  )

  release_identities-owes : (s : EapState) → owes id (release_identities s) ≡ owes id s
  unfolding release_identities owes names_request
  release_identities-owes s =
      let first = queue_identity s.active s in
      ground (arith, queue_identity-queued s.active s, queue_identity-queued s.pending first)

  forget_selection-owes :
      (index : ℕ) (selection : EapSelection) (s : EapState)
      → owes id (forget_selection index selection s) ≡ owes id s
  unfolding forget_selection owes
  forget_selection-owes index selection s =
      let job = artifacts_cleanup selection.profile.ca_certificates (artifacts_of selection) in
      ground (
        arith,
        blank-other "" ((blank_iff "").1 refl),
        queue_cleanup-queued job s,
        queue_cleanup-keeps job s,
      )

  pub detach_selection-owes :
      (index : ℕ) (selection : EapSelection) (s : EapState)
      → owes id (detach_selection index selection s) ≡ owes id s
  unfolding detach_selection
  detach_selection-owes index selection s =
      let forgotten = forget_selection index selection s in
      release_identities-owes forgotten ∙ forget_selection-owes index selection s

module _ (id : String) (env : EapSystem) where
  -- A save that fails leaves what the file accounts for, and one that succeeds makes the file account for
  -- what the memory does.
  pub save-Sound : (m : AdmissionManager) → is_ready id m ≡ true → is_sound id (save env m).1 ≡ true
  unfolding save commit has_key
  save-Sound m h = elim (Error-cases (save_error m.state (env.write m.history m.state))) [
    | inl e ↦ ground (arith, e)
    | inr (messages, e) ↦ ground (arith, e)
  ]

  pub save-keeps : (m : AdmissionManager) → (save env m).0 ≡ ok → (save env m).1.state ≡ m.state
  unfolding save commit
  save-keeps m h = elim (Error-cases (save_error m.state (env.write m.history m.state))) [
    | inl e ↦ ground (arith, e)
    | inr (messages, e) ↦ ground (arith, e)
  ]

  queued-last :
      (jobs : List EapCleanup) (job : EapCleanup)
      → queued id (jobs ++ (job ∷ [])) ≡ (queued id jobs || str_eq job.request_id id)
  unfolding queued
  queued-last [] job = ground arith
  queued-last (j ∷ jobs) job = ground (arith, queued-last jobs job)

  drop_last-owes :
      (rest : List EapCleanup) (job : EapCleanup) (s : EapState)
      → s.cleanup ≡ rest ++ (job ∷ [])
      → owes id s ≡ (owes id (record s { cleanup = rest }) || str_eq job.request_id id)
  unfolding owes
  drop_last-owes rest job s c =
      let last : queued id s.cleanup ≡ (queued id rest || str_eq job.request_id id) =
        ap (queued id) c ∙ queued-last rest job in
      ground (arith, last)

  conclude_cleanup-Sound :
      (rest : List EapCleanup) (asked job : EapCleanup) (e : Error) (m : AdmissionManager)
      → asked.request_id ≡ job.request_id
      → m.state.cleanup ≡ rest ++ (job ∷ [])
      → is_sound id m ≡ true
      → (is_sound id (conclude_cleanup env rest e (log_event (credentials_cleaned asked e) m)).1
          ≡ true)
        × ((conclude_cleanup env rest e (log_event (credentials_cleaned asked e) m)).0 ≡ ok
            → (conclude_cleanup env rest e
                (log_event (credentials_cleaned asked e) m)).1.state.cleanup
              ≡ rest)
  unfolding conclude_cleanup has_key
  conclude_cleanup-Sound rest asked job (failed e) m r c h =
      (ground arith, λ o. absurd (ground arith))
  conclude_cleanup-Sound rest asked job ok m r c h =
      let after : AdmissionManager = record (log_event (credentials_cleaned asked ok) m) {
        state = record m.state { cleanup = rest };
      } in
      let less = drop_last-owes rest job m.state c in
      (
        save-Sound after (ground (arith, less, ap (λ request. str_eq request id) r)),
        λ o. ap (λ (st : EapState). st.cleanup) (save-keeps after o),
      )

  settle_job-Sound :
      (retained : List String) (rest : List EapCleanup) (job : EapCleanup) (m : AdmissionManager)
      → m.state.cleanup ≡ rest ++ (job ∷ [])
      → is_sound id m ≡ true
      → (is_sound id (settle_job env retained rest job m).1 ≡ true)
        × ((settle_job env retained rest job m).0 ≡ ok
            → (settle_job env retained rest job m).1.state.cleanup ≡ rest)
  unfolding settle_job
  settle_job-Sound retained rest job m c h =
      let asked = record job { ca_certificates = unretained env retained job.ca_certificates } in
      conclude_cleanup-Sound rest asked job (env.cleanup m.history asked) m refl c h

  then_settle_job-Sound :
      (retained : List String) (rest : List EapCleanup) (job : EapCleanup)
      (r : Error × AdmissionManager)
      → (r.0 ≡ ok → r.1.state.cleanup ≡ rest ++ (job ∷ []))
      → is_sound id r.1 ≡ true
      → (is_sound id (r then_do settle_job env retained rest job).1 ≡ true)
        × ((r then_do settle_job env retained rest job).0 ≡ ok
            → (r then_do settle_job env retained rest job).1.state.cleanup ≡ rest)
  then_settle_job-Sound retained rest job (ok, m) c h =
      settle_job-Sound retained rest job m (c refl) h
  then_settle_job-Sound retained rest job (failed e, m) c h = (h, λ o. absurd (ground arith))

  settle_jobs-Sound :
      (retained : List String) (before jobs : List EapCleanup) (m : AdmissionManager)
      → m.state.cleanup ≡ before ++ jobs
      → is_sound id m ≡ true
      → (is_sound id (settle_jobs env retained before jobs m).1 ≡ true)
        × ((settle_jobs env retained before jobs m).0 ≡ ok
            → (settle_jobs env retained before jobs m).1.state.cleanup ≡ before)
  unfolding settle_jobs
  settle_jobs-Sound retained before [] m c h = (h, λ o. c ∙ append-nil before)
  settle_jobs-Sound retained before (job ∷ jobs) m c h =
      let later =
        settle_jobs-Sound retained (before ++ (job ∷ [])) jobs m
          (c ∙ sym (append_assoc before (job ∷ []) jobs)) h in
      then_settle_job-Sound retained before job
        (settle_jobs env retained (before ++ (job ∷ [])) jobs m) later.1 later.0

  pub clean_up-Sound :
      (m : AdmissionManager) → is_sound id m ≡ true → is_sound id (clean_up env m).1 ≡ true
  unfolding clean_up
  clean_up-Sound m h = (settle_jobs-Sound (retained_by env m.state) [] m.state.cleanup m refl h).0

  pub recover_artifacts-Sound :
      (m : AdmissionManager) → is_sound id m ≡ true → is_sound id (recover_artifacts env m).1 ≡ true
  unfolding recover_artifacts conclude_recovery has_key
  recover_artifacts-Sound m h = ground arith

  pub deferring-Sound :
      (r : Error × AdmissionManager)
      → is_sound id r.1 ≡ true
      → is_sound id (deferring r (recover_artifacts env)).1 ≡ true
  deferring-Sound (e, m) h = recover_artifacts-Sound m h

  -- A save after a change of the state that accounts for the same keys
  pub save_same-Sound :
      (m : AdmissionManager) (s : EapState)
      → owes id s ≡ owes id m.state
      → is_sound id m ≡ true
      → is_sound id (save env (record m { state = s })).1 ≡ true
  save_same-Sound m s same h = save-Sound (record m { state = s }) (ground (arith, same))
