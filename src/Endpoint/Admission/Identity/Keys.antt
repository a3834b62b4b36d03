-- ===== src/Endpoint/Admission/Identity/Keys.antt =====
-- eap_manager.go: ensureIdentity and stage lose no key.
use soha_app.Base.{
  ℕ, suc, String, true, false, not, ◌&&◌, ◌≡◌, Option, none, some, List, [], ◌∷◌, ap, arith, refl,
  str_eq, blank, is_some, Bool-cases, inl, inr,
}
use soha_app.Base.Errors.{Error, failed, ok}
use soha_app.Endpoint.Protocol.{AdmissionProfile}
use soha_app.Endpoint.Manager.State.{Answer, got, refused}
use soha_app.Endpoint.Admission.State.{
  AdmissionManager, active_current, Certified, EapCertificate, EapIdentity, EapSelection,
  EapStagedProfile, EapState, EapSystem, certificate_issued, certified, csr_created,
  current_profile, diagnose, log_event, profile_staged, stale_identity, uncertified, ◌then_do◌,
}
use soha_app.Endpoint.Admission.Validation.{validate_eap_certificate}
use soha_app.Endpoint.Admission.Store.{artifacts_of, save}
use soha_app.Endpoint.Admission.Store.Keys.{
  queue_artifacts-owes, queue_identity-keeps, queue_identity-queued, save-Sound,
}
use soha_app.Endpoint.Admission.Keys.{has_key, is_sound, names_request, owes, then_do-Sound}
use soha_app.Endpoint.Admission.Identity.{
  accept_certificate, begin_pending, drop_stale, ensure_identity, is_stale, lasts, join_saved,
  or_else, receive_certificate, receive_csr, receive_staged, request_certificate, request_csr,
  set_pending, stage, stage_certified, stage_from, stage_identity, stage_one, stage_profile,
  stage_selection,
}

module _ (id : String) (named : blank id ≡ false) (env : EapSystem) where
  drop_stale-owes : (s : EapState) → owes id (drop_stale s) ≡ owes id s
  unfolding drop_stale is_stale owes names_request
  drop_stale-owes s =
      ground (
        arith,
        queue_identity-queued id named s.pending s,
        queue_identity-keeps id named s.pending s,
      )

  fill_pending-owes :
      (new : EapIdentity) (m : AdmissionManager)
      → is_some m.state.pending ≡ false
      → owes id m.state ≡ true
      → owes id (set_pending new m).state ≡ true
  unfolding owes names_request
  fill_pending-owes new m p h = ground arith

  -- A pending identity that keeps its request keeps the key accounted for.
  pub set_pending-owes :
      (old new : EapIdentity) (m : AdmissionManager)
      → m.state.pending ≡ some old
      → old.request_id ≡ new.request_id
      → owes id (set_pending new m).state ≡ owes id m.state
  unfolding owes names_request
  set_pending-owes old new m p r =
      let same : str_eq old.request_id id ≡ str_eq new.request_id id =
        ap (λ request. str_eq request id) r in
      let pending : names_request id m.state.pending ≡ str_eq old.request_id id =
        ap (names_request id) p in
      ground (arith, same, pending)

  pub pending-owes :
      (pending : EapIdentity) (s : EapState)
      → s.pending ≡ some pending
      → str_eq pending.request_id id ≡ true
      → owes id s ≡ true
  unfolding owes names_request
  pending-owes pending s p same =
      let named_there : names_request id s.pending ≡ str_eq pending.request_id id =
        ap (names_request id) p in
      ground (arith, same, named_there)

  begin_pending-Sound :
      (m : AdmissionManager) → is_sound id m ≡ true → is_sound id (begin_pending env m).1 ≡ true
  unfolding begin_pending
  begin_pending-Sound m h =
      let new : EapIdentity = record {
        request_id = env.random_id m.history;
        csr = "";
        certificate = none;
        stale = false;
        activated_at = 0;
      } in
      ground (arith, fill_pending-owes new m, save-Sound id env (set_pending new m))

  -- A save after a change of the pending identity that keeps its request
  pub save_pending-Sound :
      (old new : EapIdentity) (m : AdmissionManager)
      → m.state.pending ≡ some old
      → old.request_id ≡ new.request_id
      → is_sound id m ≡ true
      → is_sound id (save env (set_pending new m)).1 ≡ true
  save_pending-Sound old new m p r h =
      save-Sound id env (set_pending new m) (ground (arith, set_pending-owes old new m p r))

  receive_csr-Sound :
      (pending : EapIdentity) (answer : Answer String) (m : AdmissionManager)
      → m.state.pending ≡ some pending
      → is_sound id m ≡ true
      → is_sound id (receive_csr env pending answer m).1 ≡ true
  unfolding receive_csr
  receive_csr-Sound pending (refused e) m p h = h
  receive_csr-Sound pending (got csr) m p h =
      save_pending-Sound pending (record pending { csr = csr }) m p refl h

  request_csr-Sound :
      (o : Option EapIdentity) (m : AdmissionManager)
      → m.state.pending ≡ o
      → is_sound id m ≡ true
      → is_sound id (request_csr env o m).1 ≡ true
  unfolding request_csr has_key
  request_csr-Sound none m p h = h
  request_csr-Sound (some pending) m p h =
      let asked = log_event (csr_created pending.request_id) m in
      let h1 : is_sound id asked ≡ true = ground (arith, pending-owes pending m.state p) in
      ground
        (arith, receive_csr-Sound pending (env.create_csr m.history pending.request_id) asked p h1)

  pub join_saved-state : (e : Error) (r : Error × AdmissionManager) → (join_saved e r).1 ≡ r.1
  unfolding join_saved
  join_saved-state e (f, m) = refl

  accept_certificate-Sound :
      (pending : EapIdentity) (c : EapCertificate) (e : Error) (m : AdmissionManager)
      → m.state.pending ≡ some pending
      → is_sound id m ≡ true
      → is_sound id (accept_certificate env pending c e m).1 ≡ true
  unfolding accept_certificate
  accept_certificate-Sound pending c (failed e) m p h = h
  accept_certificate-Sound pending c ok m p h =
      save_pending-Sound pending (record pending { certificate = some c }) m p refl h

  receive_certificate-Sound :
      (pending : EapIdentity) (subject : String) (answer : Certified EapCertificate)
      (m : AdmissionManager)
      → m.state.pending ≡ some pending
      → is_sound id m ≡ true
      → is_sound id (receive_certificate env pending subject answer m).1 ≡ true
  unfolding receive_certificate join_saved
  receive_certificate-Sound pending subject (uncertified e) m p h = h
  receive_certificate-Sound pending subject (stale_identity e) m p h =
      save_pending-Sound pending (record pending { stale = true })
        (diagnose "certificate_prepare_required" m) p refl h
  receive_certificate-Sound pending subject (certified c) m p h =
      accept_certificate-Sound pending c
        (validate_eap_certificate env.x509 c pending.csr m.state.device_id subject
          (env.now m.history))
        m p h

  request_certificate-Sound :
      (subject : String) (o : Option EapIdentity) (m : AdmissionManager)
      → m.state.pending ≡ o
      → is_sound id m ≡ true
      → is_sound id (request_certificate env subject o m).1 ≡ true
  unfolding request_certificate has_key
  request_certificate-Sound subject none m p h = h
  request_certificate-Sound subject (some pending) m p h =
      let asked = log_event (certificate_issued pending.request_id pending.csr subject) m in
      ground (
        arith,
        receive_certificate-Sound pending subject
            (env.issue m.history pending.request_id pending.csr m.state.device_id subject) asked p
            h,
      )

  pub ensure_identity-Sound :
      (subject : String) (m : AdmissionManager)
      → is_sound id m ≡ true
      → is_sound id (ensure_identity env subject m).1 ≡ true
  unfolding ensure_identity
  ensure_identity-Sound subject m h =
      let m1 = record m { state = drop_stale m.state } in
      let h1 : is_sound id m1 ≡ true = ground (arith, drop_stale-owes m.state) in
      let begun = begin_pending env m1 in
      let with_csr = begun then_do (λ m2. request_csr env m2.state.pending m2) in
      let h2 : is_sound id with_csr.1 ≡ true =
        then_do-Sound id begun (λ m2. request_csr env m2.state.pending m2)
          (begin_pending-Sound m1 h1) (λ m2. request_csr-Sound m2.state.pending m2 refl) in
      let h3 =
        then_do-Sound id with_csr (λ m3. request_certificate env subject m3.state.pending m3) h2
          (λ m3. request_certificate-Sound subject m3.state.pending m3 refl) in
      elim (Bool-cases (not (is_some m1.state.pending) && lasts env (active_current env m1) m1)) [
        | inl lasting ↦ rw (ensure_identity, lasting) h1
        | inr due ↦ rw (ensure_identity, due) h3
      ]

  stage_selection-owes :
      (index : ℕ) (identity : EapIdentity) (c : EapCertificate) (s : EapSelection)
      (staged : EapStagedProfile) (st : EapState)
      → owes id (stage_selection index identity c s staged st) ≡ owes id st
  unfolding stage_selection owes
  stage_selection-owes index identity c s staged st =
      queue_artifacts-owes id named (artifacts_of s) st

  receive_staged-Sound :
      (index : ℕ) (identity : EapIdentity) (c : EapCertificate) (s : EapSelection)
      (answer : Answer EapStagedProfile) (m : AdmissionManager)
      → is_sound id m ≡ true
      → is_sound id (receive_staged env index identity c s answer m).1 ≡ true
  unfolding receive_staged
  receive_staged-Sound index identity c s (refused e) m h = h
  receive_staged-Sound index identity c s (got staged) m h =
      save-Sound id env (record m { state = stage_selection index identity c s staged m.state })
        (ground (arith, stage_selection-owes index identity c s staged m.state))

  stage_profile-Sound :
      (index : ℕ) (identity : EapIdentity) (c : EapCertificate) (s : EapSelection)
      (profile : Option AdmissionProfile) (m : AdmissionManager)
      → is_sound id m ≡ true
      → is_sound id (stage_profile env index identity c s profile m).1 ≡ true
  unfolding stage_profile has_key
  stage_profile-Sound index identity c s none m h = h
  stage_profile-Sound index identity c s (some profile) m h =
      receive_staged-Sound index identity c s
        (env.stage m.history identity.request_id profile c s.adapter)
        (log_event (profile_staged identity.request_id profile s.adapter) m) h

  stage_one-Sound :
      (force : String) (identity : EapIdentity) (c : EapCertificate) (index : ℕ) (s : EapSelection)
      (m : AdmissionManager)
      → is_sound id m ≡ true
      → is_sound id (stage_one env force identity c index s m).1 ≡ true
  unfolding stage_one
  stage_one-Sound force identity c index s m h =
      let profile = current_profile env s.profile.id m in
      ground (arith, stage_profile-Sound index identity c s profile m h)

  stage_from-Sound :
      (force : String) (identity : EapIdentity) (c : EapCertificate) (index : ℕ)
      (ss : List EapSelection) (m : AdmissionManager)
      → is_sound id m ≡ true
      → is_sound id (stage_from env force identity c index ss m).1 ≡ true
  unfolding stage_from
  stage_from-Sound force identity c index [] m h = h
  stage_from-Sound force identity c index (s ∷ ss) m h =
      then_do-Sound id (stage_one env force identity c index s m)
        (stage_from env force identity c (suc index) ss)
        (stage_one-Sound force identity c index s m h)
        (stage_from-Sound force identity c (suc index) ss)

  stage_certified-Sound :
      (force : String) (identity : EapIdentity) (c : Option EapCertificate) (m : AdmissionManager)
      → is_sound id m ≡ true
      → is_sound id (stage_certified env force identity c m).1 ≡ true
  unfolding stage_certified
  stage_certified-Sound force identity none m h = h
  stage_certified-Sound force identity (some c) m h =
      ground (arith, stage_from-Sound force identity c 0 m.state.selections m h)

  stage_identity-Sound :
      (force : String) (o : Option EapIdentity) (m : AdmissionManager)
      → is_sound id m ≡ true
      → is_sound id (stage_identity env force o m).1 ≡ true
  unfolding stage_identity
  stage_identity-Sound force none m h = h
  stage_identity-Sound force (some identity) m h =
      stage_certified-Sound force identity identity.certificate m h

  pub stage-Sound :
      (force : String) (m : AdmissionManager)
      → is_sound id m ≡ true
      → is_sound id (stage env force m).1 ≡ true
  unfolding stage
  stage-Sound force m h = stage_identity-Sound force (or_else m.state.pending m.state.active) m h
