-- ===== src/Endpoint/Admission/Checking/Keys.antt =====
-- eap_manager.go: Check loses no key.
use soha_app.Base.{
  String, Bool, true, false, ◌≡◌, Option, none, some, List, [], ◌∷◌, ◌∙◌, ap, arith, refl, str_eq,
  blank,
}
use soha_app.Base.Errors.{Error, failed, ok}
use soha_app.Endpoint.Protocol.{Time}
use soha_app.Endpoint.Admission.State.{
  AdmissionManager, Certified, EapActivation, EapCertificate, EapIdentity, EapSelection, EapState,
  EapSystem, certificate_activated, certified, diagnose, log_event, stale_identity,
  target_certificate, uncertified, ◌then_do◌,
}
use soha_app.Endpoint.Admission.Store.{artifacts_of, clean_up, queue_artifacts, save}
use soha_app.Endpoint.Admission.Store.Keys.{
  clean_up-Sound, queue_artifacts-owes, queue_identity-queued, deferring-Sound, save_same-Sound,
}
use soha_app.Endpoint.Admission.Identity.{ensure_identity, stage}
use soha_app.Endpoint.Admission.Identity.Keys.{
  ensure_identity-Sound, join_saved-state, set_pending-owes, stage-Sound,
}
use soha_app.Endpoint.Admission.Keys.{has_key, is_sound, names_request, owes, then_do-Sound}
use soha_app.Endpoint.Admission.Checking.{
  renew_identity, read_selection_back, read_all_back, settle_artifacts, receive_activation,
  activate_identity, check_installed, check_certificate, check_remaining, check_admission,
}
use soha_app.Endpoint.Admission.Removal.{check_selections}
use soha_app.Endpoint.Admission.Removal.Keys.{check_selections-Sound}
use soha_app.Endpoint.Admission.Changes.{
  on_failure, first_identity, and_then_all, settled_selections, queue_all_artifacts, mark_stale,
  promote, refuse_expired,
}

module _ (id : String) (named : blank id ≡ false) (env : EapSystem) where
  on_failure-Sound :
      (text : String) (r : Error × AdmissionManager)
      → is_sound id r.1 ≡ true
      → is_sound id (on_failure text r).1 ≡ true
  unfolding on_failure
  on_failure-Sound text (ok, m) h = h
  on_failure-Sound text (failed e, m) h = h

  renew_identity-Sound :
      (m : AdmissionManager) → is_sound id m ≡ true → is_sound id (renew_identity env m).1 ≡ true
  unfolding renew_identity
  renew_identity-Sound m h =
      let subject = first_identity m.state.selections in
      let ensured = on_failure "certificate_renewal_failed" (ensure_identity env subject m) in
      let h1 =
        on_failure-Sound "certificate_renewal_failed" (ensure_identity env subject m)
          (ensure_identity-Sound id named env subject m h) in
      ground (
        arith,
        then_do-Sound id ensured
            (λ m1. on_failure "certificate_installation_required" (stage env "" m1)) h1
            (λ m1 k.
              on_failure-Sound "certificate_installation_required" (stage env "" m1)
                (stage-Sound id named env "" m1 k)),
      )

  read_selection_back-Sound :
      (c : EapCertificate) (s : EapSelection) (m : AdmissionManager)
      → is_sound id m ≡ true
      → is_sound id (read_selection_back env c s m).1 ≡ true
  unfolding read_selection_back has_key
  read_selection_back-Sound c s m h = ground arith

  and_then_all-Sound :
      (r : Bool × AdmissionManager) (f : AdmissionManager → Bool × AdmissionManager)
      → is_sound id r.1 ≡ true
      → ((m : AdmissionManager) → is_sound id m ≡ true → is_sound id (f m).1 ≡ true)
      → is_sound id (and_then_all r f).1 ≡ true
  unfolding and_then_all
  and_then_all-Sound (true, m) f h k = k m h
  and_then_all-Sound (false, m) f h k = h

  read_all_back-Sound :
      (c : EapCertificate) (ss : List EapSelection) (m : AdmissionManager)
      → is_sound id m ≡ true
      → is_sound id (read_all_back env c ss m).1 ≡ true
  unfolding read_all_back
  read_all_back-Sound c [] m h = h
  read_all_back-Sound c (s ∷ ss) m h =
      and_then_all-Sound (read_selection_back env c s m) (read_all_back env c ss)
        (read_selection_back-Sound c s m h) (read_all_back-Sound c ss)

  queue_all_artifacts-owes :
      (ss : List EapSelection) (st : EapState) → owes id (queue_all_artifacts ss st) ≡ owes id st
  unfolding queue_all_artifacts
  queue_all_artifacts-owes [] st = refl
  queue_all_artifacts-owes (s ∷ ss) st =
      queue_all_artifacts-owes ss (queue_artifacts (artifacts_of s) st)
      ∙ queue_artifacts-owes id named (artifacts_of s) st

  owes-selections :
      (ss : List EapSelection) (st : EapState)
      → owes id (record st { selections = ss }) ≡ owes id st
  unfolding owes
  owes-selections ss st = refl

  settle_artifacts-Sound :
      (m : AdmissionManager) → is_sound id m ≡ true → is_sound id (settle_artifacts env m).1 ≡ true
  unfolding settle_artifacts
  settle_artifacts-Sound m h =
      let all_queued = queue_all_artifacts m.state.selections m.state in
      let settled = settled_selections m.state.selections in
      ground (
        arith,
        save_same-Sound id env m (record all_queued { selections = settled })
            (owes-selections settled all_queued
              ∙ queue_all_artifacts-owes m.state.selections m.state)
            h,
      )

  promote-owes :
      (pending : EapIdentity) (c : EapCertificate) (now : Time) (s : EapState)
      → s.pending ≡ some pending
      → owes id (promote pending c now s) ≡ owes id s
  unfolding promote owes names_request
  promote-owes pending c now s p =
      let named_there : names_request id s.pending ≡ str_eq pending.request_id id =
        ap (names_request id) p in
      ground (arith, named_there, queue_identity-queued id named s.active s)

  receive_activation-Sound :
      (pending : EapIdentity) (c : EapCertificate) (a : Certified EapActivation)
      (m : AdmissionManager)
      → m.state.pending ≡ some pending
      → is_sound id m ≡ true
      → is_sound id (receive_activation env pending c a m).1 ≡ true
  unfolding receive_activation mark_stale
  receive_activation-Sound pending c (uncertified e) m p h = h
  receive_activation-Sound pending c (stale_identity e) m p h =
      let stale = record pending { stale = true } in
      let marked = diagnose "certificate_prepare_required" m in
      rw
        (join_saved-state id named env (failed e)
          (save env (record marked { state = mark_stale pending m.state })))
        (save_same-Sound id env marked (mark_stale pending m.state)
          (set_pending-owes id named env pending stale m p refl) h)
  receive_activation-Sound pending c (certified a) m p h =
      let now = env.now m.history in
      ground (
        arith,
        save_same-Sound id env m (promote pending c now m.state)
            (promote-owes pending c now m.state p) h,
      )

  activate_identity-Sound :
      (c : EapCertificate) (o : Option EapIdentity) (m : AdmissionManager)
      → m.state.pending ≡ o
      → is_sound id m ≡ true
      → is_sound id (activate_identity env c o m).1 ≡ true
  unfolding activate_identity has_key
  activate_identity-Sound c none m p h = h
  activate_identity-Sound c (some pending) m p h =
      receive_activation-Sound pending c (env.activate m.history c.credential_id c.fingerprint)
        (log_event (certificate_activated c.credential_id c.fingerprint) m) p h

  check_installed-Sound :
      (c : EapCertificate) (r : Bool × AdmissionManager)
      → is_sound id r.1 ≡ true
      → is_sound id (check_installed env c r).1 ≡ true
  unfolding check_installed
  check_installed-Sound c (false, m) h = h
  check_installed-Sound c (true, m) h =
      let settled = settle_artifacts env m in
      let activated = settled then_do (λ m1. activate_identity env c m1.state.pending m1) in
      let h1 =
        then_do-Sound id settled (λ m1. activate_identity env c m1.state.pending m1)
          (settle_artifacts-Sound m h) (λ m1. activate_identity-Sound c m1.state.pending m1 refl) in
      then_do-Sound id activated (clean_up env) h1 (clean_up-Sound id env)

  check_certificate-Sound :
      (o : Option EapCertificate) (m : AdmissionManager)
      → is_sound id m ≡ true
      → is_sound id (check_certificate env o m).1 ≡ true
  unfolding check_certificate refuse_expired
  check_certificate-Sound none m h = h
  check_certificate-Sound (some c) m h =
      let installed = read_all_back env c m.state.selections m in
      ground
        (arith, check_installed-Sound c installed (read_all_back-Sound c m.state.selections m h))

  check_remaining-Sound :
      (m : AdmissionManager) → is_sound id m ≡ true → is_sound id (check_remaining env m).1 ≡ true
  unfolding check_remaining
  check_remaining-Sound m h = ground (
    arith,
    clean_up-Sound id env m,
    then_do-Sound id (renew_identity env m)
        (λ m1. check_certificate env (target_certificate m1.state) m1) (renew_identity-Sound m h)
        (λ m1. check_certificate-Sound (target_certificate m1.state) m1),
  )

  pub check_admission-Sound :
      (m : AdmissionManager) → is_sound id m ≡ true → is_sound id (check_admission env m).1 ≡ true
  unfolding check_admission
  check_admission-Sound m h =
      let undiagnosed = diagnose "" m in
      let checked = check_selections env 0 m.state.selections undiagnosed in
      deferring-Sound id env (checked then_do check_remaining env) (
        then_do-Sound id checked (check_remaining env)
          (check_selections-Sound id named env 0 m.state.selections undiagnosed h)
          check_remaining-Sound)
