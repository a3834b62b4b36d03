-- ===== src/Endpoint/Admission/Preparation/Keys.antt =====
-- eap_manager.go: Prepare loses no key.
use soha_app.Base.{
  String, true, false, ◌≡◌, Option, none, some, List, [], ◌∷◌, ◌++◌, arith, refl, blank,
}
use soha_app.Endpoint.Protocol.{AdmissionProfile}
use soha_app.Endpoint.Manager.State.{Answer, got, refused}
use soha_app.Endpoint.Admission.State.{
  AdmissionManager, EapAdapter, EapSelection, EapSystem, adapters_listed, current_profile,
  log_event, ◌then_do◌,
}
use soha_app.Endpoint.Admission.Store.Keys.{deferring-Sound, save_same-Sound}
use soha_app.Endpoint.Admission.Identity.{ensure_identity, stage}
use soha_app.Endpoint.Admission.Identity.Keys.{ensure_identity-Sound, stage-Sound}
use soha_app.Endpoint.Admission.Keys.{has_key, is_sound, owes, then_do-Sound}
use soha_app.Endpoint.Admission.Preparation.{
  select_profile, prepare_adapter, prepare_listed, prepare_profile, prepare,
}
use soha_app.Endpoint.Admission.Changes.{find_adapter}

module _ (id : String) (named : blank id ≡ false) (env : EapSystem) where
  select_profile-Sound :
      (profile : AdmissionProfile) (adapter : EapAdapter) (m : AdmissionManager)
      → is_sound id m ≡ true
      → is_sound id (select_profile env profile adapter m).1 ≡ true
  unfolding select_profile owes
  select_profile-Sound profile adapter m h =
      let chosen : EapSelection = record {
        profile = profile;
        adapter = adapter;
        fingerprint = "";
        identity_sha256 = "";
        prior_identities = [];
        request_id = "";
        artifact_path = "";
        artifact_sha256 = "";
      } in
      let longer = record m.state { selections = m.state.selections ++ (chosen ∷ []) } in
      ground (arith, save_same-Sound id env m longer refl h)

  prepare_adapter-Sound :
      (profile : AdmissionProfile) (adapter_id : String) (o : Option EapAdapter)
      (m : AdmissionManager)
      → is_sound id m ≡ true
      → is_sound id (prepare_adapter env profile adapter_id o m).1 ≡ true
  unfolding prepare_adapter
  prepare_adapter-Sound profile adapter_id none m h = h
  prepare_adapter-Sound profile adapter_id (some adapter) m h =
      let selected = select_profile env profile adapter m in
      let ensured = selected then_do ensure_identity env profile.identity in
      let h1 =
        then_do-Sound id selected (ensure_identity env profile.identity)
          (select_profile-Sound profile adapter m h)
          (ensure_identity-Sound id named env profile.identity) in
      ground (
        arith,
        then_do-Sound id ensured (stage env profile.id) h1 (stage-Sound id named env profile.id),
      )

  prepare_listed-Sound :
      (profile : AdmissionProfile) (adapter_id : String) (a : Answer (List EapAdapter))
      (m : AdmissionManager)
      → is_sound id m ≡ true
      → is_sound id (prepare_listed env profile adapter_id a m).1 ≡ true
  unfolding prepare_listed
  prepare_listed-Sound profile adapter_id (refused e) m h = h
  prepare_listed-Sound profile adapter_id (got adapters) m h =
      prepare_adapter-Sound profile adapter_id
        (find_adapter adapter_id profile.access_medium adapters) m h

  prepare_profile-Sound :
      (adapter_id : String) (o : Option AdmissionProfile) (m : AdmissionManager)
      → is_sound id m ≡ true
      → is_sound id (prepare_profile env adapter_id o m).1 ≡ true
  unfolding prepare_profile has_key
  prepare_profile-Sound adapter_id none m h = h
  prepare_profile-Sound adapter_id (some profile) m h =
      prepare_listed-Sound profile adapter_id (env.adapters m.history) (log_event adapters_listed m)
        h

  pub prepare-Sound :
      (profile_id adapter_id : String) (m : AdmissionManager)
      → is_sound id m ≡ true
      → is_sound id (prepare env profile_id adapter_id m).1 ≡ true
  unfolding prepare
  prepare-Sound profile_id adapter_id m h =
      let profile = current_profile env profile_id m in
      deferring-Sound id env (prepare_profile env adapter_id profile m)
        (prepare_profile-Sound adapter_id profile m h)
