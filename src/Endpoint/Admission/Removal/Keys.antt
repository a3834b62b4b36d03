-- ===== src/Endpoint/Admission/Removal/Keys.antt =====
-- eap_manager.go: Remove, and the removals of Check, lose no key.
use soha_app.Base.{
  ℕ, suc, String, true, false, ◌≡◌, Option, none, some, List, [], ◌∷◌, arith, blank,
}
use soha_app.Base.Errors.{Error, failed, ok}
use soha_app.Endpoint.Admission.State.{
  AdmissionManager, EapSelection, EapSystem, log_event, profile_removed,
}
use soha_app.Endpoint.Admission.Store.{clean_up, detach_selection}
use soha_app.Endpoint.Admission.Store.Keys.{
  clean_up-Sound, detach_selection-owes, deferring-Sound, save_same-Sound,
}
use soha_app.Endpoint.Admission.Keys.{has_key, is_sound, then_do-Sound}
use soha_app.Endpoint.Admission.Removal.{
  detach_and_save, conclude_removal, remove_selection, check_selection, check_selections,
  remove_found, remove_profile,
}
use soha_app.Endpoint.Admission.Changes.{identities_of, find_selection}

module _ (id : String) (named : blank id ≡ false) (env : EapSystem) where
  conclude_removal-Sound :
      (text : String) (index : ℕ) (s : EapSelection) (e : Error) (m : AdmissionManager)
      → is_sound id m ≡ true
      → is_sound id (conclude_removal env text index s e m).1 ≡ true
  unfolding conclude_removal detach_and_save
  conclude_removal-Sound text index s (failed e) m h = ground arith
  conclude_removal-Sound text index s ok m h =
      save_same-Sound id env m (detach_selection index s m.state)
        (detach_selection-owes id named index s m.state) h

  remove_selection-Sound :
      (text : String) (index : ℕ) (s : EapSelection) (m : AdmissionManager)
      → is_sound id m ≡ true
      → is_sound id (remove_selection env text index s m).1 ≡ true
  unfolding remove_selection has_key
  remove_selection-Sound text index s m h =
      let e = env.remove m.history s.profile s.adapter (identities_of s) in
      conclude_removal-Sound text index s e
        (log_event (profile_removed s.profile s.adapter (identities_of s) e) m) h

  check_selection-Sound :
      (index : ℕ) (s : EapSelection) (m : AdmissionManager)
      → is_sound id m ≡ true
      → is_sound id (check_selection env index s m).1 ≡ true
  unfolding check_selection
  check_selection-Sound index s m h =
      ground (arith, remove_selection-Sound "configuration_removal_failed" index s m h)

  pub check_selections-Sound :
      (index : ℕ) (ss : List EapSelection) (m : AdmissionManager)
      → is_sound id m ≡ true
      → is_sound id (check_selections env index ss m).1 ≡ true
  unfolding check_selections
  check_selections-Sound index [] m h = h
  check_selections-Sound index (s ∷ ss) m h =
      then_do-Sound id (check_selections env (suc index) ss m) (check_selection env index s)
        (check_selections-Sound (suc index) ss m h) (check_selection-Sound index s)

  remove_found-Sound :
      (o : Option (ℕ × EapSelection)) (m : AdmissionManager)
      → is_sound id m ≡ true
      → is_sound id (remove_found env o m).1 ≡ true
  unfolding remove_found
  remove_found-Sound none m h = h
  remove_found-Sound (some (index, s)) m h =
      then_do-Sound id (remove_selection env "" index s m) (clean_up env)
        (remove_selection-Sound "" index s m h) (clean_up-Sound id env)

  pub remove_profile-Sound :
      (profile_id : String) (m : AdmissionManager)
      → is_sound id m ≡ true
      → is_sound id (remove_profile env profile_id m).1 ≡ true
  unfolding remove_profile
  remove_profile-Sound profile_id m h =
      let found = find_selection profile_id 0 m.state.selections in
      deferring-Sound id env (remove_found env found m) (remove_found-Sound found m h)
