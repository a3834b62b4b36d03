-- ===== src/Endpoint/Admission/Runs.antt =====
-- eap_manager.go: runs of the admission manager, with its restarts.
use soha_app.Base.{String, true, false, ◌≡◌, Option, some, [], arith, blank, Bool-cases, inl, inr}
use soha_app.Endpoint.Protocol.{AdmissionConfiguration, Time}
use soha_app.Endpoint.Admission.State.{AdmissionManager, EapState, EapSystem}
use soha_app.Endpoint.Admission.Keys.{has_key, is_sound, owes}
use soha_app.Endpoint.Admission.Opening.{held, new_admission_manager, opened_manager, valid_stored}
use soha_app.Endpoint.Admission.Observation.{observe}
use soha_app.Endpoint.Admission.Preparation.{prepare}
use soha_app.Endpoint.Admission.Removal.{remove_profile}
use soha_app.Endpoint.Admission.Checking.{check_admission}
use soha_app.Endpoint.Admission.Connection.{connect_admission}
use soha_app.Endpoint.Admission.Observation.Keys.{observe-Sound}
use soha_app.Endpoint.Admission.Preparation.Keys.{prepare-Sound}
use soha_app.Endpoint.Admission.Removal.Keys.{remove_profile-Sound}
use soha_app.Endpoint.Admission.Checking.Keys.{check_admission-Sound}
use soha_app.Endpoint.Admission.Connection.Keys.{connect_admission-Sound}

module _ (env : EapSystem) (device_id : String) where
  pub data Step (m : AdmissionManager) : AdmissionManager → Type 0 where
    observes :
        (c : Option AdmissionConfiguration) (valid_until observed_at : Time)
        → Step m (observe env c valid_until observed_at m).1
    prepares : (profile_id adapter_id : String) → Step m (prepare env profile_id adapter_id m).1
    checks : Step m (check_admission env m).1
    removes : (profile_id : String) → Step m (remove_profile env profile_id m).1
    connects : (profile_id : String) → Step m (connect_admission env profile_id m).1
    -- The service starts again, with what the file holds.
    restarts :
        {n : AdmissionManager}
        → new_admission_manager device_id (held m.saved) m.history ≡ some n
        → Step m n

  pub data Run (m : AdmissionManager) : AdmissionManager → Type 0 where
    starts : Run m m
    next : {n o : AdmissionManager} → Run m n → Step n o → Run m o

  restart-Sound :
      (id : String) (m n : AdmissionManager)
      → new_admission_manager device_id (held m.saved) m.history ≡ some n
      → is_sound id m ≡ true
      → is_sound id n ≡ true
  unfolding new_admission_manager
  restart-Sound id m n e h = elim (Bool-cases (valid_stored device_id m.saved)) [
    | inl valid ↦
        let same : opened_manager m.saved m.history ≡ n = ground (arith, e, valid) in
        let sound : is_sound id (opened_manager m.saved m.history) ≡ true = ground arith in
        rw (← same) sound
    | inr invalid ↦ absurd (ground (arith, e, invalid))
  ]

  Step-Sound :
      (id : String)
      → blank id ≡ false
      → {m n : AdmissionManager} → Step m n
      → is_sound id m ≡ true
      → is_sound id n ≡ true
  Step-Sound id named {m} (observes c valid_until observed_at) h =
      observe-Sound id named env c valid_until observed_at m h
  Step-Sound id named {m} (prepares profile_id adapter_id) h =
      prepare-Sound id named env profile_id adapter_id m h
  Step-Sound id named {m} checks h = check_admission-Sound id named env m h
  Step-Sound id named {m} (removes profile_id) h = remove_profile-Sound id named env profile_id m h
  Step-Sound id named {m} (connects profile_id) h =
      connect_admission-Sound id named env profile_id m h
  Step-Sound id named {m} (restarts {n} e) h = restart-Sound id m n e h

  Run-Sound :
      (id : String)
      → blank id ≡ false
      → {m n : AdmissionManager} → Run m n
      → is_sound id m ≡ true
      → is_sound id n ≡ true
  Run-Sound id named starts h = h
  Run-Sound id named (next run step) h = Step-Sound id named step (Run-Sound id named run h)

  -- No key is lost. Whatever fails, the disk included, in any run of observations, preparations, checks,
  -- removals, connections and restarts from a stored state: a key that the system was asked to create, and
  -- that no cleanup has removed since, is one that the state accounts for, by an identity or by a cleanup
  -- that is owed, both in memory and in the file. It holds of every request with a name.
  pub Run-keys :
      (id : String) (s : EapState) (m : AdmissionManager)
      → blank id ≡ false
      → Run (opened_manager s []) m
      → has_key id m.history ≡ true
      → (owes id m.state ≡ true) × (owes id m.saved ≡ true)
  unfolding has_key
  Run-keys id s m named run key =
      let begun : is_sound id (opened_manager s []) ≡ true = ground arith in
      ground (arith, key, Run-Sound id named run begun)
