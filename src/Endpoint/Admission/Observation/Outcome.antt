-- ===== src/Endpoint/Admission/Observation/Outcome.antt =====
-- eap_manager.go: what Observe authorizes.
use soha_app.Base.{
  String, true, false, ◌≡◌, ◌≤◌, ◌<◌, ◌⊎◌, Option, none, some, [], ◌∙◌, sym, arith, refl,
  Bool-cases, inl, inr,
}
use soha_app.Base.Errors.{Error, is_ok, ok}
use soha_app.Endpoint.Protocol.{AdmissionConfiguration, Time}
use soha_app.Endpoint.Admission.State.{AdmissionManager, EapSystem, current_profile}
use soha_app.Endpoint.Admission.Store.{save}
use soha_app.Endpoint.Admission.Store.Outcome.{save-Outcome}
use soha_app.Endpoint.Admission.Observation.{
  withdraw, valid_profiles, is_unavailable, observe_with, observe,
}

module _ (env : EapSystem) (m : AdmissionManager) where
  -- What Observe leaves: an authorization, in memory and in the file, or none.
  abbrev pub IsObserved :
      Option AdmissionConfiguration → Time → Time → Error × AdmissionManager → Type 0
  IsObserved o valid_until observed_at r =
      (c : AdmissionConfiguration) × (o ≡ some c)
      × (r.0 ≡ ok)
      × (env.now m.history < valid_until)
      × (m.observed_at ≤ observed_at)
      × (m.state.epoch ≤ c.restriction_epoch)
      × (valid_profiles env (env.now m.history) [] "" c.profiles ≡ true)
      × (r.1.profiles ≡ c.profiles)
      × (r.1.valid_until ≡ valid_until)
      × (r.1.state ≡ record m.state { epoch = c.restriction_epoch })
      × (r.1.saved ≡ r.1.state)

  abbrev pub IsClosed : Error × AdmissionManager → Type 0
  IsClosed r =
      (is_ok r.0 ≡ false)
      × ((r.1.state ≡ m.state) ⊎ (r.1.state ≡ m.saved))
      × (r.1.saved ≡ m.saved)
      × ((id : String) → current_profile env id r.1 ≡ none)

  current_profile-none :
      (n : AdmissionManager) (id : String) → n.valid_until ≡ 0 → current_profile env id n ≡ none
  unfolding current_profile
  current_profile-none n id z = ground (arith, z)

  -- The manager with a configuration that Observe takes, before it is saved
  abbrev taken : AdmissionConfiguration → Time → Time → AdmissionManager
  taken c valid_until observed_at = record m {
    profiles = c.profiles;
    valid_until = valid_until;
    observed_at = observed_at;
    state = record m.state { epoch = c.restriction_epoch };
  }

  taken-Outcome :
      (c : AdmissionConfiguration) (valid_until observed_at : Time)
      → is_unavailable env c valid_until observed_at m ≡ false
      → valid_profiles env (env.now m.history) [] "" c.profiles ≡ true
      → IsObserved (some c) valid_until observed_at (save env (taken c valid_until observed_at))
        ⊎ IsClosed (save env (taken c valid_until observed_at))
  unfolding is_unavailable
  taken-Outcome c valid_until observed_at e valid =
      elim (save-Outcome env (taken c valid_until observed_at)) [
        | inl (good, state, saved, until, profiles) ↦ inl (
          c,
          refl,
          good,
          ground (arith, e),
          ground (arith, e),
          ground (arith, e),
          valid,
          profiles,
          until,
          state,
          saved ∙ sym state,
        )
        | inr (bad, state, saved, until) ↦ inr (
          bad,
          inr state,
          saved,
          λ id. current_profile-none (save env (taken c valid_until observed_at)).1 id until,
        )
      ]

  -- Observe fails closed. It ends with the profiles of a configuration that is valid, no older than the one
  -- before, and of no lower restriction epoch, authorized until the time given, and with that epoch in the
  -- file; or with an error, and then no profile is authorized until the next one, and the state is the one
  -- before or the one of the file.
  pub observe-Outcome :
      (o : Option AdmissionConfiguration) (valid_until observed_at : Time)
      → IsObserved o valid_until observed_at (observe env o valid_until observed_at m)
        ⊎ IsClosed (observe env o valid_until observed_at m)
  unfolding observe_with
  observe-Outcome none valid_until observed_at = inr (
    refl,
    inl refl,
    refl,
    λ id. current_profile-none (withdraw "configuration_unavailable" m) id refl,
  )
  observe-Outcome (some c) valid_until observed_at =
      elim (Bool-cases (is_unavailable env c valid_until observed_at m)) [
        | inl e ↦
            rw (observe_with, e)
              (inr (
                refl,
                inl refl,
                refl,
                λ id. current_profile-none (withdraw "configuration_unavailable" m) id refl,
              ))
        | inr e ↦ elim (Bool-cases (valid_profiles env (env.now m.history) [] "" c.profiles)) [
          | inl valid ↦
              rw (observe_with, e, valid) (taken-Outcome c valid_until observed_at e valid)
          | inr invalid ↦
              rw (observe_with, e, invalid)
                (inr (
                  refl,
                  inl refl,
                  refl,
                  λ id. current_profile-none (withdraw "configuration_invalid" m) id refl,
                ))
        ]
      ]
