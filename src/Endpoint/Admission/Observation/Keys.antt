-- ===== src/Endpoint/Admission/Observation/Keys.antt =====
-- eap_manager.go: Observe loses no key.
use soha_app.Base.{String, true, false, ◌≡◌, Option, none, some, arith, blank}
use soha_app.Endpoint.Protocol.{AdmissionConfiguration, Time}
use soha_app.Endpoint.Admission.State.{AdmissionManager, EapSystem}
use soha_app.Endpoint.Admission.Store.Keys.{save-Sound}
use soha_app.Endpoint.Admission.Keys.{is_sound, owes}
use soha_app.Endpoint.Admission.Observation.{observe_with}

module _ (id : String) (named : blank id ≡ false) (env : EapSystem) where
  pub observe-Sound :
      (c : Option AdmissionConfiguration) (valid_until observed_at : Time) (m : AdmissionManager)
      → is_sound id m ≡ true
      → is_sound id (observe_with env c valid_until observed_at m).1 ≡ true
  unfolding observe_with owes
  observe-Sound none valid_until observed_at m h = h
  observe-Sound (some c) valid_until observed_at m h =
      let taken : AdmissionManager = record m {
        profiles = c.profiles;
        valid_until = valid_until;
        observed_at = observed_at;
        state = record m.state { epoch = c.restriction_epoch };
      } in
      ground (arith, save-Sound id env taken (ground arith))
