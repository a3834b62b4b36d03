-- ===== src/Endpoint/Admission/Connection/Keys.antt =====
-- eap_manager.go: Connect loses no key.
use soha_app.Base.{String, true, false, ◌≡◌, Option, none, some, List, [], ◌∷◌, arith, blank}
use soha_app.Base.Errors.{Error, failed, ok}
use soha_app.Endpoint.Protocol.{AdmissionProfile}
use soha_app.Endpoint.Admission.State.{
  AdmissionManager, EapCertificate, EapSelection, EapSystem, active_current, current_profile,
  log_event, profile_read_back,
}
use soha_app.Endpoint.Admission.Keys.{has_key, is_sound}
use soha_app.Endpoint.Admission.Connection.{
  connect_read, connect_selected, connect_from, connect_profile, connect_current, connect_admission,
}

module _ (id : String) (named : blank id ≡ false) (env : EapSystem) where
  connect_read-Sound :
      (profile : AdmissionProfile) (c : EapCertificate) (s : EapSelection) (e : Error)
      (m : AdmissionManager)
      → is_sound id m ≡ true
      → is_sound id (connect_read env profile c s e m).1 ≡ true
  unfolding connect_read has_key
  connect_read-Sound profile c s (failed e) m h = h
  connect_read-Sound profile c s ok m h = h

  connect_from-Sound :
      (profile : AdmissionProfile) (c : EapCertificate) (ss : List EapSelection)
      (m : AdmissionManager)
      → is_sound id m ≡ true
      → is_sound id (connect_from env profile c ss m).1 ≡ true
  unfolding connect_from connect_selected has_key
  connect_from-Sound profile c [] m h = h
  connect_from-Sound profile c (s ∷ ss) m h =
      let e = env.readback m.history s.request_id profile c s.adapter in
      ground (
        arith,
        connect_from-Sound profile c ss m h,
        connect_read-Sound profile c s e
            (log_event (profile_read_back s.request_id profile c s.adapter e) m) h,
      )

  connect_profile-Sound :
      (c : EapCertificate) (o : Option AdmissionProfile) (m : AdmissionManager)
      → is_sound id m ≡ true
      → is_sound id (connect_profile env c o m).1 ≡ true
  unfolding connect_profile
  connect_profile-Sound c none m h = h
  connect_profile-Sound c (some profile) m h = connect_from-Sound profile c m.state.selections m h

  connect_current-Sound :
      (profile_id : String) (o : Option EapCertificate) (m : AdmissionManager)
      → is_sound id m ≡ true
      → is_sound id (connect_current env profile_id o m).1 ≡ true
  unfolding connect_current
  connect_current-Sound profile_id none m h = h
  connect_current-Sound profile_id (some c) m h =
      connect_profile-Sound c (current_profile env profile_id m) m h

  pub connect_admission-Sound :
      (profile_id : String) (m : AdmissionManager)
      → is_sound id m ≡ true
      → is_sound id (connect_admission env profile_id m).1 ≡ true
  unfolding connect_admission
  connect_admission-Sound profile_id m h =
      ground (arith, connect_current-Sound profile_id (active_current env m) m h)
