-- ===== src/Endpoint/Admission/Connection/Authorized.antt =====
-- eap_manager.go: what Connect asks of the system.
use soha_app.Base.{
  String, true, false, ◌&&◌, ◌||◌, ◌≡◌, ◌<◌, ◌⊎◌, Option, none, some, List, [], ◌∷◌, ◌∙◌, ap, arith,
  refl, str_eq, str_eq_iff, is_some, Bool-cases, Option-cases, inl, inr, ltb, Ever,
}
use soha_app.Base.Errors.{Error, failed, is_ok, ok}
use soha_app.Endpoint.Protocol.{AdmissionProfile, Time}
use soha_app.Endpoint.Admission.State.{
  AdmissionManager, EapCertificate, EapIdentity, EapSelection, EapSystem, active_current,
  activated_after, all_current, current_certificate, current_profile, current_with, is_unchanged,
  log_event, profile_error, profile_connected, profile_read_back,
}
use soha_app.Endpoint.Admission.Connection.{
  connect_read, connect_selected, connect_from, connect_profile, connect_current, connect_admission,
}

module _ (env : EapSystem) (m : AdmissionManager) where
  -- The certificate of the active identity, which has not expired, and which the profiles observed since its
  -- activation name.
  abbrev pub IsInForce : EapCertificate → Type 0
  IsInForce c =
      (identity : EapIdentity) × (m.state.active ≡ some identity)
      × (identity.certificate ≡ some c)
      × (env.now m.history < c.expires_at)
      × ((activated_after env m.state.active m.observed_at
            || all_current env c.fingerprint m.state.selections m)
          ≡ true)

  -- A selection of an authorized profile, unchanged since it was selected.
  abbrev pub IsSelected : String → AdmissionProfile → EapSelection → Type 0
  IsSelected id profile s =
      (current_profile env id m ≡ some profile)
      × Ever (λ (t : EapSelection). t ≡ s) m.state.selections
      × (s.profile.id ≡ profile.id)
      × (is_unchanged env (some profile) s ≡ true)

  -- Nothing was asked for, or a readback alone, which failed.
  abbrev pub IsRefused : Error × AdmissionManager → Type 0
  IsRefused r =
      (is_ok r.0 ≡ false)
      × ((r.1.history ≡ m.history)
          ⊎ ((profile : AdmissionProfile) × (c : EapCertificate) × (s : EapSelection) × (r.1.history
                ≡ profile_read_back s.request_id profile c s.adapter r.0 ∷ m.history)))

  -- A readback that succeeded, and the connection right behind it.
  abbrev pub IsConnected : String → Error × AdmissionManager → Type 0
  IsConnected id r =
      (profile : AdmissionProfile) × (c : EapCertificate) × (s : EapSelection) × (m.state.pending
        ≡ none)
      × IsInForce c
      × IsSelected id profile s
      × (r.1.history
          ≡ profile_connected s.request_id profile c s.adapter
            ∷ profile_read_back s.request_id profile c s.adapter ok
            ∷ m.history)

  -- What the loop does, from a selection that it finds.
  abbrev Connecting :
      AdmissionProfile → EapCertificate → List EapSelection → Error × AdmissionManager → Type 0
  Connecting profile c ss r =
      IsRefused r
      ⊎ ((s : EapSelection) × Ever (λ (t : EapSelection). t ≡ s) ss
          × (s.profile.id ≡ profile.id)
          × (is_unchanged env (some profile) s ≡ true)
          × (r.1.history
              ≡ profile_connected s.request_id profile c s.adapter
                ∷ profile_read_back s.request_id profile c s.adapter ok
                ∷ m.history))

  connect_read-Connecting :
      (profile : AdmissionProfile) (c : EapCertificate) (s : EapSelection) (ss : List EapSelection)
      (e : Error)
      → s.profile.id ≡ profile.id
      → is_unchanged env (some profile) s ≡ true
      → Connecting profile c (s ∷ ss) (
          connect_read env profile c s e
            (log_event (profile_read_back s.request_id profile c s.adapter e) m))
  unfolding connect_read
  connect_read-Connecting profile c s ss (failed e) i u = inl (refl, inr (profile, c, s, refl))
  connect_read-Connecting profile c s ss ok i u = inr (s, inl refl, i, u, refl)

  later-Connecting :
      (profile : AdmissionProfile) (c : EapCertificate) (s : EapSelection) (ss : List EapSelection)
      (r : Error × AdmissionManager)
      → Connecting profile c ss r
      → Connecting profile c (s ∷ ss) r
  later-Connecting profile c s ss r (inl refused) = inl refused
  later-Connecting profile c s ss r (inr (t, e, i, u, h)) = inr (t, inr e, i, u, h)

  connect_from-Connecting :
      (profile : AdmissionProfile) (c : EapCertificate) (ss : List EapSelection)
      → Connecting profile c ss (connect_from env profile c ss m)
  unfolding connect_from connect_selected
  connect_from-Connecting profile c [] = inl (refl, inl refl)
  connect_from-Connecting profile c (s ∷ ss) =
      elim (Bool-cases (str_eq s.profile.id profile.id && is_unchanged env (some profile) s)) [
        | inl found ↦
            let read =
              connect_read-Connecting profile c s ss
                (env.readback m.history s.request_id profile c s.adapter)
                ((str_eq_iff s.profile.id profile.id).0 (ground arith)) (ground arith) in
            rw (connect_from, found) read
        | inr other ↦
            rw (connect_from, other)
              (later-Connecting profile c s ss (connect_from env profile c ss m)
                (connect_from-Connecting profile c ss))
      ]

  profile_error-failed : is_ok (profile_error env m) ≡ false
  unfolding profile_error
  profile_error-failed = ground arith

  connect_profile-Connected :
      (id : String) (c : EapCertificate) (o : Option AdmissionProfile)
      → m.state.pending ≡ none
      → IsInForce c
      → current_profile env id m ≡ o
      → IsRefused (connect_profile env c o m) ⊎ IsConnected id (connect_profile env c o m)
  unfolding connect_profile
  connect_profile-Connected id c none p k e = inl (profile_error-failed, inl refl)
  connect_profile-Connected id c (some profile) p k e =
      elim (connect_from-Connecting profile c m.state.selections) [
        | inl refused ↦ inl refused
        | inr (s, found, i, u, h) ↦ inr (profile, c, s, p, k, (e, found, i, u), h)
      ]

  current_with-holds :
      (o : Option EapCertificate) (c : EapCertificate)
      → current_with env m o ≡ some c
      → (o ≡ some c)
        × ((activated_after env m.state.active m.observed_at
              || all_current env c.fingerprint m.state.selections m)
            ≡ true)
  unfolding current_with
  current_with-holds none c h = absurd (ground arith)
  current_with-holds (some d) c h =
      elim (Bool-cases (
        activated_after env m.state.active m.observed_at
        || all_current env d.fingerprint m.state.selections m)) [
          | inl good ↦
              let same : d ≡ c = ground (arith, h, good) in
              (ap some same, rw (← ap (λ (x : EapCertificate). x.fingerprint) same) good)
          | inr bad ↦ absurd (ground (arith, h, bad))
        ]

  current_certificate-holds :
      (identity : EapIdentity) (now : Time) (c : EapCertificate)
      → current_certificate env (some identity) now ≡ some c
      → (identity.certificate ≡ some c) × (now < c.expires_at)
  unfolding current_certificate
  current_certificate-holds identity now c h = elim (Option-cases identity.certificate) [
    | inl e ↦ absurd (ground (arith, h, e))
    | inr (d, e) ↦ elim (Bool-cases (ltb now d.expires_at)) [
      | inl good ↦
          let same : d ≡ c = ground (arith, h, e, good) in
          let expires : d.expires_at ≡ c.expires_at =
            ap (λ (x : EapCertificate). x.expires_at) same in
          (e ∙ ap some same, ground (arith, good, expires))
      | inr bad ↦ absurd (ground (arith, h, e, bad))
    ]
  ]

  -- The active identity's certificate, if it is current, is so.
  active_current-IsInForce :
      (identity : Option EapIdentity) (c : EapCertificate)
      → m.state.active ≡ identity
      → current_with env m (current_certificate env identity (env.now m.history)) ≡ some c
      → IsInForce c
  unfolding current_certificate
  active_current-IsInForce none c a h = absurd (ground (arith, (current_with-holds none c h).0))
  active_current-IsInForce (some identity) c a h =
      let now = env.now m.history in
      let (e, current) = current_with-holds (current_certificate env (some identity) now) c h in
      let (certificate, lasting) = current_certificate-holds identity now c e in
      (identity, a, certificate, lasting, current)

  not_some : (o : Option EapIdentity) → is_some o ≡ false → o ≡ none
  not_some o h = ground arith

  connect_current-Connected :
      (id : String) (o : Option EapCertificate)
      → m.state.pending ≡ none
      → active_current env m ≡ o
      → IsRefused (connect_current env id o m) ⊎ IsConnected id (connect_current env id o m)
  unfolding connect_current active_current
  connect_current-Connected id none p a = inl (refl, inl refl)
  connect_current-Connected id (some c) p a =
      connect_profile-Connected id c (current_profile env id m) p
        (active_current-IsInForce m.state.active c refl a) refl

  -- Connect is refused, and then the system was asked at most to read a profile back, which failed; or it
  -- asked the system to connect once, right after a readback that succeeded. In that case no identity was
  -- pending, the active one had the certificate used, which had not expired and is the one that the
  -- profiles name, unless they were observed before its activation; and the profile connected is authorized
  -- now, under the id asked for, and is what the selection that was read back had selected.
  pub connect_admission-Connected :
      (id : String)
      → IsRefused (connect_admission env id m) ⊎ IsConnected id (connect_admission env id m)
  unfolding connect_admission
  connect_admission-Connected id = elim (Bool-cases (is_some m.state.pending)) [
    | inl e ↦ rw (connect_admission, e) (inl (refl, inl refl))
    | inr e ↦
        rw (connect_admission, e)
          (connect_current-Connected id (active_current env m) (not_some m.state.pending e) refl)
  ]
