-- ===== src/Endpoint/Admission/Removal/Releases.antt =====
-- eap_manager.go: what Remove leaves behind when nothing fails.
use soha_app.Base.{
  ◌≤◌, true, ◌≡◌, none, some, List, [], ◌∷◌, ◌∙◌, ap, arith, refl, length, str_eq, str_eq_iff,
}
use soha_app.Base.Errors.{Error, failed, ok}
use soha_app.Endpoint.Protocol.{AdmissionProfile}
use soha_app.Endpoint.Admission.State.{
  AdmissionManager, EapAdapter, EapArtifact, EapHistory, EapProfileIdentity, EapSelection, EapState,
  EapSystem, deferring, log_event, profile_removed, ◌then_do◌,
}
use soha_app.Endpoint.Admission.Store.{clean_up, detach_selection, recover_artifacts}
use soha_app.Endpoint.Admission.Store.Drains.{
  Works, clean_up-Works, detach_selection-last, recover_artifacts-Works, save-Works,
}
use soha_app.Endpoint.Admission.Changes.{find_selection, identities_of}
use soha_app.Endpoint.Admission.Removal.{
  conclude_removal, detach_and_save, remove_found, remove_profile, remove_selection,
}

-- Nothing is left of the admission: no selection, no identity, and no cleanup.
abbrev pub IsReleased : EapState → Type 0
IsReleased st = (st.selections ≡ []) × (st.active ≡ none) × (st.pending ≡ none) × (st.cleanup ≡ [])

IsReleased-along : (s t : EapState) → s ≡ t → IsReleased t → IsReleased s
IsReleased-along s t e (selections, active, pending, cleanup) = (
  ap (λ (u : EapState). u.selections) e ∙ selections,
  ap (λ (u : EapState). u.active) e ∙ active,
  ap (λ (u : EapState). u.pending) e ∙ pending,
  ap (λ (u : EapState). u.cleanup) e ∙ cleanup,
)

-- The system removes a profile, and looks after its artifacts.
abbrev pub Removes : EapSystem → Type 0
Removes env =
    ((h : EapHistory) (profile : AdmissionProfile) (adapter : EapAdapter)
        (identities : List EapProfileIdentity)
      → env.remove h profile adapter identities ≡ ok)
    × ((h : EapHistory) (artifacts : List EapArtifact) → env.recover_artifacts h artifacts ≡ ok)

module _ (env : EapSystem) (works : Works env) (removes : Removes env) where
  conclude_removal-Works :
      (s : EapSelection) (e : Error) (m : AdmissionManager)
      → e ≡ ok
      → m.state.selections ≡ s ∷ []
      → length m.state.cleanup ≤ 13
      → ((conclude_removal env "" 0 s e m).0 ≡ ok)
        × ((conclude_removal env "" 0 s e m).1.state ≡ detach_selection 0 s m.state)
  unfolding conclude_removal detach_and_save
  conclude_removal-Works s ok m e last few =
      let (selections, active, pending, cleanup) = detach_selection-last s m.state last in
      save-Works env works (record m { state = detach_selection 0 s m.state })
        (ground (arith, few, cleanup))
  conclude_removal-Works s (failed messages) m e last few = absurd (ground (arith, e))

  -- A removal that succeeded, and the cleanup behind it
  then_clean_up-Releases :
      (s : EapSelection) (st : EapState) (r : Error × AdmissionManager)
      → r.0 ≡ ok
      → r.1.state ≡ detach_selection 0 s st
      → st.selections ≡ s ∷ []
      → length st.cleanup ≤ 13
      → ((r then_do clean_up env).0 ≡ ok) × IsReleased (r then_do clean_up env).1.state
  then_clean_up-Releases s st (ok, m) e detached last few =
      let (selections, active, pending, cleanup) = detach_selection-last s st last in
      let room : length m.state.cleanup ≤ 16 =
        omega (arith, ap (λ (t : EapState). length t.cleanup) detached, few, cleanup) in
      let (settled, state) = clean_up-Works env works m room in
      let released : IsReleased (record m.state { cleanup = [] }) = (
        ap (λ (t : EapState). t.selections) detached ∙ selections,
        ap (λ (t : EapState). t.active) detached ∙ active,
        ap (λ (t : EapState). t.pending) detached ∙ pending,
        refl,
      ) in
      (
        settled,
        IsReleased-along (clean_up env m).1.state (record m.state { cleanup = [] }) state released,
      )
  then_clean_up-Releases s st (failed messages, m) e detached last few = absurd (ground (arith, e))

  remove_found-Releases :
      (s : EapSelection) (m : AdmissionManager)
      → m.state.selections ≡ s ∷ []
      → length m.state.cleanup ≤ 13
      → ((remove_found env (some (0, s)) m).0 ≡ ok)
        × IsReleased (remove_found env (some (0, s)) m).1.state
  unfolding remove_found remove_selection
  remove_found-Releases s m last few =
      let e = env.remove m.history s.profile s.adapter (identities_of s) in
      let asked = log_event (profile_removed s.profile s.adapter (identities_of s) e) m in
      let (fine, state) =
        conclude_removal-Works s e asked (removes.0 m.history s.profile s.adapter (identities_of s))
          last few in
      then_clean_up-Releases s m.state (conclude_removal env "" 0 s e asked) fine state last few

  found-last :
      (s : EapSelection) (ss : List EapSelection)
      → ss ≡ s ∷ []
      → find_selection s.profile.id 0 ss ≡ some (0, s)
  unfolding find_selection
  found-last s ss e =
      let same : str_eq s.profile.id s.profile.id ≡ true = (str_eq_iff _ _).1 refl in
      rw (e, find_selection, same) refl

  deferring-Releases :
      (r : Error × AdmissionManager)
      → r.0 ≡ ok
      → IsReleased r.1.state
      → ((deferring r (recover_artifacts env)).0 ≡ ok)
        × IsReleased (deferring r (recover_artifacts env)).1.state
  deferring-Releases (ok, m) e k =
      let (fine, state) = recover_artifacts-Works env removes.1 m in
      (fine, IsReleased-along (recover_artifacts env m).1.state m.state state k)
  deferring-Releases (failed messages, m) e k = absurd (ground (arith, e))

  -- The last removal leaves nothing, if there is room for its cleanups. If the system removes and cleans up
  -- what it is asked to, and the disk takes what it is given, then Remove of the only selected profile, with
  -- at most thirteen cleanups owed before, succeeds, and the state has no selection, no identity and no cleanup
  -- any more.
  pub remove_profile-Releases :
      (s : EapSelection) (m : AdmissionManager)
      → m.state.selections ≡ s ∷ []
      → length m.state.cleanup ≤ 13
      → ((remove_profile env s.profile.id m).0 ≡ ok)
        × IsReleased (remove_profile env s.profile.id m).1.state
  unfolding remove_profile
  remove_profile-Releases s m last few =
      let found = found-last s m.state.selections last in
      let (fine, released) = remove_found-Releases s m last few in
      rw (found) (deferring-Releases (remove_found env (some (0, s)) m) fine released)
