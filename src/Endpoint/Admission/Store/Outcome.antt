-- ===== src/Endpoint/Admission/Store/Outcome.antt =====
-- eap_manager.go: how a save ends.
use soha_app.Base.{◌≡◌, ◌⊎◌, false, arith, inl, inr}
use soha_app.Base.Errors.{Error, Error-cases, is_ok, ok}
use soha_app.Endpoint.Admission.State.{AdmissionManager, EapSystem}
use soha_app.Endpoint.Admission.Store.{commit, save, save_error}

-- The state is in the file, and nothing else has changed.
abbrev pub IsCommitted : AdmissionManager → Error × AdmissionManager → Type 0
IsCommitted m r =
    (r.0 ≡ ok)
    × (r.1.state ≡ m.state)
    × (r.1.saved ≡ m.state)
    × (r.1.valid_until ≡ m.valid_until)
    × (r.1.profiles ≡ m.profiles)

-- The state is what the file holds, and nothing is authorized any more.
abbrev pub IsReverted : AdmissionManager → Error × AdmissionManager → Type 0
IsReverted m r =
    (is_ok r.0 ≡ false) × (r.1.state ≡ m.saved) × (r.1.saved ≡ m.saved) × (r.1.valid_until ≡ 0)

pub save-Outcome :
    (env : EapSystem) (m : AdmissionManager)
    → IsCommitted m (save env m) ⊎ IsReverted m (save env m)
unfolding save commit
save-Outcome env m = elim (Error-cases (save_error m.state (env.write m.history m.state))) [
  | inl e ↦ inl (ground (arith, e))
  | inr (messages, e) ↦ inr (ground (arith, e))
]
