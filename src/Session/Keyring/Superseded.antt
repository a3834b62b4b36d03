-- ===== src/Session/Keyring/Superseded.antt =====
-- session_credentials.go: whether the stored token is newer than the one that is handled.
use soha_app.Base.{
  String, true, false, ◌≡◌, ◌⊎◌, none, some, arith, inl, inr, str_eq, str_eq_iff, blank, Bool-cases,
  Option-cases,
}
use soha_app.Session.State.{Environment, Host, Target, keyring_get, lookup}
use soha_app.Session.Credentials.{read_superseded, superseded}

-- The keyring holds another token for the server than this one, neither being empty.
abbrev pub HasNewer : Target → String → Host → Type 0
HasNewer target token h =
    (blank token ≡ false)
    × (stored : String) × (lookup target.url h.stored ≡ some stored)
    × (blank stored ≡ false)
    × (str_eq stored token ≡ false)

-- The token is empty, or the keyring holds none for the server, an empty one, or this one.
abbrev pub IsNewest : Target → String → Host → Type 0
IsNewest target token h =
    (blank token ≡ true)
    ⊎ (lookup target.url h.stored ≡ none)
    ⊎ ((stored : String) × (lookup target.url h.stored ≡ some stored)
        × ((blank stored ≡ true) ⊎ (stored ≡ token)))

-- Nothing changed but the count of calls.
abbrev pub IsUntouched : Host → Host → Type 0
IsUntouched h h' =
    (h'.blocked ≡ h.blocked)
    × (h'.stored ≡ h.stored)
    × (h'.saved ≡ h.saved)
    × (h'.target ≡ h.target)
    × (h'.source ≡ h.source)
    × (h'.pending ≡ h.pending)
    × (h'.pending_code ≡ h.pending_code)

module _ (env : Environment) where
  pub read_superseded-cases :
      (target : Target) (token : String) (h : Host)
      → env.has_keyring ≡ true
      → env.fails h.clock ≡ false
      → (((read_superseded env target token h).0 ≡ true) × HasNewer target token h)
        ⊎ (((read_superseded env target token h).0 ≡ false) × IsNewest target token h)
  unfolding read_superseded superseded keyring_get
  read_superseded-cases target token h k works = elim (Bool-cases (blank token)) [
    | inl empty ↦ inr (ground (arith, empty), inl empty)
    | inr named ↦ elim (Option-cases (lookup target.url h.stored)) [
      | inl e ↦ inr (ground (arith, named, e), inr (inl e))
      | inr (stored, e) ↦ elim (Bool-cases (blank stored)) [
        | inl nothing ↦ inr (ground (arith, named, e, nothing), inr (inr (stored, e, inl nothing)))
        | inr something ↦ elim (Bool-cases (str_eq stored token)) [
          | inl same ↦ inr (
            ground (arith, named, e, something, same),
            inr (inr (stored, e, inr ((str_eq_iff stored token).0 same))),
          )
          | inr differs ↦
              inl (
                ground (arith, named, e, something, differs),
                (named, stored, e, something, differs),
              )
        ]
      ]
    ]
  ]

  pub read_superseded-IsUntouched :
      (target : Target) (token : String) (h : Host)
      → IsUntouched h (read_superseded env target token h).1
  unfolding read_superseded keyring_get
  read_superseded-IsUntouched target token h = ground arith
