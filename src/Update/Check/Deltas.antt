-- ===== src/Update/Check/Deltas.antt =====
-- update_provider.go: what a delta that Check chooses begins from.
use soha_app.Base.{
  ℕ, ◌<◌, ◌*◌, ℤ, pos, negsuc, true, false, ◌≡◌, Option, none, some, List, [], ◌∷◌, arith, refl,
  Option-cases, Bool-cases, inl, inr, Ever, str_eq_iff,
}
use soha_app.Update.Manifest.{
  CheckRequest, UpdateDelta, UpdateManifest, VerifiedAsset, decode_sha256,
}
use soha_app.Update.Provider.{Platform, Request, read_executable_limited}
use soha_app.Update.Check.{
  Pick, at_least, delta_asset, hundredfold, pick_delta, pick_from, picked, same_executable,
  skips_delta,
}
use soha_app.Update.Download.Verified.{codes_eq→≡}

-- An int64 is less than a number.
abbrev pub IsLess : ℤ → ℕ → Type 0
IsLess (pos n) m = n < m
IsLess (negsuc n) m = Unit

at_least-IsLess : (z : ℤ) (m : ℕ) → at_least z m ≡ false → IsLess z m
unfolding at_least
at_least-IsLess (pos n) m h = ground arith
at_least-IsLess (negsuc n) m h = tt

module _ (p : Platform) (request : CheckRequest) where
  -- What a delta that was chosen begins from: the version that runs, and the very bytes of the executable.
  -- A hundred times its size, as an int64, is less than eighty times that of the full asset.
  abbrev pub Begins : UpdateManifest → ℕ → VerifiedAsset → UpdateDelta → Type 0
  Begins manifest full_size asset delta =
      (from bytes : List ℕ) × (xs : List Request) × (delta.from_version ≡ request.current_version)
      × IsLess (hundredfold delta.size) (full_size * 80)
      × (decode_sha256 delta.from_sha256 ≡ some from)
      × ((read_executable_limited p xs).0 ≡ some bytes)
      × (p.sha256 bytes ≡ from)
      × (delta_asset p manifest request delta ≡ some asset)

  skips_delta-from :
      (full_size : ℕ) (delta : UpdateDelta)
      → skips_delta p request full_size delta ≡ false
      → delta.from_version ≡ request.current_version
  unfolding skips_delta
  skips_delta-from full_size delta h =
      (str_eq_iff delta.from_version request.current_version).0 (ground arith)

  skips_delta-IsLess :
      (full_size : ℕ) (delta : UpdateDelta)
      → skips_delta p request full_size delta ≡ false
      → IsLess (hundredfold delta.size) (full_size * 80)
  unfolding skips_delta
  skips_delta-IsLess full_size delta h =
      at_least-IsLess (hundredfold delta.size) (full_size * 80) (ground arith)

  same_executable-digest :
      (bytes from : List ℕ) → same_executable p (some bytes) from ≡ true → p.sha256 bytes ≡ from
  unfolding same_executable
  same_executable-digest bytes from h = codes_eq→≡ (p.sha256 bytes) from h

  pick_from-Begins :
      (rest : List Request → Pick × List Request) (manifest : UpdateManifest) (full_size : ℕ)
      (delta : UpdateDelta) (deltas : List UpdateDelta) (from : Option (List ℕ)) (xs : List Request)
      (asset : VerifiedAsset)
      → skips_delta p request full_size delta ≡ false
      → decode_sha256 delta.from_sha256 ≡ from
      → ((ys : List Request)
          → (rest ys).0 ≡ picked asset
          → Ever (Begins manifest full_size asset) deltas)
      → (pick_from p rest manifest request delta from xs).0 ≡ picked asset
      → Ever (Begins manifest full_size asset) (delta ∷ deltas)
  unfolding pick_from
  pick_from-Begins rest manifest full_size delta deltas none xs asset s d ih h =
      absurd (ground arith)
  pick_from-Begins rest manifest full_size delta deltas (some from) xs asset s d ih h =
      let read = read_executable_limited p xs in
      elim (Option-cases read.0) [
        | inl e ↦ inr (ih read.1 (ground (arith, e)))
        | inr (bytes, e) ↦ elim (Bool-cases (same_executable p (some bytes) from)) [
          | inl same ↦ elim (Option-cases (delta_asset p manifest request delta)) [
            | inl n ↦ absurd (ground (arith, e, same, n))
            | inr (found, f) ↦ inl (
              from,
              bytes,
              xs,
              skips_delta-from full_size delta s,
              skips_delta-IsLess full_size delta s,
              d,
              e,
              same_executable-digest bytes from same,
              ground (arith, e, same, f),
            )
          ]
          | inr differs ↦ inr (ih read.1 (ground (arith, e, differs)))
        ]
      ]

  pub pick_delta-Begins :
      (manifest : UpdateManifest) (full_size : ℕ) (deltas : List UpdateDelta) (xs : List Request)
      (asset : VerifiedAsset)
      → (pick_delta p manifest request full_size deltas xs).0 ≡ picked asset
      → Ever (Begins manifest full_size asset) deltas
  unfolding pick_delta
  pick_delta-Begins manifest full_size [] xs asset h = ground arith
  pick_delta-Begins manifest full_size (delta ∷ deltas) xs asset h =
      let rest = pick_delta p manifest request full_size deltas in
      let ih = λ (ys : List Request). pick_delta-Begins manifest full_size deltas ys asset in
      elim (Bool-cases (skips_delta p request full_size delta)) [
        | inl skips ↦ inr (ih xs (ground (arith, skips)))
        | inr takes ↦
            pick_from-Begins rest manifest full_size delta deltas (decode_sha256 delta.from_sha256)
              xs asset takes refl ih (ground (arith, takes))
      ]
