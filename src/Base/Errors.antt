-- ===== src/Base/Errors.antt =====
-- Go's `error` as a value: nil, or the messages that `errors.Join` put together.
use Prim.Native.String.{String}
use mathlib.Core.Path.{◌≡◌, refl}
use mathlib.Core.Logic.{◌⊎◌, inl, inr}
use mathlib.Core.Bool.{Bool, true, false}
use mathlib.Core.List.{List, [], ◌∷◌, ◌++◌}
use native.Mathlib.Omega.{arith}

pub data Error : Type 0 where
  ok : Error
  failed : List String → Error

-- errors.New
abbrev pub fail : String → Error
fail message = failed (message ∷ [])

-- `err == nil`
abbrev pub is_ok : Error → Bool
is_ok ok = true
is_ok (failed messages) = false

-- errors.Join
abbrev pub join : Error → Error → Error
join ok e = e
join (failed xs) ok = failed xs
join (failed xs) (failed ys) = failed (xs ++ ys)

pub is_ok-join : (d e : Error) → is_ok (join d e) ≡ true → (is_ok d ≡ true) × (is_ok e ≡ true)
is_ok-join d e h = ground arith

pub Error-cases : (e : Error) → (e ≡ ok) ⊎ ((messages : List String) × (e ≡ failed messages))
Error-cases ok = inl refl
Error-cases (failed messages) = inr (messages, refl)
