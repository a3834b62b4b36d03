-- ===== src/Base/Int.antt =====
-- An `int` that the code tests for being negative.
use Prim.Native.Nat.{ℕ}
use mathlib.Core.Bool.{Bool, false}
use soha_app.Base.Tests.{leb}

pub data ℤ : Type 0 where
  pos negsuc : ℕ → ℤ

-- `0 <= i && i <= n`
abbrev pub in_range : ℤ → ℕ → Bool
in_range (pos i) n = leb i n
in_range (negsuc i) n = false
