-- ===== src/Prelude/Tables.antt =====
-- A C table that is read and written by index, as a function of the index.
use Prim.Native.Nat.{ℕ}
use mathlib.Core.Path.{◌≡◌}
use mathlib.Core.Logic.{◌≢◌}
use native.Mathlib.Omega.{arith}
use minx.Prelude.Tests.{◌==◌, if◌then◌else◌}

module _ {ℓ} {A : Type ℓ} where
  -- `t[i] = v`
  abbrev pub update : (ℕ → A) → ℕ → A → ℕ → A
  update t i v j = if i == j then v else t j

  pub update_self : (t : ℕ → A) (i : ℕ) (v : A) → update t i v i ≡ v
  update_self t i v = ground arith

  pub update_ne : (t : ℕ → A) (i j : ℕ) (v : A) → i ≢ j → update t i v j ≡ t j
  update_ne t i j v h = ground arith
