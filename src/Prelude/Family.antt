-- ===== src/Prelude/Family.antt =====
-- Arrays as functions from indices: writing one element.
use Prim.Native.Nat.{ℕ}
use sharedhashfile.Prelude.Tests.{◌==◌, if◌then◌else◌}

-- `a[i] = v`
abbrev pub update {ℓ} : {A : Type ℓ} → (ℕ → A) → ℕ → A → ℕ → A
update a i v j = if i == j then v else a j
