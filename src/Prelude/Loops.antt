-- ===== src/Prelude/Loops.antt =====
-- Programs that may stop at a failed assertion, and counted loops over them.
use Prim.Native.Nat.{ℕ, zero, suc, ◌+◌, ◌≤◌, ◌<◌}
use mathlib.Core.Path.{◌≡◌, refl}
use mathlib.Core.Bool.{Bool, true, false}
use native.Mathlib.Omega.{arith}

-- `abort` is a failed SHF_ASSERT: the process logs and exits.
pub data Run {ℓ} (A : Type ℓ) : Type ℓ where
  ok : A → Run A
  abort : Run A

infixl 5 ◌>>=◌ ◌>>◌
abbrev pub ◌>>=◌ {ℓ κ} : {A : Type ℓ} {B : Type κ} → Run A → (A → Run B) → Run B
ok a >>= f = f a
abort >>= f = abort

abbrev pub ◌>>◌ {ℓ} : {B : Type ℓ} → Run (Unit {0}) → Run B → Run B
m >> k = m >>= λ _. k

abbrev pub assert : Bool → Run (Unit {0})
assert true = ok tt
assert false = abort

-- Total correctness: the run does not abort, and its result satisfies `P`.
abbrev pub Returns {ℓ κ} : {A : Type ℓ} → (A → Type κ) → Run A → Type (ℓ ⊔ κ)
Returns {A} P r = (a : A) × (r ≡ ok a) × P a

pub bind-Returns {ℓ κ μ ν} :
    {A : Type ℓ} {B : Type κ} (P : A → Type μ) (Q : B → Type ν) (m : Run A) (f : A → Run B)
    → Returns P m
    → ((a : A) → P a → Returns Q (f a))
    → Returns Q (m >>= f)
bind-Returns P Q m f (a, e, p) next = let (b, e', q) = next a p in (b, rw e e', q)

pub bind-ok {ℓ κ} :
    {A : Type ℓ} {B : Type κ} (m : Run A) (f : A → Run B) (b : B)
    → m >>= f ≡ ok b
    → (a : A) × (m ≡ ok a) × (f a ≡ ok b)
bind-ok (ok a) f b e = (a, refl, e)
bind-ok abort f b e = absurd cc

pub assert-Returns {ℓ κ} :
    {A : Type ℓ} (P : A → Type κ) (b : Bool) (m : Run A)
    → b ≡ true
    → Returns P m
    → Returns P (assert b >> m)
assert-Returns P b m e h = rw e h

-- for (k = i; k < i + n; k++) body
unfoldable pub for_range {ℓ} : {S : Type ℓ} → ℕ → ℕ → (ℕ → S → Run S) → S → Run S
for_range zero i body s = ok s
for_range (suc n) i body s = body i s >>= for_range n (i + 1) body

pub for_range-Returns {ℓ κ} :
    {S : Type ℓ} (P : ℕ → S → Type κ) (body : ℕ → S → Run S) (n i j : ℕ) (s : S)
    → i + n ≡ j
    → ((k : ℕ) (t : S) → i ≤ k → k < j → P k t → Returns (P (k + 1)) (body k t))
    → P i s
    → Returns (P j) (for_range n i body s)
unfolding for_range
for_range-Returns P body zero i j s e keep h =
    let same : i ≡ j = omega arith in (s, refl, rw (← same) h)
for_range-Returns P body (suc n) i j s e keep h =
    bind-Returns (P (i + 1)) (P j) (body i s) (for_range n (i + 1) body)
      (keep i s (omega arith) (omega arith) h)
      λ s' h'.
        for_range-Returns P body n (i + 1) j s' (omega arith)
          (λ k t lo hi. keep k t (omega arith) hi) h'
