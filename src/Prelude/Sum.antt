-- ===== src/Prelude/Sum.antt =====
-- Sums over the elements of an array and of a table.
use Prim.Native.Nat.{ℕ, zero, suc, ◌+◌, ◌*◌, ◌≤◌, ◌<◌}
use mathlib.Core.Path.{◌≡◌, refl}
use mathlib.Core.Logic.{◌≢◌, ◌⊎◌, inl, inr}
use native.Mathlib.Decide.{ℕ_discrete}
use native.Mathlib.Omega.{arith}

unfoldable pub total : ℕ → (ℕ → ℕ) → ℕ
total zero f = 0
total (suc n) f = total n f + f n

pub total-same : (n : ℕ) (f g : ℕ → ℕ) → ((j : ℕ) → j < n → f j ≡ g j) → total n f ≡ total n g
unfolding total
total-same zero f g h = refl
total-same (suc n) f g h =
    omega (arith, total-same n f g (λ j l. h j (omega arith)), h n (omega arith))

-- Two arrays that differ at one index at most.
pub total-change :
    (n : ℕ) (f g : ℕ → ℕ) (k : ℕ)
    → k < n
    → ((j : ℕ) → k ≢ j → f j ≡ g j)
    → total n f + g k ≡ total n g + f k
unfolding total
total-change zero f g k l h = absurd (omega arith)
total-change (suc n) f g k l h = elim (ℕ_discrete k n) [
  | yes e ↦ rw e (omega (arith, total-same n f g (λ j m. h j (omega arith))))
  | no ne ↦ omega (arith, total-change n f g k (omega arith) h, h n ne)
]

pub total-zero : (n : ℕ) (f : ℕ → ℕ) → ((j : ℕ) → j < n → f j ≡ 0) → total n f ≡ 0
unfolding total
total-zero zero f h = refl
total-zero (suc n) f h = omega (arith, total-zero n f (λ j l. h j (omega arith)), h n (omega arith))

pub le-total : (n : ℕ) (f : ℕ → ℕ) (k : ℕ) → k < n → f k ≤ total n f
unfolding total
le-total zero f k l = absurd (omega arith)
le-total (suc n) f k l = elim (ℕ_discrete k n) [
  | yes e ↦ rw e (omega arith)
  | no ne ↦ omega (arith, le-total n f k (omega arith))
]

pub total-le : (n : ℕ) (f : ℕ → ℕ) → ((j : ℕ) → f j ≤ 1) → total n f ≤ n
unfolding total
total-le zero f h = omega arith
total-le (suc n) f h = omega (arith, total-le n f h, h n)

pub total_mono : (n : ℕ) (f g : ℕ → ℕ) → ((j : ℕ) → f j ≤ g j) → total n f ≤ total n g
unfolding total
total_mono zero f g h = omega arith
total_mono (suc n) f g h = omega (arith, total_mono n f g h, h n)

pub total-some : (n : ℕ) (f : ℕ → ℕ) → 0 < total n f → (k : ℕ) × (k < n) × (0 < f k)
unfolding total
total-some zero f h = absurd (omega arith)
total-some (suc n) f h = elim (ℕ_discrete (f n) 0) [
  | yes e ↦ let (k, l, m) = total-some n f (omega arith) in (k, omega arith, m)
  | no ne ↦ (n, omega arith, omega arith)
]

-- The sum of an `n` by `m` table.
unfoldable pub total₂ : ℕ → ℕ → (ℕ → ℕ → ℕ) → ℕ
total₂ n m f = total n (λ r. total m (f r))

pub total₂-change :
    (n m : ℕ) (f g : ℕ → ℕ → ℕ) (r i : ℕ)
    → r < n
    → i < m
    → ((a b : ℕ) → (r ≢ a) ⊎ (i ≢ b) → f a b ≡ g a b)
    → total₂ n m f + g r i ≡ total₂ n m g + f r i
unfolding total₂
total₂-change n m f g r i lr li h = omega (
  arith,
  total-change n (λ a. total m (f a)) (λ a. total m (g a)) r lr
      (λ a ne. total-same m (f a) (g a) (λ b _. h a b (inl ne))),
  total-change m (f r) (g r) i li (λ b ne. h r b (inr ne)),
)

pub total₂-zero :
    (n m : ℕ) (f : ℕ → ℕ → ℕ) → ((a b : ℕ) → a < n → b < m → f a b ≡ 0) → total₂ n m f ≡ 0
unfolding total₂
total₂-zero n m f h = total-zero n _ (λ a la. total-zero m (f a) (λ b lb. h a b la lb))

pub le-total₂ : (n m : ℕ) (f : ℕ → ℕ → ℕ) (r i : ℕ) → r < n → i < m → f r i ≤ total₂ n m f
unfolding total₂
le-total₂ n m f r i lr li =
    omega (arith, le-total n (λ a. total m (f a)) r lr, le-total m (f r) i li)

-- What lies behind the first `n` adds nothing.
pub total-prefix :
    (n k : ℕ) (f : ℕ → ℕ) → n ≤ k → ((j : ℕ) → n ≤ j → f j ≡ 0) → total n f ≡ total k f
unfolding total
total-prefix n zero f l h = rw zero_n refl
  where
    zero_n : n ≡ 0
    zero_n = omega arith
total-prefix n (suc k) f l h = elim (ℕ_discrete n (suc k)) [
  | yes e ↦ rw e refl
  | no ne ↦ omega (arith, total-prefix n k f (omega arith) h, h k (omega arith))
]

pub total-le-2048 : (n : ℕ) (f : ℕ → ℕ) → ((j : ℕ) → f j ≤ 2048) → total n f ≤ n * 2048
unfolding total
total-le-2048 zero f h = omega arith
total-le-2048 (suc n) f h = omega (arith, total-le-2048 n f h, h n)

-- A sum of numbers that are at most 1 is full just if all are 1.
pub total-full :
    (n : ℕ) (f : ℕ → ℕ) → ((j : ℕ) → f j ≤ 1) → total n f ≡ n → (j : ℕ) → j < n → f j ≡ 1
unfolding total
total-full zero f le full j lt = absurd (omega arith)
total-full (suc n) f le full j lt =
    let rest = total-le n f le in
    elim (ℕ_discrete j n) [
      | yes e ↦ rw e (omega (arith, full, rest, le n))
      | no ne ↦ total-full n f le (omega (arith, full, rest, le n)) j (omega arith)
    ]

pub total-ones : (n : ℕ) (f : ℕ → ℕ) → ((j : ℕ) → j < n → f j ≡ 1) → total n f ≡ n
unfolding total
total-ones zero f h = refl
total-ones (suc n) f h = omega (arith, total-ones n f (λ j l. h j (omega arith)), h n (omega arith))
