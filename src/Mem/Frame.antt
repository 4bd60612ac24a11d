-- ===== src/Mem/Frame.antt =====
-- What a write changes and what a read sees.
use sharedhashfile.Prelude.{
  ℕ, zero, suc, ◌+◌, ◌≤◌, ◌<◌, ◌^◌, ◌≡◌, refl, ap, ◌⊎◌, List, [], ◌∷◌, arith, length, ◌==◌,
  if◌then◌else◌, ◌∙◌,
}
use mathlib.Core.Path.{ap₂}
use sharedhashfile.Mem.{Mem, put_u08, get_u32, put_u32, get_mem, put_mem}

-- `m` and `m'` hold the same bytes from `p` on, `n` of them.
abbrev pub Same : Mem → Mem → ℕ → ℕ → Type 0
Same m m' p n = (a : ℕ) → p ≤ a → a < p + n → m' a ≡ m a

pub Same-trans : {m m' m'' : Mem} (p n : ℕ) → Same m m' p n → Same m' m'' p n → Same m m'' p n
Same-trans p n f g a lo hi = g a lo hi ∙ f a lo hi

pub Same-within : {m m' : Mem} (p n q k : ℕ) → p ≤ q → q + k ≤ p + n → Same m m' p n → Same m m' q k
Same-within p n q k lo hi f a l h = f a (omega arith) (omega arith)

pub get_u32-Same : {m m' : Mem} (p : ℕ) → Same m m' p 4 → get_u32 m' p ≡ get_u32 m p
unfolding get_u32
get_u32-Same p f = omega (
  arith,
  f p (omega arith) (omega arith),
  f (p + 1) (omega arith) (omega arith),
  f (p + 2) (omega arith) (omega arith),
  f (p + 3) (omega arith) (omega arith),
)

pub get_mem-Same : {m m' : Mem} (p n : ℕ) → Same m m' p n → get_mem m' p n ≡ get_mem m p n
unfolding get_mem
get_mem-Same p zero f = refl
get_mem-Same p (suc n) f =
    ap₂ ◌∷◌ (f p (omega arith) (omega arith))
      (get_mem-Same (p + 1) n (λ a lo hi. f a (omega arith) (omega arith)))

-- Writes outside a region leave it alone.
pub put_u08-Same : (m : Mem) (q v p n : ℕ) → (q < p) ⊎ (p + n ≤ q) → Same m (put_u08 m q v) p n
unfolding put_u08
put_u08-Same m q v p n apart a lo hi = ground arith

pub put_u32-Same : (m : Mem) (q v p n : ℕ) → (q + 4 ≤ p) ⊎ (p + n ≤ q) → Same m (put_u32 m q v) p n
unfolding put_u32
put_u32-Same m q v p n apart a lo hi = ground arith

pub put_mem-outside :
    (m : Mem) (q : ℕ) (bs : List ℕ) (a : ℕ) → (a < q) ⊎ (q + length bs ≤ a) → put_mem m q bs a ≡ m a
unfolding put_mem
put_mem-outside m q [] a out = refl
put_mem-outside m q (b ∷ bs) a out =
    ground (arith, put_mem-outside (λ c. if q == c then b else m c) (q + 1) bs a)

pub put_mem-Same :
    (m : Mem) (q : ℕ) (bs : List ℕ) (p n : ℕ)
    → (q + length bs ≤ p) ⊎ (p + n ≤ q)
    → Same m (put_mem m q bs) p n
put_mem-Same m q bs p n apart a lo hi = put_mem-outside m q bs a (ground arith)

-- Reading back what was written.
pub get_u32-put_u32 : (m : Mem) (p v : ℕ) → v < 2 ^ 32 → get_u32 (put_u32 m p v) p ≡ v
unfolding get_u32 put_u32
get_u32-put_u32 m p v small = ground arith

pub get_mem-put_mem : (m : Mem) (p : ℕ) (bs : List ℕ) → get_mem (put_mem m p bs) p (length bs) ≡ bs
unfolding get_mem put_mem
get_mem-put_mem m p [] = refl
get_mem-put_mem m p (b ∷ bs) =
    ap₂ ◌∷◌
      (put_mem-outside (λ c. if p == c then b else m c) (p + 1) bs p (omega arith) ∙ ground arith)
      (get_mem-put_mem (λ c. if p == c then b else m c) (p + 1) bs)

-- Every byte of memory is a byte.
abbrev pub IsBytes : Mem → Type 0
IsBytes m = (a : ℕ) → m a < 256

pub get_u32-lt : (m : Mem) (p : ℕ) → IsBytes m → get_u32 m p < 2 ^ 32
unfolding get_u32
get_u32-lt m p b = omega (arith, b p, b (p + 1), b (p + 2), b (p + 3))

pub length-get_mem : (m : Mem) (p n : ℕ) → length (get_mem m p n) ≡ n
unfolding get_mem
length-get_mem m p zero = refl
length-get_mem m p (suc n) = ap suc (length-get_mem m (p + 1) n)
