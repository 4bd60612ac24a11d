-- ===== src/Mem/Long.antt =====
-- The `long` that the first eight bytes of a value are.
use sharedhashfile.Prelude.{
  ℕ, zero, suc, ◌+◌, ◌-◌, ◌/◌, ◌%◌, ◌≤◌, ◌<◌, ◌^◌, ◌≡◌, ◌⊎◌, refl, ap, sym, ◌∙◌, List, [], ◌∷◌,
  arith,
}
use sharedhashfile.Mem.{Mem, get_u32, put_u32, get_u64, put_u64, get_mem, put_mem}
use sharedhashfile.Mem.Frame.{
  get_mem-Same, Same, Same-trans, get_u32-Same, put_u32-Same, get_u32-put_u32, get_mem-put_mem,
  length-get_mem,
}

abbrev pub drop : ℕ → List ℕ → List ℕ
drop zero xs = xs
drop (suc n) [] = []
drop (suc n) (x ∷ xs) = drop n xs

-- The number that the first eight bytes are.
pub long_of : List ℕ → ℕ
long_of bytes = get_u64 (put_mem (λ a. 0) 0 bytes) 0

first_of : List ℕ → ℕ
first_of [] = 0
first_of (x ∷ xs) = x

get_mem-byte :
    (m m' : Mem) (n i p q a b : ℕ)
    → get_mem m p n ≡ get_mem m' q n
    → i < n
    → a ≡ p + i
    → b ≡ q + i
    → m a ≡ m' b
unfolding get_mem first_of
get_mem-byte m m' zero i p q a b e l ea eb = absurd (omega arith)
get_mem-byte m m' (suc n) zero p q a b e l ea eb =
    let a' : a ≡ p = omega arith in let b' : b ≡ q = omega arith in rw (a', b') (ap first_of e)
get_mem-byte m m' (suc n) (suc i) p q a b e l ea eb =
    get_mem-byte m m' n i (p + 1) (q + 1) a b (ap (drop 1) e) (omega arith) (omega arith)
      (omega arith)

get_u32-bytes :
    (m m' : Mem) (n i p q a b : ℕ)
    → get_mem m p n ≡ get_mem m' q n
    → i + 4 ≤ n
    → a ≡ p + i
    → b ≡ q + i
    → get_u32 m a ≡ get_u32 m' b
unfolding get_u32
get_u32-bytes m m' n i p q a b e l ea eb = omega (
  arith,
  get_mem-byte m m' n i p q a b e (omega arith) ea eb,
  get_mem-byte m m' n (i + 1) p q (a + 1) (b + 1) e (omega arith) (omega arith) (omega arith),
  get_mem-byte m m' n (i + 2) p q (a + 2) (b + 2) e (omega arith) (omega arith) (omega arith),
  get_mem-byte m m' n (i + 3) p q (a + 3) (b + 3) e (omega arith) (omega arith) (omega arith),
)

pub get_u64-long_of : (m : Mem) (p n : ℕ) → 8 ≤ n → get_u64 m p ≡ long_of (get_mem m p n)
unfolding get_u64 long_of
get_u64-long_of m p n l =
    let xs = get_mem m p n in
    let m' = put_mem (λ a. 0) 0 xs in
    let back : get_mem m' 0 n ≡ xs = rw (length-get_mem m p n) at (get_mem-put_mem (λ a. 0) 0 xs) in
    omega (
      arith,
      get_u32-bytes m m' n 0 p 0 p 0 (sym back) (omega arith) (omega arith) (omega arith),
      get_u32-bytes m m' n 4 p 0 (p + 4) (0 + 4) (sym back) (omega arith) (omega arith)
          (omega arith),
    )

pub put_u64-Same : (m : Mem) (q v p n : ℕ) → (p + n ≤ q) ⊎ (q + 8 ≤ p) → Same m (put_u64 m q v) p n
unfolding put_u64
put_u64-Same m q v p n apart =
    Same-trans p n (put_u32-Same m q (v % 2 ^ 32) p n (ground arith))
      (put_u32-Same _ (q + 4) (v / 2 ^ 32) p n (ground arith))

pub get_u64-put_u64 : (m : Mem) (p v : ℕ) → v < 2 ^ 64 → get_u64 (put_u64 m p v) p ≡ v
unfolding get_u64 put_u64
get_u64-put_u64 m p v small =
    let m₁ = put_u32 m p (v % 2 ^ 32) in
    let low =
      get_u32-Same p (put_u32-Same m₁ (p + 4) (v / 2 ^ 32) p 4 (ground arith))
      ∙ get_u32-put_u32 m p (v % 2 ^ 32) (omega arith) in
    let high = get_u32-put_u32 m₁ (p + 4) (v / 2 ^ 32) (omega arith) in omega (arith, low, high)

pub drop-get_mem : (m : Mem) (p n k : ℕ) → drop k (get_mem m p (k + n)) ≡ get_mem m (p + k) n
unfolding get_mem
drop-get_mem m p n zero =
    let e : zero + n ≡ n = omega arith in let e' : p + zero ≡ p = omega arith in rw (e, e') refl
drop-get_mem m p n (suc k) =
    let e : suc k + n ≡ suc (k + n) = omega arith in
    let e' : p + suc k ≡ (p + 1) + k = omega arith in rw (e, e') (drop-get_mem m (p + 1) n k)

pub drop-Same :
    {m m' : Mem} (p n k : ℕ)
    → k ≤ n
    → Same m m' (p + k) (n - k)
    → drop k (get_mem m' p n) ≡ drop k (get_mem m p n)
drop-Same {m} {m'} p n k l f =
    let split : n ≡ k + (n - k) = omega arith in
    rw split (
      drop-get_mem m' p (n - k) k
      ∙ get_mem-Same (p + k) (n - k) f
      ∙ sym (drop-get_mem m p (n - k) k))
