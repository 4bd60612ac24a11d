-- ===== src/Process/Backticks.antt =====
-- shf_backticks() of src/shf.c: the output of a command, in a buffer that grows, without the whitespace at its end.
use sharedhashfile.Prelude.{
  ℕ, zero, suc, ◌+◌, ◌^◌, ◌≤◌, ◌<◌, ◌≡◌, ◌⊎◌, inl, inr, refl, Bool, true, false, ◌&&◌, ◌||◌, Option,
  none, some, ltb, leb, ◌==◌, if◌then◌else◌, Bool-cases, arith,
}
use sharedhashfile.Prelude.Family.{update}
use sharedhashfile.Layout.{size_page, u32, sub32}
use sharedhashfile.Mem.{Mem}

-- shf_backticks_buffer, its size, and how much of it is used.
pub record Buffer : Type 0 where
  pub bytes : Mem
  pub size : ℕ
  pub used : ℕ

-- fread(): how many bytes it reads behind the first `used` of the output, if it may read `max`.
abbrev pub Fread : Type 0
Fread = ℕ → ℕ → ℕ

-- `count` bytes of the output, read behind those that are used.
abbrev pub read_into : (ℕ → ℕ) → ℕ → Buffer → Buffer
read_into out count b = record b {
  bytes = λ a. if leb b.used a && ltb a (b.used + count) then out a else b.bytes a;
  used = u32 (b.used + count);
}

-- mremap() by a page, when at most a byte is left.
abbrev pub grown : Buffer → Buffer
grown b = if leb (sub32 b.size b.used) 1 then record b { size = u32 (b.size + size_page) } else b

-- The loop around fread(), for at most `fuel` calls.
unfoldable pub read_loop : (ℕ → ℕ) → Fread → ℕ → Buffer → Option Buffer
read_loop out fread zero b = none
read_loop out fread (suc fuel) b =
    let count = fread b.used (sub32 (sub32 b.size b.used) 1) in
    let rest = read_loop out fread fuel (grown (read_into out count b)) in
    if count == 0 then some b else rest

-- '\n', '\r' or ' '
abbrev pub is_space : ℕ → Bool
is_space c = c == 10 || c == 13 || c == 32

-- The loop that trims trailing whitespace.
unfoldable pub trim : Mem → ℕ → ℕ
trim bytes zero = zero
trim bytes (suc n) = let rest = trim bytes n in if is_space (bytes n) then rest else suc n

abbrev pub finish : Option Buffer → Option Buffer
finish none = none
finish (some b) =
    let used = trim b.bytes b.used in some (record b { bytes = update b.bytes used 0; used = used })

-- shf_backticks(), with the buffer that the thread has.
unfoldable pub backticks : (ℕ → ℕ) → Fread → ℕ → Buffer → Option Buffer
backticks out fread fuel b =
    let size = if b.size == 0 then size_page else b.size in
    finish (read_loop out fread fuel (record b { size = size; used = 0 }))

-- fread() reads what is left of `total` bytes, at most the number that it may, and at least one if it can.
pub record Reads (fread : Fread) (total : ℕ) : Type 0 where
  pub few : (used max : ℕ) → fread used max ≤ max
  pub inside : (used max : ℕ) → used ≤ total → used + fread used max ≤ total
  pub some_byte : (used max : ℕ) → used < total → 0 < max → 0 < fread used max

-- All of the output was read, and a byte is left.
abbrev pub Holds : (ℕ → ℕ) → ℕ → Buffer → Type 0
Holds out total b = (b.used ≡ total) × (b.used < b.size) × ((i : ℕ) → i < total → b.bytes i ≡ out i)

grown-bytes : (b : Buffer) → (grown b).bytes ≡ b.bytes
grown-bytes b = ground arith

grown-lem :
    (b : Buffer) (total : ℕ)
    → total < 2 ^ 31
    → b.used ≤ total
    → b.used < b.size
    → b.size < 2 ^ 32
    → ((grown b).used ≡ b.used) × ((grown b).used + 1 < (grown b).size) × ((grown b).size < 2 ^ 32)
grown-lem b total few le room small = elim (Bool-cases (leb (sub32 b.size b.used) 1)) [
  | inl e ↦
      let full : sub32 b.size b.used ≤ 1 = ground arith in rw e (refl, omega arith, omega arith)
  | inr e ↦ let space : 1 < sub32 b.size b.used = ground arith in rw e (refl, omega arith, small)
]

read_loop-Holds :
    (out : ℕ → ℕ) (fread : Fread) (total fuel : ℕ) (b : Buffer)
    → Reads fread total
    → total < 2 ^ 31
    → b.used ≤ total
    → total < b.used + fuel
    → b.used + 1 < b.size
    → b.size < 2 ^ 32
    → ((i : ℕ) → i < b.used → b.bytes i ≡ out i)
    → (b' : Buffer) × (read_loop out fread fuel b ≡ some b') × Holds out total b'
unfolding read_loop
read_loop-Holds out fread total zero b reads few le fuel room small same = absurd (omega arith)
read_loop-Holds out fread total (suc fuel) b reads few le enough room small same =
    let max = sub32 (sub32 b.size b.used) 1 in
    let count = fread b.used max in
    let max_is : max + b.used + 1 ≡ b.size = omega arith in
    elim (Bool-cases (count == 0)) [
      | inl e ↦
          let done : b.used ≡ total = elim (Bool-cases (b.used == total)) [
            | inl eq ↦ ground arith
            | inr ne ↦
                absurd (ground (arith, reads.some_byte b.used max (ground arith) (omega arith)))
          ] in
          (b, rw e refl, (done, omega arith, λ i l. same i (omega arith)))
      | inr e ↦
          let some_read : 0 < count = ground arith in
          let less : count ≤ max = reads.few b.used max in
          let inside : b.used + count ≤ total = reads.inside b.used max le in
          let b₁ = read_into out count b in
          let used₁ : b₁.used ≡ b.used + count = omega (arith, inside, few) in
          let (used₂, room₂, small₂) =
            grown-lem b₁ total few (omega (arith, used₁, inside))
              (omega (arith, used₁, less, max_is)) small in
          let same₁ : (i : ℕ) → i < b.used + count → b₁.bytes i ≡ out i =
            λ i l. ground (arith, same i) in
          let (b', e', holds) =
            read_loop-Holds out fread total fuel (grown b₁) reads few
              (omega (arith, used₂, used₁, inside)) (omega (arith, used₂, used₁, some_read, enough))
              room₂ small₂
              (λ i l. rw (grown-bytes b₁) (same₁ i (omega (arith, l, used₂, used₁)))) in
          (b', rw e e', holds)
    ]

trim_lem :
    (bytes : Mem) (n : ℕ)
    → (trim bytes n ≤ n)
      × ((i : ℕ) → trim bytes n ≤ i → i < n → is_space (bytes i) ≡ true)
      × ((i : ℕ) → i + 1 ≡ trim bytes n → is_space (bytes i) ≡ false)
unfolding trim
trim_lem bytes zero = (omega arith, λ i lo hi. absurd (omega arith), λ i e. absurd (omega arith))
trim_lem bytes (suc n) = elim (Bool-cases (is_space (bytes n))) [
  | inl e ↦
      let (le, space, last) = trim_lem bytes n in
      rw e (
        omega (arith, le),
        (λ i lo hi. elim (Bool-cases (n == i)) [
          | inl eq ↦ let same : n ≡ i = ground arith in rw (← same) e
          | inr ne ↦ space i lo (ground arith)
        ]),
        last,
      )
  | inr e ↦ rw e (
    omega arith,
    (λ i lo hi. absurd (omega arith)),
    (λ i eq. let same : i ≡ n = omega arith in rw same e),
  )
]

-- What shf_backticks() returns of `total` bytes of output: those up to the last that is no whitespace,
-- and a byte 0 behind them, all in the buffer.
abbrev pub Trimmed : (ℕ → ℕ) → ℕ → Buffer → Type 0
Trimmed out total b =
    (b.used ≤ total)
    × (b.used < b.size)
    × ((i : ℕ) → i < b.used → b.bytes i ≡ out i)
    × (b.bytes b.used ≡ 0)
    × ((i : ℕ) → b.used ≤ i → i < total → is_space (out i) ≡ true)
    × ((i : ℕ) → i + 1 ≡ b.used → is_space (out i) ≡ false)

finish-Trimmed :
    (out : ℕ → ℕ) (total : ℕ) (b : Buffer)
    → Holds out total b
    → (b' : Buffer) × (finish (some b) ≡ some b') × Trimmed out total b'
finish-Trimmed out total b (all, room, same) =
    let used = trim b.bytes b.used in
    let (le, space, last) = trim_lem b.bytes b.used in
    (
      record b { bytes = update b.bytes used 0; used = used },
      refl,
      (
        omega (arith, le, all),
        omega (arith, le, room),
        (λ i l. ground (arith, same i, le, all)),
        ground arith,
        (λ i lo hi. rw (same i hi) at (space i lo (omega (arith, hi, all)))),
        (λ i e. rw (same i (omega (arith, e, le, all))) at (last i e)),
      ),
    )

-- If fread() reads what is left of fewer than 2 ^ 31 bytes of output, at least a byte at a time, and the thread has no buffer yet or one of at least
-- 2 and fewer than 2 ^ 32 bytes, then shf_backticks() ends after at most as many calls as there are bytes and one more. It returns the
-- bytes up to the last that is no newline, carriage return or space, with a byte 0 behind them,
-- which is inside the buffer too.
pub backticks-Trimmed :
    (out : ℕ → ℕ) (fread : Fread) (total fuel : ℕ) (b : Buffer)
    → Reads fread total
    → total < 2 ^ 31
    → total < fuel
    → (b.size ≡ 0) ⊎ (1 < b.size)
    → b.size < 2 ^ 32
    → (b' : Buffer) × (backticks out fread fuel b ≡ some b') × Trimmed out total b'
unfolding backticks
backticks-Trimmed out fread total fuel b reads few enough some_size small =
    let size = if b.size == 0 then size_page else b.size in
    let room : 1 < size = ground (arith, some_size) in
    let fits : size < 2 ^ 32 = ground (arith, small) in
    let (b₁, e, holds) =
      read_loop-Holds out fread total fuel (record b { size = size; used = 0 }) reads few
        (omega arith) (omega (arith, enough)) room fits (λ i l. absurd (omega arith)) in
    let (b₂, e₂, trimmed) = finish-Trimmed out total b₁ holds in (b₂, rw e e₂, trimmed)
