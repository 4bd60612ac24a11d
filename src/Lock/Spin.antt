-- ===== src/Lock/Spin.antt =====
-- The spin lock of src/shf.lock.h. A lock holds the identifier of the thread that has it, or 0.
use sharedhashfile.Prelude.{
  ℕ, zero, suc, ◌+◌, ◌≡◌, ◌≢◌, Bool, true, ◌==◌, if◌then◌else◌, Option, none, some, Run, ok, assert,
  ◌>>◌,
}
use sharedhashfile.Prelude.Family.{update}

-- SHF_SPIN_LOCK_SPIN_MAX
abbrev pub spin_max : ℕ
spin_max = 1000000

-- SHF_LOCK_STATUS
pub data Status : Type 0 where
  failed : Status
  locked : Status
  locked_already : Status

-- SHF_SPIN_LOCK
pub record Spin : Type 0 where
  pub lock : ℕ
  pub pid : ℕ

-- InterlockedCompareExchange(): the old value, and the new one.
abbrev pub compare_exchange : ℕ → ℕ → ℕ → ℕ × ℕ
compare_exchange destination exchange comperand =
    (destination, if destination == comperand then exchange else destination)

-- shf_spin_unlock_force()
unfoldable pub unlock_force : ℕ → Spin → Spin
unlock_force old_tid s = record s { lock = (compare_exchange s.lock 0 old_tid).1 }

-- shf_spin_lock_try() of a thread and its process
unfoldable pub lock_try : ℕ → ℕ → Spin → Status × Spin
lock_try our_tid pid s =
    let (old_tid, lock) = compare_exchange s.lock our_tid 0 in
    if old_tid == 0
    then (locked, record s { lock = lock; pid = pid })
    else (if old_tid == our_tid then locked_already else failed, record s { lock = lock })

-- shf_spin_unlock()
unfoldable pub unlock : ℕ → Spin → Run Spin
unlock our_tid s =
    let (old_tid, lock) = compare_exchange s.lock 0 our_tid in
    do assert (old_tid == our_tid); ok (record s { lock = lock })

-- What the loop of shf_spin_lock() ends with.
pub data Spun : Type 0 where
  entered : Spin → Spun
  already : Spin → Spun
  busy : (old_tid : ℕ) → Spin → Spun

-- shf_spin_lock(): the loop, for `n` more passes, where other threads make of the lock what
-- `others k` is before pass `k`, and `old_tid` is what the pass before saw.
unfoldable pub spin : ℕ → (ℕ → Spin → Spin) → ℕ → ℕ → ℕ → Spin → Spun
spin our_tid others zero k old_tid s = busy old_tid s
spin our_tid others (suc n) k old_tid s =
    let s₁ = others k s in
    let (seen, lock) = compare_exchange s₁.lock our_tid 0 in
    let rest = spin our_tid others n (k + 1) seen s₁ in
    if seen == 0
    then entered (record s₁ { lock = lock })
    else (if seen == our_tid then already s₁ else rest)

-- shf_spin_lock(), where `gone pid tid` says that /proc has no thread `tid` of a process `pid`, and
-- `rounds` bounds how often the lock is forced.
unfoldable pub lock :
    ℕ → ℕ → (ℕ → ℕ → Bool) → (ℕ → ℕ → Spin → Spin) → ℕ → Spin → Option (Status × Spin)
lock our_tid pid gone others zero s = none
lock our_tid pid gone others (suc rounds) s =
    let retry = lock our_tid pid gone others rounds in
    elim (spin our_tid (others rounds) spin_max 0 0 s) [
      | entered s₁ ↦ some (locked, record s₁ { pid = pid })
      | already s₁ ↦ some (locked_already, s₁)
      | busy old_tid s₁ ↦
          if gone s₁.pid old_tid then retry (unlock_force old_tid s₁) else some (failed, s₁)
    ]

-- Where a thread is in shf_spin_lock(), shf_spin_lock_try() and shf_spin_unlock(). Thread `i` has the
-- identifier `i + 1`.
pub data Place : Type 0 where
  outside : Place
  spun : (old_tid : ℕ) → Place  -- it saw the lock held for the last time
  forcing : (old_tid : ℕ) → Place  -- stat() found no such thread
  took : Place  -- it has the lock, and has not yet stored its process
  inside : Place
  ended : Place

-- A lock and the threads at it; thread `i` is of process `process i`. `misjudged` says that a stat() has
-- missed a thread that had not ended.
pub record Threads : Type 0 where
  pub spin : Spin
  pub at : ℕ → Place
  pub misjudged : Bool

-- `/proc/<pid>/task/<tid>` exists: thread `tid - 1` is of this process and has not ended.
abbrev pub InProc : (ℕ → ℕ) → Threads → ℕ → ℕ → Type 0
InProc process t pid tid = (i : ℕ) × (tid ≡ i + 1) × (process i ≡ pid) × (t.at i ≢ ended)

-- An access of one thread to the lock or to /proc, or the end of a thread.
pub data Turn (process : ℕ → ℕ) (t : Threads) : Threads → Type 0 where
  -- InterlockedCompareExchange(&lock->lock, our_tid, 0) takes the lock
  takes :
      (i : ℕ)
      → t.at i ≡ outside
      → (compare_exchange t.spin.lock (i + 1) 0).0 ≡ 0
      → Turn process t (record t {
        spin = record t.spin { lock = (compare_exchange t.spin.lock (i + 1) 0).1 };
        at = update t.at i took;
      })
  -- `lock->pid = getpid()`
  stores :
      (i : ℕ)
      → t.at i ≡ took
      → Turn process t
          (record t { spin = record t.spin { pid = process i }; at = update t.at i inside })
  -- InterlockedCompareExchange() fails for the last time, with `old_tid`
  spins :
      (i : ℕ)
      → t.at i ≡ outside
      → (compare_exchange t.spin.lock (i + 1) 0).0 ≢ 0
      → (compare_exchange t.spin.lock (i + 1) 0).0 ≢ i + 1
      → Turn process t
          (record t { at = update t.at i (spun (compare_exchange t.spin.lock (i + 1) 0).0) })
  -- stat() finds the thread: SHF_SPIN_LOCK_STATUS_FAILED
  fails :
      (i old_tid : ℕ)
      → t.at i ≡ spun old_tid
      → InProc process t t.spin.pid old_tid
      → Turn process t (record t { at = update t.at i outside })
  -- stat() finds no thread, and the thread has ended
  finds_ended :
      (i j : ℕ)
      → t.at i ≡ spun (j + 1)
      → t.at j ≡ ended
      → Turn process t (record t { at = update t.at i (forcing (j + 1)) })
  -- stat() finds no thread, as `lock->pid` is not the thread's process
  misses :
      (i j : ℕ)
      → t.at i ≡ spun (j + 1)
      → t.at j ≢ ended
      → process j ≢ t.spin.pid
      → Turn process t (record t { at = update t.at i (forcing (j + 1)); misjudged = true })
  -- shf_spin_unlock_force(), and again from the start
  forces :
      (i old_tid : ℕ)
      → t.at i ≡ forcing old_tid
      → Turn process t (record t { spin = unlock_force old_tid t.spin; at = update t.at i outside })
  leaves :
      (i : ℕ) (s : Spin)
      → t.at i ≡ inside
      → unlock (i + 1) t.spin ≡ ok s
      → Turn process t (record t { spin = s; at = update t.at i outside })
  dies : (i : ℕ) → Turn process t (record t { at = update t.at i ended })

pub data Turns (process : ℕ → ℕ) (t₀ : Threads) : Threads → Type 0 where
  start : Turns process t₀ t₀
  later : {t t' : Threads} → Turns process t₀ t → Turn process t t' → Turns process t₀ t'
