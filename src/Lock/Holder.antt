-- ===== src/Lock/Holder.antt =====
-- At most one thread holds a spin lock, unless a live thread was taken for gone.
use sharedhashfile.Prelude.{
  ℕ, ◌+◌, ◌≡◌, ◌≢◌, ◌⊎◌, inl, inr, refl, ap, sym, ◌∙◌, Bool, if◌then◌else◌, false, Bool-cases, ◌==◌,
  Run, ok, abort, arith,
}
use sharedhashfile.Prelude.Family.{update}
use sharedhashfile.Lock.Spin.{
  Spin, unlock_force, unlock, Place, outside, spun, forcing, took, inside, ended, Threads, Turn,
  takes, stores, spins, fails, finds_ended, misses, forces, leaves, dies, Turns, start, later,
}

abbrev Unlocks : ℕ → Spin → Run Spin → Type 0
Unlocks our_tid s abort = Unit
Unlocks our_tid s (ok s') = s.lock ≡ our_tid

unlock-Unlocks : (our_tid : ℕ) (s : Spin) → Unlocks our_tid s (unlock our_tid s)
unfolding unlock
unlock-Unlocks our_tid s = elim (Bool-cases (s.lock == our_tid)) [
  | inl e ↦ rw e (ground arith)
  | inr e ↦ rw e tt
]

-- Whether a thread has the lock.
abbrev pub has : Place → ℕ
has took = 1
has inside = 1
has outside = 0
has (spun _) = 0
has (forcing _) = 0
has ended = 0

-- The thread that is about to be forced out, or 0.
abbrev aims : Place → ℕ
aims (forcing old_tid) = old_tid
aims _ = 0

-- The lock holds the identifier of any thread that has it, and only ended threads are forced out.
record Held (t : Threads) : Type 0 where
  lock : (i : ℕ) → has (t.at i) ≡ 1 → t.spin.lock ≡ i + 1
  gone : (i j : ℕ) → aims (t.at i) ≡ j + 1 → t.at j ≡ ended

-- A thread moves to a place where it neither has the lock nor forces another.
moved :
    (at : ℕ → Place) (i : ℕ) (p : Place) (j : ℕ)
    → ((i ≡ j) × (update at i p j ≡ p)) ⊎ ((i ≢ j) × (update at i p j ≡ at j))
moved at i p j = elim (Bool-cases (i == j)) [
  | inl e ↦ inl (ground arith, rw e refl)
  | inr e ↦ inr (ground arith, rw e refl)
]

still_ended :
    (at : ℕ → Place) (i j : ℕ) (p : Place) → at i ≢ ended → at j ≡ ended → update at i p j ≡ ended
still_ended at i j p live e = elim (moved at i p j) [
  | inl (same, _) ↦ absurd (live (rw same e))
  | inr (_, eq) ↦ eq ∙ e
]

has_of : (p q : Place) → p ≡ q → has p ≡ has q
has_of p q e = ap has e

aims_of : (p q : Place) → p ≡ q → aims p ≡ aims q
aims_of p q e = ap aims e

not_ended : (p q : Place) → p ≡ q → q ≢ ended → p ≢ ended
not_ended p q e ne e' = ne (sym e ∙ e')

module _ (t : Threads) (h : Held t) (i : ℕ) (p : Place) (live : t.at i ≢ ended) where
  -- The lock stays, and thread `i` gets no more than it had.
  moves_on :
      (s : Spin) (m : Bool)
      → s.lock ≡ t.spin.lock
      → (has p ≡ 1 → has (t.at i) ≡ 1)
      → ((j : ℕ) → aims p ≡ j + 1 → t.at j ≡ ended)
      → Held (record { spin = s; at = update t.at i p; misjudged = m })
  moves_on s m same gets aimed = record {
    lock = λ j e. elim (moved t.at i p j) [
      | inl (eq, e') ↦ same ∙ h.lock j (rw eq at (gets (sym (has_of _ _ e') ∙ e)))
      | inr (_, e') ↦ same ∙ h.lock j (sym (has_of _ _ e') ∙ e)
    ];
    gone = λ j k e. elim (moved t.at i p j) [
      | inl (_, e') ↦ still_ended t.at i k p live (aimed k (sym (aims_of _ _ e') ∙ e))
      | inr (_, e') ↦ still_ended t.at i k p live (h.gone j k (sym (aims_of _ _ e') ∙ e))
    ];
  }

  -- The lock changes, where no other thread has it.
  hands_over :
      (s : Spin) (m : Bool)
      → ((j : ℕ) → i ≢ j → has (t.at j) ≢ 1)
      → (has p ≡ 1 → s.lock ≡ i + 1)
      → aims p ≡ 0
      → Held (record { spin = s; at = update t.at i p; misjudged = m })
  hands_over s m alone mine aimless = record {
    lock = λ j e. elim (moved t.at i p j) [
      | inl (eq, e') ↦ rw eq at (mine (sym (has_of _ _ e') ∙ e))
      | inr (ne, e') ↦ absurd (alone j ne (sym (has_of _ _ e') ∙ e))
    ];
    gone = λ j k e. elim (moved t.at i p j) [
      | inl (_, e') ↦ let zero_one = sym aimless ∙ sym (aims_of _ _ e') ∙ e in absurd (ground arith)
      | inr (_, e') ↦ still_ended t.at i k p live (h.gone j k (sym (aims_of _ _ e') ∙ e))
    ];
  }

no_aim : (t : Threads) (p : Place) → aims p ≡ 0 → (j : ℕ) → aims p ≡ j + 1 → t.at j ≡ ended
no_aim t p zero_aim j e = absurd (omega (arith, zero_aim, e))

live_at : (p q : Place) → p ≡ q → has q ≡ 1 → p ≢ ended
live_at p q e one gone = let z : has q ≡ 0 = ap has (sym e ∙ gone) in omega (arith, z, one)

abbrev ended_place : Place → ℕ
ended_place ended = 1
ended_place _ = 0

not_ended_at : (p q : Place) → p ≡ q → ended_place q ≡ 0 → p ≢ ended
not_ended_at p q e zero_q gone =
    let z : ended_place q ≡ 1 = ap ended_place (sym e ∙ gone) in omega (arith, z, zero_q)

dies-Held : (t : Threads) (i : ℕ) → Held t → Held (record t { at = update t.at i ended })
dies-Held t i h = record {
  lock = λ j e. elim (moved t.at i ended j) [
    | inl (_, e') ↦ let z = sym (has_of _ _ e') ∙ e in absurd (ground arith)
    | inr (_, e') ↦ h.lock j (sym (has_of _ _ e') ∙ e)
  ];
  gone = λ j k e. elim (moved t.at i ended j) [
    | inl (_, e') ↦ let z = sym (aims_of _ _ e') ∙ e in absurd (ground arith)
    | inr (_, e') ↦ elim (moved t.at i ended k) [
      | inl (_, at_k) ↦ at_k
      | inr (_, at_k) ↦ at_k ∙ h.gone j k (sym (aims_of _ _ e') ∙ e)
    ]
  ];
}

forced-Held :
    (t : Threads) (i old_tid : ℕ)
    → Held t
    → t.at i ≡ forcing old_tid
    → Held (record t { spin = unlock_force old_tid t.spin; at = update t.at i outside })
unfolding unlock_force
forced-Held t i old_tid h e =
    let live = not_ended_at (t.at i) _ e refl in
    let mine : aims (t.at i) ≡ old_tid = ap aims e in
    elim (Bool-cases (t.spin.lock == old_tid)) [
      | inl same ↦
          let eq : t.spin.lock ≡ old_tid = ground arith in
          hands_over t h i outside live
            (record t.spin { lock = if t.spin.lock == old_tid then 0 else t.spin.lock }) t.misjudged
            (λ j ne one.
              let held = h.lock j one in
              live_at (t.at j) (t.at j) refl one (h.gone i j (mine ∙ sym eq ∙ held)))
            (λ z. absurd (ground arith)) refl
      | inr other ↦
          moves_on t h i outside live
            (record t.spin { lock = if t.spin.lock == old_tid then 0 else t.spin.lock }) t.misjudged
            (rw other refl) (λ z. absurd (ground arith)) (no_aim t outside refl)
    ]

Turn-Held :
    (process : ℕ → ℕ) (t t' : Threads) → Held t → Turn process t t' → t'.misjudged ≡ false → Held t'
Turn-Held process t _ h (takes i e free) sane =
    let lock_free : t.spin.lock ≡ 0 = free in
    hands_over t h i took (not_ended_at _ _ e refl) _ t.misjudged
      (λ j ne one. let held = h.lock j one in absurd (omega (arith, held, lock_free)))
      (λ _. ground (arith, lock_free)) refl
Turn-Held process t _ h (stores i e) sane =
    moves_on t h i inside (not_ended_at _ _ e refl) _ t.misjudged refl (λ _. has_of _ _ e)
      (no_aim t inside refl)
Turn-Held process t _ h (spins i e busy other) sane =
    moves_on t h i (spun t.spin.lock) (not_ended_at _ _ e refl) _ t.misjudged refl
      (λ z. absurd (ground arith)) (no_aim t (spun t.spin.lock) refl)
Turn-Held process t _ h (fails i old_tid e there) sane =
    moves_on t h i outside (not_ended_at _ _ e refl) _ t.misjudged refl (λ z. absurd (ground arith))
      (no_aim t outside refl)
Turn-Held process t _ h (finds_ended i j e gone) sane =
    moves_on t h i (forcing (j + 1)) (not_ended_at _ _ e refl) _ t.misjudged refl
      (λ z. absurd (ground arith)) (λ k eq. let same : j ≡ k = omega (arith, eq) in rw same at gone)
Turn-Held process t _ h (misses i j e live other) sane = absurd (cc)
Turn-Held process t _ h (forces i old_tid e) sane = forced-Held t i old_tid h e
Turn-Held process t _ h (leaves i s e unlocked) sane =
    let mine : t.spin.lock ≡ i + 1 = rw unlocked at (unlock-Unlocks (i + 1) t.spin) in
    hands_over t h i outside (not_ended_at _ _ e refl) s t.misjudged
      (λ j ne one. let held = h.lock j one in ne (omega (arith, held, mine)))
      (λ z. absurd (ground arith)) refl
Turn-Held process t _ h (dies i) sane = dies-Held t i h

-- What was misjudged stays so.
sane_before :
    (process : ℕ → ℕ) (t t' : Threads)
    → Turn process t t'
    → t'.misjudged ≡ false
    → t.misjudged ≡ false
sane_before process t _ (takes i e free) sane = sane
sane_before process t _ (stores i e) sane = sane
sane_before process t _ (spins i e busy other) sane = sane
sane_before process t _ (fails i old_tid e there) sane = sane
sane_before process t _ (finds_ended i j e gone) sane = sane
sane_before process t _ (misses i j e live other) sane = absurd (cc)
sane_before process t _ (forces i old_tid e) sane = sane
sane_before process t _ (leaves i s e unlocked) sane = sane
sane_before process t _ (dies i) sane = sane

Turns-Held :
    (process : ℕ → ℕ) (t₀ t : Threads) → Held t₀ → Turns process t₀ t → t.misjudged ≡ false → Held t
Turns-Held process t₀ _ h start sane = h
Turns-Held process t₀ _ h (later {t} {t'} r s) sane =
    Turn-Held process t t' (Turns-Held process t₀ t h r (sane_before process t t' s sane)) s sane

-- If all threads are outside at first, then after any accesses of threads of any processes to the spin lock, in
-- shf_spin_lock(), shf_spin_lock_try() and shf_spin_unlock(), and any ends of threads, in any order: unless a
-- stat() missed a thread that had not ended, as `pid` of the lock was not its process, at most one
-- thread has the lock, which has its identifier.
pub spin_exclusion :
    (process : ℕ → ℕ) (t₀ t : Threads)
    → ((i : ℕ) → t₀.at i ≡ outside)
    → Turns process t₀ t
    → t.misjudged ≡ false
    → (i j : ℕ) → has (t.at i) ≡ 1
    → has (t.at j) ≡ 1
    → (i ≡ j) × (t.spin.lock ≡ i + 1)
spin_exclusion process t₀ t none r sane i j has_i has_j =
    let start_held : Held t₀ = record {
      lock = λ k e. let z = ap has (none k) in absurd (omega (arith, z, e));
      gone = λ k l e. let z = ap aims (none k) in absurd (omega (arith, z, e));
    } in
    let h = Turns-Held process t₀ t start_held r sane in
    (omega (arith, h.lock i has_i, h.lock j has_j), h.lock i has_i)
