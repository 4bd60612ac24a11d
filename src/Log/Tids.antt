-- ===== src/Log/Tids.antt =====
-- The numbers of threads in the log.
use sharedhashfile.Prelude.{
  ℕ, ◌+◌, ◌%◌, ◌≤◌, ◌<◌, ◌≡◌, ◌≢◌, ◌⊎◌, inl, inr, refl, Bool-cases, true, false, ◌==◌, arith, leb,
  Run, ok, abort, Returns,
}
use sharedhashfile.Prelude.Family.{update}
use sharedhashfile.Log.{Log, pid_max, map_tid}

-- The numbers given so far: each is of one thread.
pub record Mapped (log : Log) : Type 0 where
  pub few : log.tid_id < 256
  pub given : (t : ℕ) → log.tids t ≤ log.tid_id
  pub single : (t u : ℕ) → log.tids t ≢ 0 → log.tids t ≡ log.tids u → t ≡ u

-- A number for thread `tid`, and those of the other threads kept.
pub record Numbered (tid : ℕ) (log : Log) (r : ℕ × Log) : Type 0 where
  pub mapped : Mapped r.1
  pub number : r.0 ≢ 0
  pub found : r.1.tids tid ≡ r.0
  pub others : (t : ℕ) → log.tids t ≢ 0 → r.1.tids t ≡ log.tids t
  pub again : map_tid tid r.1 ≡ ok r

new_single :
    (tid : ℕ) (log : Log)
    → Mapped log
    → (n : ℕ) → n ≡ log.tid_id + 1
    → (t u : ℕ) → update log.tids tid n t ≢ 0
    → update log.tids tid n t ≡ update log.tids tid n u
    → t ≡ u
new_single tid log m n e t u some_t same = elim (Bool-cases (tid == t)) [
  | inl et ↦ elim (Bool-cases (tid == u)) [
    | inl eu ↦ ground arith
    | inr eu ↦ let same' = rw (et, eu) at same in absurd (omega (arith, same', e, m.given u))
  ]
  | inr et ↦ elim (Bool-cases (tid == u)) [
    | inl eu ↦ let same' = rw (et, eu) at same in absurd (omega (arith, same', e, m.given t))
    | inr eu ↦
        let same' = rw (et, eu) at same in
        let some_t' = rw et at some_t in m.single t u some_t' same'
  ]
]

-- What map_tid() does for a thread identifier: where the table has no place for it, the process ends.
abbrev pub Maps : ℕ → Log → Run (ℕ × Log) → Type 0
Maps tid log r = ((pid_max ≤ tid) × (r ≡ abort)) ⊎ ((tid < pid_max) × Returns (Numbered tid log) r)

numbered :
    (tid : ℕ) (log : Log)
    → Mapped log
    → (log.tids tid ≢ 0) ⊎ (log.tid_id < 255)
    → tid < pid_max
    → Returns (Numbered tid log) (map_tid tid log)
unfolding map_tid
numbered tid log m room inside =
    let place : leb pid_max tid ≡ false = ground arith in
    elim (Bool-cases (log.tids tid == 0)) [
      | inl e ↦
          let below : log.tid_id < 255 = ground arith in
          let n : (log.tid_id + 1) % 256 ≡ log.tid_id + 1 = omega arith in
          let full : (log.tid_id + 1 == 0) ≡ false = ground arith in
          let here : (tid == tid) ≡ true = ground arith in
          let log' : Log = record log {
            tid_id = log.tid_id + 1;
            tids = update log.tids tid (log.tid_id + 1);
          } in
          (
            (log.tid_id + 1, log'),
            rw (place, e, n, here) refl,
            record {
              mapped = record {
                few = omega arith;
                given = λ t. ground (arith, m.given t);
                single = new_single tid log m (log.tid_id + 1) refl;
              };
              number = ground arith;
              found = rw here refl;
              others = λ t some_t. ground arith;
              again = rw (place, here, full, here) refl;
            },
          )
      | inr e ↦ (
        (log.tids tid, log),
        rw (place, e) refl,
        record {
          mapped = m;
          number = ground arith;
          found = refl;
          others = λ t some_t. refl;
          again = rw (place, e) refl;
        },
      )
    ]

-- If each number is of one thread, and this thread has a number or fewer than 255 were given, then,
-- where its identifier is below 131072, the thread gets a number that is not 0 and that no other thread has,
-- it gets the same when it asks again, and the numbers of the others stay; else the process exits.
pub map_tid-Numbered :
    (tid : ℕ) (log : Log)
    → Mapped log
    → (log.tids tid ≢ 0) ⊎ (log.tid_id < 255)
    → Maps tid log (map_tid tid log)
unfolding map_tid
map_tid-Numbered tid log m room = elim (Bool-cases (leb pid_max tid)) [
  | inl e ↦ inl (ground arith, rw e refl)
  | inr e ↦ inr (ground arith, numbered tid log m room (ground arith))
]
