-- ===== src/Log/Loop.antt =====
-- The loop around write() ends, and what a pass of the log thread writes and leaves.
use sharedhashfile.Prelude.{
  ℕ, zero, suc, ◌+◌, ◌-◌, ◌^◌, ◌≤◌, ◌<◌, ◌≡◌, inl, inr, refl, ap, ◌∙◌, List, [], ◌++◌, Bool-cases,
  Option, some, none, ◌==◌, arith, ◌⊎◌,
}
use sharedhashfile.Mem.{get_mem}
use sharedhashfile.Layout.{u32}
use sharedhashfile.Queue.Pull.{append_assoc}
use sharedhashfile.Queue.Seg.{append_nil}
use sharedhashfile.Log.{
  Log, Wrote, wrote, blocked, interrupted, failed, write_once, Drain, Pass, more, stop, loop_on,
  write_loop, Begun, idle, start, begin, finish, finish_loop, thread_rest, thread_pass, shut_loop,
  shut_down,
}
use sharedhashfile.Log.Steps.{Bounded}
use sharedhashfile.Log.Parts.{
  get_mem-append, Alike, Taken, Stuck, Passes, write_once-Passes, Begins, begin-Begins,
  finish-Dropped,
}

-- The loop took the next bytes from memory, in order, and may have left some.
record Drained (d d' : Drain) : Type 0 where
  log : Alike d.log d'.log
  most : d'.left ≤ d.left
  sum : d'.work + d'.left ≡ d.work + d.left
  out : d'.out ≡ d.out ++ get_mem d.log.bytes d.work (d.left - d'.left)

abbrev Ended : Drain → Option Drain → Type 0
Ended d r = (d' : Drain) × (r ≡ some d') × Drained d d'

Stuck-Drained : (d d' : Drain) → Stuck d d' → Drained d d'
unfolding get_mem
Stuck-Drained d d' s =
    let nothing : d.left - d'.left ≡ 0 = omega (arith, s.left) in
    record {
      log = s.log;
      most = omega (arith, s.left);
      sum = omega (arith, s.left, s.work);
      out = rw (nothing, append_nil d.out) (s.out);
    }

Taken-Drained : (d d₁ d' : Drain) → Taken d d₁ → Drained d₁ d' → Drained d d'
Taken-Drained d d₁ d' t r =
    let whole : d.left - d'.left ≡ t.count + (d₁.left - d'.left) =
      omega (arith, t.left, t.most, r.most) in
    record {
      log = record {
        used = r.log.used ∙ t.log.used;
        size = r.log.size ∙ t.log.size;
        bytes = r.log.bytes ∙ t.log.bytes;
      };
      most = omega (arith, t.left, r.most);
      sum = omega (arith, t.left, t.work, t.most, r.sum);
      out =
          rw
            (
              r.out,
              t.out,
              t.log.bytes,
              whole,
              get_mem-append d.log.bytes d.work t.count (d₁.left - d'.left),
              t.work,
              append_assoc d.out (get_mem d.log.bytes d.work t.count)
                  (get_mem d.log.bytes (d.work + t.count) (d₁.left - d'.left)),
            )
            refl;
    }

loop_on-Ended :
    (rest : Drain → Option Drain) (d : Drain) (p : Pass)
    → Passes d p
    → ((d' : Drain) → Taken d d' → Ended d' (rest d'))
    → Ended d (loop_on rest p)
loop_on-Ended rest d (more d₁) t next =
    let (d', e, r) = next d₁ t in (d', e, Taken-Drained d d₁ d' t r)
loop_on-Ended rest d (stop d₁) s next = (d₁, refl, Stuck-Drained d d₁ s)

write_loop-Ended :
    (write : ℕ → ℕ → Wrote) (second fuel k : ℕ) (d : Drain)
    → ((k n : ℕ) → Bounded n (write k n))
    → d.left < fuel
    → d.left < 2 ^ 32
    → Ended d (write_loop write second fuel k d)
unfolding write_loop
write_loop-Ended write second zero k d bounded enough small = absurd (omega arith)
write_loop-Ended write second (suc fuel) k d bounded enough small =
    elim (Bool-cases (d.left == 0)) [
      | inl e ↦ rw e (
        d,
        refl,
        Stuck-Drained d d (record {
          log = record { used = refl; size = refl; bytes = refl };
          left = refl;
          work = refl;
          out = refl;
        }),
      )
      | inr e ↦ rw e (
          loop_on-Ended (write_loop write second fuel (k + 1)) d _
            (write_once-Passes (write k d.left) second d small (bounded k d.left))
            (λ d₁ t.
              write_loop-Ended write second fuel (k + 1) d₁ bounded
                (omega (arith, t.left, t.most, t.some_count)) (omega (arith, t.left))))
    ]

-- The bytes of the log are those written and those that it still holds.
abbrev pub Splits : Log → Option (Log × List ℕ) → Type 0
Splits log none = ⊥
Splits log (some (log', bs)) =
    (get_mem log.bytes 0 log.used ≡ bs ++ get_mem log'.bytes 0 log'.used)
    × (log'.used ≤ log.used)
    × (log'.size ≡ log.size)

finish_loop-Splits :
    (second : ℕ) (log log₁ : Log) (r : Option Drain)
    → Alike log log₁
    → log.used < 2 ^ 32
    → Ended (record { log = log₁; left = log.used; work = 0; out = [] }) r
    → Splits log (finish_loop second log.used r)
finish_loop-Splits second log log₁ r a small (d, e, r') =
    let f =
      finish-Dropped second log.used d.left d.work d.log (omega (arith, r'.sum))
        (omega (arith, a.used, r'.log.used)) (omega (arith, a.used, r'.log.used)) in
    let (all_left, front, rest, zero_plus) : (log.used ≡ d.work + d.left)
        × (log.used - d.left ≡ d.work)
        × (d.log.used - d.work ≡ d.left)
        × (0 + d.work ≡ d.work) =
      (
        omega (arith, r'.sum),
        omega (arith, r'.sum),
        omega (arith, r'.sum, r'.log.used, a.used),
        omega arith,
      ) in
    let halves = rw zero_plus at (get_mem-append log.bytes 0 d.work d.left) in
    let same : get_mem log.bytes 0 d.work ++ get_mem log.bytes d.work d.left
        ≡ d.out
          ++ get_mem (finish second log.used d.left d.work d.log).bytes 0
              (finish second log.used d.left d.work d.log).used =
      rw (f.used, f.bytes, rest, r'.out, front, r'.log.bytes, a.bytes) refl in
    rw e (
      ap (get_mem log.bytes 0) all_left ∙ halves ∙ same,
      omega (arith, f.used, r'.log.used, a.used),
      f.size ∙ r'.log.size ∙ a.size,
    )

thread_rest-Splits :
    (write : ℕ → ℕ → Wrote) (second : ℕ) (log : Log) (b : Begun)
    → ((k n : ℕ) → Bounded n (write k n))
    → log.used < 2 ^ 32
    → Begins log b
    → Splits log (thread_rest write second b)
thread_rest-Splits write second log (idle log₁) bounded small a =
    (rw (a.used, a.bytes) refl, omega (arith, a.used), a.size)
thread_rest-Splits write second log (start log₁ log_used) bounded small (a, e) = rw e (
    finish_loop-Splits second log log₁ _ a small
      (write_loop-Ended write second (log.used + 1) 0 _ bounded (omega arith) small))

-- If write() takes at most the bytes it is given and fewer than 2 ^ 32 bytes are used, a pass of
-- the log thread with no other thread in between ends, whatever write() returns, with fuel for one
-- call per byte; the bytes in the log before are those that write() took followed by those that are
-- in the log after, in order, and the size of the log is as it was.
pub thread_pass-Splits :
    (write : ℕ → ℕ → Wrote) (second : ℕ) (log : Log)
    → ((k n : ℕ) → Bounded n (write k n))
    → log.used < 2 ^ 32
    → Splits log (thread_pass write second log)
unfolding thread_pass
thread_pass-Splits write second log bounded small =
    thread_rest-Splits write second log (begin second log) bounded small (begin-Begins second log)

-- A result of write() that ends the loop.
abbrev pub GivesUp : Wrote → Type 0
GivesUp (wrote n) = n ≡ 0
GivesUp blocked = Unit
GivesUp interrupted = Unit
GivesUp failed = Unit

-- Why the loop ended: nothing is left, or the last call of write() took nothing.
abbrev Why : (ℕ → ℕ → Wrote) → Drain → Drain → Type 0
Why write d d' =
    ((d'.left ≡ 0) ⊎ ((k : ℕ) × GivesUp (write k d'.left))) × (d'.log.stopped ≡ d.log.stopped)

stopped-Why :
    (write : ℕ → ℕ → Wrote) (k : ℕ) (d d₁ d' : Drain)
    → GivesUp (write k d.left)
    → d₁.left ≡ d.left
    → d₁.log.stopped ≡ d.log.stopped
    → some d₁ ≡ some d'
    → Why write d d'
stopped-Why write k d d₁ d' gives left stopped e =
    let same : d₁ ≡ d' = cc in rw (← same) (inr (k, rw left gives), stopped)

once-Why :
    (write : ℕ → ℕ → Wrote) (second k : ℕ) (rest : Drain → Option Drain) (d d' : Drain) (w : Wrote)
    → ((d₁ : Drain) → rest d₁ ≡ some d' → Why write d₁ d')
    → w ≡ write k d.left
    → loop_on rest (write_once w second d) ≡ some d'
    → Why write d d'
unfolding write_once
once-Why write second k rest d d' blocked next eq e =
    stopped-Why write k d _ d' (rw (← eq) tt) refl refl e
once-Why write second k rest d d' interrupted next eq e =
    stopped-Why write k d _ d' (rw (← eq) tt) refl refl e
once-Why write second k rest d d' failed next eq e =
    stopped-Why write k d _ d' (rw (← eq) tt) refl refl e
once-Why write second k rest d d' (wrote n) next eq e = elim (Bool-cases (n == 0)) [
  | inl z ↦
      let none_taken : n ≡ 0 = ground arith in
      stopped-Why write k d (record d { log = record d.log { writing = 1 } }) d'
        (rw (← eq) none_taken) refl refl (rw z at e)
  | inr z ↦ let (why, same) = next _ (rw z at e) in (why, same)
]

write_loop-Why :
    (write : ℕ → ℕ → Wrote) (second fuel k : ℕ) (d d' : Drain)
    → write_loop write second fuel k d ≡ some d'
    → Why write d d'
unfolding write_loop
write_loop-Why write second zero k d d' e = absurd cc
write_loop-Why write second (suc fuel) k d d' e = elim (Bool-cases (d.left == 0)) [
  | inl z ↦
      let e' : some d ≡ some d' = rw z at e in
      let same : d ≡ d' = cc in rw (← same) (inl (ground arith), refl)
  | inr z ↦
      once-Why write second k (write_loop write second fuel (k + 1)) d d' (write k d.left)
        (λ d₁ e₁. write_loop-Why write second fuel (k + 1) d₁ d' e₁) refl (rw z at e)
]

-- The bytes that the log thread wrote at last are the first of the log: all of them, unless write()
-- took none of those that were left. The log says that the thread stopped, and is otherwise as it was.
abbrev pub Closes : (ℕ → ℕ → Wrote) → Log → Option (Log × List ℕ) → Type 0
Closes write log none = ⊥
Closes write log (some (log', bs)) =
    (left : ℕ) × (left ≤ log.used)
    × (bs ≡ get_mem log.bytes 0 (log.used - left))
    × ((left ≡ 0) ⊎ ((k : ℕ) × GivesUp (write k left)))
    × (log'.stopped ≡ u32 (log.stopped + 1))
    × (log'.used ≡ log.used)
    × (log'.bytes ≡ log.bytes)

shut_loop-Closes :
    (write : ℕ → ℕ → Wrote) (log : Log) (r : Option Drain)
    → Ended (record { log = log; left = log.used; work = 0; out = [] }) r
    → ((d : Drain)
        → r ≡ some d
        → Why write (record { log = log; left = log.used; work = 0; out = [] }) d)
    → Closes write log (shut_loop r)
shut_loop-Closes write log r (d, e, r') why =
    let (ended, stopped) = why d e in
    rw e (
      d.left,
      r'.most,
      r'.out,
      ended,
      ap (λ (n : ℕ). u32 (n + 1)) stopped,
      r'.log.used,
      r'.log.bytes,
    )

-- If write() takes at most the bytes it is given and fewer than 2 ^ 32 bytes are used, the end of
-- the log thread is reached whatever write() returns. What it wrote is the front of the log: all of
-- it, or what was there before a call of write() that took nothing of the rest. The counter of stopped threads
-- is then one more, and the bytes of the log stay.
pub shut_down-Closes :
    (write : ℕ → ℕ → Wrote) (log : Log)
    → ((k n : ℕ) → Bounded n (write k n))
    → log.used < 2 ^ 32
    → Closes write log (shut_down write log)
unfolding shut_down
shut_down-Closes write log bounded small =
    shut_loop-Closes write log _
      (write_loop-Ended write 0 (log.used + 1) 0 _ bounded (omega arith) small)
      (λ d e. write_loop-Why write 0 (log.used + 1) 0 _ d e)
