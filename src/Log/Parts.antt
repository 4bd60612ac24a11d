-- ===== src/Log/Parts.antt =====
-- What each step does to the log's memory and to what the descriptor took.
use sharedhashfile.Prelude.{
  ℕ, zero, suc, ◌+◌, ◌-◌, ◌^◌, ◌≤◌, ◌<◌, ◌≡◌, ◌≢◌, inl, inr, refl, ap, List, ◌∷◌, ◌++◌, length,
  Bool-cases, ltb, leb, ◌==◌, ◌&&◌, ◌||◌, if◌then◌else◌, arith,
}
use mathlib.Core.Bool.{not}
use sharedhashfile.Layout.{u32, sub32}
use sharedhashfile.Mem.{Mem, get_mem, put_mem}
use sharedhashfile.Mem.Frame.{get_mem-put_mem, length-get_mem}
use sharedhashfile.Log.{
  Log, Tried, ignored, waits, appended, try_append, Wrote, wrote, blocked, interrupted, failed,
  Drain, Pass, more, stop, write_once, Begun, idle, start, begin, finish, reposition,
  write_threshold,
}
use sharedhashfile.Log.Steps.{Bounded}

pub get_mem-append :
    (m : Mem) (p a b : ℕ) → get_mem m p (a + b) ≡ get_mem m p a ++ get_mem m (p + a) b
unfolding get_mem
get_mem-append m p zero b =
    let e : zero + b ≡ b = omega arith in let e' : p + zero ≡ p = omega arith in rw (e, e') refl
get_mem-append m p (suc a) b =
    let e : suc a + b ≡ suc (a + b) = omega arith in
    let e' : p + suc a ≡ (p + 1) + a = omega arith in
    rw (e, e') (ap (λ (l : List ℕ). m p ∷ l) (get_mem-append m (p + 1) a b))

-- The data of the log and its bounds are the same.
pub record Alike (log log' : Log) : Type 0 where
  pub used : log'.used ≡ log.used
  pub size : log'.size ≡ log.size
  pub bytes : log'.bytes ≡ log.bytes

-- A line was copied behind the others.
pub record Copied (line : List ℕ) (log log' : Log) : Type 0 where
  pub used : log'.used ≡ log.used + length line
  pub size : log'.size ≡ log.size
  pub bytes : log'.bytes ≡ put_mem log.bytes log.used line
  pub fits : log.used + length line ≤ log.size

abbrev pub Copies : List ℕ → Log → Tried → Type 0
Copies line log ignored = Unit
Copies line log waits = Unit
Copies line log (appended log') = Copied line log log'

pub try_append-Copies :
    (prefix_len : ℕ) (line : List ℕ) (log : Log)
    → prefix_len < 128
    → log.used ≤ log.size
    → log.size + 128 ≤ 2 ^ 32
    → Copies line log (try_append prefix_len line log)
unfolding try_append
try_append-Copies prefix_len line log short bound small =
    elim (Bool-cases (leb log.size (length line))) [
      | inl long ↦ rw long tt
      | inr fits ↦
          elim (Bool-cases (ltb (sub32 log.size log.used) (u32 (prefix_len + length line)))) [
            | inl full ↦ rw (fits, full) tt
            | inr room ↦
                let space : log.used + length line ≤ log.size = ground arith in
                rw (fits, room)
                  (record { used = omega arith; size = refl; bytes = refl; fits = space })
          ]
    ]

-- A pass took the next bytes from memory, or none and the loop ends.
pub record Taken (d d' : Drain) : Type 0 where
  pub count : ℕ
  pub some_count : count ≢ 0
  pub most : count ≤ d.left
  pub log : Alike d.log d'.log
  pub left : d'.left ≡ d.left - count
  pub work : d'.work ≡ d.work + count
  pub out : d'.out ≡ d.out ++ get_mem d.log.bytes d.work count

pub record Stuck (d d' : Drain) : Type 0 where
  pub log : Alike d.log d'.log
  pub left : d'.left ≡ d.left
  pub work : d'.work ≡ d.work
  pub out : d'.out ≡ d.out

abbrev pub Passes : Drain → Pass → Type 0
Passes d (more d') = Taken d d'
Passes d (stop d') = Stuck d d'

same_Stuck : (d : Drain) (log : Log) → Alike d.log log → Stuck d (record d { log = log })
same_Stuck d log a = record { log = a; left = refl; work = refl; out = refl }

pub write_once-Passes :
    (w : Wrote) (second : ℕ) (d : Drain)
    → d.left < 2 ^ 32
    → Bounded d.left w
    → Passes d (write_once w second d)
unfolding write_once
write_once-Passes blocked second d small most =
    same_Stuck d _ (record { used = refl; size = refl; bytes = refl })
write_once-Passes interrupted second d small most =
    same_Stuck d _ (record { used = refl; size = refl; bytes = refl })
write_once-Passes failed second d small most =
    same_Stuck d _ (record { used = refl; size = refl; bytes = refl })
write_once-Passes (wrote n) second d small most = elim (Bool-cases (n == 0)) [
  | inl e ↦ rw e (same_Stuck d _ (record { used = refl; size = refl; bytes = refl }))
  | inr e ↦
      let le : n ≤ d.left = most n refl in
      rw e (record {
        count = n;
        some_count = ground arith;
        most = le;
        log = record { used = refl; size = refl; bytes = refl };
        left = omega (arith, le, small);
        work = refl;
        out = refl;
      })
]

abbrev pub Begins : Log → Begun → Type 0
Begins log (idle log') = Alike log log'
Begins log (start log' log_used) = Alike log log' × (log_used ≡ log.used)

pub begin-Begins : (second : ℕ) (log : Log) → Begins log (begin second log)
unfolding begin
begin-Begins second log =
    let log₁ : Log =
      if ltb log.used_hi log.used
      then record log { used_hi = log.used; used_hi_new = 1 }
      else log in
    let same : Alike log log₁ = record {
      used = ground arith;
      size = ground arith;
      bytes = ground arith;
    } in
    elim (Bool-cases (ltb 0 log.used && not (log.write_fail == second))) [
      | inl pending ↦
          elim (Bool-cases (not (log.second == second) || leb write_threshold log.used)) [
            | inl due ↦ rw (pending, due) (same, refl)
            | inr early ↦ rw (pending, early) same
          ]
      | inr other ↦ rw other (record { used = refl; size = refl; bytes = refl })
    ]

-- The log after the written bytes, up to `work`, were dropped.
pub record Dropped (work : ℕ) (log log' : Log) : Type 0 where
  pub used : log'.used ≡ log.used - work
  pub size : log'.size ≡ log.size
  pub bytes : get_mem log'.bytes 0 (log.used - work) ≡ get_mem log.bytes work (log.used - work)

reposition-Dropped :
    (log_used left work : ℕ) (log : Log)
    → work + left ≡ log_used
    → log_used ≤ log.used
    → log.used < 2 ^ 32
    → Dropped work log (reposition log_used left work log)
unfolding reposition
reposition-Dropped log_used left work log e bound small = elim (Bool-cases (log_used == left)) [
  | inl nothing ↦
      let at : work ≡ 0 = ground arith in
      rw (nothing, at) (record { used = omega arith; size = refl; bytes = refl })
  | inr something ↦
      let left_used : u32 (left + sub32 log.used log_used) ≡ log.used - work = omega arith in
      rw (something, left_used)
        (record {
          used = refl;
          size = refl;
          bytes =
              rw (length-get_mem log.bytes work (log.used - work)) at
                (get_mem-put_mem log.bytes 0 (get_mem log.bytes work (log.used - work)));
        })
]

pub finish-Dropped :
    (second log_used left work : ℕ) (log : Log)
    → work + left ≡ log_used
    → log_used ≤ log.used
    → log.used < 2 ^ 32
    → Dropped work log (finish second log_used left work log)
unfolding finish
finish-Dropped second log_used left work log e bound small =
    let d = reposition-Dropped log_used left work log e bound small in
    let log₁ = record (reposition log_used left work log) { writing = 0 } in
    elim (Bool-cases (log₁.second == second)) [
      | inl same ↦ rw same (record { used = d.used; size = d.size; bytes = d.bytes })
      | inr next ↦ rw next (record { used = d.used; size = d.size; bytes = d.bytes })
    ]
