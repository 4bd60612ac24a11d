-- ===== src/Log/Steps.antt =====
-- The log thread and the threads that append lines, as steps that may come in any order. What a
-- thread does under the lock is one step, and so is each pass around write().
use sharedhashfile.Prelude.{ℕ, ◌+◌, ◌≤◌, ◌<◌, ◌≡◌, ◌≢◌, List, [], ◌++◌, Bool, true, false}
use sharedhashfile.Layout.{u32}
use sharedhashfile.Log.{
  Log, appended, try_append, Wrote, wrote, Drain, more, stop, write_once, idle, start, begin,
  finish,
}

-- Where the log thread is: at the head of its loop; around write(), in the loop or after it, with
-- `log_used`, `log_left` and `log_work`; past write(); or ended, with `log_work`.
pub data Pc : Type 0 where
  waiting : Pc
  writing : (last : Bool) (second log_used left work : ℕ) → Pc
  written : (last : Bool) (second log_used left work : ℕ) → Pc
  ended : (work : ℕ) → Pc

-- The log, the log thread, and the bytes that the descriptor took.
pub record System : Type 0 where
  pub log : Log
  pub pc : Pc
  pub out : List ℕ

-- write() takes at most the bytes it is given.
abbrev pub Bounded : ℕ → Wrote → Type 0
Bounded n w = (m : ℕ) → w ≡ wrote m → m ≤ n

abbrev pub drain : System → ℕ → ℕ → Drain
drain s left work = record { log = s.log; left = left; work = work; out = s.out }

abbrev pub after : Pc → Drain → System
after pc d = record { log = d.log; pc = pc; out = d.out }

-- A step, with the line that it appends. The prefix of a line is shorter than its buffer,
-- `shf_log_prefix`.
pub data Step (s : System) : List ℕ → System → Type 0 where
  append :
      (prefix_len : ℕ) (line : List ℕ) (log : Log)
      → prefix_len < 128
      → try_append prefix_len line s.log ≡ appended log
      → Step s line (record s { log = log })
  signal : Step s [] (record s { log = record s.log { running = 0 } })
  skip :
      (second : ℕ) (log : Log)
      → s.pc ≡ waiting
      → s.log.running ≢ 0
      → begin second s.log ≡ idle log
      → Step s [] (record s { log = log })
  begins :
      (second log_used : ℕ) (log : Log)
      → s.pc ≡ waiting
      → s.log.running ≢ 0
      → begin second s.log ≡ start log log_used
      → Step s [] (record s { log = log; pc = writing false second log_used log_used 0 })
  closes :
      s.pc ≡ waiting
      → s.log.running ≡ 0
      → Step s [] (record s { pc = writing true 0 s.log.used s.log.used 0 })
  writes :
      (last : Bool) (second log_used left work : ℕ) (w : Wrote) (d : Drain)
      → s.pc ≡ writing last second log_used left work
      → 0 < left
      → Bounded left w
      → write_once w second (drain s left work) ≡ more d
      → Step s [] (after (writing last second log_used d.left d.work) d)
  breaks :
      (last : Bool) (second log_used left work : ℕ) (w : Wrote) (d : Drain)
      → s.pc ≡ writing last second log_used left work
      → 0 < left
      → Bounded left w
      → write_once w second (drain s left work) ≡ stop d
      → Step s [] (after (written last second log_used d.left d.work) d)
  all_written :
      (last : Bool) (second log_used work : ℕ)
      → s.pc ≡ writing last second log_used 0 work
      → Step s [] (record s { pc = written last second log_used 0 work })
  finishes :
      (second log_used left work : ℕ)
      → s.pc ≡ written false second log_used left work
      → Step s [] (record s { log = finish second log_used left work s.log; pc = waiting })
  stops :
      (second log_used left work : ℕ)
      → s.pc ≡ written true second log_used left work
      → Step s []
          (record s { log = record s.log { stopped = u32 (s.log.stopped + 1) }; pc = ended work })

-- The states that steps lead to, with all the bytes that they appended.
pub data Reach (s₀ : System) : List ℕ → System → Type 0 where
  here : Reach s₀ [] s₀
  then_ :
      (h line : List ℕ) (s s' : System) → Reach s₀ h s → Step s line s' → Reach s₀ (h ++ line) s'
