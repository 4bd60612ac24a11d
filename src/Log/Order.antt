-- ===== src/Log/Order.antt =====
-- No byte of the log is lost or moves past another, whatever the order of the threads' steps.
use sharedhashfile.Prelude.{
  ℕ, ◌+◌, ◌-◌, ◌^◌, ◌≤◌, ◌≡◌, inr, refl, ◌∙◌, List, [], ◌++◌, length, Bool, true, false, arith,
}
use sharedhashfile.Layout.{u32}
use sharedhashfile.Mem.{Mem, get_mem, put_mem}
use sharedhashfile.Mem.Frame.{get_mem-Same, put_mem-Same, get_mem-put_mem}
use sharedhashfile.Queue.Pull.{append_assoc}
use sharedhashfile.Queue.Seg.{append_nil}
use sharedhashfile.Log.{Log, Drain, finish}
use sharedhashfile.Log.Steps.{
  Pc, waiting, writing, written, ended, System, Step, Reach, drain, after, append, signal, skip,
  begins, closes, writes, breaks, all_written, finishes, stops, here, then_,
}
use sharedhashfile.Log.Parts.{
  get_mem-append, Alike, Copied, try_append-Copies, Taken, Stuck, write_once-Passes, begin-Begins,
  finish-Dropped,
}

-- How much of the log's memory the descriptor took already.
abbrev pub taken : Pc → ℕ
taken waiting = 0
taken (writing last second log_used left work) = work
taken (written last second log_used left work) = work
taken (ended work) = work

abbrev pub Sound : ℕ → Pc → Type 0
Sound used waiting = Unit
Sound used (writing last second log_used left work) = (work + left ≡ log_used) × (log_used ≤ used)
Sound used (written last second log_used left work) = (work + left ≡ log_used) × (log_used ≤ used)
Sound used (ended work) = work ≤ used

-- The bytes that memory still holds for the descriptor.
abbrev pub kept : System → List ℕ
kept s = get_mem s.log.bytes (taken s.pc) (s.log.used - taken s.pc)

-- After the bytes `h` were appended.
pub record Ordered (h : List ℕ) (s : System) : Type 0 where
  pub bound : s.log.used ≤ s.log.size
  pub fits : s.log.size + 128 ≤ 2 ^ 32
  pub sound : Sound s.log.used s.pc
  pub all_bytes : h ≡ s.out ++ kept s

taken-le : (used : ℕ) (pc : Pc) → Sound used pc → taken pc ≤ used
taken-le used waiting s = omega arith
taken-le used (writing last second log_used left work) (e, l) = omega (arith, e, l)
taken-le used (written last second log_used left work) (e, l) = omega (arith, e, l)
taken-le used (ended work) l = l

Sound-mono : (used used' : ℕ) (pc : Pc) → used ≤ used' → Sound used pc → Sound used' pc
Sound-mono used used' waiting le s = tt
Sound-mono used used' (writing last second log_used left work) le (e, l) = (e, omega (arith, l))
Sound-mono used used' (written last second log_used left work) le (e, l) = (e, omega (arith, l))
Sound-mono used used' (ended work) le l = omega (arith, l)

-- A line behind what memory holds.
get_mem-copied :
    (m : Mem) (p used : ℕ) (line : List ℕ)
    → p ≤ used
    → get_mem (put_mem m used line) p ((used + length line) - p) ≡ get_mem m p (used - p) ++ line
get_mem-copied m p used line le =
    let split : (used + length line) - p ≡ (used - p) + length line = omega arith in
    let at : p + (used - p) ≡ used = omega arith in
    rw
      (
        split,
        get_mem-append (put_mem m used line) p (used - p) (length line),
        at,
        get_mem-put_mem m used line,
        get_mem-Same p (used - p) (put_mem-Same m used line p (used - p) (inr (omega arith))),
      )
      refl

append-Ordered :
    (h line : List ℕ) (s : System) (log : Log)
    → Ordered h s
    → Copied line s.log log
    → Ordered (h ++ line) (record s { log = log })
append-Ordered h line s log o c = record {
  bound = omega (arith, c.used, c.size, c.fits);
  fits = omega (arith, o.fits, c.size);
  sound = Sound-mono s.log.used log.used s.pc (omega (arith, c.used)) o.sound;
  all_bytes =
      rw
        (
          o.all_bytes,
          c.used,
          c.bytes,
          get_mem-copied s.log.bytes (taken s.pc) s.log.used line
              (taken-le s.log.used s.pc o.sound),
          append_assoc s.out (kept s) line,
        )
        refl;
}

-- Only the log thread's place and the flags change.
Alike-Ordered :
    (h : List ℕ) (s : System) (log : Log) (pc : Pc)
    → Ordered h s
    → Alike s.log log
    → taken pc ≡ taken s.pc
    → Sound s.log.used pc
    → Ordered h (record s { log = log; pc = pc })
Alike-Ordered h s log pc o a same sound = record {
  bound = omega (arith, o.bound, a.used, a.size);
  fits = omega (arith, o.fits, a.size);
  sound = rw (a.used) sound;
  all_bytes = rw (a.used, a.bytes, same) (o.all_bytes);
}

writes-Ordered :
    (h : List ℕ) (s : System) (last : Bool) (second log_used left work : ℕ) (d : Drain)
    → Ordered h s
    → s.pc ≡ writing last second log_used left work
    → Taken (drain s left work) d
    → Ordered h (after (writing last second log_used d.left d.work) d)
writes-Ordered h s last second log_used left work d o at t =
    let (e, l) = rw at at o.sound in
    let all_bytes = rw at at o.all_bytes in
    let rest : s.log.used - work ≡ t.count + (s.log.used - d.work) =
      omega (arith, t.work, t.most, e, l) in
    record {
      bound = omega (arith, o.bound, t.log.used, t.log.size);
      fits = omega (arith, o.fits, t.log.size);
      sound = (omega (arith, t.work, t.left, t.most, e), omega (arith, t.log.used, l));
      all_bytes =
          rw
            (
              all_bytes,
              t.out,
              t.log.bytes,
              t.log.used,
              rest,
              get_mem-append s.log.bytes work t.count (s.log.used - d.work),
              ← t.work,
              append_assoc s.out (get_mem s.log.bytes work t.count)
                  (get_mem s.log.bytes d.work (s.log.used - d.work)),
            )
            refl;
    }

Step-Ordered :
    (h line : List ℕ) (s s' : System) → Ordered h s → Step s line s' → Ordered (h ++ line) s'
Step-Ordered h _ s _ o (append prefix_len line log short e) =
    append-Ordered h line s log o
      (rw e at (try_append-Copies prefix_len line s.log short o.bound o.fits))
Step-Ordered h _ s _ o signal = rw (append_nil h) (
    Alike-Ordered h s (record s.log { running = 0 }) s.pc o
      (record { used = refl; size = refl; bytes = refl }) refl o.sound)
Step-Ordered h _ s _ o (skip second log at run e) =
    rw (append_nil h)
      (Alike-Ordered h s log s.pc o (rw e at (begin-Begins second s.log)) refl o.sound)
Step-Ordered h _ s _ o (begins second log_used log at run e) =
    let (a, used) = rw e at (begin-Begins second s.log) in
    rw (append_nil h) (
      Alike-Ordered h s log (writing false second log_used log_used 0) o a (rw at refl)
        (omega arith, omega (arith, used)))
Step-Ordered h _ s _ o (closes at run) = rw (append_nil h) (
    Alike-Ordered h s s.log (writing true 0 s.log.used s.log.used 0) o
      (record { used = refl; size = refl; bytes = refl }) (rw at refl) (omega arith, omega arith))
Step-Ordered h _ s _ o (writes last second log_used left work w d at some_left most e) =
    let (sum, l) = rw at at o.sound in
    rw (append_nil h) (
      writes-Ordered h s last second log_used left work d o at (
        rw e at (
          write_once-Passes w second (drain s left work) (omega (arith, sum, l, o.bound, o.fits))
            most)))
Step-Ordered h _ s _ o (breaks last second log_used left work w d at some_left most e) =
    let (sum, l) = rw at at o.sound in
    let t : Stuck (drain s left work) d = rw e at (
      write_once-Passes w second (drain s left work) (omega (arith, sum, l, o.bound, o.fits))
        most) in
    rw (append_nil h, t.out)
      (Alike-Ordered h s d.log (written last second log_used d.left d.work) o t.log
        (t.work ∙ rw at refl) (omega (arith, t.work, t.left, sum), l))
Step-Ordered h _ s _ o (all_written last second log_used work at) = rw (append_nil h) (
    Alike-Ordered h s s.log (written last second log_used 0 work) o
      (record { used = refl; size = refl; bytes = refl }) (rw at refl) (rw at at o.sound))
Step-Ordered h _ s _ o (finishes second log_used left work at) =
    let (sum, l) = rw at at o.sound in
    let d = finish-Dropped second log_used left work s.log sum l (omega (arith, o.bound, o.fits)) in
    let all_bytes = rw at at o.all_bytes in
    let whole : (finish second log_used left work s.log).used - 0 ≡ s.log.used - work =
      omega (arith, d.used) in
    rw (append_nil h) (record {
      bound = omega (arith, o.bound, d.used, d.size);
      fits = omega (arith, o.fits, d.size);
      sound = tt;
      all_bytes = rw (all_bytes, whole, d.bytes) refl;
    })
Step-Ordered h _ s _ o (stops second log_used left work at) =
    let (sum, l) = rw at at o.sound in
    rw (append_nil h) (
      Alike-Ordered h s (record s.log { stopped = u32 (s.log.stopped + 1) }) (ended work) o
        (record { used = refl; size = refl; bytes = refl }) (rw at refl) (omega (arith, sum, l)))

-- If the log is empty at first and at most 2 ^ 32 - 128 bytes long, then after any steps of the log
-- thread and of threads that append lines, in any order and whatever write() returns, as long as it
-- takes at most the bytes it is given: the appended lines, in the order in which they were
-- appended, are what the descriptor took followed by what memory still holds for it, and the log
-- uses at most its size.
pub Reach-Ordered :
    (s₀ : System) (h : List ℕ) (s : System)
    → s₀.pc ≡ waiting
    → s₀.log.used ≡ 0
    → s₀.out ≡ []
    → s₀.log.size + 128 ≤ 2 ^ 32
    → Reach s₀ h s
    → Ordered h s
unfolding get_mem
Reach-Ordered s₀ _ s at empty nothing small here = record {
  bound = omega (arith, empty);
  fits = small;
  sound = rw at tt;
  all_bytes = rw (at, empty, nothing) refl;
}
Reach-Ordered s₀ _ s at empty nothing small (then_ h line s₁ s₂ r step) =
    Step-Ordered h line s₁ s₂ (Reach-Ordered s₀ h s₁ at empty nothing small r) step
