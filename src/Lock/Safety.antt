-- ===== src/Lock/Safety.antt =====
-- What holds of the lock in every state that threads can reach.
use sharedhashfile.Prelude.{ℕ, ◌%◌, ◌/◌, ◌^◌, ◌≤◌, ◌<◌, ◌≡◌, ◌⊎◌, refl, true, some, arith}
use native.Mathlib.Decide.{ℕ_discrete}
use sharedhashfile.Prelude.Sum.{total-zero, total-some, le-total}
use sharedhashfile.Lock.{
  active_writer, active_reader, Pc, idle, spin_writer, writing, spin_reader, reading, System, pick,
  Reach, start, later, unlocked,
}
use sharedhashfile.Lock.Word.{active_writer_lem, active_reader_lem}
use sharedhashfile.Lock.Inv.{
  holds, reads, waits, mine_of, Ghost, Inv, count, on_writer_pad, on_reader_pad, on_next_pad,
}
use sharedhashfile.Lock.Moves.{Move-Inv}

-- `pad_ticket_active_writer`, `pad_ticket_active_reader` and `pad_ticket_next`
abbrev pub writer_pad : ℕ → ℕ
writer_pad w = w / 2 ^ 8 % 256

abbrev pub reader_pad : ℕ → ℕ
reader_pad w = w / 2 ^ 24 % 256

abbrev pub next_pad : ℕ → ℕ
next_pad w = w / 2 ^ 40 % 256

abbrev no_tickets : Ghost
no_tickets = record { aw = 0; ar = 0; nt = 0; p = 0; q = 0; r = 0; ticket = λ i. 0 }

unlocked-Inv : (n : ℕ) → Inv n unlocked.word unlocked.pc no_tickets
unlocked-Inv n = record {
  bytes = record {
    word = refl;
    writer_pad = omega arith;
    reader_pad = omega arith;
    next_pad = omega arith;
  };
  writer_pads = omega arith;
  reader_pads = omega arith;
  next_pads = omega arith;
  held = omega (arith, total-zero n (λ i. 0) (λ j l. refl));
  readers = omega (arith, total-zero n (λ i. 0) (λ j l. refl));
  range = λ i l h. cc;
  local = λ i t l h. cc;
  distinct = λ i j l k h h' e. cc;
  writer = λ i l h. cc;
  first = λ i l h. cc;
  covered = λ d lo hi. absurd (omega arith);
}

pub Reach-Inv : {n : ℕ} {s : System} → n ≤ 255 → Reach n s → (g : Ghost) × Inv n s.word s.pc g
Reach-Inv {n} few start = (no_tickets, unlocked-Inv n)
Reach-Inv few (later r (pick i lt mv)) =
    let (g, inv) = Reach-Inv few r in (_, Move-Inv few inv i mv lt)

-- With at most 255 threads at a lock, in every state that they can reach: where shf_rw_lock_writer()
-- has returned to a thread that has not called shf_rw_unlock_writer(), no other thread is between
-- the two, nor between the returns of shf_rw_lock_reader() and the call of shf_rw_unlock_reader().
pub rw_exclusion :
    {n : ℕ} {s : System} (i j : ℕ)
    → n ≤ 255
    → Reach n s
    → i < n
    → j < n
    → s.pc i ≡ writing
    → (s.pc j ≡ writing) ⊎ (s.pc j ≡ reading)
    → i ≡ j
rw_exclusion {n} {s} i j few r lt lt' at_i at_j =
    let (g, inv) = Reach-Inv few r in
    ground (
      arith,
      inv.writer i,
      inv.writer j,
      inv.range i,
      inv.distinct i j,
      inv.readers,
      le-total n (λ k. reads (s.pc k)) j lt',
    )

-- A thread that is not in a loop, or whose loop ends at its next test.
abbrev pub CanGo : ℕ → Pc → Type 0
CanGo w idle = ⊥
CanGo w (spin_writer t) = active_writer w ≡ t
CanGo w (spin_reader t) = active_reader w ≡ t
CanGo w _ = Unit

module _ {n : ℕ} {s : System} {g : Ghost} (inv : Inv n s.word s.pc g) (j : ℕ) (lt : j < n) where
  writer_now : active_writer s.word ≡ g.aw % 256
  writer_now = active_writer_lem s.word g.aw g.ar g.nt g.p g.q g.r inv.bytes

  reader_now : active_reader s.word ≡ g.ar % 256
  reader_now = active_reader_lem s.word g.aw g.ar g.nt g.p g.q g.r inv.bytes

  -- The first of the threads that wait, if there are no readers.
  first-CanGo :
      (p : Pc) → s.pc j ≡ p → waits p ≡ true → g.ticket j ≡ g.ar → g.aw ≡ g.ar → CanGo s.word p
  first-CanGo idle e h t same = absurd (ground arith)
  first-CanGo (spin_writer m) e h t same =
      let mine = inv.local j m lt (rw e refl) in omega (arith, mine, writer_now)
  first-CanGo (spin_reader m) e h t same =
      let mine = inv.local j m lt (rw e refl) in omega (arith, mine, reader_now)
  first-CanGo p e h t same = ground arith

  reads-CanGo : (p : Pc) → s.pc j ≡ p → 0 < reads p → CanGo s.word p
  reads-CanGo idle e h = absurd (omega arith)
  reads-CanGo p e h = ground arith

-- With at most 255 threads at a lock, in every state that they can reach: if a thread has a ticket
-- and its loop has not ended, then some thread, of those that have not yet given back their ticket,
-- is in no loop, or its loop ends at its next test.
pub rw_no_deadlock :
    {n : ℕ} {s : System} (i t : ℕ)
    → n ≤ 255
    → Reach n s
    → i < n
    → mine_of (s.pc i) ≡ some t
    → (j : ℕ) × (j < n) × (holds (s.pc j) ≡ 1) × CanGo s.word (s.pc j)
rw_no_deadlock {n} {s} i t few r lt mine =
    let (g, inv) = Reach-Inv few r in
    let waiting : waits (s.pc i) ≡ true = ground arith in
    let (j, l, h, at_ar) = inv.covered g.ar (omega arith) (omega (arith, inv.range i lt waiting)) in
    elim (ℕ_discrete g.aw g.ar) [
      | yes same ↦ (j, l, ground arith, first-CanGo inv j l (s.pc j) refl h at_ar same)
      | no other ↦
          let (k, l', some_reader) =
            total-some n (λ m. reads (s.pc m)) (omega (arith, inv.readers)) in
          (k, l', ground arith, reads-CanGo inv k l' (s.pc k) refl some_reader)
    ]

-- With at most 255 threads, in every state that threads can reach, each pad is at most the number of threads
-- that are about to clear it, so that none carries into the byte behind it, and the two bytes above the
-- tickets are 0.
pub rw_pads_bounded :
    {n : ℕ} {s : System}
    → n ≤ 255
    → Reach n s
    → (writer_pad s.word ≤ count n on_writer_pad s.pc)
      × (reader_pad s.word ≤ count n on_reader_pad s.pc)
      × (next_pad s.word ≤ count n on_next_pad s.pc)
      × (s.word < 2 ^ 48)
rw_pads_bounded few r =
    let (g, inv) = Reach-Inv few r in
    let b = inv.bytes in
    (
      omega (arith, b.word, b.writer_pad, b.reader_pad, b.next_pad, inv.writer_pads),
      omega (arith, b.word, b.writer_pad, b.reader_pad, b.next_pad, inv.reader_pads),
      omega (arith, b.word, b.writer_pad, b.reader_pad, b.next_pad, inv.next_pads),
      omega (arith, b.word, b.writer_pad, b.reader_pad, b.next_pad),
    )
