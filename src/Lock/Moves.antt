-- ===== src/Lock/Moves.antt =====
-- A move of thread `i` keeps each part of the invariant.
use sharedhashfile.Prelude.{
  ℕ, ◌+◌, ◌%◌, ◌≤◌, ◌<◌, ◌≡◌, inl, inr, refl, true, some, arith, ◌==◌, Bool-cases,
}
use sharedhashfile.Prelude.Family.{update}
use sharedhashfile.Prelude.Sum.{total-change, total-le, total_mono}
use sharedhashfile.Lock.{
  active_writer, active_reader, Pc, writing, entered, Move, take_writer, clear_took_writer,
  wait_writer, enter_writer, leave_writer, clear_left_writer, clear_left_writer_pad, take_reader,
  clear_took_reader, wait_reader, enter_reader, count_reader, clear_counted, leave_reader,
  clear_left_reader,
}
use sharedhashfile.Lock.Word.{
  Bytes, carry, active_writer_lem, active_reader_lem, ticket_next_lem, clear_writer_pad-Bytes,
  clear_reader_pad-Bytes, clear_next_pad-Bytes, next-Bytes, writer-Bytes, reader-Bytes, both-Bytes,
}
use sharedhashfile.Lock.Inv.{
  holds, reads, waits, mine_of, on_writer_pad, on_reader_pad, on_next_pad, Ghost, count, Holder,
  Inv,
}

-- What a move does to the tickets.
abbrev taken : ℕ → Ghost → Ghost
taken i g = record g { nt = g.nt + 1; r = g.r + carry g.nt; ticket = update g.ticket i g.nt }

abbrev after : {w : ℕ} {a b : Pc} {w' : ℕ} → Move w a w' b → ℕ → Ghost → Ghost
after take_writer i g = taken i g
after take_reader i g = taken i g
after clear_took_writer i g = record g { r = 0 }
after clear_took_reader i g = record g { r = 0 }
after (wait_writer _) i g = g
after (wait_reader _) i g = g
after (enter_writer _) i g = g
after (enter_reader _) i g = g
after leave_writer i g = record g {
  aw = g.aw + 1;
  ar = g.ar + 1;
  p = g.p + carry g.aw;
  q = g.q + carry g.ar;
}
after clear_left_writer i g = record g { p = 0 }
after clear_left_writer_pad i g = record g { q = 0 }
after count_reader i g = record g { ar = g.ar + 1; q = g.q + carry g.ar }
after clear_counted i g = record g { q = 0 }
after leave_reader i g = record g { aw = g.aw + 1; p = g.p + carry g.aw }
after clear_left_reader i g = record g { p = 0 }

-- The premise of a move.
abbrev Guard : {w : ℕ} {a b : Pc} {w' : ℕ} → Move w a w' b → Type 0
Guard {w} (enter_writer {mine} _) = active_writer w ≡ mine
Guard {w} (enter_reader {mine} _) = active_reader w ≡ mine
Guard _ = Unit

guard : {w : ℕ} {a b : Pc} {w' : ℕ} (mv : Move w a w' b) → Guard mv
guard (enter_writer h) = h
guard (enter_reader h) = h
guard _ = tt

module _ {n w : ℕ} {pc : ℕ → Pc} {g : Ghost} (few : n ≤ 255) (inv : Inv n w pc g) (i : ℕ) where
  open inv use {bytes, range, local, distinct, writer, first, covered}

  count-update :
      (f : Pc → ℕ) (b : Pc) → i < n → count n f (update pc i b) + f (pc i) ≡ count n f pc + f b
  count-update f b lt =
      let change =
        total-change n (λ j. f (update pc i b j)) (λ j. f (pc j)) i lt (λ j ne. ground arith) in
      ground (arith, change)

  -- Thread `i` goes from `a` to `b`. A match on `Move` needs the variable `a` for `pc i`.
  record Mover (a b : Pc) : Type 0 where
    here : pc i ≡ a
    lt : i < n
    holders : count n holds (update pc i b) + holds a ≡ count n holds pc + holds b
    readers : count n reads (update pc i b) + reads a ≡ count n reads pc + reads b
    writer_pads :
        count n on_writer_pad (update pc i b) + on_writer_pad a
        ≡ count n on_writer_pad pc + on_writer_pad b
    reader_pads :
        count n on_reader_pad (update pc i b) + on_reader_pad a
        ≡ count n on_reader_pad pc + on_reader_pad b
    next_pads :
        count n on_next_pad (update pc i b) + on_next_pad a ≡ count n on_next_pad pc + on_next_pad b
    room_writer : count n on_writer_pad (update pc i b) ≤ n
    room_reader : count n on_reader_pad (update pc i b) ≤ n
    room_next : count n on_next_pad (update pc i b) ≤ n
    room : count n holds pc ≤ n
    fewer : count n reads pc ≤ count n holds pc

  mover : (b : Pc) → i < n → Mover (pc i) b
  mover b lt = record {
    here = refl;
    lt = lt;
    holders = count-update holds b lt;
    readers = count-update reads b lt;
    writer_pads = count-update on_writer_pad b lt;
    reader_pads = count-update on_reader_pad b lt;
    next_pads = count-update on_next_pad b lt;
    room_writer = total-le n _ (λ j. ground arith);
    room_reader = total-le n _ (λ j. ground arith);
    room_next = total-le n _ (λ j. ground arith);
    room = total-le n _ (λ j. ground arith);
    fewer = total_mono n _ _ (λ j. ground arith);
  }

  Move-counts : {a b : Pc} {w' : ℕ} (mv : Move w a w' b) → Mover a b → record {
    writer_pads : (after mv i g).p ≤ count n on_writer_pad (update pc i b);
    reader_pads : (after mv i g).q ≤ count n on_reader_pad (update pc i b);
    next_pads : (after mv i g).r ≤ count n on_next_pad (update pc i b);
    held : (after mv i g).nt ≡ (after mv i g).aw + count n holds (update pc i b);
    readers : (after mv i g).ar ≡ (after mv i g).aw + count n reads (update pc i b);
  }
  Move-counts take_writer f =
      ground (arith, inv.writer_pads, inv.reader_pads, inv.next_pads, inv.held, inv.readers)
  Move-counts mv f =
      ground (arith, inv.writer_pads, inv.reader_pads, inv.next_pads, inv.held, inv.readers)

  -- Before a thread adds to the word, the pads have room for a carry.
  Move-Bytes :
      {a b : Pc} {w' : ℕ} (mv : Move w a w' b)
      → Mover a b
      → Bytes w'
          (after mv i g).aw
          (after mv i g).ar
          (after mv i g).nt
          (after mv i g).p
          (after mv i g).q
          (after mv i g).r
  Move-Bytes take_writer f =
      next-Bytes w g.aw g.ar g.nt g.p g.q g.r bytes
        (omega (arith, f.next_pads, f.room_next, inv.next_pads))
  Move-Bytes take_reader f =
      next-Bytes w g.aw g.ar g.nt g.p g.q g.r bytes
        (omega (arith, f.next_pads, f.room_next, inv.next_pads))
  Move-Bytes clear_took_writer f = clear_next_pad-Bytes w g.aw g.ar g.nt g.p g.q g.r bytes
  Move-Bytes clear_took_reader f = clear_next_pad-Bytes w g.aw g.ar g.nt g.p g.q g.r bytes
  Move-Bytes (wait_writer h) f = bytes
  Move-Bytes (wait_reader h) f = bytes
  Move-Bytes (enter_writer h) f = bytes
  Move-Bytes (enter_reader h) f = bytes
  Move-Bytes leave_writer f =
      both-Bytes w g.aw g.ar g.nt g.p g.q g.r bytes
        (omega (arith, f.writer_pads, f.room_writer, inv.writer_pads))
        (omega (arith, f.reader_pads, f.room_reader, inv.reader_pads))
  Move-Bytes clear_left_writer f = clear_writer_pad-Bytes w g.aw g.ar g.nt g.p g.q g.r bytes
  Move-Bytes clear_left_writer_pad f = clear_reader_pad-Bytes w g.aw g.ar g.nt g.p g.q g.r bytes
  Move-Bytes count_reader f =
      reader-Bytes w g.aw g.ar g.nt g.p g.q g.r bytes
        (omega (arith, f.reader_pads, f.room_reader, inv.reader_pads))
  Move-Bytes clear_counted f = clear_reader_pad-Bytes w g.aw g.ar g.nt g.p g.q g.r bytes
  Move-Bytes leave_reader f =
      writer-Bytes w g.aw g.ar g.nt g.p g.q g.r bytes
        (omega (arith, f.writer_pads, f.room_writer, inv.writer_pads))
  Move-Bytes clear_left_reader f = clear_writer_pad-Bytes w g.aw g.ar g.nt g.p g.q g.r bytes

  room_now : count n holds pc ≤ n
  room_now = total-le n _ (λ j. ground arith)

  -- Of the tickets that wait, only the first agrees modulo 256 with the word's.
  at_reader :
      (t : ℕ)
      → i < n
      → waits (pc i) ≡ true
      → mine_of (pc i) ≡ some t
      → active_reader w ≡ t
      → g.ticket i ≡ g.ar
  at_reader t lt waiting mine e = omega (
    arith,
    range i lt waiting,
    local i t lt mine,
    active_reader_lem w g.aw g.ar g.nt g.p g.q g.r bytes,
    inv.held,
    inv.readers,
    room_now,
  )

  at_writer :
      (t : ℕ)
      → i < n
      → waits (pc i) ≡ true
      → mine_of (pc i) ≡ some t
      → active_writer w ≡ t
      → g.ticket i ≡ g.aw
  at_writer t lt waiting mine e = omega (
    arith,
    range i lt waiting,
    local i t lt mine,
    active_writer_lem w g.aw g.ar g.nt g.p g.q g.r bytes,
    inv.held,
    inv.readers,
    room_now,
  )

  Move-range :
      {a b : Pc} {w' : ℕ} (mv : Move w a w' b)
      → Mover a b
      → (j : ℕ) → j < n
      → waits (update pc i b j) ≡ true
      → ((after mv i g).ar ≤ (after mv i g).ticket j)
        × ((after mv i g).ticket j < (after mv i g).nt)
  Move-range take_writer f j l h = ground (arith, range j, inv.held, inv.readers, f.fewer)
  Move-range mv f j l h = ground (
    arith,
    guard mv,
    range j,
    range i,
    distinct i j,
    writer i,
    first i,
    inv.held,
    inv.readers,
    f.fewer,
    f.here,
    f.lt,
  )

  Move-local :
      {a b : Pc} {w' : ℕ} (mv : Move w a w' b)
      → Mover a b
      → (j t : ℕ) → j < n
      → mine_of (update pc i b j) ≡ some t
      → t ≡ (after mv i g).ticket j % 256
  Move-local take_writer f j t l h =
      ground (arith, local j t, ticket_next_lem w g.aw g.ar g.nt g.p g.q g.r bytes)
  Move-local take_reader f j t l h =
      ground (arith, local j t, ticket_next_lem w g.aw g.ar g.nt g.p g.q g.r bytes)
  Move-local mv f j t l h = ground (arith, local j t, local i t, f.here, f.lt)

  Move-distinct :
      {a b : Pc} {w' : ℕ} (mv : Move w a w' b)
      → Mover a b
      → (j k : ℕ) → j < n
      → k < n
      → waits (update pc i b j) ≡ true
      → waits (update pc i b k) ≡ true
      → (after mv i g).ticket j ≡ (after mv i g).ticket k
      → j ≡ k
  Move-distinct take_writer f j k lj lk hj hk e = ground (arith, distinct j k, range j, range k)
  Move-distinct take_reader f j k lj lk hj hk e = ground (arith, distinct j k, range j, range k)
  Move-distinct mv f j k lj lk hj hk e = ground (arith, distinct j k, f.here, f.lt)

  -- Where a thread writes, it has the first ticket, and the tickets agree.
  Move-writer :
      {a b : Pc} {w' : ℕ} (mv : Move w a w' b)
      → Mover a b
      → (j : ℕ) → j < n
      → update pc i b j ≡ writing
      → (after mv i g).ticket j ≡ (after mv i g).aw
  Move-writer take_writer f j l h = ground (arith, writer j)
  Move-writer (enter_writer {mine} e) f j l h = elim (Bool-cases (i == j)) [
    | inl same ↦
        let here : i ≡ j = ground arith in
        rw (← here) (at_writer mine f.lt (rw (f.here) refl) (rw (f.here) refl) e)
    | inr other ↦ writer j l (rw other at h)
  ]
  Move-writer mv f j l h = ground (
    arith,
    guard mv,
    writer j,
    writer i,
    range j,
    range i,
    distinct i j,
    inv.readers,
    f.here,
    f.lt,
  )

  Move-first :
      {a b : Pc} {w' : ℕ} (mv : Move w a w' b)
      → Mover a b
      → (j : ℕ) → j < n
      → update pc i b j ≡ entered
      → (after mv i g).ticket j ≡ (after mv i g).ar
  Move-first take_writer f j l h = ground (arith, first j)
  Move-first (enter_reader {mine} e) f j l h = elim (Bool-cases (i == j)) [
    | inl same ↦
        let here : i ≡ j = ground arith in
        rw (← here) (at_reader mine f.lt (rw (f.here) refl) (rw (f.here) refl) e)
    | inr other ↦ first j l (rw other at h)
  ]
  Move-first mv f j l h = ground (
    arith,
    guard mv,
    first j,
    first i,
    writer i,
    range j,
    range i,
    distinct i j,
    inv.readers,
    f.here,
    f.lt,
  )

  -- A new ticket is the mover's; a thread that moves on had the first ticket of those that wait.
  Move-covered :
      {a b : Pc} {w' : ℕ} (mv : Move w a w' b)
      → Mover a b
      → (d : ℕ) → (after mv i g).ar ≤ d
      → d < (after mv i g).nt
      → Holder n (update pc i b) (after mv i g) d
  Move-covered take_writer f d lo hi = elim (Bool-cases (d == g.nt)) [
    | inl e ↦ (i, f.lt, ground arith, ground arith)
    | inr e ↦
        let (j, l, h, t) = covered d lo (ground arith) in
        (j, l, ground (arith, f.here), ground (arith, f.here))
  ]
  Move-covered take_reader f d lo hi = elim (Bool-cases (d == g.nt)) [
    | inl e ↦ (i, f.lt, ground arith, ground arith)
    | inr e ↦
        let (j, l, h, t) = covered d lo (ground arith) in
        (j, l, ground (arith, f.here), ground (arith, f.here))
  ]
  Move-covered mv f d lo hi =
      let (j, l, h, t) = covered d (ground arith) (ground arith) in
      (j, l, ground (arith, writer i, range i, first i, inv.readers, f.here, f.lt), t)

  pub Move-Inv :
      {b : Pc} {w' : ℕ} (mv : Move w (pc i) w' b) → i < n → Inv n w' (update pc i b) (after mv i g)
  Move-Inv {b} mv lt = record {
    bytes = Move-Bytes mv f;
    writer_pads = writer_pads;
    reader_pads = reader_pads;
    next_pads = next_pads;
    held = held;
    readers = readers;
    range = Move-range mv f;
    local = Move-local mv f;
    distinct = Move-distinct mv f;
    writer = Move-writer mv f;
    first = Move-first mv f;
    covered = Move-covered mv f;
  }
    where
      f : Mover (pc i) b
      f = mover b lt

      open (Move-counts mv f) use {writer_pads, reader_pads, next_pads, held, readers}
