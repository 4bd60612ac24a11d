-- ===== src/Lock/Inv.antt =====
-- Who holds which ticket of the lock.
use sharedhashfile.Prelude.{ℕ, ◌+◌, ◌%◌, ◌≤◌, ◌<◌, ◌≡◌, Bool, true, false, Option, none, some}
use sharedhashfile.Prelude.Sum.{total}
use sharedhashfile.Lock.{
  Pc, idle, took_writer, spin_writer, writing, left_writer, left_writer_pad, took_reader,
  spin_reader, entered, counted, reading, left_reader,
}
use sharedhashfile.Lock.Word.{Bytes}

-- The lock's owner, or a thread that waits for it: a ticket that was taken and not given back.
abbrev pub holds : Pc → ℕ
holds idle = 0
holds left_writer = 0
holds left_writer_pad = 0
holds left_reader = 0
holds _ = 1

-- A reader that has let the next thread go on.
abbrev pub reads : Pc → ℕ
reads counted = 1
reads reading = 1
reads _ = 0

-- A ticket that `ticket_active_reader` has not passed.
abbrev pub waits : Pc → Bool
waits idle = false
waits left_writer = false
waits left_writer_pad = false
waits left_reader = false
waits counted = false
waits reading = false
waits _ = true

abbrev pub mine_of : Pc → Option ℕ
mine_of (took_writer t) = some t
mine_of (spin_writer t) = some t
mine_of (took_reader t) = some t
mine_of (spin_reader t) = some t
mine_of _ = none

-- A thread that is about to clear a pad.
abbrev pub on_writer_pad : Pc → ℕ
on_writer_pad left_writer = 1
on_writer_pad left_reader = 1
on_writer_pad _ = 0

abbrev pub on_reader_pad : Pc → ℕ
on_reader_pad left_writer = 1
on_reader_pad left_writer_pad = 1
on_reader_pad counted = 1
on_reader_pad _ = 0

abbrev pub on_next_pad : Pc → ℕ
on_next_pad (took_writer _) = 1
on_next_pad (took_reader _) = 1
on_next_pad _ = 0

-- The tickets of the word without the wrap at 256, its pads, and the ticket that each thread took.
pub record Ghost : Type 0 where
  pub aw : ℕ
  pub ar : ℕ
  pub nt : ℕ
  pub p : ℕ
  pub q : ℕ
  pub r : ℕ
  pub ticket : ℕ → ℕ

abbrev pub count : ℕ → (Pc → ℕ) → (ℕ → Pc) → ℕ
count n f pc = total n (λ i. f (pc i))

abbrev pub Holder : ℕ → (ℕ → Pc) → Ghost → ℕ → Type 0
Holder n pc g d = (i : ℕ) × (i < n) × (waits (pc i) ≡ true) × (g.ticket i ≡ d)

pub record Inv (n : ℕ) (w : ℕ) (pc : ℕ → Pc) (g : Ghost) : Type 0 where
  pub bytes : Bytes w g.aw g.ar g.nt g.p g.q g.r
  pub writer_pads : g.p ≤ count n on_writer_pad pc
  pub reader_pads : g.q ≤ count n on_reader_pad pc
  pub next_pads : g.r ≤ count n on_next_pad pc
  pub held : g.nt ≡ g.aw + count n holds pc
  pub readers : g.ar ≡ g.aw + count n reads pc
  pub range : (i : ℕ) → i < n → waits (pc i) ≡ true → (g.ar ≤ g.ticket i) × (g.ticket i < g.nt)
  pub local : (i t : ℕ) → i < n → mine_of (pc i) ≡ some t → t ≡ g.ticket i % 256
  pub distinct :
      (i j : ℕ)
      → i < n
      → j < n
      → waits (pc i) ≡ true
      → waits (pc j) ≡ true
      → g.ticket i ≡ g.ticket j
      → i ≡ j
  pub writer : (i : ℕ) → i < n → pc i ≡ writing → g.ticket i ≡ g.aw
  pub first : (i : ℕ) → i < n → pc i ≡ entered → g.ticket i ≡ g.ar
  pub covered : (d : ℕ) → g.ar ≤ d → d < g.nt → Holder n pc g d
