-- ===== src/Lock.antt =====
-- The read/write lock of src/shf.lock.h: shf_rw_lock_writer(), shf_rw_unlock_writer(),
-- shf_rw_lock_reader() and shf_rw_unlock_reader(), an atomic access at a time, as threads interleave
-- them. The branches under `if (0)` and the counter of conflicts are left out.
pub mod Word
pub mod Inv
pub mod Moves
pub mod Safety
pub mod Spin
pub mod Holder
use sharedhashfile.Prelude.{ℕ, ◌+◌, ◌-◌, ◌*◌, ◌/◌, ◌%◌, ◌^◌, ◌<◌, ◌≡◌, ◌≢◌, Bool, true, false}
use sharedhashfile.Prelude.Family.{update}
use sharedhashfile.Layout.{u64}

-- SHF_RW_LOCK_INC_TICKET_NEXT_ACTIVE_WRITER and its like, added by __sync_fetch_and_add_8().
abbrev pub inc_active_writer : ℕ
inc_active_writer = 1

abbrev pub inc_active_reader : ℕ
inc_active_reader = 2 ^ 16

abbrev pub inc_next : ℕ
inc_next = 2 ^ 32

-- SHF_RW_LOCK_UNION: `as_u08.ticket_active_writer`, byte 0 of `as_u64`, and byte 2 and byte 4.
abbrev pub active_writer : ℕ → ℕ
active_writer w = w % 256

abbrev pub active_reader : ℕ → ℕ
active_reader w = w / 2 ^ 16 % 256

abbrev pub ticket_next : ℕ → ℕ
ticket_next w = w / 2 ^ 32 % 256

-- `pad_ticket_active_writer = 0`, byte 1, and the pads at byte 3 and byte 5.
abbrev pub clear_writer_pad : ℕ → ℕ
clear_writer_pad w = w - w / 2 ^ 8 % 256 * 2 ^ 8

abbrev pub clear_reader_pad : ℕ → ℕ
clear_reader_pad w = w - w / 2 ^ 24 % 256 * 2 ^ 24

abbrev pub clear_next_pad : ℕ → ℕ
clear_next_pad w = w - w / 2 ^ 40 % 256 * 2 ^ 40

-- Where a thread stands, with `ticket_next_pre_inc`.
pub data Pc : Type 0 where
  idle : Pc
  took_writer : (mine : ℕ) → Pc  -- shf_rw_lock_writer(), before the pad is cleared
  spin_writer : (mine : ℕ) → Pc  -- its loop
  writing : Pc  -- it has returned
  left_writer : Pc  -- shf_rw_unlock_writer(), before the first pad is cleared
  left_writer_pad : Pc  -- before the second
  took_reader : (mine : ℕ) → Pc  -- shf_rw_lock_reader(), before the pad is cleared
  spin_reader : (mine : ℕ) → Pc  -- its loop
  entered : Pc  -- behind the loop
  counted : Pc  -- before the pad is cleared
  reading : Pc  -- it has returned
  left_reader : Pc  -- shf_rw_unlock_reader(), before the pad is cleared

-- One access of one thread, from the word `w` and where it stands.
pub data Move (w : ℕ) : Pc → ℕ → Pc → Type 0 where
  take_writer : Move w idle (u64 (w + inc_next)) (took_writer (ticket_next w))
  clear_took_writer : {mine : ℕ} → Move w (took_writer mine) (clear_next_pad w) (spin_writer mine)
  wait_writer : {mine : ℕ} → active_writer w ≢ mine → Move w (spin_writer mine) w (spin_writer mine)
  enter_writer : {mine : ℕ} → active_writer w ≡ mine → Move w (spin_writer mine) w writing
  leave_writer : Move w writing (u64 (w + (inc_active_writer + inc_active_reader))) left_writer
  clear_left_writer : Move w left_writer (clear_writer_pad w) left_writer_pad
  clear_left_writer_pad : Move w left_writer_pad (clear_reader_pad w) idle
  take_reader : Move w idle (u64 (w + inc_next)) (took_reader (ticket_next w))
  clear_took_reader : {mine : ℕ} → Move w (took_reader mine) (clear_next_pad w) (spin_reader mine)
  wait_reader : {mine : ℕ} → active_reader w ≢ mine → Move w (spin_reader mine) w (spin_reader mine)
  enter_reader : {mine : ℕ} → active_reader w ≡ mine → Move w (spin_reader mine) w entered
  count_reader : Move w entered (u64 (w + inc_active_reader)) counted
  clear_counted : Move w counted (clear_reader_pad w) reading
  leave_reader : Move w reading (u64 (w + inc_active_writer)) left_reader
  clear_left_reader : Move w left_reader (clear_writer_pad w) idle

-- `n` threads at one lock, in any order.
pub record System : Type 0 where
  pub word : ℕ
  pub pc : ℕ → Pc

pub data Step (n : ℕ) (s : System) : System → Type 0 where
  pick :
      (i : ℕ) {w : ℕ} {p : Pc}
      → i < n
      → Move s.word (s.pc i) w p
      → Step n s (record { word = w; pc = update s.pc i p })

-- The lock in a new file, which is all zero bytes, and no thread at it.
abbrev pub unlocked : System
unlocked = record { word = 0; pc = λ i. idle }

pub data Reach (n : ℕ) : System → Type 0 where
  start : Reach n unlocked
  later : {s t : System} → Reach n s → Step n s t → Reach n t
