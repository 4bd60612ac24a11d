-- ===== src/Tests/Locks.antt =====
-- The theorems on the lock at concrete states.
use sharedhashfile.Prelude.{ℕ, ◌*◌, ◌^◌, ◌<◌, ◌≤◌, ◌≡◌, inl, refl, arith}
use sharedhashfile.Prelude.Family.{update}
use sharedhashfile.Lock.{
  System, Pc, idle, writing, pick, Reach, start, later, take_writer, clear_took_writer,
  enter_writer, take_reader, clear_took_reader,
}
use sharedhashfile.Lock.Inv.{holds, count, on_writer_pad, on_reader_pad, on_next_pad}
use sharedhashfile.Lock.Safety.{
  rw_exclusion, rw_no_deadlock, rw_pads_bounded, CanGo, writer_pad, reader_pad, next_pad,
}

-- Thread 0 writes, and thread 1 waits to read.
abbrev state : System
state = record {
  word = 2 * 2 ^ 32;
  pc =
      update
        (update
          (update (update (update (λ i. idle) 0 (Pc.took_writer 0)) 0 (Pc.spin_writer 0)) 0 writing)
          1 (Pc.took_reader 1))
        1 (Pc.spin_reader 1);
}

reach : Reach 2 state
reach =
    later
      (later
        (later
          (later (later start (pick 0 (omega arith) take_writer))
            (pick 0 (omega arith) clear_took_writer))
          (pick 0 (omega arith) (enter_writer refl)))
        (pick 1 (omega arith) take_reader))
      (pick 1 (omega arith) clear_took_reader)

rw_exclusion_example : ◌≡◌ {A = ℕ} 0 0
rw_exclusion_example =
    rw_exclusion {s = state} 0 0 (omega arith) reach (omega arith) (omega arith) refl (inl refl)

rw_no_deadlock_example :
    (j : ℕ) × (j < 2) × (holds (state.pc j) ≡ 1) × CanGo state.word (state.pc j)
rw_no_deadlock_example = rw_no_deadlock {s = state} 1 1 (omega arith) reach (omega arith) refl

rw_pads_bounded_example :
    (writer_pad state.word ≤ count 2 on_writer_pad state.pc)
    × (reader_pad state.word ≤ count 2 on_reader_pad state.pc)
    × (next_pad state.word ≤ count 2 on_next_pad state.pc)
    × (state.word < 2 ^ 48)
rw_pads_bounded_example = rw_pads_bounded {s = state} (omega arith) reach
