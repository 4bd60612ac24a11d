-- ===== src/Lock/Word.antt =====
-- The lock's word as its bytes.
use sharedhashfile.Prelude.{ℕ, ◌+◌, ◌*◌, ◌%◌, ◌^◌, ◌≤◌, ◌<◌, ◌≡◌, arith, if◌then◌else◌, ◌==◌}
use sharedhashfile.Layout.{u64}
use sharedhashfile.Lock.{
  active_writer, active_reader, ticket_next, clear_writer_pad, clear_reader_pad, clear_next_pad,
  inc_next, inc_active_writer, inc_active_reader,
}

-- The word with the tickets `aw`, `ar` and `nt`, modulo 256, and the pads behind them.
pub record Bytes (w aw ar nt p q r : ℕ) : Type 0 where
  pub word :
      w ≡ aw % 256 + 2 ^ 8 * p + 2 ^ 16 * (ar % 256) + 2 ^ 24 * q + 2 ^ 32 * (nt % 256) + 2 ^ 40 * r
  pub writer_pad : p ≤ 255
  pub reader_pad : q ≤ 255
  pub next_pad : r ≤ 255

-- What the carry adds to a pad.
abbrev pub carry : ℕ → ℕ
carry t = if t % 256 == 255 then 1 else 0

module _ (w aw ar nt p q r : ℕ) (b : Bytes w aw ar nt p q r) where
  pub active_writer_lem : active_writer w ≡ aw % 256
  active_writer_lem = omega (arith, b.word, b.writer_pad, b.reader_pad, b.next_pad)

  pub active_reader_lem : active_reader w ≡ ar % 256
  active_reader_lem = omega (arith, b.word, b.writer_pad, b.reader_pad, b.next_pad)

  pub ticket_next_lem : ticket_next w ≡ nt % 256
  ticket_next_lem = omega (arith, b.word, b.writer_pad, b.reader_pad, b.next_pad)

  pub clear_writer_pad-Bytes : Bytes (clear_writer_pad w) aw ar nt 0 q r
  clear_writer_pad-Bytes = record {
    word = omega (arith, b.word, b.writer_pad, b.reader_pad, b.next_pad);
    writer_pad = omega arith;
    reader_pad = b.reader_pad;
    next_pad = b.next_pad;
  }

  pub clear_reader_pad-Bytes : Bytes (clear_reader_pad w) aw ar nt p 0 r
  clear_reader_pad-Bytes = record {
    word = omega (arith, b.word, b.writer_pad, b.reader_pad, b.next_pad);
    writer_pad = b.writer_pad;
    reader_pad = omega arith;
    next_pad = b.next_pad;
  }

  pub clear_next_pad-Bytes : Bytes (clear_next_pad w) aw ar nt p q 0
  clear_next_pad-Bytes = record {
    word = omega (arith, b.word, b.writer_pad, b.reader_pad, b.next_pad);
    writer_pad = b.writer_pad;
    reader_pad = b.reader_pad;
    next_pad = omega arith;
  }

  pub next-Bytes : r < 255 → Bytes (u64 (w + inc_next)) aw ar (nt + 1) p q (r + carry nt)
  next-Bytes small = record {
    word = ground (arith, b.word, b.writer_pad, b.reader_pad, b.next_pad);
    writer_pad = b.writer_pad;
    reader_pad = b.reader_pad;
    next_pad = ground arith;
  }

  pub writer-Bytes : p < 255 → Bytes (u64 (w + inc_active_writer)) (aw + 1) ar nt (p + carry aw) q r
  writer-Bytes small = record {
    word = ground (arith, b.word, b.writer_pad, b.reader_pad, b.next_pad);
    writer_pad = ground arith;
    reader_pad = b.reader_pad;
    next_pad = b.next_pad;
  }

  pub reader-Bytes : q < 255 → Bytes (u64 (w + inc_active_reader)) aw (ar + 1) nt p (q + carry ar) r
  reader-Bytes small = record {
    word = ground (arith, b.word, b.writer_pad, b.reader_pad, b.next_pad);
    writer_pad = b.writer_pad;
    reader_pad = ground arith;
    next_pad = b.next_pad;
  }

  pub both-Bytes :
      p < 255
      → q < 255
      → Bytes
          (u64 (w + (inc_active_writer + inc_active_reader)))
          (aw + 1)
          (ar + 1)
          nt
          (p + carry aw)
          (q + carry ar)
          r
  both-Bytes small small' = record {
    word = ground (arith, b.word, b.writer_pad, b.reader_pad, b.next_pad);
    writer_pad = ground arith;
    reader_pad = ground arith;
    next_pad = b.next_pad;
  }
