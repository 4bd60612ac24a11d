-- ===== src/Log/Waits.antt =====
-- When shf_log_append() waits for good.
use sharedhashfile.Prelude.{
  ℕ, ◌+◌, ◌^◌, ◌≤◌, ◌<◌, ◌≡◌, refl, true, false, List, length, leb, ltb, arith,
}
use sharedhashfile.Layout.{u32, sub32}
use sharedhashfile.Log.{Log, waits, try_append}

-- A line that is shorter than the log but longer together with the prefix of its thread, which is
-- shorter than 128 bytes, is never appended: its thread waits at every pass, whatever was written.
pub try_append-waits :
    (prefix_len : ℕ) (line : List ℕ) (log : Log)
    → log.used ≤ log.size
    → log.size + 128 ≤ 2 ^ 32
    → prefix_len < 128
    → length line < log.size
    → log.size < prefix_len + length line
    → try_append prefix_len line log ≡ waits
unfolding try_append
try_append-waits prefix_len line log bound small short fits long =
    let t₁ : leb log.size (length line) ≡ false = ground arith in
    let t₂ : ltb (sub32 log.size log.used) (u32 (prefix_len + length line)) ≡ true = ground arith in
    rw (t₁, t₂) refl
