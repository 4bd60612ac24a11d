-- ===== src/Log.antt =====
-- The log of src/shf.c: the shared memory that threads append lines to, and the thread that writes
-- it to a file descriptor. Statistics and warnings to syslog, and the checks under
-- SHF_DEBUG_VERSION, are left out.
pub mod Steps
pub mod Parts
pub mod Order
pub mod Loop
pub mod Tids
pub mod Waits
pub mod Format
pub mod Fit
pub mod Line
pub mod Sink
pub mod Emits
use sharedhashfile.Prelude.{
  ℕ, zero, suc, ◌+◌, ◌*◌, ◌%◌, List, [], ◌∷◌, ◌++◌, length, Bool, true, false, ◌&&◌, ◌||◌, Option,
  none, some, ltb, leb, ◌==◌, if◌then◌else◌, Run, ok, abort,
}
use mathlib.Core.Bool.{not}
use sharedhashfile.Layout.{u32, sub32}
use sharedhashfile.Prelude.Family.{update}
use sharedhashfile.Mem.{Mem, get_mem, put_mem}

-- SHF_LOG_WRITE_THRESHOLD
abbrev pub write_threshold : ℕ
write_threshold = 64 * 1024

-- SHF_LOG_MMAP, without its lock and times.
pub record Log : Type 0 where
  pub second : ℕ
  pub write_fail : ℕ
  pub writing : ℕ
  pub used_hi : ℕ
  pub used_hi_new : ℕ
  pub used : ℕ
  pub size : ℕ
  pub running : ℕ
  pub stopped : ℕ
  pub tids : ℕ → ℕ
  pub tid_id : ℕ
  pub bytes : Mem

-- One pass of shf_log_append(): the line was too long, or the thread has to wait, or it was copied.
pub data Tried : Type 0 where
  ignored : Tried
  waits : Tried
  appended : Log → Tried

-- shf_log_append(): the test before the loop, and one pass of the loop.
unfoldable pub try_append : ℕ → List ℕ → Log → Tried
try_append prefix_len line log =
    if leb log.size (length line)
    then ignored
    else (if ltb (sub32 log.size log.used) (u32 (prefix_len + length line))
        then waits
        else appended (record log {
          bytes = put_mem log.bytes log.used line;
          used = u32 (log.used + length line);
        }))

-- What write() returns: a count, or -1 with EAGAIN or EWOULDBLOCK, with EINTR, or with another error.
pub data Wrote : Type 0 where
  wrote : ℕ → Wrote
  blocked : Wrote
  interrupted : Wrote
  failed : Wrote

-- The log thread in SHF_LOG_THREAD_WRITE: `log_left`, `log_work` as an offset from `bytes`, and the
-- bytes that the descriptor took.
pub record Drain : Type 0 where
  pub log : Log
  pub left : ℕ
  pub work : ℕ
  pub out : List ℕ

-- What a pass of the loop leads to: the next pass, or the end.
pub data Pass : Type 0 where
  more : Drain → Pass
  stop : Drain → Pass

-- SHF_LOG_THREAD_WRITE: a pass of the loop, where `log_left` is above 0.
unfoldable pub write_once : Wrote → ℕ → Drain → Pass
write_once blocked second d = stop (record d { log = record d.log { writing = 1 } })
write_once interrupted second d = stop (record d { log = record d.log { writing = 1 } })
write_once failed second d =
    stop (record d { log = record d.log { writing = 1; write_fail = second } })
write_once (wrote n) second d =
    if n == 0
    then stop (record d { log = record d.log { writing = 1 } })
    else more (record {
      log = record d.log { writing = 1 };
      left = sub32 d.left n;
      work = d.work + n;
      out = d.out ++ get_mem d.log.bytes d.work n;
    })

abbrev pub loop_on : (Drain → Option Drain) → Pass → Option Drain
loop_on rest (more d) = rest d
loop_on rest (stop d) = some d

-- SHF_LOG_THREAD_WRITE: the loop, where `write k n` is what call `k` of write() returns for `n`
-- bytes. There is no result if the fuel runs out.
unfoldable pub write_loop : (ℕ → ℕ → Wrote) → ℕ → ℕ → ℕ → Drain → Option Drain
write_loop write second zero k d = none
write_loop write second (suc fuel) k d =
    let rest = write_loop write second fuel (k + 1) in
    if d.left == 0 then some d else loop_on rest (write_once (write k d.left) second d)

-- What the log thread does with the log that it sees: nothing, or write that many bytes.
pub data Begun : Type 0 where
  idle : Log → Begun
  start : Log → ℕ → Begun

-- shf_log_thread(), in its loop: up to SHF_LOG_THREAD_WRITE.
unfoldable pub begin : ℕ → Log → Begun
begin second log =
    let log₁ =
      if ltb log.used_hi log.used
      then record log { used_hi = log.used; used_hi_new = 1 }
      else log in
    if ltb 0 log.used && not (log.write_fail == second)
    then (if not (log.second == second) || leb write_threshold log.used
        then start log₁ log.used
        else idle log₁)
    else idle log

-- shf_log_thread(), in its loop: moving the log that was not written to the front.
unfoldable pub reposition : ℕ → ℕ → ℕ → Log → Log
reposition log_used left work log =
    if log_used == left
    then log
    else (let used = u32 (left + sub32 log.used log_used) in
        record log { used = used; bytes = put_mem log.bytes 0 (get_mem log.bytes work used) })

-- shf_log_thread(), in its loop: after SHF_LOG_THREAD_WRITE.
unfoldable pub finish : ℕ → ℕ → ℕ → ℕ → Log → Log
finish second log_used left work log =
    let log₁ = record (reposition log_used left work log) { writing = 0 } in
    if log₁.second == second then log₁ else record log₁ { used_hi_new = 0; second = second }

abbrev pub finish_loop : ℕ → ℕ → Option Drain → Option (Log × List ℕ)
finish_loop second log_used none = none
finish_loop second log_used (some d) = some (finish second log_used d.left d.work d.log, d.out)

-- SHF_LOG_THREAD_WRITE for the first `log_used` bytes, with enough fuel.
abbrev pub write_front : (ℕ → ℕ → Wrote) → ℕ → ℕ → Log → Option Drain
write_front write second log_used log =
    write_loop write second (log_used + 1) 0
      (record { log = log; left = log_used; work = 0; out = [] })

abbrev pub thread_rest : (ℕ → ℕ → Wrote) → ℕ → Begun → Option (Log × List ℕ)
thread_rest write second (idle log) = some (log, [])
thread_rest write second (start log log_used) =
    finish_loop second log_used (write_front write second log_used log)

-- shf_log_thread(): a pass of the loop with no other thread in between, with what the descriptor took.
unfoldable pub thread_pass : (ℕ → ℕ → Wrote) → ℕ → Log → Option (Log × List ℕ)
thread_pass write second log = thread_rest write second (begin second log)

abbrev pub shut_loop : Option Drain → Option (Log × List ℕ)
shut_loop none = none
shut_loop (some d) = some (record d.log { stopped = u32 (d.log.stopped + 1) }, d.out)

-- shf_log_thread(), after its loop.
unfoldable pub shut_down : (ℕ → ℕ → Wrote) → Log → Option (Log × List ℕ)
shut_down write log = shut_loop (write_front write 0 log.used log)

-- SHF_PID_MAX
abbrev pub pid_max : ℕ
pid_max = 131072

-- shf_log_prefix_get(): the number that stands for the thread with identifier `tid`; the process exits if
-- there is no place for it.
unfoldable pub map_tid : ℕ → Log → Run (ℕ × Log)
map_tid tid log =
    let log₁ =
      if log.tids tid == 0
      then record log {
        tid_id = (log.tid_id + 1) % 256;
        tids = update log.tids tid ((log.tid_id + 1) % 256);
      }
      else log in
    if leb pid_max tid then abort else ok (log₁.tids tid, log₁)
