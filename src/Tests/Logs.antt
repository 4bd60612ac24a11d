-- ===== src/Tests/Logs.antt =====
-- The theorems on the log at concrete states, and runs.
use sharedhashfile.Prelude.{
  ℕ, zero, suc, ◌==◌, if◌then◌else◌, abort, ◌+◌, ◌≡◌, refl, ap, inl, inr, List, [], ◌∷◌, Option,
  none, some, arith,
}
use sharedhashfile.Mem.{get_mem, put_mem}
use sharedhashfile.Log.{
  Log, appended, waits, try_append, Wrote, wrote, blocked, interrupted, failed, write_loop,
  write_once, begin, reposition, finish, thread_pass, shut_down, map_tid,
}
use sharedhashfile.Log.Steps.{waiting, System, Reach, here, then_, append, Bounded}
use sharedhashfile.Log.Order.{Ordered, Reach-Ordered}
use sharedhashfile.Log.Loop.{Splits, thread_pass-Splits, Closes, shut_down-Closes}
use sharedhashfile.Log.Tids.{Mapped, Maps, map_tid-Numbered}
use sharedhashfile.Log.Waits.{try_append-waits}
use sharedhashfile.Log.Format.{Buffer, log_vfprintf, log_line}
use sharedhashfile.Log.Line.{Buffered, log_vfprintf-Buffered}
use sharedhashfile.Log.Fit.{fitting, log_line-fitting}
use sharedhashfile.Log.Emits.{Emits}
use sharedhashfile.Log.Sink.{
  then_ as then_call, Sink, stdout, shf_log, emit, user, log_all, output_set,
}

abbrev empty_log : Log
empty_log = record {
  second = 0;
  write_fail = 0;
  writing = 0;
  used_hi = 0;
  used_hi_new = 0;
  used = 0;
  size = 8;
  running = 1;
  stopped = 0;
  tids = λ t. 0;
  tid_id = 0;
  bytes = λ a. 0;
}

-- Three bytes were appended.
abbrev some_log : Log
some_log = record empty_log { used = 3; bytes = λ a. a + 65 }

abbrev system : System
system = record { log = empty_log; pc = waiting; out = [] }

abbrev copied : Log
copied = record empty_log { used = 2; bytes = put_mem (λ a. 0) 0 (65 ∷ 66 ∷ []) }

abbrev reached : System
reached = record system { log = copied }

append_runs : try_append 1 (65 ∷ 66 ∷ []) empty_log ≡ appended copied
unfolding try_append
append_runs = refl

reach : Reach system (65 ∷ 66 ∷ []) reached
reach =
    then_ [] (65 ∷ 66 ∷ []) system reached here
      (append 1 (65 ∷ 66 ∷ []) copied (omega arith) append_runs)

Reach-Ordered_example : Ordered (65 ∷ 66 ∷ []) reached
Reach-Ordered_example =
    Reach-Ordered system (65 ∷ 66 ∷ []) reached refl refl refl (omega arith) reach

-- write() takes a byte at a time, and blocks at its third call.
abbrev at_most_one : ℕ → Wrote
at_most_one zero = blocked
at_most_one (suc n) = wrote 1

abbrev one_byte : ℕ → ℕ → Wrote
one_byte zero n = at_most_one n
one_byte (suc zero) n = at_most_one n
one_byte (suc (suc k)) n = blocked

abbrev count : Wrote → ℕ
count (wrote n) = n
count blocked = 0
count interrupted = 0
count failed = 0

at_most_one-Bounded : (n : ℕ) → Bounded n (at_most_one n)
at_most_one-Bounded zero m e = let c = ap count e in omega (arith, c)
at_most_one-Bounded (suc n) m e = let c = ap count e in omega (arith, c)

one_byte-Bounded : (k n : ℕ) → Bounded n (one_byte k n)
one_byte-Bounded zero n m e = at_most_one-Bounded n m e
one_byte-Bounded (suc zero) n m e = at_most_one-Bounded n m e
one_byte-Bounded (suc (suc k)) n m e = let c = ap count e in omega (arith, c)

thread_pass-Splits_example : Splits some_log (thread_pass one_byte 1 some_log)
thread_pass-Splits_example = thread_pass-Splits one_byte 1 some_log one_byte-Bounded (omega arith)

shut_down-Closes_example : Closes one_byte some_log (shut_down one_byte some_log)
shut_down-Closes_example = shut_down-Closes one_byte some_log one_byte-Bounded (omega arith)

abbrev written : Option (Log × List ℕ) → List ℕ × ℕ
written none = ([], 0)
written (some (log, bs)) = (bs, log.used)

two_of_three : written (thread_pass one_byte 1 some_log) ≡ ((65 ∷ 66 ∷ []), 1)
unfolding thread_pass begin write_loop write_once finish reposition get_mem put_mem
two_of_three = refl

none-Mapped : Mapped empty_log
none-Mapped = record {
  few = omega arith;
  given = λ t. omega arith;
  single = λ t u e. absurd (e refl);
}

map_tid-Numbered_example : Maps 4242 empty_log (map_tid 4242 empty_log)
map_tid-Numbered_example = map_tid-Numbered 4242 empty_log none-Mapped (inr (omega arith))

waits_example : try_append 20 (65 ∷ 66 ∷ []) empty_log ≡ waits
waits_example =
    try_append-waits 20 (65 ∷ 66 ∷ []) empty_log (omega arith) (omega arith) (omega arith)
      (omega arith) (omega arith)

log_line-fitting_example :
    log_line (48 ∷ []) (65 ∷ 66 ∷ []) [] (10 ∷ []) (λ a. 0)
    ≡ (fitting (48 ∷ []) (65 ∷ 66 ∷ []) [] (10 ∷ [])).1
log_line-fitting_example =
    log_line-fitting (48 ∷ []) (65 ∷ 66 ∷ []) [] (10 ∷ []) (λ a. 0) (inl refl)

-- The buffer holds 'A', and then "B\n" is printed.
abbrev a_buffer : Buffer
a_buffer = record { bytes = λ a. 65; index = 1 }

holds_a : get_mem a_buffer.bytes 0 a_buffer.index ≡ (65 ∷ [])
unfolding get_mem
holds_a = refl

log_vfprintf-Buffered_example :
    Buffered (65 ∷ []) (66 ∷ []) 10 (log_vfprintf (66 ∷ 10 ∷ []) a_buffer)
log_vfprintf-Buffered_example =
    log_vfprintf-Buffered (65 ∷ []) (66 ∷ []) 10 a_buffer refl holds_a (omega arith)

abbrev quiet_sink : Sink
quiet_sink = record {
  instance_ = none;
  log = none;
  log_thread_active = 0;
  output = stdout;
  failsafe = 0;
}

abbrev attached_sink : Sink
attached_sink = record quiet_sink { instance_ = some 7; log = some empty_log; output = shf_log }

abbrev logs_twice : ℕ → List (List ℕ)
logs_twice n = if n == 0 then [] else (65 ∷ []) ∷ (66 ∷ []) ∷ []

-- A user's output function that logs a line trips the failsafe; one that does not gets the line.
recursion : emit logs_twice 2 1 (65 ∷ []) (output_set (user 1) quiet_sink) ≡ abort
unfolding emit log_all output_set
recursion = refl
