-- ===== src/Log/Sink.antt =====
-- Where a process's log lines go: shf_log_output_set(), shf_log_attach_existing(),
-- shf_log_detach_existing(), shf_log_thread_new(), shf_log_thread_del() and the end of
-- shf_log_thread() of src/shf.c. What the key `__log` holds is given, and time and pthread_create()
-- are left out.
use sharedhashfile.Prelude.{
  ℕ, zero, suc, ◌+◌, ◌*◌, ◌≡◌, Bool, true, false, ◌==◌, if◌then◌else◌, Option, none, some, List, [],
  ◌∷◌, Run, ok, abort, assert, ◌>>◌, ◌>>=◌,
}
use sharedhashfile.Layout.{u32, sub32}
use sharedhashfile.Log.{Log, Tried, try_append}
use sharedhashfile.Log.Format.{output_stdout, output_shf_log}

-- SHF_LOG_DEFAULT_SIZE
abbrev pub default_size : ℕ
default_size = 64 * 1024 * 10

-- The functions that shf_log_output_indirect may be: one of a user has a number.
pub data Output : Type 0 where
  stdout : Output
  shf_log : Output
  user : ℕ → Output

-- The log state of a process: `shf_log_thread_instance` (an instance has a number), what
-- `shf->log` points to, `shf->log_thread_active`, the output function, and its failsafe.
pub record Sink : Type 0 where
  pub instance_ : Option ℕ
  pub log : Option Log
  pub log_thread_active : ℕ
  pub output : Output
  pub failsafe : ℕ

-- shf_log_output_set()
unfoldable pub output_set : Output → Sink → Sink
output_set output s = record s { output = output; failsafe = 0 }

-- shf_log_attach_existing(), where `found` is the value of the key `__log`.
unfoldable pub attach_existing : ℕ → Option Log → Sink → Run Sink
attach_existing shf none s = abort
attach_existing shf (some log) s =
    ok (output_set shf_log (record s { log = some log; instance_ = some shf }))

abbrev pub is_instance : ℕ → Option ℕ → Bool
is_instance shf none = false
is_instance shf (some i) = shf == i

-- shf_log_detach_existing()
unfoldable pub detach_existing : ℕ → Sink → Run Sink
detach_existing shf s = do
  assert (is_instance shf s.instance_)
  ok (output_set stdout (record s { instance_ = none }))

-- shf_log_thread_new(), where `found` is the value of the key `__log` and `raw` the value that is
-- put for it.
unfoldable pub thread_new : ℕ → ℕ → Option Log → Log → Sink → Run Sink
thread_new shf log_size (some found) raw s = abort
thread_new shf log_size none raw s = ok (
    output_set shf_log (record s {
      log = some (record raw {
        stopped = 0;
        running = 1;
        size = if log_size == 0 then default_size else log_size;
      });
      log_thread_active = 1;
      instance_ = some shf;
    }))

abbrev pub told_to_stop : Sink → Option Log → Sink
told_to_stop s none = s
told_to_stop s (some log) =
    if log.running == 0 then s else record s { log = some (record log { running = 0 }) }

-- shf_log_thread_del(), up to its loop: the log thread is told to stop.
unfoldable pub del_signal : ℕ → Sink → Run Sink
del_signal shf s = do assert (is_instance shf s.instance_); ok (told_to_stop s s.log)

-- shf_log_thread_del(), after its loop.
unfoldable pub del_end : ℕ → Sink → Run Sink
unfolding detach_existing
del_end shf s = detach_existing shf s

-- The end of shf_log_thread(): the log lines go to stdout.
unfoldable pub thread_end : Log → Sink → Sink
thread_end log s = record (output_set stdout s) { log = some log }

-- What happens to a log line: it is printed, or appended to the shared log, or given to a function of
-- a user; shf_log_output_shf_log() asserts that there is an instance.
pub data Emitted : Type 0 where
  printed : List ℕ → Emitted
  tried : Tried → Emitted
  given : ℕ → List ℕ → Emitted

abbrev pub has_instance : Option ℕ → Bool
has_instance none = false
has_instance (some i) = true

-- The lines that a user's output function logs itself, one call of shf_log() after the other.
abbrev pub go_on : (Sink → Run (Option Sink)) → Option (Emitted × Sink) → Run (Option Sink)
go_on rest none = ok none
go_on rest (some (e, s)) = rest s

unfoldable pub log_all :
    (List ℕ → Sink → Run (Option (Emitted × Sink))) → List (List ℕ) → Sink → Run (Option Sink)
log_all nested [] s = ok (some s)
log_all nested (line ∷ lines) s = nested line s >>= go_on (log_all nested lines)

abbrev pub given_to : ℕ → List ℕ → Option Sink → Run (Option (Emitted × Sink))
given_to n line none = ok none
given_to n line (some s) = ok (some (given n line, s))

-- The output function: `logged` are the lines that a user's function logs before it returns.
abbrev pub emit_to :
    (List ℕ → Sink → Run (Option (Emitted × Sink)))
    → (ℕ → List (List ℕ))
    → ℕ
    → List ℕ
    → Output
    → Option ℕ
    → Option Log
    → Sink
    → Run (Option (Emitted × Sink))
emit_to nested logged prefix_len line stdout i log s = ok (some (printed (output_stdout line), s))
emit_to nested logged prefix_len line (user n) i log s =
    log_all nested (logged n) s >>= given_to n line
emit_to nested logged prefix_len line shf_log (some i) (some log) s =
    ok (some (tried (try_append prefix_len (output_shf_log line) log), s))
emit_to nested logged prefix_len line shf_log (some i) none s = abort
emit_to nested logged prefix_len line shf_log none log s = abort

-- `shf_log_output_indirect_failsafe --`
abbrev pub lower : Option (Emitted × Sink) → Run (Option (Emitted × Sink))
lower none = ok none
lower (some (e, s)) = ok (some (e, record s { failsafe = sub32 s.failsafe 1 }))

-- shf_log() for LOG_INFO: the call of the output function, between raising and lowering its failsafe.
-- The fuel bounds the depth of calls within calls; `none` if it runs out.
unfoldable pub emit : (ℕ → List (List ℕ)) → ℕ → ℕ → List ℕ → Sink → Run (Option (Emitted × Sink))
emit logged zero prefix_len line s = ok none
emit logged (suc fuel) prefix_len line s =
    let s₁ = record s { failsafe = u32 (s.failsafe + 1) } in
    let nested = emit logged fuel prefix_len in
    do
      assert (1 == s₁.failsafe)
      r ← emit_to nested logged prefix_len line s₁.output s₁.instance_ s₁.log s₁
      lower r

-- The calls that change where log lines go.
pub data Call (s : Sink) : Sink → Type 0 where
  sets : (n : ℕ) → Call s (output_set (user n) s)
  attaches :
      (shf : ℕ) (found : Option Log) (s' : Sink) → attach_existing shf found s ≡ ok s' → Call s s'
  detaches : (shf : ℕ) (s' : Sink) → detach_existing shf s ≡ ok s' → Call s s'
  news :
      (shf log_size : ℕ) (found : Option Log) (raw : Log) (s' : Sink)
      → thread_new shf log_size found raw s ≡ ok s'
      → Call s s'
  signals : (shf : ℕ) (s' : Sink) → del_signal shf s ≡ ok s' → Call s s'
  dels : (shf : ℕ) (s' : Sink) → del_end shf s ≡ ok s' → Call s s'
  ends : (log : Log) → Call s (thread_end log s)

pub data Calls (s₀ : Sink) : Sink → Type 0 where
  none_yet : Calls s₀ s₀
  then_ : (s s' : Sink) → Calls s₀ s → Call s s' → Calls s₀ s'
