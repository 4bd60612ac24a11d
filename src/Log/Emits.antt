-- ===== src/Log/Emits.antt =====
-- Log lines have somewhere to go, and a function that outputs them must not log.
use sharedhashfile.Prelude.{ℕ, ◌≡◌, ◌≢◌, ◌⊎◌, Option, none, some, List, [], Run, ok, abort}
use sharedhashfile.Log.{Log}
use sharedhashfile.Log.Sink.{Output, stdout, shf_log, user, Sink, Emitted}

-- Lines go to the shared log only while there is one.
abbrev pub Linked : Output → Option ℕ → Option Log → Type 0
Linked shf_log none log = ⊥
Linked shf_log (some i) none = ⊥
Linked shf_log (some i) (some log) = Unit
Linked stdout i log = Unit
Linked (user n) i log = Unit

pub record Safe (s : Sink) : Type 0 where
  pub linked : Linked s.output s.instance_ s.log
  pub quiet : s.failsafe ≡ 0

abbrev SafeRun : Run Sink → Type 0
SafeRun abort = Unit
SafeRun (ok s) = Safe s

-- The output function is a user's that logs itself.
abbrev pub Recurses : (ℕ → List (List ℕ)) → Output → Type 0
Recurses logged stdout = ⊥
Recurses logged shf_log = ⊥
Recurses logged (user n) = logged n ≢ []

-- What a call of shf_log() comes to: the line is output and the failsafe is as it was, or the output
-- function logs and the call fails.
abbrev pub Emits : (ℕ → List (List ℕ)) → Output → Run (Option (Emitted × Sink)) → Type 0
Emits logged output r =
    (¬ Recurses logged output
      × ((e : Emitted) × (s' : Sink) × (r ≡ ok (some (e, s'))) × (s'.failsafe ≡ 0)))
    ⊎ (Recurses logged output × (r ≡ abort))
