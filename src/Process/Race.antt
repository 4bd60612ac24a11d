-- ===== src/Process/Race.antt =====
-- shf_race_init() and shf_race_start() of src/shf.c: horses that wait for each other.
use sharedhashfile.Prelude.{
  ℕ, ◌+◌, ◌%◌, ◌^◌, ◌≤◌, ◌<◌, ◌≡◌, ◌≢◌, inl, inr, refl, Option, none, some, ◌==◌, Bool-cases, arith,
  ap, ◌∙◌, sym, Run, ok, assert, ◌>>=◌, ◌>>◌,
}
use mathlib.Core.Bool.{not}
use sharedhashfile.Prelude.Family.{update}
use sharedhashfile.Prelude.Sum.{
  total, total-change, total-zero, total-le, total-same, total-full, total-ones,
}
use sharedhashfile.Layout.{u64, uid_none}
use sharedhashfile.Tab.{Opts, Vfs, reserve}
use sharedhashfile.Win.{Win}
use sharedhashfile.Put.{Hashed, put_key_val}

abbrev put_race : Option (ℕ × Win) → Run (Option Win)
put_race none = ok none
put_race (some (uid, w)) = do assert (not (uid == uid_none)); ok (some w)

-- shf_race_init(): a byte is reserved for the race.
unfoldable pub race_init : Opts → Vfs → ℕ → Hashed → Win → Run (Option Win)
race_init o vfs rounds h w = put_key_val o vfs rounds h (reserve 1) w >>= put_race

-- Where a horse stands in shf_race_start().
pub data Horse : Type 0 where
  away : Horse  -- it has not added itself
  waiting : Horse  -- its loop
  started : Horse  -- it has returned
  too_late : Horse  -- its assertion on the time has failed

-- `*race_line`, of the 8 bytes at the value that horses add to.
abbrev pub race_line : ℕ → ℕ
race_line word = word % 256

-- A horse's access to the word, where it waits for `horses`.
pub data Move (horses word : ℕ) : Horse → ℕ → Horse → Type 0 where
  add : Move horses word away (u64 (word + 1)) waiting
  pause : horses ≢ race_line word → Move horses word waiting word waiting
  go : horses ≡ race_line word → Move horses word waiting word started
  time_out : horses ≢ race_line word → Move horses word waiting word too_late

pub record Race : Type 0 where
  pub word : ℕ
  pub horse : ℕ → Horse

pub data Step (n : ℕ) (s : Race) : Race → Type 0 where
  runs :
      (i : ℕ) {word : ℕ} {h : Horse}
      → i < n
      → Move n s.word (s.horse i) word h
      → Step n s (record { word = word; horse = update s.horse i h })

-- Each of `n` horses waits for `n`, from a value of 0 on; the bytes behind it are others'.
pub data Reach (n : ℕ) : Race → Type 0 where
  start :
      (word : ℕ)
      → word < 2 ^ 64
      → race_line word ≡ 0
      → Reach n (record { word = word; horse = λ i. away })
  later : {s t : Race} → Reach n s → Step n s t → Reach n t

-- 1 for a horse that has added itself.
abbrev here : Horse → ℕ
here away = 0
here waiting = 1
here started = 1
here too_late = 1

record Inv (n : ℕ) (s : Race) : Type 0 where
  word : s.word < 2 ^ 64
  line : race_line s.word ≡ total n (λ i. here (s.horse i))
  all : (i : ℕ) → i < n → s.horse i ≡ started → total n (λ j. here (s.horse j)) ≡ n

here-le : (h : Horse) → here h ≤ 1
here-le away = omega arith
here-le waiting = omega arith
here-le started = omega arith
here-le too_late = omega arith

not_started : ¬ (waiting ≡ started)
not_started e = cc

not_late : ¬ (too_late ≡ started)
not_late e = cc

not_away : ¬ (away ≡ started)
not_away e = cc

update_ne : (f : ℕ → Horse) (i j : ℕ) (h : Horse) → i ≢ j → update f i h j ≡ f j
update_ne f i j h ne = ground arith

update_same : (f : ℕ → Horse) (i : ℕ) (h : Horse) → update f i h i ≡ h
update_same f i h = ground arith

module _ (n : ℕ) (s : Race) (i : ℕ) (lt : i < n) (inv : Inv n s) where
  -- A horse that goes on, without a change of the word.
  goes_on :
      (h : Horse)
      → here h ≡ here (s.horse i)
      → (h ≡ started → total n (λ j. here (s.horse j)) ≡ n)
      → Inv n (record { word = s.word; horse = update s.horse i h })
  goes_on h same full =
      let counts =
        total-same n (λ j. here (update s.horse i h j)) (λ j. here (s.horse j))
          (λ j l. elim (Bool-cases (i == j)) [
            | inl e ↦
                let eq : i ≡ j = ground arith in rw e (same ∙ ap (λ (k : ℕ). here (s.horse k)) eq)
            | inr e ↦ rw e refl
          ]) in
      record {
        word = inv.word;
        line = inv.line ∙ sym counts;
        all = λ j l e. elim (Bool-cases (i == j)) [
          | inl eq ↦ counts ∙ full (rw eq at e)
          | inr ne ↦ counts ∙ inv.all j l (rw ne at e)
        ];
      }

  adds :
      s.horse i ≡ away
      → n ≤ 255
      → Inv n (record { word = u64 (s.word + 1); horse = update s.horse i waiting })
  adds was few =
      let changed =
        total-change n (λ j. here (update s.horse i waiting j)) (λ j. here (s.horse j)) i lt
          (λ j ne. ap here (update_ne s.horse i j waiting ne)) in
      let before : here (s.horse i) ≡ 0 = rw was refl in
      let now : here (update s.horse i waiting i) ≡ 1 = ap here (update_same s.horse i waiting) in
      let bound = total-le n (λ j. here (update s.horse i waiting j)) (λ j. here-le _) in
      record {
        word = omega arith;
        line = omega (arith, inv.line, inv.word, changed, before, now, bound, few);
        all = λ j l e. elim (Bool-cases (i == j)) [
          | inl eq ↦ absurd (not_started (rw eq at e))
          | inr ne ↦ absurd (omega (arith, changed, before, now, bound, inv.all j l (rw ne at e)))
        ];
      }

Move-Inv :
    (n : ℕ) (s : Race) (i word : ℕ) (old h : Horse)
    → n ≤ 255
    → i < n
    → Inv n s
    → s.horse i ≡ old
    → Move n s.word old word h
    → Inv n (record { word = word; horse = update s.horse i h })
Move-Inv n s i _ _ _ few lt inv was add = adds n s i lt inv was few
Move-Inv n s i _ _ _ few lt inv was (pause _) =
    goes_on n s i lt inv waiting (rw was refl) (λ e. absurd (not_started e))
Move-Inv n s i _ _ _ few lt inv was (go full) =
    goes_on n s i lt inv started (rw was refl) (λ e. sym (full ∙ inv.line))
Move-Inv n s i _ _ _ few lt inv was (time_out _) =
    goes_on n s i lt inv too_late (rw was refl) (λ e. absurd (not_late e))

start-Inv :
    (n word : ℕ)
    → word < 2 ^ 64
    → race_line word ≡ 0
    → Inv n (record { word = word; horse = λ i. away })
start-Inv n word small zero_line = record {
  word = small;
  line = zero_line ∙ sym (total-zero n (λ i. 0) (λ j l. refl));
  all = λ i l e. absurd (not_away e);
}

Reach-Inv : {n : ℕ} {s : Race} → n ≤ 255 → Reach n s → Inv n s
Reach-Inv {n} few (start word small zero_line) = start-Inv n word small zero_line
Reach-Inv {n} few (later {s} r (runs i {word} {h} lt m)) =
    Move-Inv n s i word _ h few lt (Reach-Inv few r) refl m

came : (h : Horse) → h ≢ away → here h ≡ 1
came away ne = absurd (ne refl)
came waiting ne = refl
came started ne = refl
came too_late ne = refl

-- With at most 255 horses, each of which waits for as many, from a value of 0: in every state that
-- they can reach, if one has returned from shf_race_start(), then each has called it and added
-- itself, and the value is still their number, so that all that wait can return.
pub race_fair :
    {n : ℕ} {s : Race} (i j : ℕ)
    → n ≤ 255
    → Reach n s
    → i < n
    → j < n
    → s.horse i ≡ started
    → (s.horse j ≢ away) × (race_line s.word ≡ n)
race_fair {n} {s} i j few r lt l e =
    let inv = Reach-Inv few r in
    let one = total-full n (λ k. here (s.horse k)) (λ k. here-le _) (inv.all i lt e) j l in
    (
      (λ gone.
          let zero_here : here (s.horse j) ≡ 0 = rw gone refl in omega (arith, one, zero_here)),
      inv.line ∙ inv.all i lt e,
    )

-- Once all have added themselves, those that wait find the number they wait for.
pub race_full :
    {n : ℕ} {s : Race}
    → n ≤ 255
    → Reach n s
    → ((j : ℕ) → j < n → s.horse j ≢ away)
    → race_line s.word ≡ n
race_full {n} {s} few r all =
    let inv = Reach-Inv few r in inv.line ∙ total-ones n _ (λ j l. came (s.horse j) (all j l))
