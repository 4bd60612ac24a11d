-- ===== src/Win/Part.antt =====
-- shf_tab_part() and shf_tab_shrink() leave what every UID of the window stands for.
use sharedhashfile.Prelude.{
  ℕ, ◌+◌, ◌%◌, ◌^◌, ◌<◌, ◌≡◌, ◌≢◌, ◌⊎◌, inl, inr, refl, ap, sym, ◌∙◌, Bool, ◌==◌, arith, some,
  Returns, abort, Bool-cases, lt→ltb,
}
use sharedhashfile.Prelude.Family.{update}
use sharedhashfile.Layout.{tabs_per_win, rows_per_tab, refs_per_row, u32, u64}
use sharedhashfile.Tab.{TabMmap, Opts, Vfs, Pair}
use sharedhashfile.Tab.Valid.{Entry, entry_at, Roomy}
use sharedhashfile.Tab.Copy.{Copying, LinksFit, pick, drop}
use sharedhashfile.Tab.Loop.{Copying-end}
use sharedhashfile.Tab.Shrink.{Shrunk, tab_shrink-Shrunk}
use sharedhashfile.Win.{Win, shrink, part, part_to}
use sharedhashfile.Win.Valid.{at_uid, WinValid, Within, Roomy-le}
use sharedhashfile.Win.Tab2s.{redirect_lem}
use sharedhashfile.Win.Refs.{redirected, part_refs-Copying}

-- `w'` is well formed and every UID stands for what it stood for in `w`; no tab holds more.
pub record SameUids (o : Opts) (w w' : Win) : Type 0 where
  pub valid : WinValid o w'
  pub uids :
      (tab2 r i : ℕ)
      → tab2 < tabs_per_win
      → r < rows_per_tab
      → i < refs_per_row
      → at_uid o w' tab2 r i ≡ at_uid o w tab2 r i
  pub within : (n : ℕ) → Within n w → Within n w'

-- One tab is replaced by one with the same entries that holds no more.
replace_tab :
    (o : Opts) (w : Win) (tab : ℕ) (t' : TabMmap)
    → WinValid o w
    → tab < w.tabs_used
    → Shrunk o (w.tab_mmap tab) t'
    → (n : ℕ) → SameUids o w (record w { tabs_shrunk = n; tab_mmap = update w.tab_mmap tab t' })
unfolding at_uid
replace_tab o w tab t' valid lt shrunk n = record {
  valid = record {
    some_tab = valid.some_tab;
    few = valid.few;
    range = valid.range;
    valid = λ tab' l. elim (Bool-cases (tab == tab')) [
      | inl e ↦ rw e shrunk.valid
      | inr e ↦ rw e (valid.valid tab' l)
    ];
    home = λ tab' r i e l lr li h. ground (arith, valid.home tab' r i e, shrunk.entries r i);
  };
  uids = λ tab2 r i l lr li. ground (arith, shrunk.entries r i lr li);
  within = λ m h tab' l. ground (arith, h tab', shrunk.used);
}

-- Where the window is well formed, growing its tabs cannot fail, and links of the free list fit,
-- shf_tab_shrink() succeeds on any tab in use: the window is well formed, every UID stands for what
-- it stood for, the redirection is unchanged, and the tab has the same entries without garbage.
pub shrink-SameUids :
    (o : Opts) (vfs : Vfs) (n tab : ℕ) (w : Win)
    → WinValid o w
    → Within n w
    → Roomy o vfs n
    → LinksFit o
    → tab < w.tabs_used
    → Returns
        (λ w'.
          SameUids o w w'
          × (w'.tabs ≡ w.tabs)
          × (w'.tabs_used ≡ w.tabs_used)
          × Shrunk o (w.tab_mmap tab) (w'.tab_mmap tab))
        (shrink o vfs tab w)
unfolding shrink
shrink-SameUids o vfs n tab w valid within roomy links lt =
    let (t', e, shrunk) =
      tab_shrink-Shrunk o vfs (w.tab_mmap tab) (valid.valid tab lt)
        (Roomy-le o vfs n _ roomy (within tab lt)) links in
    (
      record w { tabs_shrunk = u64 (w.tabs_shrunk + 1); tab_mmap = update w.tab_mmap tab t' },
      rw e,
      (replace_tab o w tab t' valid lt shrunk _, refl, refl, ground arith),
    )

module _ (o : Opts) (w : Win) (valid : WinValid o w) (tab_old : ℕ) (lt : tab_old < w.tabs_used)
    (more : w.tabs_used < tabs_per_win) (tabs : ℕ → ℕ)
    (others : (j : ℕ) → w.tabs j ≢ tab_old → tabs j ≡ w.tabs j)
    (split : (j : ℕ) → w.tabs j ≡ tab_old → (tabs j ≡ tab_old) ⊎ (tabs j ≡ w.tabs_used)) (p : Pair)
    (inv : Copying o (w.tab_mmap tab_old) (redirected tabs w.tabs_used) rows_per_tab 0 p)
    (x y z : ℕ) where
  abbrev sel : ℕ → Bool
  sel = redirected tabs w.tabs_used

  abbrev t : TabMmap
  t = w.tab_mmap tab_old

  abbrev w₁ : Win
  w₁ = record w {
    tabs = tabs;
    tabs_used = u32 (w.tabs_used + 1);
    tabs_parted = x;
    tabs_parted_old = y;
    tabs_parted_new = z;
    tab_mmap = update (update w.tab_mmap tab_old p.old) w.tabs_used p.new;
  }

  -- What the tabs of the parted window hold.
  tab_cases :
      (tab : ℕ)
      → tab < w.tabs_used + 1
      → ((tab ≡ w.tabs_used) × (w₁.tab_mmap tab ≡ p.new))
        ⊎ ((tab ≡ tab_old) × (w₁.tab_mmap tab ≡ p.old))
        ⊎ ((tab ≢ tab_old) × (tab < w.tabs_used) × (w₁.tab_mmap tab ≡ w.tab_mmap tab))
  tab_cases tab l = ground arith

  new_entries :
      (r i : ℕ)
      → r < rows_per_tab
      → i < refs_per_row
      → entry_at o p.new r i ≡ pick sel (entry_at o t r i)
  new_entries r i lr li = (Copying-end o t sel p inv r i lr li).0

  old_entries :
      (r i : ℕ)
      → r < rows_per_tab
      → i < refs_per_row
      → entry_at o p.old r i ≡ drop sel (entry_at o t r i)
  old_entries r i lr li = (Copying-end o t sel p inv r i lr li).1

  home₁ :
      (tab r i : ℕ) (e : Entry)
      → tab < w.tabs_used + 1
      → r < rows_per_tab
      → i < refs_per_row
      → entry_at o (w₁.tab_mmap tab) r i ≡ some e
      → (e.tab < tabs_per_win) × (tabs e.tab ≡ tab)
  home₁ tab r i e l lr li h = elim (tab_cases tab l) [
    | inl (is_new, eq) ↦
        let got : pick sel (entry_at o t r i) ≡ some e =
          sym (new_entries r i lr li) ∙ ap (λ (m : TabMmap). entry_at o m r i) (sym eq) ∙ h in
        ground (arith, valid.home tab_old r i e lt lr li)
    | inr (inl (is_old, eq)) ↦
        let got : drop sel (entry_at o t r i) ≡ some e =
          sym (old_entries r i lr li) ∙ ap (λ (m : TabMmap). entry_at o m r i) (sym eq) ∙ h in
        ground (arith, valid.home tab_old r i e lt lr li, split e.tab)
    | inr (inr (other, below, eq)) ↦
        let got : entry_at o (w.tab_mmap tab) r i ≡ some e =
          ap (λ (m : TabMmap). entry_at o m r i) (sym eq) ∙ h in
        ground (arith, valid.home tab r i e below lr li got, others e.tab)
  ]

  uids₁ :
      (tab2 r i : ℕ)
      → tab2 < tabs_per_win
      → r < rows_per_tab
      → i < refs_per_row
      → at_uid o w₁ tab2 r i ≡ at_uid o w tab2 r i
  unfolding at_uid
  uids₁ tab2 r i l lr li = ground (
    arith,
    valid.range tab2 l,
    others tab2,
    split tab2,
    new_entries r i lr li,
    old_entries r i lr li,
  )

  pub parted-SameUids : SameUids o w w₁
  parted-SameUids = record {
    valid = record {
      some_tab = omega arith;
      few = omega arith;
      range = λ tab2 l. ground (arith, valid.range tab2 l, others tab2, split tab2);
      valid = λ tab l. elim (tab_cases tab (omega arith)) [
        | inl (_, eq) ↦ rw eq inv.new_valid
        | inr (inl (_, eq)) ↦ rw eq inv.old_valid
        | inr (inr (_, below, eq)) ↦ rw eq (valid.valid tab below)
      ];
      home = λ tab r i e l lr li h. home₁ tab r i e (omega arith) lr li h;
    };
    uids = uids₁;
    within = λ n h tab l. elim (tab_cases tab (omega arith)) [
      | inl (_, eq) ↦ rw eq (
          omega (
            arith,
            inv.new_valid.accounted,
            inv.no_free,
            inv.budget,
            (valid.valid tab_old lt).accounted,
            h tab_old lt,
          ))
      | inr (inl (_, eq)) ↦ rw eq (omega (arith, inv.old_used, h tab_old lt))
      | inr (inr (_, below, eq)) ↦ rw eq (h tab below)
    ];
  }

pub SameUids-trans :
    (o : Opts) (w w' w'' : Win) → SameUids o w w' → SameUids o w' w'' → SameUids o w w''
SameUids-trans o w w' w'' f g = record {
  valid = g.valid;
  uids = λ tab2 r i l lr li. g.uids tab2 r i l lr li ∙ f.uids tab2 r i l lr li;
  within = λ n h. g.within n (f.within n h);
}

-- Where the window is well formed, growing its tabs cannot fail, links of the free list fit, and a
-- tab is left, shf_tab_part() succeeds: one more tab is used, the window is well formed, every UID
-- stands for what it stood for, and no tab holds more than the fullest did.
pub part-SameUids :
    (o : Opts) (vfs : Vfs) (n tab_old : ℕ) (w : Win)
    → WinValid o w
    → Within n w
    → Roomy o vfs n
    → LinksFit o
    → tab_old < w.tabs_used
    → w.tabs_used < tabs_per_win
    → Returns (λ w'. SameUids o w w' × (w'.tabs_used ≡ w.tabs_used + 1)) (part o vfs tab_old w)
unfolding part
part-SameUids o vfs n tab_old w valid within roomy links lt more =
    let new_tab : w.tabs_used % 2 ^ 16 ≡ w.tabs_used = omega arith in
    let (red, e, (others, split)) = redirect_lem tab_old w.tabs_used w.tabs valid.range in
    let roomy_old = Roomy-le o vfs n _ roomy (within tab_old lt) in
    let leads =
      λ (r i : ℕ) (en : Entry) (lr : r < rows_per_tab) (li : i < refs_per_row)
          (h : entry_at o (w.tab_mmap tab_old) r i ≡ some en).
        split en.tab (valid.home tab_old r i en lt lr li h).1 in
    let (s, e', inv) =
      part_refs-Copying o vfs (w.tab_mmap tab_old) red.tabs tab_old w.tabs_used roomy_old links
        (valid.valid tab_old lt) (omega (arith, valid.few)) more leads w.tabs_parted_old
        w.tabs_parted_new in
    let step =
      parted-SameUids o w valid tab_old lt more red.tabs others split s.pair inv
        (u64 (w.tabs_parted + 1)) s.parted_old s.parted_new in
    let (w', e'', (same, _, used, _)) =
      shrink-SameUids o vfs n tab_old _ step.valid (step.within n within) roomy links
        (omega arith) in
    (
      w',
      ap (λ (j : ℕ). part_to o vfs tab_old j w) new_tab ∙ rw (lt→ltb _ _ more, e, e') e'',
      (SameUids-trans o w _ w' step same, used ∙ omega arith),
    )

-- With all its tabs in use, a window cannot be parted: the assertion fails.
pub part-abort :
    (o : Opts) (vfs : Vfs) (tab_old : ℕ) (w : Win)
    → w.tabs_used ≡ tabs_per_win
    → part o vfs tab_old w ≡ abort
unfolding part
part-abort o vfs tab_old w full = rw full
