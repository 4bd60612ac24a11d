-- ===== src/Shf/Visits.antt =====
-- Iterating over all tabs.
use sharedhashfile.Prelude.{
  ℕ, zero, suc, ◌+◌, ◌-◌, ◌≤◌, ◌<◌, ◌≡◌, refl, true, false, ltb, leb, if◌then◌else◌, arith,
}
use sharedhashfile.Layout.{u32, wins_per_shf, tabs_per_win}
use sharedhashfile.Shf.{Shf, tab_copy_iterate}

-- The window and tab after `n` calls.
abbrev pub visit : Shf → ℕ → ℕ × ℕ → ℕ × ℕ
visit shf zero at = at
visit shf (suc n) at = (tab_copy_iterate shf (visit shf n at)).1

-- Every window has at least one tab, and at most as many as a window can have.
pub record HasTabs (shf : Shf) : Type 0 where
  pub some_tab : (win : ℕ) → 1 ≤ (shf.wins win).tabs_used
  pub few : (win : ℕ) → (shf.wins win).tabs_used ≤ tabs_per_win

-- The number of tabs in the windows before `win`.
abbrev pub tabs_before : Shf → ℕ → ℕ
tabs_before shf zero = 0
tabs_before shf (suc win) = tabs_before shf win + (shf.wins win).tabs_used

within_win :
    (shf : Shf) (n win : ℕ)
    → HasTabs shf
    → visit shf n (0, 0) ≡ (win, 0)
    → (tab : ℕ) → tab < (shf.wins win).tabs_used
    → visit shf (tab + n) (0, 0) ≡ (win, tab)
unfolding tab_copy_iterate
within_win shf n win h e zero l = let z : zero + n ≡ n = omega arith in rw z e
within_win shf n win h e (suc tab) l =
    let before = within_win shf n win h e tab (omega arith) in
    let next : suc tab + n ≡ suc (tab + n) = omega arith in
    let small : u32 (tab + 1) ≡ suc tab = omega (arith, h.few win) in
    let more : leb (shf.wins win).tabs_used (suc tab) ≡ false = ground arith in
    rw (next, before, small, more) refl

next_win :
    (shf : Shf) (n win : ℕ)
    → HasTabs shf
    → win < wins_per_shf
    → visit shf n (0, 0) ≡ (win, 0)
    → visit shf (n + (shf.wins win).tabs_used) (0, 0)
      ≡ (if ltb (win + 1) wins_per_shf then win + 1 else 0, 0)
unfolding tab_copy_iterate
next_win shf n win h l e =
    let used = (shf.wins win).tabs_used in
    let last = within_win shf n win h e (used - 1) (omega (arith, h.some_tab win)) in
    let next : n + used ≡ suc ((used - 1) + n) = omega (arith, h.some_tab win) in
    let small : u32 ((used - 1) + 1) ≡ used = omega (arith, h.few win, h.some_tab win) in
    let small' : u32 (win + 1) ≡ win + 1 = omega arith in
    let full : leb used used ≡ true = ground arith in rw (next, last, small, small', full) refl

first_of_win :
    (shf : Shf) (win : ℕ)
    → HasTabs shf
    → win < wins_per_shf
    → visit shf (tabs_before shf win) (0, 0) ≡ (win, 0)
first_of_win shf zero h l = refl
first_of_win shf (suc win) h l =
    let e =
      next_win shf (tabs_before shf win) win h (omega arith)
        (first_of_win shf win h (omega arith)) in
    let more : ltb (win + 1) wins_per_shf ≡ true = ground arith in
    let at : win + 1 ≡ suc win = omega arith in rw (more, at) at e

around :
    (shf : Shf) (win : ℕ)
    → HasTabs shf
    → suc win ≡ wins_per_shf
    → visit shf (tabs_before shf (suc win)) (0, 0) ≡ (0, 0)
around shf win h e =
    let e' =
      next_win shf (tabs_before shf win) win h (omega arith)
        (first_of_win shf win h (omega arith)) in
    let none_left : ltb (win + 1) wins_per_shf ≡ false = ground arith in rw none_left at e'

-- If each window has 1 to 2048 tabs, shf_tab_copy_iterate() called again and again from the first
-- tab of the first window comes to every tab of every window, in order and without others between,
-- and after all of them to the first again.
pub tab_copy_iterate-visit :
    (shf : Shf)
    → HasTabs shf
    → ((win tab : ℕ)
        → win < wins_per_shf
        → tab < (shf.wins win).tabs_used
        → visit shf (tab + tabs_before shf win) (0, 0) ≡ (win, tab))
      × ((win : ℕ) → suc win ≡ wins_per_shf → visit shf (tabs_before shf (suc win)) (0, 0) ≡ (0, 0))
tab_copy_iterate-visit shf h = (
  (λ win tab l m. within_win shf _ win h (first_of_win shf win h l) tab m),
  (λ win e. around shf win h e),
)
