-- ===== src/Win/Tab2s.antt =====
-- The redirections of shf_tab_part(): only tab2s of the old tab move, and only to the new one.
use sharedhashfile.Prelude.{
  ℕ, ◌+◌, ◌≤◌, ◌<◌, ◌≡◌, ◌≢◌, ◌⊎◌, inl, refl, false, arith, Returns, for_range-Returns, lt→ltb,
}
use sharedhashfile.Layout.{tabs_per_win}
use sharedhashfile.Win.{Redirect, redirect_step, redirect_tab2, redirect}

-- A tab2 below `k` is redirected or not; from `k` on it is as before.
record Redirected (tab_old tab_new : ℕ) (tabs : ℕ → ℕ) (k : ℕ) (s : Redirect) : Type 0 where
  others : (j : ℕ) → tabs j ≢ tab_old → s.tabs j ≡ tabs j
  split : (j : ℕ) → tabs j ≡ tab_old → (s.tabs j ≡ tab_old) ⊎ (s.tabs j ≡ tab_new)
  rest : (j : ℕ) → k ≤ j → s.tabs j ≡ tabs j

redirect_tab2-Redirected :
    (tab_old tab_new : ℕ) (tabs : ℕ → ℕ)
    → ((j : ℕ) → j < tabs_per_win → tabs j < tab_new)
    → (k : ℕ) (s : Redirect) → k < tabs_per_win
    → Redirected tab_old tab_new tabs k s
    → Returns (Redirected tab_old tab_new tabs (k + 1)) (redirect_tab2 tab_old tab_new k s)
unfolding redirect_tab2
redirect_tab2-Redirected tab_old tab_new tabs below k s lk inv =
    let small : s.tabs k < tab_new = omega (arith, inv.rest k (omega arith), below k lk) in
    (
      redirect_step tab_old tab_new k s,
      rw (lt→ltb _ _ small),
      record {
        others = λ j ne. ground (arith, inv.others j, inv.rest k);
        split = λ j e. ground (arith, inv.split j, inv.rest k);
        rest = λ j le. ground (arith, inv.rest j);
      },
    )

pub redirect_lem :
    (tab_old tab_new : ℕ) (tabs : ℕ → ℕ)
    → ((j : ℕ) → j < tabs_per_win → tabs j < tab_new)
    → Returns
        (λ s.
          ((j : ℕ) → tabs j ≢ tab_old → s.tabs j ≡ tabs j)
          × ((j : ℕ) → tabs j ≡ tab_old → (s.tabs j ≡ tab_old) ⊎ (s.tabs j ≡ tab_new)))
        (redirect tab_old tab_new tabs)
unfolding redirect
redirect_lem tab_old tab_new tabs below =
    let (s, e, inv) =
      for_range-Returns (Redirected tab_old tab_new tabs) (redirect_tab2 tab_old tab_new)
        tabs_per_win 0 tabs_per_win (record { tabs = tabs; tab_switch = false }) refl
        (λ k s _ lk h. redirect_tab2-Redirected tab_old tab_new tabs below k s lk h)
        (record { others = λ j ne. refl; split = λ j e. inl e; rest = λ j le. refl }) in
    (s, e, (inv.others, inv.split))
