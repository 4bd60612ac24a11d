-- ===== src/Tests/Spins.antt =====
-- The theorems on spin locks and on iterating over tabs at concrete states.
use sharedhashfile.Prelude.{ℕ, ◌+◌, ◌^◌, ◌<◌, ◌≡◌, refl, suc, arith, ok, false, some}
use sharedhashfile.Prelude.Family.{update}
use sharedhashfile.Layout.{wins_per_shf}
use sharedhashfile.Tab.{fresh_tab}
use sharedhashfile.Win.{fresh_win}
use sharedhashfile.Lock.Spin.{
  outside, took, inside, Threads, Turns, start, later, takes, stores, unlock,
}
use sharedhashfile.Lock.Holder.{spin_exclusion}
use sharedhashfile.Shf.{Shf, debug_get_garbage}
use sharedhashfile.Shf.Garbage.{sum_from, win_garbage, Adds, debug_get_garbage-Adds}
use sharedhashfile.Shf.Visits.{HasTabs, visit, tabs_before, tab_copy_iterate-visit}

abbrev process : ℕ → ℕ
process i = 77

abbrev nobody : Threads
nobody = record { spin = record { lock = 0; pid = 0 }; at = λ i. outside; misjudged = false }

abbrev third_inside : Threads
third_inside = record {
  spin = record { lock = 4; pid = 77 };
  at = update (update (λ i. outside) 3 took) 3 inside;
  misjudged = false;
}

turns : Turns process nobody third_inside
turns = later (later start (takes 3 refl refl)) (stores 3 refl)

spin_exclusion_example : (◌≡◌ {A = ℕ} 3 3) × (third_inside.spin.lock ≡ 3 + 1)
spin_exclusion_example =
    spin_exclusion process nobody third_inside (λ i. refl) turns refl 3 3 refl refl

unlocked_again : unlock 4 third_inside.spin ≡ ok (record { lock = 0; pid = 77 })
unfolding unlock
unlocked_again = refl

abbrev fresh_shf : Shf
fresh_shf = record {
  wins = λ win. fresh_win;
  tabs = λ win tab. some fresh_tab;
  is_lockable = 1;
  is_fixed_key_val_len = 0;
  fixed_key_len = 0;
  fixed_val_len = 0;
}

has_tabs : HasTabs fresh_shf
has_tabs = record { some_tab = λ win. omega arith; few = λ win. omega arith }

tab_copy_iterate-visit_example :
    ((win tab : ℕ)
      → win < wins_per_shf
      → tab < (fresh_shf.wins win).tabs_used
      → visit fresh_shf (tab + tabs_before fresh_shf win) (0, 0) ≡ (win, tab))
    × ((win : ℕ)
        → suc win ≡ wins_per_shf
        → visit fresh_shf (tabs_before fresh_shf (suc win)) (0, 0) ≡ (0, 0))
tab_copy_iterate-visit_example = tab_copy_iterate-visit fresh_shf has_tabs

little_garbage : sum_from wins_per_shf 0 (win_garbage fresh_shf) < 2 ^ 64
little_garbage = omega arith

debug_get_garbage_example : Adds wins_per_shf 0 fresh_shf 0 (debug_get_garbage fresh_shf)
debug_get_garbage_example = debug_get_garbage-Adds fresh_shf little_garbage
