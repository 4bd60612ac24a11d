-- ===== src/Shf.antt =====
-- Functions of src/shf.c on a whole SHF: shf_tab_copy_iterate(), shf_debug_get_garbage() and the
-- settings.
pub mod Visits
pub mod Garbage
use sharedhashfile.Prelude.{
  ℕ, zero, suc, ◌+◌, ◌≡◌, Bool, true, false, ltb, leb, if◌then◌else◌, Option, none, some, Run, ok,
  abort, assert, ◌>>=◌, ◌>>◌,
}
use sharedhashfile.Layout.{u32, u64, wins_per_shf}
use sharedhashfile.Tab.{TabMmap}
use sharedhashfile.Win.{Win}

-- The windows, what shf_set_is_lockable() and shf_set_is_fixed_len() set, and `tabs[win][tab].tab_mmap`, where the
-- process itself maps the tab: the tab that it sees there, or NULL.
pub record Shf : Type 0 where
  pub wins : ℕ → Win
  pub tabs : ℕ → ℕ → Option TabMmap
  pub is_lockable : ℕ
  pub is_fixed_key_val_len : ℕ
  pub fixed_key_len : ℕ
  pub fixed_val_len : ℕ

-- shf_tab_copy_iterate(): the copy of the tab, and the next window and tab. The private mapping that
-- holds the copy, which only grows, is left out.
unfoldable pub tab_copy_iterate : Shf → ℕ × ℕ → TabMmap × (ℕ × ℕ)
tab_copy_iterate shf (win, tab) =
    let tabs_used = (shf.wins win).tabs_used in
    let next_win = u32 (win + 1) in
    let next_tab = u32 (tab + 1) in
    (
      (shf.wins win).tab_mmap tab,
      if leb tabs_used next_tab
          then (if ltb next_win wins_per_shf then next_win else 0, 0)
          else (win, next_tab),
    )

-- `tab_mmap->tab_data_free`, where reading through NULL is fatal.
abbrev pub tab_data_free_at : Option TabMmap → Run ℕ
tab_data_free_at none = abort
tab_data_free_at (some t) = ok t.tab_data_free

-- shf_debug_get_garbage(): the loop over `n` tabs of a window from `tab` on.
unfoldable pub garbage_of_tabs : ℕ → ℕ → (ℕ → Option TabMmap) → ℕ → Run ℕ
garbage_of_tabs zero tab tabs all_data_free = ok all_data_free
garbage_of_tabs (suc n) tab tabs all_data_free = do
  tab_data_free ← tab_data_free_at (tabs tab)
  garbage_of_tabs n (tab + 1) tabs (u64 (all_data_free + tab_data_free))

-- shf_debug_get_garbage(): the loop over `n` windows from `win` on.
unfoldable pub garbage_of_wins : ℕ → ℕ → Shf → ℕ → Run ℕ
garbage_of_wins zero win shf all_data_free = ok all_data_free
garbage_of_wins (suc n) win shf all_data_free = do
  all ← garbage_of_tabs (shf.wins win).tabs_used 0 (shf.tabs win) all_data_free
  garbage_of_wins n (win + 1) shf all

-- shf_debug_get_garbage()
unfoldable pub debug_get_garbage : Shf → Run ℕ
debug_get_garbage shf = garbage_of_wins wins_per_shf 0 shf 0

-- shf_set_data_need_factor(), from the thread's old factor
unfoldable pub set_data_need_factor : ℕ → ℕ → Run ℕ
set_data_need_factor data_needed_factor old = do assert (ltb 0 old); ok data_needed_factor

-- shf_set_is_lockable()
unfoldable pub set_is_lockable : ℕ → Shf → Run Shf
set_is_lockable is_lockable shf = do
  assert (leb is_lockable 1)
  ok (record shf { is_lockable = is_lockable })

-- shf_set_is_fixed_len()
unfoldable pub set_is_fixed_len : ℕ → ℕ → Shf → Shf
set_is_fixed_len fixed_key_len fixed_val_len shf = record shf {
  fixed_key_len = fixed_key_len;
  fixed_val_len = fixed_val_len;
  is_fixed_key_val_len = 1;
}
