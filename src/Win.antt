-- ===== src/Win.antt =====
-- One window of src/shf.c: the redirection from a tab2 to a tab and the tabs of an SHF_WIN_MMAP,
-- shf_tab_shrink() and shf_tab_part(). The window's files are one array of tabs: a tab is what its
-- file holds, whichever process has it mapped, and the counters of mappings are left out.
pub mod Valid
pub mod Tab2s
pub mod Refs
pub mod Part
use sharedhashfile.Prelude.{
  ℕ, ◌+◌, ◌%◌, ◌^◌, Bool, true, false, ◌||◌, ltb, ◌==◌, if◌then◌else◌, Run, ok, assert, ◌>>=◌, ◌>>◌,
  for_range,
}
use mathlib.Core.Bool.{not}
use sharedhashfile.Prelude.Family.{update}
use sharedhashfile.Layout.{tabs_per_win, u32, u64}
use sharedhashfile.Tab.{Ref, TabMmap, Opts, Vfs, Pair, fresh_tab, ref_copy, for_refs, tab_shrink}

-- SHF_WIN_MMAP, with the tabs that its files hold.
pub record Win : Type 0 where
  pub tabs : ℕ → ℕ
  pub tabs_used : ℕ
  pub tabs_shrunk : ℕ
  pub tabs_parted : ℕ
  pub tabs_parted_old : ℕ
  pub tabs_parted_new : ℕ
  pub keylen_misses : ℕ
  pub memcmp_misses : ℕ
  pub tab_mmap : ℕ → TabMmap

-- A window as shf_attach() creates it: all the tab2s share one tab.
abbrev pub fresh_win : Win
fresh_win = record {
  tabs = λ tab2. 0;
  tabs_used = 1;
  tabs_shrunk = 0;
  tabs_parted = 0;
  tabs_parted_old = 0;
  tabs_parted_new = 0;
  keylen_misses = 0;
  memcmp_misses = 0;
  tab_mmap = λ tab. fresh_tab;
}

-- shf_tab_shrink()
unfoldable pub shrink : Opts → Vfs → ℕ → Win → Run Win
shrink o vfs tab w = do
  t ← tab_shrink o vfs (w.tab_mmap tab)
  ok (record w { tabs_shrunk = u64 (w.tabs_shrunk + 1); tab_mmap = update w.tab_mmap tab t })

-- The loop "tab redirects" of shf_tab_part(): every second tab2 of the old tab goes to the new one.
pub record Redirect : Type 0 where
  pub tabs : ℕ → ℕ
  pub tab_switch : Bool

unfoldable pub redirect_step : ℕ → ℕ → ℕ → Redirect → Redirect
redirect_step tab_old tab_new tab2 s =
    if s.tabs tab2 == tab_old
    then record {
      tabs = update s.tabs tab2 (if s.tab_switch then tab_new else tab_old);
      tab_switch = not s.tab_switch;
    }
    else s

unfoldable pub redirect_tab2 : ℕ → ℕ → ℕ → Redirect → Run Redirect
unfolding redirect_step
redirect_tab2 tab_old tab_new tab2 s = do
  assert (ltb (s.tabs tab2) tab_new)
  ok (redirect_step tab_old tab_new tab2 s)

unfoldable pub redirect : ℕ → ℕ → (ℕ → ℕ) → Run Redirect
unfolding redirect_tab2
redirect tab_old tab_new tabs =
    for_range tabs_per_win 0 (redirect_tab2 tab_old tab_new)
      (record { tabs = tabs; tab_switch = false })

-- The loop "tab refs" of shf_tab_part().
pub record PartLoop : Type 0 where
  pub parted_old : ℕ
  pub parted_new : ℕ
  pub pair : Pair

unfoldable pub part_ref : Opts → Vfs → (ℕ → ℕ) → ℕ → ℕ → ℕ → ℕ → PartLoop → Run PartLoop
part_ref o vfs tabs tab_old tab_new row ref s =
    let tab = tabs (s.pair.old.row row ref).tab in
    if (s.pair.old.row row ref).pos == 0 then ok s else do
      assert (ltb tab tabs_per_win)
      assert (tab == tab_old || tab == tab_new)
      if tab == tab_new
          then (do
            pair ← ref_copy o vfs row ref s.pair
            ok (record s { parted_new = u64 (s.parted_new + 1); pair = pair }))
          else ok (record s { parted_old = u64 (s.parted_old + 1) })

-- shf_tab_part(), with the index of the new tab.
unfoldable pub part_to : Opts → Vfs → ℕ → ℕ → Win → Run Win
unfolding shrink redirect part_ref
part_to o vfs tab_old tab_new w = do
  assert (ltb tab_new tabs_per_win)
  red ← redirect tab_old tab_new w.tabs
  s ← for_refs (part_ref o vfs red.tabs tab_old tab_new) (record {
    parted_old = w.tabs_parted_old;
    parted_new = w.tabs_parted_new;
    pair = record { old = w.tab_mmap tab_old; new = fresh_tab };
  })
  shrink o vfs tab_old (record w {
    tabs = red.tabs;
    tabs_used = u32 (w.tabs_used + 1);
    tabs_parted = u64 (w.tabs_parted + 1);
    tabs_parted_old = s.parted_old;
    tabs_parted_new = s.parted_new;
    tab_mmap = update (update w.tab_mmap tab_old s.pair.old) tab_new s.pair.new;
  })

unfoldable pub part : Opts → Vfs → ℕ → Win → Run Win
unfolding part_to
part o vfs tab_old w = part_to o vfs tab_old (w.tabs_used % 2 ^ 16) w
