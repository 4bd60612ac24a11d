-- ===== src/Win/Valid.antt =====
-- When a window is well formed, and what its UIDs stand for.
use sharedhashfile.Prelude.{ℕ, ◌*◌, ◌≤◌, ◌<◌, ◌≡◌, Option, none, some, ◌==◌, if◌then◌else◌, arith}
use sharedhashfile.Layout.{tabs_per_win, rows_per_tab, refs_per_row}
use sharedhashfile.Tab.{Opts, Vfs}
use sharedhashfile.Tab.Valid.{IsValid, Entry, entry_at, Roomy}
use sharedhashfile.Win.{Win}

-- An entry, if it belongs to the tab2.
abbrev pub of_tab2 : ℕ → Option Entry → Option Entry
of_tab2 tab2 none = none
of_tab2 tab2 (some e) = if e.tab == tab2 then some e else none

-- What the UID (tab2, row, ref) of the window stands for.
unfoldable pub at_uid : Opts → Win → ℕ → ℕ → ℕ → Option Entry
at_uid o w tab2 r i = of_tab2 tab2 (entry_at o (w.tab_mmap (w.tabs tab2)) r i)

pub record WinValid (o : Opts) (w : Win) : Type 0 where
  pub some_tab : 1 ≤ w.tabs_used
  pub few : w.tabs_used ≤ tabs_per_win
  pub range : (tab2 : ℕ) → tab2 < tabs_per_win → w.tabs tab2 < w.tabs_used
  pub valid : (tab : ℕ) → tab < w.tabs_used → IsValid o (w.tab_mmap tab)
  -- An entry stands in the tab that its tab2 leads to.
  pub home :
      (tab r i : ℕ) (e : Entry)
      → tab < w.tabs_used
      → r < rows_per_tab
      → i < refs_per_row
      → entry_at o (w.tab_mmap tab) r i ≡ some e
      → (e.tab < tabs_per_win) × (w.tabs e.tab ≡ tab)

-- Every tab of the window holds at most `n` bytes.
abbrev pub Within : ℕ → Win → Type 0
Within n w = (tab : ℕ) → tab < w.tabs_used → (w.tab_mmap tab).tab_used ≤ n

pub Roomy-le : (o : Opts) (vfs : Vfs) (n m : ℕ) → Roomy o vfs n → m ≤ n → Roomy o vfs m
Roomy-le o vfs n m roomy le = record {
  factor = roomy.factor;
  bound = omega (arith, less, roomy.bound);
  space = roomy.space;
}
  where
    less : m * o.data_needed_factor ≤ n * o.data_needed_factor
    less = grind arith
