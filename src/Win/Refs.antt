-- ===== src/Win/Refs.antt =====
-- The loop over the refs of the parted tab: no assertion of it fails, and it moves the entries
-- whose tab2 was redirected.
use sharedhashfile.Prelude.{
  ℕ, ◌+◌, ◌<◌, ◌≡◌, ◌≢◌, ◌⊎◌, inl, inr, Bool, true, false, ◌||◌, ltb, ◌==◌, arith, some, Returns,
  Bool-cases,
}
use sharedhashfile.Layout.{u64, tabs_per_win, rows_per_tab, refs_per_row}
use sharedhashfile.Tab.{TabMmap, Opts, Vfs, fresh_tab, for_refs}
use sharedhashfile.Tab.Valid.{IsValid, Entry, entry_at, Roomy}
use sharedhashfile.Tab.Copy.{
  Copying, LinksFit, skip-Copying, ref_copy-Copying, entry_here, no_entry_here,
}
use sharedhashfile.Tab.Loop.{for_refs-Returns, Copying-start, Copying-next-row}
use sharedhashfile.Win.{PartLoop, part_ref}

-- Has the tab2 been redirected to the new tab?
abbrev pub redirected : (ℕ → ℕ) → ℕ → ℕ → Bool
redirected tabs tab_new tab2 = tabs tab2 == tab_new

module _ (o : Opts) (vfs : Vfs) (t : TabMmap) (tabs : ℕ → ℕ) (tab_old tab_new : ℕ)
    (roomy : Roomy o vfs t.tab_used) (links : LinksFit o) (valid : IsValid o t)
    (old_small : tab_old < tabs_per_win) (new_small : tab_new < tabs_per_win)
    (leads : (r i : ℕ) (e : Entry)
      → r < rows_per_tab
      → i < refs_per_row
      → entry_at o t r i ≡ some e
      → (tabs e.tab ≡ tab_old) ⊎ (tabs e.tab ≡ tab_new)) where
  abbrev Inv : ℕ → ℕ → PartLoop → Type 0
  Inv r i s = Copying o t (redirected tabs tab_new) r i s.pair

  part_ref-used :
      (r i : ℕ) (s : PartLoop)
      → r < rows_per_tab
      → i < refs_per_row
      → Inv r i s
      → (s.pair.old.row r i).pos ≢ 0
      → Returns (Inv r (i + 1)) (part_ref o vfs tabs tab_old tab_new r i s)
  unfolding part_ref
  part_ref-used r i s lr li inv live =
      let here =
        entry_here o vfs t (redirected tabs tab_new) roomy links valid r i lr li s.pair inv live in
      let to = leads r i _ lr li here in
      let used : ((s.pair.old.row r i).pos == 0) ≡ false = ground arith in
      let small : ltb (tabs (s.pair.old.row r i).tab) tabs_per_win ≡ true = ground arith in
      let either : (tabs (s.pair.old.row r i).tab == tab_old
            || tabs (s.pair.old.row r i).tab == tab_new)
          ≡ true =
        ground arith in
      elim (Bool-cases (tabs (s.pair.old.row r i).tab == tab_new)) [
        | inl moves ↦
            let (p, e, inv') =
              ref_copy-Copying o vfs t (redirected tabs tab_new) roomy links valid r i lr li s.pair
                inv live moves in
            (
              record s { parted_new = u64 (s.parted_new + 1); pair = p },
              rw (used, small, either, moves, e),
              inv',
            )
        | inr stays ↦ (
          record s { parted_old = u64 (s.parted_old + 1) },
          rw (used, small, either, stays),
          skip-Copying o vfs t (redirected tabs tab_new) roomy links valid r i lr li s.pair inv
              (rw (here, stays)),
        )
      ]

  part_ref-Inv :
      (r i : ℕ) (s : PartLoop)
      → r < rows_per_tab
      → i < refs_per_row
      → Inv r i s
      → Returns (Inv r (i + 1)) (part_ref o vfs tabs tab_old tab_new r i s)
  unfolding part_ref
  part_ref-Inv r i s lr li inv = elim (Bool-cases ((s.pair.old.row r i).pos == 0)) [
    | inr used ↦ part_ref-used r i s lr li inv (ground arith)
    | inl unused ↦ (
      s,
      rw unused,
      skip-Copying o vfs t (redirected tabs tab_new) roomy links valid r i lr li s.pair inv (
          rw (
            no_entry_here o vfs t (redirected tabs tab_new) roomy links valid r i lr li s.pair inv
              (ground arith))),
    )
  ]

  -- At the end the redirected entries are in the new tab.
  pub part_refs-Copying :
      (old new : ℕ)
      → Returns (Inv rows_per_tab 0) (
          for_refs (part_ref o vfs tabs tab_old tab_new) (record {
            parted_old = old;
            parted_new = new;
            pair = record { old = t; new = fresh_tab };
          }))
  part_refs-Copying old new =
      for_refs-Returns Inv (part_ref o vfs tabs tab_old tab_new) part_ref-Inv
        (λ r s. Copying-next-row o t (redirected tabs tab_new) r s.pair) _
        (Copying-start o t (redirected tabs tab_new) valid)
