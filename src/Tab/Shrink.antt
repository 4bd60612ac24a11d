-- ===== src/Tab/Shrink.antt =====
-- shf_tab_shrink() keeps every entry at its row and ref, and drops the garbage.
use sharedhashfile.Prelude.{
  ℕ, ◌+◌, ◌<◌, ◌≡◌, refl, ◌∙◌, Bool, true, inl, inr, ◌==◌, arith, Option, none, some, Bool-cases,
  Returns,
}
use sharedhashfile.Layout.{rows_per_tab, refs_per_row}
use sharedhashfile.Tab.{TabMmap, Opts, Vfs, Pair, shrink_ref, tab_shrink}
use sharedhashfile.Tab.Valid.{IsValid, Entry, entry_at, live_size-zero, Roomy}
use sharedhashfile.Tab.Copy.{
  Copying, LinksFit, pick, drop, skip-Copying, no_entry_here, ref_copy-Copying,
}
use sharedhashfile.Tab.Loop.{for_refs-Returns, Copying-start, Copying-next-row, Copying-end}

abbrev every : ℕ → Bool
every _ = true

pick-every : (e : Option Entry) → pick every e ≡ e
pick-every none = refl
pick-every (some e) = refl

drop-every : (e : Option Entry) → drop every e ≡ none
drop-every none = refl
drop-every (some e) = refl

-- `t'` has the entries of `t`, at the same rows and refs, and no garbage.
pub record Shrunk (o : Opts) (t t' : TabMmap) : Type 0 where
  pub valid : IsValid o t'
  pub entries :
      (r i : ℕ) → r < rows_per_tab → i < refs_per_row → entry_at o t' r i ≡ entry_at o t r i
  pub no_free : t'.tab_data_free ≡ 0
  pub no_links : t'.tab_data_free_pos ≡ 0
  pub used : t'.tab_used + t.tab_data_free ≡ t.tab_used

shrink_ref-Copying :
    (o : Opts) (vfs : Vfs) (t : TabMmap)
    → Roomy o vfs t.tab_used
    → LinksFit o
    → IsValid o t
    → (r i : ℕ) (s : Pair) → r < rows_per_tab
    → i < refs_per_row
    → Copying o t every r i s
    → Returns (Copying o t every r (i + 1)) (shrink_ref o vfs r i s)
unfolding shrink_ref
shrink_ref-Copying o vfs t roomy links valid r i s lr li inv =
    elim (Bool-cases ((s.old.row r i).pos == 0)) [
      | inl e ↦ (
        s,
        rw e,
        skip-Copying o vfs t every roomy links valid r i lr li s inv
            (rw (no_entry_here o vfs t every roomy links valid r i lr li s inv (ground arith))),
      )
      | inr e ↦
          rw e
            (ref_copy-Copying o vfs t every roomy links valid r i lr li s inv (ground arith) refl)
    ]

-- Where the tab is well formed, growing it cannot fail, and links of the free list fit into the
-- records, shf_tab_shrink() succeeds: the new tab is well formed, every ref stands for what it
-- stood for, nothing is garbage, and the used bytes are fewer by exactly the garbage.
pub tab_shrink-Shrunk :
    (o : Opts) (vfs : Vfs) (t : TabMmap)
    → IsValid o t
    → Roomy o vfs t.tab_used
    → LinksFit o
    → Returns (Shrunk o t) (tab_shrink o vfs t)
unfolding tab_shrink
tab_shrink-Shrunk o vfs t valid roomy links =
    let (s, e, inv) =
      for_refs-Returns (λ r i s. Copying o t every r i s) (shrink_ref o vfs)
        (λ r i s lr li h. shrink_ref-Copying o vfs t roomy links valid r i s lr li h)
        (Copying-next-row o t every) _ (Copying-start o t every valid) in
    let done = Copying-end o t every s inv in
    let empty =
      live_size-zero o s.old (λ a b la lb. (done a b la lb).1 ∙ drop-every (entry_at o t a b)) in
    (
      s.new,
      rw e,
      record {
        valid = inv.new_valid;
        entries = λ a b la lb. (done a b la lb).0 ∙ pick-every (entry_at o t a b);
        no_free = inv.no_free;
        no_links = inv.no_links;
        used = omega (
          arith, inv.budget, inv.no_free, inv.new_valid.accounted, inv.old_valid.counted, empty,
          valid.accounted,
        );
      },
    )
