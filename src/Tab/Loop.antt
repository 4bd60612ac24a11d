-- ===== src/Tab/Loop.antt =====
-- The loops over all the refs of a tab, and the invariant of copying at their start and end.
use sharedhashfile.Prelude.{
  ℕ, ◌+◌, ◌<◌, ◌≡◌, refl, ap, ◌∙◌, Bool, true, if◌then◌else◌, arith, none, Returns, Run, for_range,
  for_range-Returns,
}
use sharedhashfile.Layout.{rows_per_tab, refs_per_row}
use sharedhashfile.Tab.{TabMmap, Opts, Pair, fresh_tab, for_refs}
use sharedhashfile.Tab.Valid.{IsValid, entry_of, entry_at, live_size-zero}
use sharedhashfile.Tab.Copy.{Copying, before, pick, drop}

-- An invariant of the body, indexed by the ref that the loops have reached.
pub for_refs-Returns {ℓ κ} :
    {S : Type ℓ} (P : ℕ → ℕ → S → Type κ) (body : ℕ → ℕ → S → Run S)
    → ((r i : ℕ) (s : S)
        → r < rows_per_tab
        → i < refs_per_row
        → P r i s
        → Returns (P r (i + 1)) (body r i s))
    → ((r : ℕ) (s : S) → P r refs_per_row s → P (r + 1) 0 s)
    → (s : S) → P 0 0 s
    → Returns (P rows_per_tab 0) (for_refs body s)
unfolding for_refs
for_refs-Returns P body keep next s start =
    for_range-Returns (λ r s'. P r 0 s') (λ row. for_range refs_per_row 0 (λ ref. body row ref))
      rows_per_tab 0 rows_per_tab s refl
      (λ r s' _ lr h.
        let (s'', e, h') =
          for_range-Returns (P r) (λ ref. body r ref) refs_per_row 0 refs_per_row s' refl
            (λ i s₁ _ li h₁. keep r i s₁ lr li h₁) h in
        (s'', e, next r s'' h'))
      start

pub fresh_tab-none : (o : Opts) (r i : ℕ) → entry_at o fresh_tab r i ≡ none
unfolding entry_at entry_of
fresh_tab-none o r i = refl

pub fresh_tab-IsValid : (o : Opts) → IsValid o fresh_tab
fresh_tab-IsValid o = record {
  sized = omega arith;
  starts = omega arith;
  fits = omega arith;
  accounted = refl;
  counted = omega (arith, live_size-zero o fresh_tab (λ a b _ _. fresh_tab-none o a b));
  inside = λ r i h. absurd (h refl);
  apart = λ r i r' i' h _ _. absurd (h refl);
}

module _ (o : Opts) (t : TabMmap) (sel : ℕ → Bool) where
  pub Copying-start : IsValid o t → Copying o t sel 0 0 (record { old = t; new = fresh_tab })
  Copying-start valid = record {
    old_valid = valid;
    new_valid = fresh_tab-IsValid o;
    old_used = refl;
    no_links = refl;
    no_free = refl;
    budget = omega arith;
    moved = λ a b l. ground (arith, fresh_tab-none o a b);
    left = λ a b l. ground arith;
  }

  pub Copying-next-row :
      (r : ℕ) (s : Pair) → Copying o t sel r refs_per_row s → Copying o t sel (r + 1) 0 s
  Copying-next-row r s inv = record {
    old_valid = inv.old_valid;
    new_valid = inv.new_valid;
    old_used = inv.old_used;
    no_links = inv.no_links;
    no_free = inv.no_free;
    budget = inv.budget;
    moved = λ a b l. ground (arith, inv.moved a b l);
    left = λ a b l. ground (arith, inv.left a b l);
  }

  -- At the end every selected entry is in the new tab, and every other one in the old tab.
  pub Copying-end :
      (s : Pair)
      → Copying o t sel rows_per_tab 0 s
      → (a b : ℕ) → a < rows_per_tab
      → b < refs_per_row
      → (entry_at o s.new a b ≡ pick sel (entry_at o t a b))
        × (entry_at o s.old a b ≡ drop sel (entry_at o t a b))
  Copying-end s inv a b la lb =
      let past : before rows_per_tab 0 a b ≡ true = ground arith in
      (
        inv.moved a b lb ∙ ap (λ (c : Bool). if c then pick sel (entry_at o t a b) else none) past,
        inv.left a b lb
            ∙ ap (λ (c : Bool). if c then drop sel (entry_at o t a b) else entry_at o t a b) past,
      )
