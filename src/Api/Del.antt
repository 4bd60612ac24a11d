-- ===== src/Api/Del.antt =====
-- What deleting the entry that a UID stands for does: SHF_FIND_KEY_OR_UID_AND_DELETE.
use sharedhashfile.Prelude.{
  ℕ, ◌+◌, ◌<◌, ◌≡◌, ◌≢◌, ◌⊎◌, inl, inr, refl, false, arith, none, some, Bool-cases, ◌==◌,
}
use sharedhashfile.Layout.{
  tabs_per_win, rows_per_tab, refs_per_row, uid_none, ret_key_found, ret_not_ttl,
}
use sharedhashfile.Mem.{get_u32}
use sharedhashfile.Tab.{TabMmap, Opts, key_len_at, val_len_at, mark_as_deleted}
use sharedhashfile.Tab.Slot.{slot_at}
use sharedhashfile.Tab.Valid.{IsValid, entry_at}
use sharedhashfile.Tab.Store.{entry_of-used}
use sharedhashfile.Tab.Delete.{
  LinkFits, deleted-IsValid, deleted-entry, deleted-entry_ne, deleted-used,
}
use sharedhashfile.Win.{Win}
use sharedhashfile.Win.Valid.{at_uid, WinValid, Within}
use sharedhashfile.Win.Part.{SameUids}
use sharedhashfile.Put.Store.{SameUids-refl}
use sharedhashfile.Find.{Thread, delete, set_tab, val_pos}
use sharedhashfile.Find.Cases.{Here, entry_here, ref_of}

-- `w'` is well formed; its UID (tab2, r, i) stands for nothing, and each other UID for what it
-- stood for in `w`; no tab holds more.
pub record Deleted (o : Opts) (w : Win) (tab2 r i : ℕ) (w' : Win) : Type 0 where
  pub valid : WinValid o w'
  pub gone : at_uid o w' tab2 r i ≡ none
  pub others :
      (tab2' r' i' : ℕ)
      → tab2' < tabs_per_win
      → r' < rows_per_tab
      → i' < refs_per_row
      → (tab2 ≢ tab2') ⊎ (r ≢ r') ⊎ (i ≢ i')
      → at_uid o w' tab2' r' i' ≡ at_uid o w tab2' r' i'
  pub within : (n : ℕ) → Within n w → Within n w'

module _ (o : Opts) (w : Win) (valid : WinValid o w) (variable : o.is_fixed_key_val_len ≡ false)
    (tab2 r i : ℕ) (lt : tab2 < tabs_per_win) (row_bound : r < rows_per_tab)
    (ref_bound : i < refs_per_row) (here : Here o w tab2 r i) where
  abbrev tab : ℕ
  tab = w.tabs tab2

  abbrev t : TabMmap
  t = w.tab_mmap tab

  abbrev pos : ℕ
  pos = (t.row r i).pos

  abbrev k : ℕ
  k = key_len_at o t.mem pos

  abbrev v : ℕ
  v = val_len_at o t.mem pos

  abbrev t' : TabMmap
  t' = mark_as_deleted o r i k v t

  abbrev w' : Win
  w' = set_tab w tab t'

  t-IsValid : IsValid o t
  t-IsValid = valid.valid tab (valid.range tab2 lt)

  no_link : LinkFits o k v
  no_link e = absurd (ground arith)

  t'-IsValid : IsValid o t'
  t'-IsValid = deleted-IsValid o r i t t-IsValid here.live row_bound ref_bound no_link

  entry : entry_at o t' r i ≡ none
  entry = deleted-entry o r i t t-IsValid here.live row_bound ref_bound

  entry_ne : (a b : ℕ) → (r ≢ a) ⊎ (i ≢ b) → entry_at o t' a b ≡ entry_at o t a b
  entry_ne = deleted-entry_ne o r i t t-IsValid here.live row_bound ref_bound no_link

  was : entry_at o t r i ≡ some (entry_here o w tab2 r i)
  unfolding entry_at
  was = entry_of-used o t.mem (t.row r i) here.live

  t'_used : t'.tab_used ≡ t.tab_used
  t'_used = deleted-used o r i t t-IsValid here.live row_bound ref_bound

  pub set_tab-Deleted : Deleted o w tab2 r i w'
  unfolding at_uid
  set_tab-Deleted = record {
    valid = record {
      some_tab = valid.some_tab;
      few = valid.few;
      range = valid.range;
      valid = λ tab' l. elim (Bool-cases (tab == tab')) [
        | inl e ↦ rw e t'-IsValid
        | inr e ↦ rw e (valid.valid tab' l)
      ];
      home = λ tab' a b e l la lb h. ground (arith, valid.home tab' a b e, entry_ne a b, entry);
    };
    gone = ground (arith, entry);
    others = λ tab2' a b l la lb ne. ground (arith, entry_ne a b, entry, was, here.home);
    within = λ n h tab' l. ground (arith, h tab', t'_used);
  }

-- The word that the value of the UID's entry starts with.
abbrev pub first_word : Opts → Win → ℕ → ℕ → ℕ → ℕ
first_word o w tab2 r i =
    let m = (w.tab_mmap (w.tabs tab2)).mem in get_u32 m (val_pos o m (ref_of w tab2 r i).pos)

-- What deleting the UID's entry leaves: it is gone, and its value is copied if there was a TTL to
-- compare with; or the TTL is not the first word of the value, and nothing changes.
abbrev pub Deletes : Opts → Win → Thread → ℕ → ℕ → ℕ → ℕ × Win × Thread → Type 0
Deletes o w th tab2 r i (result, w', th') =
    (th'.ttl ≡ 0)
    × (((result ≡ ret_key_found)
          × Deleted o w tab2 r i w'
          × (th'.uid ≡ uid_none)
          × ((th.ttl ≡ 0)
              ⊎ ((th.ttl ≡ first_word o w tab2 r i)
                  × (th'.val ≡ (entry_here o w tab2 r i).slot.val))))
        ⊎ ((result ≡ ret_key_found + ret_not_ttl)
            × (th.ttl ≢ 0)
            × (th.ttl ≢ first_word o w tab2 r i)
            × SameUids o w w'))

pub delete-Deletes :
    (o : Opts) (w : Win) (th : Thread) (tab2 r i : ℕ)
    → WinValid o w
    → o.is_fixed_key_val_len ≡ false
    → tab2 < tabs_per_win
    → r < rows_per_tab
    → i < refs_per_row
    → Here o w tab2 r i
    → Deletes o w th tab2 r i (delete o (w.tabs tab2) r i w th)
unfolding delete slot_at
delete-Deletes o w th tab2 r i valid variable lt lr li here =
    let gone = set_tab-Deleted o w valid variable tab2 r i lt lr li here in
    elim (Bool-cases (th.ttl == 0)) [
      | inl e ↦ rw e (refl, inl (refl, gone, refl, inl (ground arith)))
      | inr e ↦ elim (Bool-cases (th.ttl == first_word o w tab2 r i)) [
        | inl e₁ ↦ rw (e, e₁) (refl, inl (refl, gone, refl, inr (ground arith, refl)))
        | inr e₁ ↦
            rw (e, e₁) (refl, inr (refl, ground arith, ground arith, SameUids-refl o w valid))
      ]
    ]
