-- ===== src/Put/Total.antt =====
-- shf_put_key_val() as a whole: it ends, and what it leaves.
use sharedhashfile.Prelude.{
  ℕ, zero, suc, ◌+◌, ◌≤◌, ◌<◌, ◌≡◌, ◌⊎◌, inl, inr, ◌∙◌, false, length, arith, Option, none, some,
  Option-cases, ok, abort, Run,
}
use sharedhashfile.Layout.{tabs_per_win, refs_per_row, hash_tab2, hash_row}
use sharedhashfile.Layout.Laws.{hash_in_range}
use sharedhashfile.Tab.{Opts, Vfs, Val, val_len, data_needed}
use sharedhashfile.Tab.Record.{LensFit}
use sharedhashfile.Tab.Valid.{Roomy}
use sharedhashfile.Win.{Win}
use sharedhashfile.Win.Valid.{WinValid, Within}
use sharedhashfile.Win.Part.{SameUids, SameUids-trans, part-SameUids, part-abort}
use sharedhashfile.Put.{Hashed, uid_for, free_ref, put_key_val}
use sharedhashfile.Put.Store.{IsPut, one_round, variable_links, SameUids-refl}

-- Every ref of a row is used.
abbrev pub RowFull : Hashed → Win → Type 0
RowFull h w =
    free_ref ((w.tab_mmap (w.tabs (hash_tab2 h.hash))).row (hash_row h.hash)) refs_per_row 0 ≡ none

-- How shf_put_key_val() may end: with the entry put, or with a failed assertion in a window
-- whose tabs are all in use.
abbrev pub PutResult : Opts → Hashed → Val → Win → Run (Option (ℕ × Win)) → Type 0
PutResult o h val w r =
    ((ref : ℕ) × (w' : Win) × (r ≡ ok (some (uid_for h ref, w')))
      × WinValid o w'
      × IsPut o h val w ref w')
    ⊎ ((r ≡ abort) × ((w' : Win) × SameUids o w w' × (w'.tabs_used ≡ tabs_per_win) × RowFull h w'))

-- The same, and that the tabs hold at most `n` bytes afterwards.
abbrev pub PutWithin : Opts → Hashed → Val → ℕ → Win → Run (Option (ℕ × Win)) → Type 0
PutWithin o h val n w r =
    ((ref : ℕ) × (w' : Win) × (r ≡ ok (some (uid_for h ref, w')))
      × WinValid o w'
      × IsPut o h val w ref w'
      × Within n w')
    ⊎ ((r ≡ abort) × ((w' : Win) × SameUids o w w' × (w'.tabs_used ≡ tabs_per_win) × RowFull h w'))

-- An entry put after the window was rearranged is put into the window.
IsPut-after :
    (o : Opts) (h : Hashed) (val : Val) (w w₁ w₂ : Win) (ref : ℕ)
    → SameUids o w w₁
    → IsPut o h val w₁ ref w₂
    → IsPut o h val w ref w₂
IsPut-after o h val w w₁ w₂ ref same put = record {
  in_row = put.in_row;
  was = ground (
    arith,
    same.uids (hash_tab2 h.hash) (hash_row h.hash) ref (hash_in_range h.hash).1
        (hash_in_range h.hash).2 put.in_row,
    put.was,
  );
  slot = put.slot;
  now = put.now;
  holds_key = put.holds_key;
  holds_val = put.holds_val;
  others = λ tab2 r i l lr li ne. put.others tab2 r i l lr li ne ∙ same.uids tab2 r i l lr li;
}

-- What holds of the rest of the rounds, on the parted window, holds on the window.
pub PutResult-after :
    (o : Opts) (h : Hashed) (val : Val) (w w₁ : Win) (r : Run (Option (ℕ × Win)))
    → SameUids o w w₁
    → PutResult o h val w₁ r
    → PutResult o h val w r
PutResult-after o h val w w₁ r same res = elim res [
  | inl (ref, w', e, valid, put) ↦ inl (ref, w', e, valid, IsPut-after o h val w w₁ w' ref same put)
  | inr (e, (w', same', used, full)) ↦
      inr (e, (w', SameUids-trans o w w₁ w' same same', used, full))
]

PutWithin-after :
    (o : Opts) (h : Hashed) (val : Val) (n : ℕ) (w w₁ : Win) (r : Run (Option (ℕ × Win)))
    → SameUids o w w₁
    → PutWithin o h val n w₁ r
    → PutWithin o h val n w r
PutWithin-after o h val n w w₁ r same res = elim res [
  | inl (ref, w', e, valid, put, within) ↦
      inl (ref, w', e, valid, IsPut-after o h val w w₁ w' ref same put, within)
  | inr (e, (w', same', used, full)) ↦
      inr (e, (w', SameUids-trans o w w₁ w' same same', used, full))
]

le_cases : (a b : ℕ) → (a < b) ⊎ (b ≤ a)
le_cases a b = omega arith

module _ (o : Opts) (vfs : Vfs) (h : Hashed) (val : Val) (m n : ℕ)
    (variable : o.is_fixed_key_val_len ≡ false) (fit : LensFit o (length h.key) (val_len val))
    (roomy : Roomy o vfs n) (room : m + data_needed o (length h.key) (val_len val) ≤ n) where
  pub put_key_val-PutWithin :
      (rounds : ℕ) (w : Win)
      → WinValid o w
      → Within m w
      → tabs_per_win < w.tabs_used + rounds
      → PutWithin o h val n w (put_key_val o vfs rounds h val w)
  unfolding put_key_val
  put_key_val-PutWithin zero w valid within enough = absurd (omega (arith, valid.few))
  put_key_val-PutWithin (suc rounds) w valid within enough =
      let tab = w.tabs (hash_tab2 h.hash) in
      elim (Option-cases (free_ref ((w.tab_mmap tab).row (hash_row h.hash)) refs_per_row 0)) [
        | inl e ↦ elim (le_cases w.tabs_used tabs_per_win) [
          | inl more ↦
              let (w₁, e₁, (same, used)) =
                part-SameUids o vfs n tab w valid (λ t l. omega (arith, within t l)) roomy
                  (variable_links o variable) (valid.range _ (hash_in_range h.hash).1) more in
              PutWithin-after o h val n w w₁ _ same (
                rw (e, e₁)
                  (put_key_val-PutWithin rounds w₁ same.valid (same.within m within) (omega arith)))
          | inr full ↦ inr (
            rw (e, part-abort o vfs tab w (omega (arith, valid.few))),
            (w, SameUids-refl o w valid, omega (arith, valid.few), e),
          )
        ]
        | inr (ref, e) ↦
            let (w₁, w₂, e₁, e₂, valid₂, put, within₂) =
              one_round o vfs h val m n ref w variable fit valid within roomy room e in
            inl (ref, w₂, rw (e, e₁, e₂), valid₂, put, within₂)
      ]

  -- Where the lengths of keys and values are stored with them, in a well-formed window whose tabs
  -- hold at most `m` bytes, if the new record's length fits the type of its field, the file system
  -- has space for a tab of `n` bytes and `n` has space for the record, then shf_put_key_val() ends
  -- within the given number of rounds, where those exceed the unused tabs. Either the key and the
  -- value are an entry at an unused ref of the hash's row, which the UID returned names, the window
  -- is well formed and what every other UID stands for is unchanged; or an assertion fails,
  -- because all 2048 tabs are in use and the row is full.
  pub put_key_val-PutResult :
      (rounds : ℕ) (w : Win)
      → WinValid o w
      → Within m w
      → tabs_per_win < w.tabs_used + rounds
      → PutResult o h val w (put_key_val o vfs rounds h val w)
  put_key_val-PutResult rounds w valid within enough =
      elim (put_key_val-PutWithin rounds w valid within enough) [
        | inl (ref, w', e, valid', put, _) ↦ inl (ref, w', e, valid', put)
        | inr fail ↦ inr fail
      ]
