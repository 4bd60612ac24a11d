-- ===== src/Put/Store.antt =====
-- One round of shf_put_key_val() that finds an unused ref.
use sharedhashfile.Prelude.{
  ℕ, zero, suc, ◌+◌, ◌*◌, ◌/◌, ◌≤◌, ◌<◌, ◌≡◌, ◌≢◌, ◌⊎◌, inl, inr, refl, ◌∙◌, false, List, length,
  ltb, ◌==◌, arith, none, some, Bool-cases, Returns, ok,
}
use sharedhashfile.Prelude.Family.{update}
use sharedhashfile.Mem.{Mem}
use sharedhashfile.Layout.{
  tabs_per_win, rows_per_tab, refs_per_row, hash_tab2, hash_row, hash_rnd, u32,
}
use sharedhashfile.Layout.Laws.{hash_in_range}
use sharedhashfile.Tab.{
  Ref, TabMmap, Opts, Vfs, Val, given, reserve, val_len, data_needed, put_record, set_ref,
}
use sharedhashfile.Tab.Slot.{Slot, slot_at, length-val_at}
use sharedhashfile.Tab.Record.{LensFit, key_at-put_record, val_at-put_record, val_len_at-put_record}
use sharedhashfile.Tab.Valid.{IsValid, entry_at, Roomy}
use sharedhashfile.Tab.Append.{append-Appended}
use sharedhashfile.Tab.Copy.{LinksFit}
use sharedhashfile.Tab.Store.{
  Ne, Stored, Stored-IsValid, Stored-entry, Stored-entry_ne, entry_of-unused,
}
use sharedhashfile.Win.{Win}
use sharedhashfile.Win.Valid.{at_uid, WinValid, Within}
use sharedhashfile.Win.Part.{SameUids, shrink-SameUids}
use sharedhashfile.Put.{Hashed, free_ref, put_ref, shrink_after_put}

-- The bytes of a value: the given ones, or any, as many as are reserved.
abbrev pub HoldsVal : Val → List ℕ → Type 0
HoldsVal (given v) bytes = bytes ≡ v
HoldsVal (reserve n) bytes = length bytes ≡ n

-- `w'` is `w` with one more entry, for the hashed key and the value, at the ref `ref` of its row.
pub record IsPut (o : Opts) (h : Hashed) (val : Val) (w : Win) (ref : ℕ) (w' : Win) : Type 0 where
  pub in_row : ref < refs_per_row
  pub was : at_uid o w (hash_tab2 h.hash) (hash_row h.hash) ref ≡ none
  pub slot : Slot
  pub now :
      at_uid o w' (hash_tab2 h.hash) (hash_row h.hash) ref
      ≡ some (record { tab = hash_tab2 h.hash; rnd = hash_rnd h.hash; slot = slot })
  pub holds_key : slot.key ≡ h.key
  pub holds_val : HoldsVal val slot.val
  pub others :
      (tab2 r i : ℕ)
      → tab2 < tabs_per_win
      → r < rows_per_tab
      → i < refs_per_row
      → (hash_tab2 h.hash ≢ tab2) ⊎ (hash_row h.hash ≢ r) ⊎ (ref ≢ i)
      → at_uid o w' tab2 r i ≡ at_uid o w tab2 r i

pub free_ref-some :
    (row : ℕ → Ref) (n i ref : ℕ)
    → free_ref row n i ≡ some ref
    → ((row ref).pos ≡ 0) × (ref < i + n)
unfolding free_ref
free_ref-some row zero i ref e = cc
free_ref-some row (suc n) i ref e = ground (arith, free_ref-some row n (i + 1) ref)

slot-HoldsVal :
    (o : Opts) (m : Mem) (pos : ℕ) (key : List ℕ) (val : Val)
    → LensFit o (length key) (val_len val)
    → HoldsVal val (slot_at o (put_record o m pos key val) pos).val
unfolding slot_at
slot-HoldsVal o m pos key (given v) fit = val_at-put_record o m pos key v fit
slot-HoldsVal o m pos key (reserve n) fit =
    length-val_at o _ pos ∙ val_len_at-put_record o m pos key (reserve n) fit

slot-key :
    (o : Opts) (m : Mem) (pos : ℕ) (key : List ℕ) (val : Val)
    → LensFit o (length key) (val_len val)
    → (slot_at o (put_record o m pos key val) pos).key ≡ key
unfolding slot_at
slot-key o m pos key val fit = key_at-put_record o m pos key val fit

module _ (o : Opts) (h : Hashed) (val : Val) (w : Win) (valid : WinValid o w) (ref : ℕ)
    (in_row : ref < refs_per_row) (fit : LensFit o (length h.key) (val_len val))
    (t' : TabMmap) where
  abbrev tab2 : ℕ
  tab2 = hash_tab2 h.hash

  abbrev row : ℕ
  row = hash_row h.hash

  abbrev rnd : ℕ
  rnd = hash_rnd h.hash

  abbrev tab : ℕ
  tab = w.tabs tab2

  abbrev t : TabMmap
  t = w.tab_mmap tab

  module _ (unused : (t.row row ref).pos ≡ 0)
      (stored : Stored o h.key val row ref tab2 rnd t t') where
    abbrev w' : Win
    w' = record w { tab_mmap = update w.tab_mmap tab t' }

    in_use : tab < w.tabs_used
    in_use = valid.range tab2 (hash_in_range h.hash).1

    t-IsValid : IsValid o t
    t-IsValid = valid.valid tab in_use

    t'-IsValid : IsValid o t'
    t'-IsValid =
        Stored-IsValid o h.key val row ref tab2 rnd t t' t-IsValid unused (hash_in_range h.hash).2
          in_row fit stored

    entry :
        entry_at o t' row ref
        ≡ some (record {
          tab = tab2;
          rnd = rnd;
          slot = slot_at o (put_record o t.mem t.tab_used h.key val) t.tab_used;
        })
    entry =
        Stored-entry o h.key val row ref tab2 rnd t t' t-IsValid unused (hash_in_range h.hash).2
          in_row fit stored

    entry_ne : (r i : ℕ) → Ne row ref r i → entry_at o t' r i ≡ entry_at o t r i
    entry_ne =
        Stored-entry_ne o h.key val row ref tab2 rnd t t' t-IsValid unused (hash_in_range h.hash).2
          in_row fit stored

    no_entry : entry_at o t row ref ≡ none
    no_entry = unfold entry_at in entry_of-unused o t.mem (t.row row ref) unused

    w'_valid : WinValid o w'
    w'_valid = record {
      some_tab = valid.some_tab;
      few = valid.few;
      range = valid.range;
      valid = λ tab' l. elim (Bool-cases (tab == tab')) [
        | inl e ↦ rw e t'-IsValid
        | inr e ↦ rw e (valid.valid tab' l)
      ];
      home = λ tab' r i e l lr li eq.
          ground (arith, valid.home tab' r i e, entry_ne r i, entry, hash_in_range h.hash);
    }

    put_lem : IsPut o h val w ref w'
    unfolding at_uid
    put_lem = record {
      in_row = in_row;
      was = rw no_entry;
      slot = slot_at o (put_record o t.mem t.tab_used h.key val) t.tab_used;
      now = ground (arith, entry);
      holds_key = slot-key o t.mem t.tab_used h.key val fit;
      holds_val = slot-HoldsVal o t.mem t.tab_used h.key val fit;
      others = λ tab2' r i l lr li ne. ground (arith, entry_ne r i, entry, no_entry);
    }

pub variable_links : (o : Opts) → o.is_fixed_key_val_len ≡ false → LinksFit o
variable_links o e = ground arith

pub SameUids-refl : (o : Opts) (w : Win) → WinValid o w → SameUids o w w
SameUids-refl o w valid = record { valid = valid; uids = λ tab2 r i _ _ _. refl; within = λ n h. h }

pub shrink_after_put-SameUids :
    (o : Opts) (vfs : Vfs) (n tab : ℕ) (w : Win)
    → WinValid o w
    → Within n w
    → Roomy o vfs n
    → LinksFit o
    → tab < w.tabs_used
    → Returns (SameUids o w) (shrink_after_put o vfs tab w)
unfolding shrink_after_put
shrink_after_put-SameUids o vfs n tab w valid within roomy links lt =
    let test =
      ltb (u32 ((w.tab_mmap tab).tab_data_used * 20) / 100) (w.tab_mmap tab).tab_data_free in
    elim (Bool-cases test) [
      | inl e ↦
          let (w', e', (same, _, _, _)) =
            shrink-SameUids o vfs n tab w valid within roomy links lt in
          (w', rw e e', same)
      | inr e ↦ (w, rw e, SameUids-refl o w valid)
    ]

-- Shrinking afterwards changes nothing that a UID stands for.
IsPut-SameUids :
    (o : Opts) (h : Hashed) (val : Val) (w w₁ w₂ : Win) (ref : ℕ)
    → IsPut o h val w ref w₁
    → SameUids o w₁ w₂
    → IsPut o h val w ref w₂
IsPut-SameUids o h val w w₁ w₂ ref put same = record {
  in_row = put.in_row;
  was = put.was;
  slot = put.slot;
  now =
      same.uids (hash_tab2 h.hash) (hash_row h.hash) ref (hash_in_range h.hash).1
        (hash_in_range h.hash).2 put.in_row
      ∙ put.now;
  holds_key = put.holds_key;
  holds_val = put.holds_val;
  others = λ tab2 r i l lr li ne. same.uids tab2 r i l lr li ∙ put.others tab2 r i l lr li ne;
}

module _ (o : Opts) (vfs : Vfs) (h : Hashed) (val : Val) (m n ref : ℕ) (w : Win)
    (variable : o.is_fixed_key_val_len ≡ false) (fit : LensFit o (length h.key) (val_len val))
    (valid : WinValid o w) (within : Within m w) (roomy : Roomy o vfs n)
    (room : m + data_needed o (length h.key) (val_len val) ≤ n)
    (free : free_ref ((w.tab_mmap (w.tabs (hash_tab2 h.hash))).row (hash_row h.hash)) refs_per_row 0
      ≡ some ref) where
  abbrev the_tab : ℕ
  the_tab = w.tabs (hash_tab2 h.hash)

  pub put_ref_lem :
      Returns
        (λ w₁. WinValid o w₁ × IsPut o h val w ref w₁ × Within n w₁ × (the_tab < w₁.tabs_used))
        (put_ref o vfs h val the_tab ref w)
  unfolding put_ref
  put_ref_lem =
      let (unused, in_row) = free_ref-some _ refs_per_row 0 ref free in
      let lt = valid.range (hash_tab2 h.hash) (hash_in_range h.hash).1 in
      let here = valid.valid the_tab lt in
      let (p, e, app) =
        append-Appended o vfs n h.key val (w.tab_mmap the_tab) roomy here.fits here.sized
          (inl variable) (omega (arith, within the_tab lt)) in
      let t' = record (p.1) {
        row =
            set_ref p.1.row (hash_row h.hash) ref
              (record { tab = hash_tab2 h.hash; rnd = hash_rnd h.hash; pos = p.0 });
      } in
      let stored : Stored o h.key val (hash_row h.hash) ref (hash_tab2 h.hash) (hash_rnd h.hash)
          (w.tab_mmap the_tab) t' =
        record {
          used = app.used;
          fits = app.fits;
          sized = app.sized;
          rows = rw (app.rows, app.at);
          mem = app.mem;
          free_pos = app.free_pos;
          free = app.free;
          counted = app.counted;
        } in
      (
        record w { tab_mmap = update w.tab_mmap the_tab t' },
        rw e,
        (
          w'_valid o h val w valid ref (omega arith) fit t' unused stored,
          put_lem o h val w valid ref (omega arith) fit t' unused stored,
          (λ tab' l. ground (arith, within tab' l, app.used)),
          lt,
        ),
      )

  -- Both steps of the round succeed.
  pub one_round :
      (w₁ w₂ : Win) × (put_ref o vfs h val the_tab ref w ≡ ok w₁)
      × (shrink_after_put o vfs the_tab w₁ ≡ ok w₂)
      × WinValid o w₂
      × IsPut o h val w ref w₂
      × Within n w₂
  one_round =
      let (w₁, e, (valid₁, put, within₁, lt)) = put_ref_lem in
      let (w₂, e', same) =
        shrink_after_put-SameUids o vfs n the_tab w₁ valid₁ within₁ roomy
          (variable_links o variable) lt in
      (
        w₁,
        w₂,
        e,
        e',
        same.valid,
        IsPut-SameUids o h val w w₁ w₂ ref put same,
        same.within n within₁,
      )
