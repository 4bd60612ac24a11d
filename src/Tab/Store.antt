-- ===== src/Tab/Store.antt =====
-- A record appended, and a ref that was unused pointed at it.
use sharedhashfile.Prelude.{
  ap, sym, ◌∙◌, ℕ, ◌+◌, ◌≤◌, ◌<◌, ◌^◌, ◌≡◌, ◌≢◌, ◌⊎◌, inl, inr, List, length, ◌==◌, arith, none,
  some, Bool-cases,
}
use sharedhashfile.Mem.{Mem}
use sharedhashfile.Mem.Frame.{Same}
use sharedhashfile.Layout.{rows_per_tab, refs_per_row, data_offset, u32}
use sharedhashfile.Tab.{Ref, TabMmap, Opts, Val, val_len, data_needed, put_record, set_ref}
use sharedhashfile.Tab.Slot.{size_at-slot_at, slot_at, size_at, slot_at-Same, size_at-Same}
use sharedhashfile.Tab.Record.{
  LensFit, put_record-Same, key_len_at-put_record, val_len_at-put_record,
}
use sharedhashfile.Tab.Valid.{
  entry_size, live_size, live_size-change, IsValid, entry_of, entry_at, Apart,
}

-- The ref that is written, or another one.
abbrev pub Ne : ℕ → ℕ → ℕ → ℕ → Type 0
Ne r i r' i' = (r ≢ r') ⊎ (i ≢ i')

pub set_ref-cases :
    (rows : ℕ → ℕ → Ref) (r i : ℕ) (x : Ref) (r' i' : ℕ)
    → ((r ≡ r') × (i ≡ i') × (set_ref rows r i x r' i' ≡ x))
      ⊎ (Ne r i r' i' × (set_ref rows r i x r' i' ≡ rows r' i'))
set_ref-cases rows r i x r' i' = ground arith

pub entry_of-used :
    (o : Opts) (m : Mem) (x : Ref)
    → x.pos ≢ 0
    → entry_of o m x ≡ some (record { tab = x.tab; rnd = x.rnd; slot = slot_at o m x.pos })
unfolding entry_of
entry_of-used o m x live = ground arith

pub entry_of-unused : (o : Opts) (m : Mem) (x : Ref) → x.pos ≡ 0 → entry_of o m x ≡ none
unfolding entry_of
entry_of-unused o m x e = ground arith

-- A ref stands for the same while the bytes of its record stay.
pub entry_of-Same :
    (o : Opts) {m m' : Mem} (x : Ref)
    → (x.pos ≢ 0 → Same m m' x.pos (size_at o m x.pos))
    → entry_of o m' x ≡ entry_of o m x
unfolding entry_of
entry_of-Same o {m} {m'} x f = elim (Bool-cases (x.pos == 0)) [
  | inl e ↦ rw e
  | inr e ↦ rw (e, slot_at-Same o x.pos (f (ground arith)))
]

-- `t'` is `t`, perhaps bigger, with the record appended and the ref pointed at it.
pub record Stored (o : Opts) (key : List ℕ) (val : Val) (r i tab rnd : ℕ) (t t' : TabMmap)
    : Type 0 where
  pub used : t'.tab_used ≡ t.tab_used + data_needed o (length key) (val_len val)
  pub fits : t'.tab_used ≤ t'.tab_size
  pub sized : t'.tab_size < 2 ^ 32
  pub rows : t'.row ≡ set_ref t.row r i (record { tab = tab; rnd = rnd; pos = t.tab_used })
  pub mem : t'.mem ≡ put_record o t.mem t.tab_used key val
  pub free_pos : t'.tab_data_free_pos ≡ t.tab_data_free_pos
  pub free : t'.tab_data_free ≡ t.tab_data_free
  pub counted : t'.tab_data_used ≡ u32 (t.tab_data_used + data_needed o (length key) (val_len val))

module _ (o : Opts) (key : List ℕ) (val : Val) (r i tab rnd : ℕ) (t t' : TabMmap)
    (valid : IsValid o t) (unused : (t.row r i).pos ≡ 0) (row_bound : r < rows_per_tab)
    (ref_bound : i < refs_per_row) (fit : LensFit o (length key) (val_len val))
    (stored : Stored o key val r i tab rnd t t') where
  abbrev new_mem : Mem
  new_mem = put_record o t.mem t.tab_used key val

  abbrev new_ref : Ref
  new_ref = record { tab = tab; rnd = rnd; pos = t.tab_used }

  abbrev new_rows : ℕ → ℕ → Ref
  new_rows = set_ref t.row r i new_ref

  -- What the old refs point at does not change.
  kept :
      (r' i' : ℕ)
      → (t.row r' i').pos ≢ 0
      → Same t.mem new_mem (t.row r' i').pos (size_at o t.mem (t.row r' i').pos)
  kept r' i' live = put_record-Same o t.mem t.tab_used key val _ _ (inr (valid.inside r' i' live).1)

  new_size : size_at o new_mem t.tab_used ≡ data_needed o (length key) (val_len val)
  unfolding size_at
  new_size = rw (
    key_len_at-put_record o t.mem t.tab_used key val fit,
    val_len_at-put_record o t.mem t.tab_used key val fit,
  )

  inside :
      (r' i' : ℕ)
      → (new_rows r' i').pos ≢ 0
      → (data_offset ≤ (new_rows r' i').pos)
        × ((new_rows r' i').pos + size_at o new_mem (new_rows r' i').pos
            ≤ t.tab_used + data_needed o (length key) (val_len val))
  inside r' i' live = elim (set_ref-cases t.row r i new_ref r' i') [
    | inl (_, _, e) ↦ rw e (valid.starts, omega (arith, new_size))
    | inr (_, e) ↦
        let live' = rw e at live in
        rw (e, size_at-Same o _ (kept r' i' live')) (omega (arith, valid.inside r' i' live'))
  ]

  abbrev size : ℕ → ℕ → ℕ
  size r' i' = size_at o t.mem (t.row r' i').pos

  -- The new record lies behind all the old ones.
  behind : (r' i' : ℕ) → (t.row r' i').pos ≢ 0 → (t.row r' i').pos + size r' i' ≤ t.tab_used
  behind r' i' live = (valid.inside r' i' live).1

  apart :
      (a b c d : ℕ)
      → (new_rows a b).pos ≢ 0
      → (new_rows c d).pos ≢ 0
      → Ne a b c d
      → Apart
          (new_rows a b).pos
          (size_at o new_mem (new_rows a b).pos)
          (new_rows c d).pos
          (size_at o new_mem (new_rows c d).pos)
  apart a b c d live_ab live_cd ne = elim (set_ref-cases t.row r i new_ref a b) [
    | inl (p, q, e) ↦ elim (set_ref-cases t.row r i new_ref c d) [
      | inl (p', q', _) ↦ absurd (ground arith)
      | inr (_, e') ↦
          let l = rw e' at live_cd in rw (e, e', size_at-Same o _ (kept c d l)) (inr (behind c d l))
    ]
    | inr (_, e) ↦
        let l = rw e at live_ab in
        elim (set_ref-cases t.row r i new_ref c d) [
          | inl (_, _, e') ↦ rw (e, e', size_at-Same o _ (kept a b l)) (inl (behind a b l))
          | inr (_, e') ↦
              let l' = rw e' at live_cd in
              rw (e, e', size_at-Same o _ (kept a b l), size_at-Same o _ (kept c d l'))
                (valid.apart a b c d l l' ne)
        ]
  ]

  -- No other ref changes what it stands for.
  pub Stored-entry_ne : (r' i' : ℕ) → Ne r i r' i' → entry_at o t' r' i' ≡ entry_at o t r' i'
  unfolding entry_at
  Stored-entry_ne r' i' ne =
      rw (stored.rows, stored.mem)
        (elim (set_ref-cases t.row r i new_ref r' i') [
          | inl (p, q, _) ↦ absurd (ground arith)
          | inr (_, e) ↦ rw e (entry_of-Same o (t.row r' i') (kept r' i'))
        ])

  -- The ref stands for the key, and for a value of the given length.
  pub Stored-entry :
      entry_at o t' r i
      ≡ some (record { tab = tab; rnd = rnd; slot = slot_at o new_mem t.tab_used })
  unfolding entry_at
  Stored-entry =
      rw (stored.rows, stored.mem)
        (elim (set_ref-cases t.row r i new_ref r i) [
          | inl (_, _, e) ↦ rw e (entry_of-used o new_mem _ (omega (arith, valid.starts)))
          | inr (ne, _) ↦ absurd (ground arith)
        ])

  -- The ref was unused.
  was_none : entry_at o t r i ≡ none
  unfolding entry_at
  was_none = entry_of-unused o t.mem (t.row r i) unused

  new_entry_size : entry_size o (entry_at o t' r i) ≡ data_needed o (length key) (val_len val)
  new_entry_size = rw Stored-entry (sym (size_at-slot_at o new_mem t.tab_used) ∙ new_size)

  counted : t.tab_data_used + data_needed o (length key) (val_len val) ≡ live_size o t'
  counted =
      let change = live_size-change o t t' r i row_bound ref_bound Stored-entry_ne in
      let old_none : entry_size o (entry_at o t r i) ≡ 0 = ap (entry_size o) was_none in
      omega (arith, change, old_none, new_entry_size, valid.counted)

  pub Stored-IsValid : IsValid o t'
  Stored-IsValid = record {
    sized = stored.sized;
    starts = omega (arith, stored.used, valid.starts);
    fits = stored.fits;
    accounted = omega (
      arith, stored.used, stored.counted, stored.free, valid.accounted, stored.fits, stored.sized,
    );
    counted =
        omega
          (arith, counted, stored.used, stored.counted, valid.accounted, stored.fits, stored.sized);
    inside = rw (stored.rows, stored.mem, stored.used) inside;
    apart = rw (stored.rows, stored.mem) apart;
  }
