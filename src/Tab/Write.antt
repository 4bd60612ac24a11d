-- ===== src/Tab/Write.antt =====
-- Writing to a record's value in place changes that value only.
use sharedhashfile.Prelude.{
  ℕ, ◌+◌, ◌≤◌, ◌<◌, ◌≡◌, ◌≢◌, ◌⊎◌, inl, inr, refl, sym, ap, ◌∙◌, arith, some,
}
use sharedhashfile.Mem.{Mem, get_mem}
use sharedhashfile.Mem.Frame.{Same, Same-within, get_u32-Same, get_mem-Same}
use sharedhashfile.Layout.{rows_per_tab, refs_per_row}
use sharedhashfile.Tab.{TabMmap, Opts, len_len, key_len_at, val_len_at, key_at, val_at}
use sharedhashfile.Tab.Slot.{
  Slot, slot_at, size_at-slot_at, size_at, len_len-variable, size_at-Same, if_congr,
}
use sharedhashfile.Tab.Valid.{entry_size, live_size, live_size-change, IsValid, entry_of, entry_at}
use sharedhashfile.Tab.Store.{entry_of-used, Ne, entry_of-Same}

-- The value's offset.
abbrev pub value_pos : Opts → Mem → ℕ → ℕ
value_pos o m pos = pos + 1 + len_len o + key_len_at o m pos + len_len o

-- Memory that differs from `m` in the value of the record at `pos` only.
abbrev pub SameButVal : Opts → Mem → ℕ → Mem → Type 0
SameButVal o m pos m' =
    (a : ℕ) → (a < value_pos o m pos) ⊎ (value_pos o m pos + val_len_at o m pos ≤ a) → m' a ≡ m a

module _ (o : Opts) (m m' : Mem) (pos : ℕ) (but : SameButVal o m pos m') where
  front : Same m m' pos (1 + len_len o + key_len_at o m pos + len_len o)
  front a lo hi = but a (inl (omega arith))

  key_len_at-front : key_len_at o m' pos ≡ key_len_at o m pos
  unfolding key_len_at
  key_len_at-front = if_congr o.is_fixed_key_val_len o.fixed_key_len _ _ λ e.
      get_u32-Same (pos + 1)
        (Same-within pos _ (pos + 1) 4 (omega arith) (omega (arith, len_len-variable o e)) front)

  val_len_at-front : val_len_at o m' pos ≡ val_len_at o m pos
  unfolding val_len_at
  val_len_at-front = rw key_len_at-front (
      if_congr o.is_fixed_key_val_len o.fixed_val_len _ _ λ e.
        get_u32-Same (pos + 1 + len_len o + key_len_at o m pos)
          (Same-within pos _ _ 4 (omega arith) (omega (arith, len_len-variable o e)) front))

  key_at-front : key_at o m' pos ≡ key_at o m pos
  unfolding key_at
  key_at-front =
      rw key_len_at-front
        (get_mem-Same _ _ (Same-within pos _ _ _ (omega arith) (omega arith) front))

  pub size_at-front : size_at o m' pos ≡ size_at o m pos
  unfolding size_at
  size_at-front = rw (key_len_at-front, val_len_at-front)

  pub slot_at-front :
      slot_at o m' pos
      ≡ record { key = key_at o m pos; val = get_mem m' (value_pos o m pos) (val_len_at o m pos) }
  unfolding slot_at val_at
  slot_at-front = rw (key_at-front, key_len_at-front, val_len_at-front) refl

module _ (o : Opts) (r i : ℕ) (t : TabMmap) (valid : IsValid o t) (live : (t.row r i).pos ≢ 0)
    (row_bound : r < rows_per_tab) (ref_bound : i < refs_per_row) (m' : Mem)
    (but : SameButVal o t.mem (t.row r i).pos m') where
  abbrev pos : ℕ
  pos = (t.row r i).pos

  abbrev written : TabMmap
  written = record t { mem = m' }

  kept :
      (a b : ℕ)
      → Ne r i a b
      → (t.row a b).pos ≢ 0
      → Same t.mem m' (t.row a b).pos (size_at o t.mem (t.row a b).pos)
  unfolding size_at
  kept a b ne live' c lo hi = but c (ground (arith, valid.apart r i a b live live' ne))

  size_kept :
      (a b : ℕ)
      → (t.row a b).pos ≢ 0
      → size_at o m' (t.row a b).pos ≡ size_at o t.mem (t.row a b).pos
  size_kept a b l = elim (same_ref r i a b) [
    | inl (p, q) ↦ rw (← p, ← q) (size_at-front o t.mem m' pos but)
    | inr ne ↦ size_at-Same o _ (kept a b ne l)
  ]
    where
      same_ref : (r i a b : ℕ) → ((r ≡ a) × (i ≡ b)) ⊎ Ne r i a b
      same_ref r i a b = ground arith

  -- The entry with another value.
  pub written-entry :
      entry_at o written r i
      ≡ some (record {
        tab = (t.row r i).tab;
        rnd = (t.row r i).rnd;
        slot = record {
          key = key_at o t.mem pos;
          val = get_mem m' (value_pos o t.mem pos) (val_len_at o t.mem pos);
        };
      })
  unfolding entry_at
  written-entry =
      entry_of-used o m' (t.row r i) live
      ∙ ap (λ (s : Slot). some (record { tab = (t.row r i).tab; rnd = (t.row r i).rnd; slot = s }))
          (slot_at-front o t.mem m' pos but)

  pub written-entry_ne : (a b : ℕ) → Ne r i a b → entry_at o written a b ≡ entry_at o t a b
  unfolding entry_at
  written-entry_ne a b ne = entry_of-Same o (t.row a b) (kept a b ne)

  live_size-written : live_size o written ≡ live_size o t
  unfolding entry_at
  live_size-written =
      let change = live_size-change o t written r i row_bound ref_bound written-entry_ne in
      let before : entry_size o (entry_of o t.mem (t.row r i)) ≡ size_at o t.mem pos =
        rw (entry_of-used o t.mem (t.row r i) live) (sym (size_at-slot_at o t.mem pos)) in
      let now : entry_size o (entry_of o m' (t.row r i)) ≡ size_at o m' pos =
        rw (entry_of-used o m' (t.row r i) live) (sym (size_at-slot_at o m' pos)) in
      omega (arith, change, before, now, size_at-front o t.mem m' pos but)

  pub written-IsValid : IsValid o written
  written-IsValid = record {
    sized = valid.sized;
    starts = valid.starts;
    fits = valid.fits;
    accounted = valid.accounted;
    counted = omega (arith, valid.counted, live_size-written);
    inside = λ a b l. rw (size_kept a b l) (valid.inside a b l);
    apart = λ a b c d l l' ne. rw (size_kept a b l, size_kept c d l') (valid.apart a b c d l l' ne);
  }
