-- ===== src/Tab/Delete.antt =====
-- SHF_TAB_REF_MARK_AS_DELETED drops one ref and leaves what the others stand for.
use sharedhashfile.Prelude.{
  ℕ, ◌+◌, ◌≤◌, ◌<◌, ◌^◌, ◌≡◌, ◌≢◌, inl, inr, refl, sym, ap, ◌∙◌, Bool, true, false, if◌then◌else◌,
  arith, none,
}
use sharedhashfile.Mem.{Mem, put_u08, put_u32, get_u32}
use sharedhashfile.Mem.Frame.{Same, Same-trans, put_u08-Same, put_u32-Same, get_u32-put_u32}
use sharedhashfile.Layout.{rows_per_tab, refs_per_row, data_type_deleted, u32}
use sharedhashfile.Tab.{
  Ref, TabMmap, Opts, len_len, key_len_at, val_len_at, data_needed, is_linked, mark_mem,
  mark_as_deleted, set_ref,
}
use sharedhashfile.Tab.Slot.{size_at-slot_at, size_at, len_len-variable, size_at-Same}
use sharedhashfile.Tab.Valid.{
  entry_size, live_size, live_size-change, IsValid, entry_of, entry_at, Apart,
}
use sharedhashfile.Tab.Store.{entry_of-used, Ne, set_ref-cases, entry_of-Same}

-- If a deleted record is linked into the free list, then the link fits into it.
abbrev pub LinkFits : Opts → ℕ → ℕ → Type 0
LinkFits o key_len val_len = is_linked o key_len val_len ≡ true → 8 ≤ key_len + val_len

Same-if :
    (b : Bool) (m m₁ m₂ : Mem) (p n : ℕ)
    → (b ≡ true → Same m m₁ p n)
    → (b ≡ false → Same m m₂ p n)
    → Same m (if b then m₁ else m₂) p n
Same-if true m m₁ m₂ p n h k = h refl
Same-if false m m₁ m₂ p n h k = k refl

is_linked-fixed : (o : Opts) (k v : ℕ) → is_linked o k v ≡ true → len_len o ≡ 0
is_linked-fixed o k v h = ground arith

-- The marks stay within the record.
pub mark_mem-Same :
    (o : Opts) (m : Mem) (pos k v old_pos p n : ℕ)
    → LinkFits o k v
    → Apart pos (data_needed o k v) p n
    → Same m (mark_mem o m pos k v old_pos) p n
unfolding mark_mem
mark_mem-Same o m pos k v old_pos p n link apart =
    Same-if (is_linked o k v) m _ _ p n
      (λ e. Same-trans p n lengths (
        put_u32-Same _ (pos + 1 + 4) old_pos p n (ground (arith, link e, is_linked-fixed o k v e))))
      (λ e. lengths)
  where
    marked : Same m (put_u08 m pos data_type_deleted) p n
    marked = put_u08-Same m pos data_type_deleted p n (ground arith)

    lengths :
        Same m
          (if o.is_fixed_key_val_len
            then put_u08 m pos data_type_deleted
            else put_u32 (put_u08 m pos data_type_deleted) (pos + 1) (u32 (k + len_len o + v)))
          p
          n
    lengths =
        Same-if o.is_fixed_key_val_len m _ _ p n (λ e. marked)
          λ e.
            let four = len_len-variable o e in
            Same-trans p n marked (put_u32-Same _ (pos + 1) _ p n (ground arith))

-- Deleting with fixed lengths of 4 to 7 bytes in all links the record all the same: the word at
-- offset 5 of the record gets the old head of the free list, if that is a 32-bit number, and the
-- word ends behind the record.
pub mark_mem-overrun :
    (o : Opts) (m : Mem) (pos k v old_pos : ℕ)
    → o.is_fixed_key_val_len ≡ true
    → 4 ≤ k + v
    → k + v < 8
    → old_pos < 2 ^ 32
    → (get_u32 (mark_mem o m pos k v old_pos) (pos + 1 + 4) ≡ old_pos)
      × (pos + data_needed o k v < pos + 1 + 4 + 4)
unfolding mark_mem
mark_mem-overrun o m pos k v old_pos fixed lo hi small =
    (rw (linked) (get_u32-put_u32 _ _ old_pos small), ground arith)
  where
    linked : is_linked o k v ≡ true
    linked = ground arith

module _ (o : Opts) (r i : ℕ) (t : TabMmap) (valid : IsValid o t) (live : (t.row r i).pos ≢ 0)
    (row_bound : r < rows_per_tab) (ref_bound : i < refs_per_row) where
  abbrev pos : ℕ
  pos = (t.row r i).pos

  abbrev k : ℕ
  k = key_len_at o t.mem pos

  abbrev v : ℕ
  v = val_len_at o t.mem pos

  abbrev marked : TabMmap
  marked = mark_as_deleted o r i k v t

  abbrev marked_mem : Mem
  marked_mem = mark_mem o t.mem pos k v t.tab_data_free_pos

  abbrev gone : Ref
  gone = record (t.row r i) { pos = 0 }

  pub deleted-entry : entry_at o marked r i ≡ none
  unfolding entry_at mark_as_deleted entry_of
  deleted-entry = ground arith

  pub deleted-used : marked.tab_used ≡ t.tab_used
  unfolding mark_as_deleted
  deleted-used = refl

  -- The bytes of the record that is dropped.
  pub was_size : entry_size o (entry_at o t r i) ≡ data_needed o k v
  unfolding entry_at
  was_size =
      rw (entry_of-used o t.mem (t.row r i) live)
        (sym (size_at-slot_at o t.mem pos) ∙ unfold size_at in refl)

  module _ (link : LinkFits o k v) where
    kept :
        (a b : ℕ)
        → Ne r i a b
        → (t.row a b).pos ≢ 0
        → Same t.mem marked_mem (t.row a b).pos (size_at o t.mem (t.row a b).pos)
    kept a b ne live' =
        mark_mem-Same o t.mem pos k v t.tab_data_free_pos _ _ link
          (unfold size_at in valid.apart r i a b live live' ne)

    kept_size :
        (a b : ℕ)
        → (set_ref t.row r i gone a b).pos ≢ 0
        → (set_ref t.row r i gone a b ≡ t.row a b)
          × ((t.row a b).pos ≢ 0)
          × (size_at o marked_mem (t.row a b).pos ≡ size_at o t.mem (t.row a b).pos)
    kept_size a b l = elim (set_ref-cases t.row r i gone a b) [
      | inl (_, _, e) ↦ absurd (ground arith)
      | inr (ne, e) ↦
          let l' : (t.row a b).pos ≢ 0 = ground arith in (e, l', size_at-Same o _ (kept a b ne l'))
    ]

    pub deleted-entry_ne : (a b : ℕ) → Ne r i a b → entry_at o marked a b ≡ entry_at o t a b
    unfolding entry_at mark_as_deleted
    deleted-entry_ne a b ne = elim (set_ref-cases t.row r i gone a b) [
      | inl (p, q, _) ↦ absurd (ground arith)
      | inr (_, e) ↦ rw e (entry_of-Same o (t.row a b) (kept a b ne))
    ]

    -- Its bytes are counted as free, and no longer as used.
    pub live_size-deleted : live_size o marked + data_needed o k v ≡ live_size o t
    live_size-deleted =
        let change = live_size-change o t marked r i row_bound ref_bound deleted-entry_ne in
        let none_left : entry_size o (entry_at o marked r i) ≡ 0 =
          ap (entry_size o) deleted-entry in
        omega (arith, change, none_left, was_size)

    pub deleted-IsValid : IsValid o marked
    unfolding mark_as_deleted
    deleted-IsValid = record {
      sized = valid.sized;
      starts = valid.starts;
      fits = valid.fits;
      accounted =
          omega (arith, live_size-deleted, valid.accounted, valid.counted, valid.fits, valid.sized);
      counted =
          omega (arith, live_size-deleted, valid.accounted, valid.counted, valid.fits, valid.sized);
      inside = λ a b l. let (e, l', s) = kept_size a b l in rw (e, s) (valid.inside a b l');
      apart = λ a b c d l m ne.
          let (e, l', s) = kept_size a b l in
          let (e', m', s') = kept_size c d m in rw (e, s, e', s') (valid.apart a b c d l' m' ne);
    }
