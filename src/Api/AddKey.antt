-- ===== src/Api/AddKey.antt =====
-- shf_add_key_val() as a whole.
use sharedhashfile.Prelude.{
  ℕ, ◌+◌, ◌≤◌, ◌<◌, ◌^◌, ◌≡◌, ◌≢◌, ◌⊎◌, inl, inr, refl, sym, ◌∙◌, List, length, arith, some, Option,
  Bool-cases, ◌==◌, Run, ok, abort, true, false,
}
use sharedhashfile.Layout.{
  tabs_per_win, refs_per_row, u64, hash_tab2, hash_row, ret_key_found, ret_bad_val, ret_key_none,
}
use sharedhashfile.Mem.{get_mem}
use sharedhashfile.Mem.Long.{long_of}
use sharedhashfile.Tab.{Opts, Vfs, given, data_needed}
use sharedhashfile.Tab.Record.{LensFit}
use sharedhashfile.Tab.Valid.{Entry, Roomy}
use sharedhashfile.Win.{Win}
use sharedhashfile.Win.Valid.{at_uid, WinValid, Within}
use sharedhashfile.Win.Part.{SameUids}
use sharedhashfile.Put.{Hashed, uid_for, put_key_val}
use sharedhashfile.Put.Store.{IsPut}
use sharedhashfile.Put.Total.{PutResult, RowFull, put_key_val-PutResult, PutResult-after}
use sharedhashfile.Find.{Callback, Thread}
use sharedhashfile.Find.Scan.{IsKey, Missing}
use sharedhashfile.Api.{add_key_val, added_key, long_bytes}
use sharedhashfile.Api.Del.{Deleted}
use sharedhashfile.Api.Delete.{del_key_val-Deletes}
use sharedhashfile.Api.InPlace.{with_val, Rewritten}
use sharedhashfile.Api.Add.{
  Sums, Counts, Single, Deleted-Rewritten, only_ref, add_key_val_atom-KeyCounts, long_of-long_bytes,
}

-- What shf_add_key_val() returns and leaves where the entry `e` at `ref` is for the key: the value
-- is too short and nothing changes; or its first 8 bytes become the sum, or the entry is gone if the sum is 0.
abbrev pub Added : Opts → Hashed → ℕ → Win → ℕ → Entry → ℕ × Win × Thread → Type 0
Added o h add w ref e (result, w', th') =
    ((length e.slot.val < 8) × (result ≡ ret_key_found + ret_bad_val) × SameUids o w w')
    ⊎ ((8 ≤ length e.slot.val)
        × (result ≡ ret_key_found)
        × (((u64 (long_of e.slot.val + add) ≢ 0)
              × (th'.val_long ≡ u64 (long_of e.slot.val + add))
              × ((val' : List ℕ) × Sums (u64 (long_of e.slot.val + add)) e.slot.val val'
                  × Rewritten o w (hash_tab2 h.hash) (hash_row h.hash) ref (with_val e val') w'))
            ⊎ ((u64 (long_of e.slot.val + add) ≡ 0)
                × Deleted o w (hash_tab2 h.hash) (hash_row h.hash) ref w')))

-- What shf_add_key_val() returns and leaves where no entry is for the key: an entry for it whose value
-- is the 8 bytes of the number, unless all tabs are in use and the row is full.
abbrev pub Created : Opts → Hashed → ℕ → Win → Run (Option (ℕ × Win × Thread)) → Type 0
Created o h add w r =
    ((ref : ℕ) × (w' : Win) × (th' : Thread) × (r ≡ ok (some (ret_key_found, w', th')))
      × (th'.uid ≡ uid_for h ref)
      × (th'.val_long ≡ add)
      × WinValid o w'
      × IsPut o h (given (long_bytes add)) w ref w'
      × (long_of (long_bytes add) ≡ add))
    ⊎ ((r ≡ abort) × ((w' : Win) × SameUids o w w' × (w'.tabs_used ≡ tabs_per_win) × RowFull h w'))

module _ (o : Opts) (vfs : Vfs) (cb : Callback) (rounds : ℕ) (h : Hashed) (add : ℕ) (w : Win)
    (th : Thread) where
  added_key-missing :
      (w₁ : Win) (th₁ : Thread)
      → add < 2 ^ 64
      → PutResult o h
          (given (long_bytes add))
          w
          (put_key_val o vfs rounds h (given (long_bytes add)) w₁)
      → Created o h add w (added_key o vfs cb rounds h add ret_key_none w₁ th₁)
  unfolding added_key
  added_key-missing w₁ th₁ small res = elim res [
    | inl (ref, w', e, valid, put) ↦ inl (
      ref,
      w',
      record th₁ { uid = uid_for h ref; val_long = add },
      rw e refl,
      refl,
      refl,
      valid,
      put,
      long_of-long_bytes add small,
    )
    | inr (e, full) ↦ inr (rw e refl, full)
  ]

  module _ (variable : o.is_fixed_key_val_len ≡ false) (single : Single o h w) (ref : ℕ) (e : Entry)
      (lt : ref < refs_per_row) (at : at_uid o w (hash_tab2 h.hash) (hash_row h.hash) ref ≡ some e)
      (key : IsKey h (some e)) where
    zero_sum :
        (w₁ : Win) (th₁ : Thread) (val' : List ℕ)
        → Rewritten o w (hash_tab2 h.hash) (hash_row h.hash) ref (with_val e val') w₁
        → th₁.ttl ≡ 0
        → (th₁.val_long == 0) ≡ true
        → (x : ℕ × Win × Thread) × (added_key o vfs cb rounds h add ret_key_found w₁ th₁
            ≡ ok (some x))
          × (x.0 ≡ ret_key_found)
          × Deleted o w (hash_tab2 h.hash) (hash_row h.hash) ref x.1
    unfolding added_key
    zero_sum w₁ th₁ val' re ttl long =
        let (x, eq, res) = del_key_val-Deletes o vfs cb h w₁ th₁ (re.valid) variable in
        elim res [
          | inl (_, gone, _) ↦ absurd (gone ref lt (rw (re.now) key))
          | inr (ref', en, lt', at', key', (_, inr (_, other, _, _))) ↦ absurd (other ttl)
          | inr (ref', en, lt', at', key', (_, inl (_, del, _, _))) ↦
              let same = only_ref o h w w₁ ref ref' e _ single lt lt' at key re (rw at' key') in
              (
                (ret_key_found, x.1, x.2),
                rw (long, eq) refl,
                refl,
                Deleted-Rewritten o w w₁ x.1 _ _ ref _ re (rw same del),
              )
        ]

    counted :
        (x₁ : ℕ × Win × Thread)
        → th.ttl ≡ 0
        → Counts o w (record th { val_long = add }) (hash_tab2 h.hash) (hash_row h.hash) ref e x₁
        → (x : ℕ × Win × Thread) × (added_key o vfs cb rounds h add x₁.0 x₁.1 x₁.2 ≡ ok (some x))
          × Added o h add w ref e x
    unfolding added_key
    counted (result, w₁, th₁) zero_ttl counts = elim counts [
      | inr (short, r, same) ↦ ((result, w₁, th₁), rw r refl, inl (short, r, same))
      | inl (eight, r, sum, t, (val', sums, re)) ↦ elim (Bool-cases (th₁.val_long == 0)) [
        | inl z ↦
            let long : th₁.val_long ≡ 0 = ground arith in
            let (x, eq, found, del) = zero_sum w₁ th₁ val' re (t ∙ zero_ttl) z in
            (x, rw r eq, inr (eight, found, inr (sym sum ∙ long, del)))
        | inr z ↦ (
          (result, w₁, th₁),
          rw (r, z) refl,
          inr (
            eight,
            r,
            inl (λ q. absurd (ground (arith, sum ∙ q)), sum, (val', rw sum at sums, re)),
          ),
        )
      ]
    ]

-- In a well-formed window, where lengths are stored with keys and values, tabs hold at most `m`
-- bytes, there is space in the file system for `n`, which has space for the record, the rounds exceed the
-- unused tabs, no two entries are for the key, the number fits 64 bits and `shf_ttl` is 0,
-- shf_add_key_val() does one of these: no entry is for the key, and it puts one whose value is
-- the 8 bytes of the number, or aborts with all tabs in use and the row full; or it returns after finding the
-- entry: a value of less than 8 bytes gives BAD_VAL and changes nothing; else the number that the value
-- starts with becomes the sum modulo 2 ^ 64, with the rest of the value and what every other UID
-- stands for kept, or, if the sum is 0, the entry is gone, with all others kept.
pub add_key_val-Added :
    (o : Opts) (vfs : Vfs) (cb : Callback) (rounds : ℕ) (h : Hashed) (add : ℕ) (w : Win)
    (th : Thread) (m n : ℕ)
    → o.is_fixed_key_val_len ≡ false
    → LensFit o (length h.key) 8
    → Roomy o vfs n
    → m + data_needed o (length h.key) 8 ≤ n
    → WinValid o w
    → Within m w
    → tabs_per_win < w.tabs_used + rounds
    → Single o h w
    → add < 2 ^ 64
    → th.ttl ≡ 0
    → (Missing o h w × Created o h add w (add_key_val o vfs cb rounds h add w th))
      ⊎ ((ref : ℕ) × (e : Entry) × (ref < refs_per_row)
          × (at_uid o w (hash_tab2 h.hash) (hash_row h.hash) ref ≡ some e)
          × IsKey h (some e)
          × (x : ℕ × Win × Thread) × (add_key_val o vfs cb rounds h add w th ≡ ok (some x))
          × Added o h add w ref e x)
unfolding add_key_val get_mem
add_key_val-Added o vfs cb rounds h add w th m n variable fit roomy room valid within enough single
      small zero_ttl =
    let (x, e, res) = add_key_val_atom-KeyCounts o vfs cb h w th valid add in
    elim res [
      | inl (r, missing, same, used) ↦
          let put =
            put_key_val-PutResult o vfs h (given (long_bytes add)) m n variable fit roomy room
              rounds x.1 same.valid (same.within m within) (rw used enough) in
          inl (
            missing,
            rw (e, r)
                (added_key-missing o vfs cb rounds h add w th x.1 x.2 small
                  (PutResult-after o h _ w x.1 _ same put)),
          )
      | inr (ref, en, lt, at, key, counts) ↦
          let (y, eq, done) =
            counted o vfs cb rounds h add w th variable single ref en lt at key x zero_ttl counts in
          inr (ref, en, lt, at, key, y, rw e eq, done)
    ]
