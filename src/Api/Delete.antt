-- ===== src/Api/Delete.antt =====
-- What shf_del_key_val() and shf_del_uid_val() return and leave.
use sharedhashfile.Prelude.{
  ℕ, ◌<◌, ◌≡◌, ◌≢◌, ◌⊎◌, inl, inr, refl, sym, ◌∙◌, false, arith, none, some, Returns, ◌==◌,
}
use sharedhashfile.Layout.{
  tabs_per_win, rows_per_tab, refs_per_row, uid_none, hash_tab2, hash_row, as_part, ret_key_found,
  ret_key_none,
}
use sharedhashfile.Layout.Laws.{hash_in_range, as_u32-as_part}
use sharedhashfile.Tab.{Opts, Vfs, Val}
use sharedhashfile.Tab.Valid.{Entry}
use sharedhashfile.Win.{Win}
use sharedhashfile.Win.Valid.{at_uid, WinValid}
use sharedhashfile.Win.Part.{SameUids, SameUids-trans}
use sharedhashfile.Put.{Hashed, uid_for}
use sharedhashfile.Put.Store.{IsPut}
use sharedhashfile.Put.Only.{IsPut-IsKey, IsPut-only}
use sharedhashfile.Find.{
  and_delete, Callback, Thread, Misses, found, delete, find_key_internal, addr_of,
}
use sharedhashfile.Find.Scan.{IsKey, Missing}
use sharedhashfile.Find.Cases.{
  with_misses, misses-SameUids, Here, find_key-cases, find_by_uid-cases,
}
use sharedhashfile.Api.{del_key_val, del_uid_val}
use sharedhashfile.Api.Del.{Deleted, Deletes, delete-Deletes}

same_uid :
    (a a' b b' c c' : ℕ) → ((a ≡ a') × (b ≡ b') × (c ≡ c')) ⊎ ((a ≢ a') ⊎ (b ≢ b') ⊎ (c ≢ c'))
same_uid a a' b b' c c' = ground arith

Deleted-after :
    (o : Opts) (w w₁ w' : Win) (tab2 r i : ℕ)
    → tab2 < tabs_per_win
    → r < rows_per_tab
    → i < refs_per_row
    → SameUids o w w₁
    → Deleted o w₁ tab2 r i w'
    → Deleted o w tab2 r i w'
Deleted-after o w w₁ w' tab2 r i lt lr li same del = record {
  valid = del.valid;
  gone = del.gone;
  others = λ a b c l m k ne. del.others a b c l m k ne ∙ same.uids a b c l m k;
  within = λ n h. del.within n (same.within n h);
}

Deletes-after :
    (o : Opts) (h : Hashed) (w : Win) (s : Misses) (th th' : Thread) (i : ℕ) (x : ℕ × Win × Thread)
    → WinValid o w
    → i < refs_per_row
    → th'.ttl ≡ th.ttl
    → Deletes o (with_misses w s) th' (hash_tab2 h.hash) (hash_row h.hash) i x
    → Deletes o w th (hash_tab2 h.hash) (hash_row h.hash) i x
Deletes-after o h w s th th' i x valid li e (zeroed, res) = (
  zeroed,
  elim res [
    | inl (r, del, u, v) ↦ inl (
      r,
      Deleted-after o w _ x.1 _ _ i (hash_in_range h.hash).1 (hash_in_range h.hash).2 li
          (misses-SameUids o w s valid) del,
      u,
      rw e at v,
    )
    | inr (r, p, q, same) ↦
        inr (r, rw e at p, rw e at q, SameUids-trans o w _ x.1 (misses-SameUids o w s valid) same)
  ],
)

module _ (o : Opts) (vfs : Vfs) (cb : Callback) (h : Hashed) (w : Win) (th : Thread)
    (valid : WinValid o w) (variable : o.is_fixed_key_val_len ≡ false) where
  -- In a well-formed window, where the lengths of keys and values are stored with them,
  -- shf_del_key_val() returns: either KEY_NONE, with no entry for the key and every UID as it was; or
  -- it has found an entry for the key. Then, if `shf_ttl` is 0 or is the first word of the
  -- value, the entry is gone, each other UID stands for what it stood for, and the window is well
  -- formed; else the result says NOT_TTL too and nothing has changed. `shf_ttl` is 0 afterwards.
  pub del_key_val-Deletes :
      Returns
        (λ x.
          ((x.0 ≡ ret_key_none) × Missing o h w × SameUids o w x.1)
          ⊎ ((ref : ℕ) × (e : Entry) × (ref < refs_per_row)
              × (at_uid o w (hash_tab2 h.hash) (hash_row h.hash) ref ≡ some e)
              × IsKey h (some e)
              × Deletes o w th (hash_tab2 h.hash) (hash_row h.hash) ref x))
        (del_key_val o vfs cb h w th)
  unfolding del_key_val find_key_internal found
  del_key_val-Deletes = elim (find_key-cases o vfs cb and_delete h w th valid) [
    | inl (s, e, missing) ↦ (
      (ret_key_none, with_misses w s, record th { uid = uid_none; val_addr = none }),
      e,
      inl (refl, missing, misses-SameUids o w s valid),
    )
    | inr (s, ref, e, lt, here, key) ↦
        let same = misses-SameUids o w s valid in
        let here' : Here o (with_misses w s) (hash_tab2 h.hash) (hash_row h.hash) ref = record {
          live = here.live;
          home = here.home;
          stands =
              same.uids _ _ ref (hash_in_range h.hash).1 (hash_in_range h.hash).2 lt ∙ here.stands;
        } in
        let th' = record th {
          uid = uid_for h ref;
          val_addr = addr_of o (w.tab_mmap (w.tabs (hash_tab2 h.hash))) (hash_row h.hash) ref;
        } in
        let x = delete o (w.tabs (hash_tab2 h.hash)) (hash_row h.hash) ref (with_misses w s) th' in
        (
          x,
          e,
          inr (
            ref,
            _,
            lt,
            here.stands,
            key,
            Deletes-after o h w s th th' ref x valid lt refl (
                delete-Deletes o (with_misses w s) th' _ _ ref same.valid variable
                  (hash_in_range h.hash).1 (hash_in_range h.hash).2 lt here'),
          ),
        )
  ]

  -- For any UID but SHF_UID_NONE, in a well-formed window, where the lengths of keys and values are
  -- stored with them, shf_del_uid_val() returns: either
  -- KEY_NONE, where the UID stands for no entry, with the window unchanged; or the entry of the UID is
  -- treated as shf_del_key_val() treats one that it found.
  pub del_uid_val-Deletes :
      (uid : ℕ)
      → uid < uid_none
      → Returns
          (λ x.
            ((x.0 ≡ ret_key_none)
              × (at_uid o w (as_part uid).tab (as_part uid).row (as_part uid).ref ≡ none)
              × (x.1 ≡ w))
            ⊎ ((e : Entry) × (at_uid o w (as_part uid).tab (as_part uid).row (as_part uid).ref
                  ≡ some e)
                × Deletes o w th (as_part uid).tab (as_part uid).row (as_part uid).ref x))
          (del_uid_val o vfs cb h uid w th)
  unfolding del_uid_val find_key_internal found
  del_uid_val-Deletes uid lt =
      let range = (as_u32-as_part uid (omega arith)).0 in
      let other : (uid == uid_none) ≡ false = ground arith in
      elim (find_by_uid-cases o vfs cb and_delete uid w th valid range) [
        | inl (e, missing) ↦ (
          (ret_key_none, w, record th { val_addr = none }),
          rw other e,
          inl (refl, missing, refl),
        )
        | inr (e, here) ↦
            let done =
              delete-Deletes o w
                (record th {
                  val_addr =
                      addr_of o (w.tab_mmap (w.tabs (as_part uid).tab)) (as_part uid).row
                        (as_part uid).ref;
                })
                _ _ _ valid variable range.tab range.row range.ref here in
            (
              delete o (w.tabs (as_part uid).tab) (as_part uid).row (as_part uid).ref w (record th {
                val_addr =
                    addr_of o (w.tab_mmap (w.tabs (as_part uid).tab)) (as_part uid).row
                      (as_part uid).ref;
              }),
              rw other e,
              inr (_, here.stands, done),
            )
      ]

  -- The same where the window is one that an entry for a missing key was put into.
  pub del-IsPut :
      (w₀ : Win) (val : Val) (ref : ℕ)
      → Missing o h w₀
      → IsPut o h val w₀ ref w
      → th.ttl ≡ 0
      → Returns
          (λ x.
            (x.0 ≡ ret_key_found)
            × WinValid o x.1
            × ((tab2 r i : ℕ)
                → tab2 < tabs_per_win
                → r < rows_per_tab
                → i < refs_per_row
                → at_uid o x.1 tab2 r i ≡ at_uid o w₀ tab2 r i))
          (del_key_val o vfs cb h w th)
  del-IsPut w₀ val ref missing put zero_ttl =
      let (x, e, res) = del_key_val-Deletes in
      elim res [
        | inl (_, gone, _) ↦ absurd (gone ref put.in_row (IsPut-IsKey o h val w₀ w ref put))
        | inr (ref', en, lt, at, key, (_, inr (_, ttl, _, _))) ↦ absurd (ttl zero_ttl)
        | inr (ref', en, lt, at, key, (_, inl (er, del, _, _))) ↦
            let same = (IsPut-only o h val w₀ w ref ref' en missing put lt at key).0 in
            (
              x,
              e,
              (
                er,
                del.valid,
                λ tab2 r i l lr li.
                    elim (same_uid (hash_tab2 h.hash) tab2 (hash_row h.hash) r ref' i) [
                      | inl (a, b, c) ↦
                          let gone : at_uid o x.1 tab2 r i ≡ none = rw (← a, ← b, ← c) (del.gone) in
                          let was : at_uid o w₀ tab2 r i ≡ none =
                            rw (← a, ← b, ← c, same) (put.was) in
                          gone ∙ sym was
                      | inr ne ↦
                          del.others tab2 r i l lr li ne
                          ∙ put.others tab2 r i l lr li (rw same at ne)
                    ],
              ),
            )
      ]
