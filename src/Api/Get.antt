-- ===== src/Api/Get.antt =====
-- What shf_get_key_val_copy() and shf_get_uid_val_copy() return.
use sharedhashfile.Prelude.{
  ℕ, ◌<◌, ◌≡◌, ◌⊎◌, inl, inr, refl, ap, ◌∙◌, false, arith, none, some, Bool-cases, Returns, ◌==◌,
  ltb, ◌/◌,
}
use sharedhashfile.Layout.{
  refs_per_row, uid_none, hash_tab2, hash_row, as_part, ret_key_found, ret_key_none,
}
use sharedhashfile.Layout.Laws.{hash_in_range, as_u32-as_part}
use sharedhashfile.Tab.{Opts, Vfs, Val}
use sharedhashfile.Tab.Slot.{slot_at}
use sharedhashfile.Tab.Valid.{Entry, Roomy}
use sharedhashfile.Tab.Copy.{LinksFit}
use sharedhashfile.Win.{Win}
use sharedhashfile.Win.Valid.{at_uid, WinValid, Within}
use sharedhashfile.Win.Part.{SameUids, SameUids-trans, shrink-SameUids}
use sharedhashfile.Put.{Hashed, uid_for}
use sharedhashfile.Put.Store.{IsPut, HoldsVal, SameUids-refl}
use sharedhashfile.Put.Only.{IsPut-IsKey, IsPut-only}
use sharedhashfile.Find.{
  and_copy_val, Callback, Thread, shrink_after_get, found, find_key_internal, addr_of,
}
use sharedhashfile.Find.Scan.{IsKey, Missing}
use sharedhashfile.Find.Cases.{
  with_misses, misses-SameUids, entry_here, find_key-cases, find_by_uid-cases,
}
use sharedhashfile.Api.{get_key_val_copy, get_uid_val_copy}

shrink_after_get-SameUids :
    (o : Opts) (vfs : Vfs) (n tab : ℕ) (w : Win)
    → WinValid o w
    → Within n w
    → Roomy o vfs n
    → LinksFit o
    → tab < w.tabs_used
    → Returns (SameUids o w) (shrink_after_get o vfs tab w)
unfolding shrink_after_get
shrink_after_get-SameUids o vfs n tab w valid within roomy links lt =
    let test = ltb ((w.tab_mmap tab).tab_data_used / 4) (w.tab_mmap tab).tab_data_free in
    elim (Bool-cases test) [
      | inl e ↦
          let (w', e', (same, _, _, _)) =
            shrink-SameUids o vfs n tab w valid within roomy links lt in
          (w', rw e e', same)
      | inr e ↦ (w, rw e refl, SameUids-refl o w valid)
    ]

-- What shf_get_key_val_copy() leaves: the UID and the value of an entry for the key, or that there
-- is none.
abbrev pub GetResult : Opts → Hashed → Win → ℕ × Win × Thread → Type 0
GetResult o h w (r, w', th) =
    SameUids o w w'
    × (((r ≡ ret_key_none) × (th.uid ≡ uid_none) × (th.val_addr ≡ none) × Missing o h w)
        ⊎ ((ref : ℕ) × (e : Entry) × (r ≡ ret_key_found)
            × (ref < refs_per_row)
            × (at_uid o w (hash_tab2 h.hash) (hash_row h.hash) ref ≡ some e)
            × IsKey h (some e)
            × (th.uid ≡ uid_for h ref)
            × (th.val ≡ e.slot.val)))

-- What shf_get_uid_val_copy() leaves: the value of the UID's entry, or that there is none.
abbrev pub UidResult : Opts → ℕ → Win → ℕ × Win × Thread → Type 0
UidResult o uid w (r, w', th) =
    SameUids o w w'
    × (((r ≡ ret_key_none)
          × (th.val_addr ≡ none)
          × (at_uid o w (as_part uid).tab (as_part uid).row (as_part uid).ref ≡ none))
        ⊎ ((e : Entry) × (r ≡ ret_key_found)
            × (at_uid o w (as_part uid).tab (as_part uid).row (as_part uid).ref ≡ some e)
            × (th.val ≡ e.slot.val)))

module _ (o : Opts) (vfs : Vfs) (cb : Callback) (h : Hashed) (n : ℕ) (w : Win) (th : Thread)
    (valid : WinValid o w) (within : Within n w) (roomy : Roomy o vfs n) (links : LinksFit o) where
  -- In a well-formed window, where shrinking can grow the new tab and links of the free list fit,
  -- shf_get_key_val_copy() returns: either KEY_NONE, with no entry for the key at any ref of its
  -- row, or KEY_FOUND with the UID of an entry for the key and a copy of its value. The window stays
  -- well formed and what each UID stands for is unchanged, also if the tab is shrunk.
  pub get_key_val_copy-GetResult : Returns (GetResult o h w) (get_key_val_copy o vfs cb h w th)
  unfolding get_key_val_copy find_key_internal found slot_at
  get_key_val_copy-GetResult = elim (find_key-cases o vfs cb and_copy_val h w th valid) [
    | inl (s, e, missing) ↦
        ((_, _, _), e, (misses-SameUids o w s valid, inl (refl, refl, refl, missing)))
    | inr (s, ref, e, lt, here, key) ↦
        let same = misses-SameUids o w s valid in
        let (w', e', same') =
          shrink_after_get-SameUids o vfs n (w.tabs (hash_tab2 h.hash)) (with_misses w s) same.valid
            (same.within n within) roomy links (valid.range _ (hash_in_range h.hash).1) in
        (
          (
            ret_key_found,
            w',
            record th {
              uid = uid_for h ref;
              val_addr = addr_of o (w.tab_mmap (w.tabs (hash_tab2 h.hash))) (hash_row h.hash) ref;
              val = (entry_here o w (hash_tab2 h.hash) (hash_row h.hash) ref).slot.val;
            },
          ),
          e ∙ rw e' refl,
          (
            SameUids-trans o w _ w' same same',
            inr (ref, _, refl, lt, here.stands, key, refl, refl),
          ),
        )
  ]

  -- For any UID but SHF_UID_NONE, in a well-formed window, where shrinking can grow the new tab and
  -- links of the free list fit, shf_get_uid_val_copy() returns: either
  -- KEY_NONE, where the UID stands for no entry, or KEY_FOUND with a copy of the value of its entry.
  -- The window stays well formed and what each UID stands for is unchanged.
  pub get_uid_val_copy-UidResult :
      (uid : ℕ)
      → uid < uid_none
      → Returns (UidResult o uid w) (get_uid_val_copy o vfs cb h uid w th)
  unfolding get_uid_val_copy find_key_internal found slot_at
  get_uid_val_copy-UidResult uid lt =
      let range = (as_u32-as_part uid (omega arith)).0 in
      let other : (uid == uid_none) ≡ false = ground arith in
      elim (find_by_uid-cases o vfs cb and_copy_val uid w th valid range) [
        | inl (e, missing) ↦ (
          (ret_key_none, w, record th { val_addr = none }),
          rw other e,
          (SameUids-refl o w valid, inl (refl, refl, missing)),
        )
        | inr (e, here) ↦
            let (w', e', same') =
              shrink_after_get-SameUids o vfs n (w.tabs (as_part uid).tab) w valid within roomy
                links (valid.range _ range.tab) in
            (
              (
                ret_key_found,
                w',
                record th {
                  val_addr =
                      addr_of o (w.tab_mmap (w.tabs (as_part uid).tab)) (as_part uid).row
                        (as_part uid).ref;
                  val =
                      (entry_here o w (as_part uid).tab (as_part uid).row
                        (as_part uid).ref).slot.val;
                },
              ),
              rw other (e ∙ rw e' refl),
              (same', inr (_, refl, here.stands, refl)),
            )
      ]

  -- The same where the window is one that an entry for a missing key was put into.
  pub get-IsPut :
      (w₀ : Win) (val : Val) (ref : ℕ)
      → Missing o h w₀
      → IsPut o h val w₀ ref w
      → Returns
          (λ (r, w', th').
            (r ≡ ret_key_found)
            × (th'.uid ≡ uid_for h ref)
            × HoldsVal val th'.val
            × SameUids o w w')
          (get_key_val_copy o vfs cb h w th)
  get-IsPut w₀ val ref missing put =
      let ((r, w', th'), e, (same, res)) = get_key_val_copy-GetResult in
      elim res [
        | inl (_, _, _, none_here) ↦
            absurd (none_here ref put.in_row (IsPut-IsKey o h val w₀ w ref put))
        | inr (ref', en, er, lt, at, key, eu, ev) ↦
            let (same_ref, holds) = IsPut-only o h val w₀ w ref ref' en missing put lt at key in
            ((r, w', th'), e, (er, eu ∙ ap (uid_for h) same_ref, rw ev holds, same))
      ]
