-- ===== src/Api/Update.antt =====
-- shf_upd_key_val() with shf_upd_callback_copy() as the callback.
use sharedhashfile.Prelude.{
  ℕ, ◌+◌, ◌<◌, ◌≡◌, ◌≢◌, ◌⊎◌, inl, inr, refl, ◌∙◌, List, length, arith, none, some, Bool-cases,
  ◌==◌, Returns,
}
use sharedhashfile.Layout.{
  refs_per_row, uid_none, hash_tab2, hash_row, ret_key_found, ret_bad_cb, ret_key_none,
}
use sharedhashfile.Layout.Laws.{hash_in_range}
use sharedhashfile.Tab.{Opts, Vfs}
use sharedhashfile.Tab.Valid.{Entry}
use sharedhashfile.Win.{Win}
use sharedhashfile.Win.Valid.{at_uid, WinValid}
use sharedhashfile.Win.Part.{SameUids}
use sharedhashfile.Put.{Hashed, uid_for}
use sharedhashfile.Find.{and_update, Callback, Thread, found, or_found, find_key_internal, addr_of}
use sharedhashfile.Find.Scan.{IsKey, Missing}
use sharedhashfile.Find.Cases.{with_misses, misses-SameUids, find_key-cases}
use sharedhashfile.Api.{upd_key_val, upd_callback_copy}
use sharedhashfile.Api.InPlace.{with_val, Rewritten, update_val-Updates}
use sharedhashfile.Api.Add.{Rewritten-after, Here-misses}

-- What an update does to the entry `e` at (tab2, r, i): its value is what the callback leaves.
abbrev pub Updated : Opts → Callback → Win → ℕ → ℕ → ℕ → Entry → ℕ × Win × Thread → Type 0
Updated o cb w tab2 r i e (result, w', th') =
    (result ≡ or_found (cb e.slot.val).0) × Rewritten o w tab2 r i (with_val e (cb e.slot.val).1) w'

module _ (o : Opts) (vfs : Vfs) (cb : Callback) (h : Hashed) (w : Win) (th : Thread)
    (valid : WinValid o w) (keeps : (bytes : List ℕ) → length (cb bytes).1 ≡ length bytes)
    (quiet : th.failsafe ≡ 0) where
  pub upd_key_val-Updated :
      Returns
        (λ x.
          ((x.0 ≡ ret_key_none) × Missing o h w × SameUids o w x.1)
          ⊎ ((ref : ℕ) × (e : Entry) × (ref < refs_per_row)
              × (at_uid o w (hash_tab2 h.hash) (hash_row h.hash) ref ≡ some e)
              × IsKey h (some e)
              × Updated o cb w (hash_tab2 h.hash) (hash_row h.hash) ref e x))
        (upd_key_val o vfs cb h w th)
  unfolding upd_key_val find_key_internal found
  upd_key_val-Updated = elim (find_key-cases o vfs cb and_update h w th valid) [
    | inl (s, e, missing) ↦ (
      (ret_key_none, with_misses w s, record th { uid = uid_none; val_addr = none }),
      e,
      inl (refl, missing, misses-SameUids o w s valid),
    )
    | inr (s, ref, e, lt, here, key) ↦
        let th' = record th {
          uid = uid_for h ref;
          val_addr = addr_of o (w.tab_mmap (w.tabs (hash_tab2 h.hash))) (hash_row h.hash) ref;
        } in
        let (x, eq, (r, re, _)) =
          update_val-Updates o (with_misses w s) (misses-SameUids o w s valid).valid _ _ ref
            (hash_in_range h.hash).1 (hash_in_range h.hash).2 lt
            (Here-misses o h w s ref valid lt here) cb th' (keeps _) quiet in
        (
          x,
          e ∙ eq,
          inr (
            ref,
            _,
            lt,
            here.stands,
            key,
            (r, Rewritten-after o w _ x.1 _ _ ref _ (misses-SameUids o w s valid) re),
          ),
        )
  ]

pub upd_callback_copy-keeps :
    (preset bytes : List ℕ) → length (upd_callback_copy preset bytes).1 ≡ length bytes
unfolding upd_callback_copy
upd_callback_copy-keeps preset bytes = ground arith

module _ (o : Opts) (vfs : Vfs) (preset : List ℕ) (h : Hashed) (w : Win) (th : Thread)
    (valid : WinValid o w) (quiet : th.failsafe ≡ 0) where
  -- In a well-formed window, where no other update is being made by the thread, shf_upd_key_val() with
  -- shf_upd_callback_copy(), preset to some bytes, returns: KEY_NONE with every UID as it was, where no entry
  -- is for the key; else, if the value of the entry that it found is as long as the bytes, these become the
  -- value, and each other UID stands for what it stood for; else the result says BAD_CB too and the entry
  -- is as it was, like those of the other UIDs. The window is well formed afterwards.
  pub upd_key_val-copy :
      Returns
        (λ x.
          ((x.0 ≡ ret_key_none) × Missing o h w × SameUids o w x.1)
          ⊎ ((ref : ℕ) × (e : Entry) × (ref < refs_per_row)
              × (at_uid o w (hash_tab2 h.hash) (hash_row h.hash) ref ≡ some e)
              × IsKey h (some e)
              × (((length e.slot.val ≡ length preset)
                    × (x.0 ≡ ret_key_found)
                    × Rewritten o w
                        (hash_tab2 h.hash)
                        (hash_row h.hash)
                        ref
                        (with_val e preset)
                        x.1)
                  ⊎ ((length e.slot.val ≢ length preset)
                      × (x.0 ≡ ret_key_found + ret_bad_cb)
                      × Rewritten o w (hash_tab2 h.hash) (hash_row h.hash) ref e x.1))))
        (upd_key_val o vfs (upd_callback_copy preset) h w th)
  unfolding upd_callback_copy
  upd_key_val-copy =
      let (x, e, res) =
        upd_key_val-Updated o vfs (upd_callback_copy preset) h w th valid
          (upd_callback_copy-keeps preset) quiet in
      (
        x,
        e,
        elim res [
          | inl none_found ↦ inl none_found
          | inr (ref, en, lt, at, key, (r, re)) ↦ inr (
            ref,
            en,
            lt,
            at,
            key,
            elim (Bool-cases (length en.slot.val == length preset)) [
              | inl eq ↦ inl (ground arith, rw eq at r, rw eq at re)
              | inr ne ↦ inr (ground arith, rw ne at r, rw ne at re)
            ],
          )
        ],
      )
