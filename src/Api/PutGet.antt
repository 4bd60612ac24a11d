-- ===== src/Api/PutGet.antt =====
-- shf_put_key_val() followed by shf_get_key_val_copy() or shf_del_key_val() on the same key.
use sharedhashfile.Prelude.{
  ℕ, ◌+◌, ◌≤◌, ◌<◌, ◌≡◌, ◌⊎◌, inl, inr, false, length, Option, some, Returns, Run, ok, abort,
}
use sharedhashfile.Layout.{tabs_per_win, rows_per_tab, refs_per_row, ret_key_found}
use sharedhashfile.Tab.{Opts, Vfs, Val, val_len, data_needed}
use sharedhashfile.Tab.Record.{LensFit}
use sharedhashfile.Tab.Valid.{Roomy}
use sharedhashfile.Win.{Win}
use sharedhashfile.Win.Valid.{at_uid, WinValid, Within}
use sharedhashfile.Win.Part.{SameUids}
use sharedhashfile.Put.{Hashed, uid_for, put_key_val}
use sharedhashfile.Put.Store.{HoldsVal, variable_links}
use sharedhashfile.Put.Total.{RowFull, put_key_val-PutWithin}
use sharedhashfile.Find.{Callback, Thread}
use sharedhashfile.Find.Scan.{Missing}
use sharedhashfile.Api.{get_key_val_copy, del_key_val}
use sharedhashfile.Api.Get.{get-IsPut}
use sharedhashfile.Api.Delete.{del-IsPut}

-- A put that returned a UID and a window of which `P` holds, or that failed an assertion because all
-- tabs of the window are in use and the row is full.
abbrev pub PutThen : Opts → Hashed → Win → (ℕ → Win → Type 0) → Run (Option (ℕ × Win)) → Type 0
PutThen o h w P r =
    ((uid : ℕ) × (w' : Win) × (r ≡ ok (some (uid, w'))) × P uid w')
    ⊎ ((r ≡ abort) × ((w' : Win) × SameUids o w w' × (w'.tabs_used ≡ tabs_per_win) × RowFull h w'))

-- What shf_get_key_val_copy() does in a window where the value was put under the UID.
abbrev pub GetsPut : Opts → Vfs → Callback → Hashed → Val → Thread → ℕ → Win → Type 0
GetsPut o vfs cb h val th uid w =
    Returns
      (λ (r, w', th').
        (r ≡ ret_key_found) × (th'.uid ≡ uid) × HoldsVal val th'.val × SameUids o w w')
      (get_key_val_copy o vfs cb h w th)

-- What shf_del_key_val() does in a window where the key was put, when the window was `w₀` before.
abbrev pub DelsPut : Opts → Vfs → Callback → Hashed → Thread → Win → ℕ → Win → Type 0
DelsPut o vfs cb h th w₀ uid w =
    Returns
      (λ x.
        (x.0 ≡ ret_key_found)
        × WinValid o x.1
        × ((tab2 r i : ℕ)
            → tab2 < tabs_per_win
            → r < rows_per_tab
            → i < refs_per_row
            → at_uid o x.1 tab2 r i ≡ at_uid o w₀ tab2 r i))
      (del_key_val o vfs cb h w th)

module _ (o : Opts) (vfs : Vfs) (cb : Callback) (h : Hashed) (val : Val) (m n : ℕ)
    (variable : o.is_fixed_key_val_len ≡ false) (fit : LensFit o (length h.key) (val_len val))
    (roomy : Roomy o vfs n) (room : m + data_needed o (length h.key) (val_len val) ≤ n) (rounds : ℕ)
    (w : Win) (th : Thread) (valid : WinValid o w) (within : Within m w)
    (enough : tabs_per_win < w.tabs_used + rounds) (missing : Missing o h w) where
  -- Where lengths are stored with keys and values, in a well-formed window that has no entry for the
  -- key and whose tabs hold at most `m` bytes, if the record's length fits its field, the file system
  -- has space for a tab of `n` bytes, `n` has space for the record, and the rounds exceed the unused
  -- tabs: shf_put_key_val() of the key and the value either fails an assertion because all 2048 tabs
  -- are in use and the row is full, or returns a UID, and then shf_get_key_val_copy() of the key
  -- returns KEY_FOUND, the same UID, and the value put: its bytes, or as many bytes as were reserved.
  -- What each UID stands for is unchanged by the get.
  pub get-put : PutThen o h w (GetsPut o vfs cb h val th) (put_key_val o vfs rounds h val w)
  get-put =
      elim (put_key_val-PutWithin o vfs h val m n variable fit roomy room rounds w valid within
        enough) [
          | inl (ref, w', e, valid', put, within') ↦ inl (
            uid_for h ref,
            w',
            e,
            get-IsPut o vfs cb h n w' th valid' within' roomy (variable_links o variable) w val ref
                missing put,
          )
          | inr fail ↦ inr fail
        ]

  -- Under the same conditions, where `shf_ttl` is 0: shf_put_key_val() of the key and the value either
  -- fails an assertion because all 2048 tabs are in use and the row is full, or returns a UID, and
  -- then shf_del_key_val() of the key returns KEY_FOUND and undoes the put: the window is well formed
  -- and each UID stands for what it stood for before the put.
  pub del-put :
      th.ttl ≡ 0 → PutThen o h w (DelsPut o vfs cb h th w) (put_key_val o vfs rounds h val w)
  del-put zero_ttl =
      elim (put_key_val-PutWithin o vfs h val m n variable fit roomy room rounds w valid within
        enough) [
          | inl (ref, w', e, valid', put, within') ↦ inl (
            uid_for h ref,
            w',
            e,
            del-IsPut o vfs cb h w' th valid' variable w val ref missing put zero_ttl,
          )
          | inr fail ↦ inr fail
        ]
