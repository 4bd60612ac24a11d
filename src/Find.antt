-- ===== src/Find.antt =====
-- shf_find_key_internal() of src/shf.c, within the window that the hash or the UID leads to, and
-- the functions that only call it.
pub mod Scan
pub mod Cases
use sharedhashfile.Prelude.{
  ℕ, zero, suc, ◌+◌, ◌-◌, ◌*◌, ◌/◌, ◌%◌, Bool, true, false, ◌&&◌, Option, none, some, List, [], ◌∷◌,
  length, ltb, leb, ◌==◌, if◌then◌else◌, Run, ok, assert, ◌>>=◌, ◌>>◌,
}
use mathlib.Core.Bool.{not}
use sharedhashfile.Prelude.Family.{update}
use sharedhashfile.Mem.{Mem, get_u32, get_u64, put_u64, put_mem}
use sharedhashfile.Layout.{
  refs_per_row, u32, u64, uid_none, hash_tab2, hash_row, hash_rnd, as_part, ret_ok, ret_key_found,
  ret_bad_val, ret_bad_cb, ret_not_ttl, ret_key_none,
}
use sharedhashfile.Tab.{
  TabMmap, Opts, Vfs, len_len, key_len_at, val_len_at, key_at, val_at, mark_as_deleted,
}
use sharedhashfile.Win.{Win, shrink}
use sharedhashfile.Put.{Hashed, uid_for}

-- SHF_FIND_KEY_AND
pub data What : Type 0 where
  addr : What
  and_copy_key : What
  and_copy_val : What
  and_atom_add : What
  and_delete : What
  and_update : What

-- The thread's variables `shf_uid`, `shf_val_addr` (an offset into the tab), `shf_key` and
-- `shf_val` with their lengths, `shf_val_long`, `shf_ttl` and `shf_upd_callback_failsafe`.
pub record Thread : Type 0 where
  pub uid : ℕ
  pub val_addr : Option ℕ
  pub key : List ℕ
  pub val : List ℕ
  pub val_long : ℕ
  pub ttl : ℕ
  pub failsafe : ℕ

-- What `shf_upd_callback` returns for the value's bytes, and the bytes that it leaves there.
abbrev pub Callback : Type 0
Callback = List ℕ → ℕ × List ℕ

-- memcmp() finds no difference.
unfoldable pub same_bytes : List ℕ → List ℕ → Bool
same_bytes [] [] = true
same_bytes [] (b ∷ bs) = false
same_bytes (a ∷ bs') [] = false
same_bytes (a ∷ bs') (b ∷ bs) = (a == b) && same_bytes bs' bs

-- The assertions on the record that a ref points at.
unfoldable pub check_ref : Opts → TabMmap → ℕ → ℕ → Run (Unit {0})
check_ref o t row ref =
    let pos = (t.row row ref).pos in
    let key_len = key_len_at o t.mem pos in
    let val_len = val_len_at o t.mem pos in
    do
      assert (ltb pos t.tab_size)
      assert (leb (u32 (pos + 1 + len_len o + key_len)) t.tab_size)
      assert (leb (u32 (pos + 1 + len_len o + key_len + len_len o + val_len)) t.tab_size)

-- The counters of keys that looked alike.
pub record Misses : Type 0 where
  pub keylen_misses : ℕ
  pub memcmp_misses : ℕ

-- The loop "search for ref in row", over `n` refs from `ref` on.
unfoldable pub find_ref : Opts → Hashed → TabMmap → ℕ → ℕ → Misses → Run (Option ℕ × Misses)
find_ref o h t zero ref s = ok (none, s)
find_ref o h t (suc n) ref s =
    let x = t.row (hash_row h.hash) ref in
    let key = key_at o t.mem x.pos in
    let next = find_ref o h t n (ref + 1) in
    if not (x.pos == 0) && x.rnd == hash_rnd h.hash && x.tab == hash_tab2 h.hash
    then (do
      check_ref o t (hash_row h.hash) ref
      if not (key_len_at o t.mem x.pos == length h.key)
          then next (record s { keylen_misses = u64 (s.keylen_misses + 1) })
          else if not (same_bytes key h.key)
          then next (record s { memcmp_misses = u64 (s.memcmp_misses + 1) })
          else ok (some ref, s))
    else next s

-- The test of the ref that a UID names.
unfoldable pub find_uid : Opts → TabMmap → ℕ → ℕ → ℕ → Run (Option ℕ)
find_uid o t tab2 row ref =
    let x = t.row row ref in
    if not (x.pos == 0) && x.tab == tab2 then (do check_ref o t row ref; ok (some ref)) else ok none

-- SHF_CONSIDER_TAB_SHRINK
unfoldable pub shrink_after_get : Opts → Vfs → ℕ → Win → Run Win
shrink_after_get o vfs tab w =
    if ltb ((w.tab_mmap tab).tab_data_used / 4) (w.tab_mmap tab).tab_data_free
    then shrink o vfs tab w
    else ok w

-- The value's offset in the tab.
abbrev pub val_pos : Opts → Mem → ℕ → ℕ
val_pos o m pos = pos + 1 + len_len o + key_len_at o m pos + len_len o

abbrev pub set_tab : Win → ℕ → TabMmap → Win
set_tab w tab t = record w { tab_mmap = update w.tab_mmap tab t }

-- `1 | r`
abbrev pub or_found : ℕ → ℕ
or_found r = r + (1 - r % 2)

-- SHF_FIND_KEY_OR_UID_AND_ATOM_ADD
unfoldable pub atom_add : Opts → ℕ → ℕ → ℕ → Win → Thread → ℕ × Win × Thread
atom_add o tab row ref w th =
    let t = w.tab_mmap tab in
    let pos = (t.row row ref).pos in
    let sum = u64 (get_u64 t.mem (val_pos o t.mem pos) + th.val_long) in
    if leb 8 (val_len_at o t.mem pos)
    then (
      ret_key_found,
      set_tab w tab (record t { mem = put_u64 t.mem (val_pos o t.mem pos) sum }),
      record th { val_long = sum },
    )
    else (ret_key_found + ret_bad_val, w, th)

-- SHF_FIND_KEY_OR_UID_AND_DELETE
unfoldable pub delete : Opts → ℕ → ℕ → ℕ → Win → Thread → ℕ × Win × Thread
delete o tab row ref w th =
    let t = w.tab_mmap tab in
    let pos = (t.row row ref).pos in
    let deleted =
      set_tab w tab
        (mark_as_deleted o row ref (key_len_at o t.mem pos) (val_len_at o t.mem pos) t) in
    if th.ttl == 0
    then (ret_key_found, deleted, record th { uid = uid_none; ttl = 0 })
    else if th.ttl == get_u32 t.mem (val_pos o t.mem pos)
    then (ret_key_found, deleted, record th { uid = uid_none; ttl = 0; val = val_at o t.mem pos })
    else (ret_key_found + ret_not_ttl, w, record th { ttl = 0 })

-- SHF_FIND_KEY_OR_UID_AND_UPDATE
unfoldable pub update_val : Opts → Callback → ℕ → ℕ → ℕ → Win → Thread → Run (ℕ × Win × Thread)
update_val o callback tab row ref w th =
    let t = w.tab_mmap tab in
    let pos = (t.row row ref).pos in
    let (returned, bytes) = callback (val_at o t.mem pos) in
    do
      assert (u32 (th.failsafe + 1) == 1)
      ok (
        or_found returned,
        set_tab w tab (record t { mem = put_mem t.mem (val_pos o t.mem pos) bytes }),
        th,
      )

-- switch (what)
unfoldable pub found :
    Opts → Vfs → Callback → What → ℕ → ℕ → ℕ → Win → Thread → Run (ℕ × Win × Thread)
found o vfs cb addr tab row ref w th = ok (ret_key_found, w, th)
found o vfs cb and_copy_key tab row ref w th = do
  w' ← shrink_after_get o vfs tab w
  ok (
    ret_key_found,
    w',
    record th { key = key_at o (w.tab_mmap tab).mem ((w.tab_mmap tab).row row ref).pos },
  )
found o vfs cb and_copy_val tab row ref w th = do
  w' ← shrink_after_get o vfs tab w
  ok (
    ret_key_found,
    w',
    record th { val = val_at o (w.tab_mmap tab).mem ((w.tab_mmap tab).row row ref).pos },
  )
found o vfs cb and_atom_add tab row ref w th = ok (atom_add o tab row ref w th)
found o vfs cb and_delete tab row ref w th = ok (delete o tab row ref w th)
found o vfs cb and_update tab row ref w th = update_val o cb tab row ref w th

-- `shf_val_addr` of the record that a ref points at.
abbrev pub addr_of : Opts → TabMmap → ℕ → ℕ → Option ℕ
addr_of o t row ref = some (val_pos o t.mem (t.row row ref).pos)

-- shf_find_key_internal() with SHF_UID_NONE, behind the loop.
unfoldable pub after_key :
    Opts → Vfs → Callback → What → Hashed → Win → Thread → Option ℕ → Run (ℕ × Win × Thread)
after_key o vfs cb what h w th none =
    ok (ret_key_none, w, record th { uid = uid_none; val_addr = none })
after_key o vfs cb what h w th (some ref) =
    let tab = w.tabs (hash_tab2 h.hash) in
    found o vfs cb what tab (hash_row h.hash) ref w (record th {
      uid = uid_for h ref;
      val_addr = addr_of o (w.tab_mmap tab) (hash_row h.hash) ref;
    })

unfoldable pub find_key :
    Opts → Vfs → Callback → What → Hashed → Win → Thread → Run (ℕ × Win × Thread)
find_key o vfs cb what h w th = do
  (ref, s) ←
      find_ref o h (w.tab_mmap (w.tabs (hash_tab2 h.hash))) refs_per_row 0
        (record { keylen_misses = w.keylen_misses; memcmp_misses = w.memcmp_misses })
  after_key o vfs cb what h
      (record w { keylen_misses = s.keylen_misses; memcmp_misses = s.memcmp_misses }) th ref

-- shf_find_key_internal() with a UID, behind the test of its ref.
unfoldable pub after_uid :
    Opts → Vfs → Callback → What → ℕ → ℕ → Win → Thread → Option ℕ → Run (ℕ × Win × Thread)
after_uid o vfs cb what tab row w th none = ok (ret_key_none, w, record th { val_addr = none })
after_uid o vfs cb what tab row w th (some ref) =
    found o vfs cb what tab row ref w (record th { val_addr = addr_of o (w.tab_mmap tab) row ref })

unfoldable pub find_by_uid :
    Opts → Vfs → Callback → What → ℕ → Win → Thread → Run (ℕ × Win × Thread)
find_by_uid o vfs cb what uid w th =
    let part = as_part uid in
    let tab = w.tabs part.tab in
    find_uid o (w.tab_mmap tab) part.tab part.row part.ref
    >>= after_uid o vfs cb what tab part.row w th

-- shf_find_key_internal()
unfoldable pub find_key_internal :
    Opts → Vfs → Callback → What → Hashed → ℕ → Win → Thread → Run (ℕ × Win × Thread)
find_key_internal o vfs cb what h uid w th =
    if uid == uid_none then find_key o vfs cb what h w th else find_by_uid o vfs cb what uid w th
