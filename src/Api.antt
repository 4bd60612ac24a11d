-- ===== src/Api.antt =====
-- The functions of src/shf.c that call shf_find_key_internal() and shf_put_key_val().
pub mod Get
pub mod Del
pub mod Delete
pub mod PutGet
pub mod InPlace
pub mod Add
pub mod AddKey
pub mod Update
use sharedhashfile.Prelude.{
  ℕ, ◌+◌, ◌/◌, ◌%◌, ◌^◌, Bool, Option, none, some, List, [], ◌∷◌, length, ◌==◌, if◌then◌else◌, Run,
  ok, ◌>>=◌,
}
use sharedhashfile.Layout.{uid_none, ret_ok, ret_key_found, ret_bad_cb, ret_key_none}
use sharedhashfile.Mem.{get_mem, put_u64}
use sharedhashfile.Tab.{Opts, Vfs, Val, given}
use sharedhashfile.Win.{Win}
use sharedhashfile.Put.{Hashed, put_key_val}
use sharedhashfile.Find.{
  What, addr, and_copy_key, and_copy_val, and_atom_add, and_delete, and_update, Thread, Callback,
  find_key_internal,
}

-- How the functions are called, and what they leave: the result, the window and the thread.
abbrev pub Call : Type 0
Call = Win → Thread → Run (ℕ × Win × Thread)

unfoldable pub get_key_val_addr : Opts → Vfs → Callback → Hashed → Call
get_key_val_addr o vfs cb h w th = find_key_internal o vfs cb addr h uid_none w th

unfoldable pub get_uid_val_addr : Opts → Vfs → Callback → Hashed → ℕ → Call
get_uid_val_addr o vfs cb h uid w th = find_key_internal o vfs cb addr h uid w th

unfoldable pub get_key_key_copy : Opts → Vfs → Callback → Hashed → Call
get_key_key_copy o vfs cb h w th = find_key_internal o vfs cb and_copy_key h uid_none w th

unfoldable pub get_uid_key_copy : Opts → Vfs → Callback → Hashed → ℕ → Call
get_uid_key_copy o vfs cb h uid w th = find_key_internal o vfs cb and_copy_key h uid w th

unfoldable pub get_key_val_copy : Opts → Vfs → Callback → Hashed → Call
get_key_val_copy o vfs cb h w th = find_key_internal o vfs cb and_copy_val h uid_none w th

unfoldable pub get_uid_val_copy : Opts → Vfs → Callback → Hashed → ℕ → Call
get_uid_val_copy o vfs cb h uid w th = find_key_internal o vfs cb and_copy_val h uid w th

unfoldable pub add_key_val_atom : Opts → Vfs → Callback → Hashed → ℕ → Call
add_key_val_atom o vfs cb h add w th =
    find_key_internal o vfs cb and_atom_add h uid_none w (record th { val_long = add })

unfoldable pub add_uid_val_atom : Opts → Vfs → Callback → Hashed → ℕ → ℕ → Call
add_uid_val_atom o vfs cb h uid add w th =
    find_key_internal o vfs cb and_atom_add h uid w (record th { val_long = add })

unfoldable pub del_key_val : Opts → Vfs → Callback → Hashed → Call
del_key_val o vfs cb h w th = find_key_internal o vfs cb and_delete h uid_none w th

unfoldable pub del_uid_val : Opts → Vfs → Callback → Hashed → ℕ → Call
del_uid_val o vfs cb h uid w th = find_key_internal o vfs cb and_delete h uid w th

unfoldable pub upd_key_val : Opts → Vfs → Callback → Hashed → Call
upd_key_val o vfs cb h w th = find_key_internal o vfs cb and_update h uid_none w th

unfoldable pub upd_uid_val : Opts → Vfs → Callback → Hashed → ℕ → Call
upd_uid_val o vfs cb h uid w th = find_key_internal o vfs cb and_update h uid w th

-- The eight bytes of a `long`.
abbrev pub long_bytes : ℕ → List ℕ
long_bytes v = get_mem (put_u64 (λ a. 0) 0 v) 0 8

-- What shf_add_key_val() leaves if it created the key; `none` if the rounds ran out.
abbrev created : ℕ → Win → Thread → Option (ℕ × Win) → Run (Option (ℕ × Win × Thread))
created add w th none = ok none
created add w th (some (uid, w')) =
    ok (some (ret_key_found, w', record th { uid = uid; val_long = add }))

-- shf_add_key_val(), behind the atomic addition. The source drops the result of the deletion.
unfoldable pub added_key :
    Opts → Vfs → Callback → ℕ → Hashed → ℕ → ℕ → Win → Thread → Run (Option (ℕ × Win × Thread))
added_key o vfs cb rounds h add result w th =
    if result == ret_key_found
    then (if th.val_long == 0
        then (do (r, w', th') ← del_key_val o vfs cb h w th; ok (some (result, w', th')))
        else ok (some (result, w, th)))
    else if result == ret_key_none
    then put_key_val o vfs rounds h (given (long_bytes add)) w >>= created add w th
    else ok (some (result, w, th))

-- shf_add_key_val(), where shf_put_key_val() may take `rounds` rounds.
unfoldable pub add_key_val :
    Opts → Vfs → Callback → ℕ → Hashed → ℕ → Win → Thread → Run (Option (ℕ × Win × Thread))
unfolding added_key
add_key_val o vfs cb rounds h add w th = do
  (result, w', th') ← add_key_val_atom o vfs cb h add w th
  added_key o vfs cb rounds h add result w' th'

-- shf_add_uid_val(), behind the atomic addition.
unfoldable pub added_uid : Opts → Vfs → Callback → Hashed → ℕ → ℕ → Call
added_uid o vfs cb h uid result w th =
    if result == ret_key_found
    then (if th.val_long == 0
        then (do (r, w', th') ← del_uid_val o vfs cb h uid w th; ok (result, w', th'))
        else ok (result, w, th))
    else ok (result, w, th)

-- shf_add_uid_val()
unfoldable pub add_uid_val : Opts → Vfs → Callback → Hashed → ℕ → ℕ → Call
add_uid_val o vfs cb h uid add w th = do
  (result, w', th') ← add_uid_val_atom o vfs cb h uid add w th
  added_uid o vfs cb h uid result w' th'

-- shf_upd_callback_copy() as the callback, once it was called with the value to copy.
unfoldable pub upd_callback_copy : List ℕ → Callback
upd_callback_copy preset val =
    if length val == length preset then (ret_ok, preset) else (ret_bad_cb, val)
