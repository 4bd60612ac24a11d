-- ===== src/Tests/Runs.antt =====
-- Runs of the models on small inputs.
use sharedhashfile.Prelude.{ℕ, ◌≡◌, refl, List, [], ◌∷◌, Option, none, some, Run, ok, abort}
use sharedhashfile.Layout.{as_u32, mod_page, hash_win, hash_tab2, hash_row, hash_rnd}
use sharedhashfile.Tab.{append, append_at_end, grow, put_record, put_val, put_lens}
use sharedhashfile.Win.{Win, fresh_win}
use sharedhashfile.Find.{find_key_internal, find_key, after_key, find_ref}
use sharedhashfile.Mem.{put_u64, get_mem, put_u08, put_u32, put_mem}
use sharedhashfile.Put.{put_key_val, put_at, put_ref, shrink_after_put, free_ref}
use sharedhashfile.Find.{Thread}
use sharedhashfile.Api.{
  get_key_val_copy, add_key_val, add_key_val_atom, added_key, upd_callback_copy,
}
use sharedhashfile.Tests.{opts, vfs, hashed, val, no_callback, thread}

page_of_one_byte : mod_page 1 ≡ 4096
unfolding mod_page
page_of_one_byte = refl

page_of_a_page : mod_page 4096 ≡ 4096
unfolding mod_page
page_of_a_page = refl

preset_of_another_length : upd_callback_copy (1 ∷ []) (2 ∷ 3 ∷ []) ≡ (4, 2 ∷ 3 ∷ [])
unfolding upd_callback_copy
preset_of_another_length = refl

-- The UID that a put returns, and the bytes used.
abbrev put_outcome : Run (Option (ℕ × Win)) → Option (ℕ × ℕ)
put_outcome (ok (some (uid, w))) = some (uid, (w.tab_mmap 0).tab_data_used)
put_outcome (ok none) = none
put_outcome abort = none

first_put : put_outcome (put_key_val opts vfs 1 hashed val fresh_win) ≡ some (524800, 12)
unfolding put_key_val put_at put_ref shrink_after_put free_ref append append_at_end grow put_record
    put_val put_lens as_u32 hash_win hash_tab2 hash_row hash_rnd mod_page put_u08 put_u32 put_mem
first_put = refl

-- What a call returns, and the value that it copies.
abbrev call_outcome : Run (ℕ × Win × Thread) → Option (ℕ × List ℕ)
call_outcome (ok (r, w, th)) = some (r, th.val)
call_outcome abort = none

get_missing :
    call_outcome (get_key_val_copy opts vfs no_callback hashed fresh_win thread) ≡ some (128, [])
unfolding get_key_val_copy find_key_internal find_key after_key find_ref hash_row hash_tab2 hash_rnd
get_missing = refl

-- Adding 7 to a key that is missing creates it with the value 7.
abbrev added : Run (Option (ℕ × Win × Thread)) → Option (ℕ × ℕ × ℕ)
added (ok (some (r, w, th))) = some (r, th.uid, th.val_long)
added (ok none) = none
added abort = none

first_add :
    added (add_key_val opts vfs no_callback 1 hashed 7 fresh_win thread) ≡ some (1, 524800, 7)
unfolding add_key_val add_key_val_atom added_key find_key_internal find_key after_key find_ref
    put_key_val put_at put_ref shrink_after_put free_ref append append_at_end grow put_record
    put_val put_lens as_u32 hash_win hash_tab2 hash_row hash_rnd mod_page put_u08 put_u32 put_u64
    get_mem put_mem
first_add = refl
