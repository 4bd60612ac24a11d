-- ===== src/Tests.antt =====
-- Runs of the models of src/shf.c on small inputs, and the theorems at concrete inputs.
pub mod Runs
pub mod Queues
pub mod Locks
pub mod Ends
pub mod Adds
pub mod Processes
pub mod Races
pub mod Logs
pub mod Spins
use sharedhashfile.Prelude.{
  ℕ, ◌+◌, ◌*◌, ◌^◌, ◌≤◌, ◌<◌, ◌≡◌, ◌≢◌, ◌⊎◌, ◌↔◌, ◌%◌, inl, inr, refl, false, true, List, [], ◌∷◌,
  length, arith, Option, none, some, Returns, ok, abort,
}
use sharedhashfile.Layout.{
  hash_win, tabs_per_win, rows_per_tab, refs_per_row, size_page, uid_none, as_u32, as_part, Uid,
  hash_tab2, hash_row, hash_rnd, ret_key_found, ret_key_none, mod_page,
}
use sharedhashfile.Layout.Laws.{InRange, as_part-as_u32, as_u32-as_part, mod_page_bounds}
use sharedhashfile.Mem.{get_u32}
use sharedhashfile.Tab.{
  TabMmap, Opts, Vfs, Val, given, val_len, data_needed, fresh_tab, append, tab_shrink, mark_mem,
}
use sharedhashfile.Tab.Record.{LensFit}
use sharedhashfile.Tab.Valid.{IsValid, Entry, Roomy, entry_at, entry_of}
use sharedhashfile.Tab.Append.{Appended, append-Appended}
use sharedhashfile.Tab.Store.{entry_of-unused}
use sharedhashfile.Tab.Delete.{mark_mem-overrun}
use sharedhashfile.Tab.Copy.{LinksFit}
use sharedhashfile.Tab.Loop.{fresh_tab-IsValid}
use sharedhashfile.Tab.Shrink.{Shrunk, tab_shrink-Shrunk}
use sharedhashfile.Win.{Win, fresh_win, shrink, part}
use sharedhashfile.Win.Valid.{WinValid, Within, at_uid}
use sharedhashfile.Win.Part.{SameUids, shrink-SameUids, part-SameUids}
use sharedhashfile.Put.{Hashed, put_ref, put_key_val, free_ref, uid_for}
use sharedhashfile.Put.Store.{IsPut, HoldsVal, put_ref_lem}
use sharedhashfile.Put.Total.{PutResult, put_key_val-PutResult}
use sharedhashfile.Find.{Thread, Callback}
use sharedhashfile.Find.Scan.{IsKey, Missing}
use sharedhashfile.Api.{get_key_val_copy, get_uid_val_copy, del_key_val, del_uid_val}
use sharedhashfile.Api.Get.{
  GetResult, UidResult, get_key_val_copy-GetResult, get_uid_val_copy-UidResult,
}
use sharedhashfile.Api.Del.{Deletes}
use sharedhashfile.Api.Delete.{del_key_val-Deletes, del_uid_val-Deletes}
use sharedhashfile.Api.PutGet.{PutThen, GetsPut, DelsPut, get-put, del-put}

-- Lengths are stored with keys and values, and tabs grow by what is needed.
abbrev pub opts : Opts
opts = record {
  is_fixed_key_val_len = false;
  fixed_key_len = 0;
  fixed_val_len = 0;
  data_needed_factor = 1;
}

-- A file system with space.
abbrev pub vfs : Vfs
vfs t = 2 ^ 32

-- The key "k" with a hash whose tab2, row and random bits are 2, 1 and 5.
abbrev pub hashed : Hashed
hashed = record { hash = 2 * 2 ^ 16 + 2 ^ 32 + 5 * 2 ^ 64; key = 107 ∷ [] }

abbrev pub val : Val
val = given (104 ∷ 105 ∷ [])

abbrev pub no_callback : Callback
no_callback bytes = (0, bytes)

abbrev pub thread : Thread
thread = record {
  uid = uid_none;
  val_addr = none;
  key = [];
  val = [];
  val_long = 0;
  ttl = 0;
  failsafe = 0;
}

pub roomy : Roomy opts vfs 1000000
roomy = record { factor = omega arith; bound = omega arith; space = λ t. omega arith }

fit : LensFit opts 1 2
fit = record {
  fixed = λ e. absurd (ground arith);
  key_small = omega arith;
  val_small = omega arith;
}

links : LinksFit opts
links e = absurd (ground arith)

fresh_none : (r i : ℕ) → entry_at opts fresh_tab r i ≡ none
fresh_none r i = unfold entry_at in entry_of-unused opts fresh_tab.mem (fresh_tab.row r i) refl

pub fresh_win-WinValid : WinValid opts fresh_win
fresh_win-WinValid = record {
  some_tab = omega arith;
  few = omega arith;
  range = λ tab2 l. omega arith;
  valid = λ tab l. fresh_tab-IsValid opts;
  home = λ tab r i e l lr li h. absurd (ground (arith, fresh_none r i));
}

pub fresh_win-Within : Within 100000 fresh_win
fresh_win-Within tab l = omega arith

fresh_win-at : (tab2 r i : ℕ) → at_uid opts fresh_win tab2 r i ≡ none
unfolding at_uid
fresh_win-at tab2 r i = ground (arith, fresh_none r i)

fresh_win-Missing : Missing opts hashed fresh_win
fresh_win-Missing i l k = rw (fresh_win-at) at k

free : free_ref ((fresh_win.tab_mmap 0).row (hash_row hashed.hash)) refs_per_row 0 ≡ some 0
unfolding free_ref
free = refl

put_key_val_example :
    PutResult opts hashed val fresh_win (put_key_val opts vfs 2048 hashed val fresh_win)
put_key_val_example =
    put_key_val-PutResult opts vfs hashed val 100000 1000000 refl fit roomy (omega arith) 2048
      fresh_win fresh_win-WinValid fresh_win-Within (omega arith)

shrink_example :
    Returns
      (λ w'.
        SameUids opts fresh_win w'
        × (w'.tabs ≡ fresh_win.tabs)
        × (w'.tabs_used ≡ fresh_win.tabs_used)
        × Shrunk opts (fresh_win.tab_mmap 0) (w'.tab_mmap 0))
      (shrink opts vfs 0 fresh_win)
shrink_example =
    shrink-SameUids opts vfs 1000000 0 fresh_win fresh_win-WinValid (λ tab l. omega arith) roomy
      links (omega arith)

part_example :
    Returns (λ w'. SameUids opts fresh_win w' × (w'.tabs_used ≡ 2)) (part opts vfs 0 fresh_win)
part_example =
    part-SameUids opts vfs 1000000 0 fresh_win fresh_win-WinValid (λ tab l. omega arith) roomy links
      (omega arith) (omega arith)

tab_shrink_example : Returns (Shrunk opts fresh_tab) (tab_shrink opts vfs fresh_tab)
tab_shrink_example =
    tab_shrink-Shrunk opts vfs fresh_tab (fresh_tab-IsValid opts)
      (record { factor = omega arith; bound = omega arith; space = λ t. omega arith }) links

append_example :
    Returns (Appended opts (107 ∷ []) val fresh_tab) (append opts vfs (107 ∷ []) val fresh_tab)
append_example =
    append-Appended opts vfs 1000000 (107 ∷ []) val fresh_tab roomy (omega arith) (omega arith)
      (inl refl) (omega arith)

-- The window after the key was put.
first_round :
    Returns
      (λ w.
        WinValid opts w
        × IsPut opts hashed val fresh_win 0 w
        × Within 1000000 w
        × (0 < w.tabs_used))
      (put_ref opts vfs hashed val 0 0 fresh_win)
first_round =
    put_ref_lem opts vfs hashed val 100000 1000000 0 fresh_win refl fit fresh_win-WinValid
      fresh_win-Within roomy (omega arith) free

abbrev put_win : Win
put_win = first_round.0

abbrev put_valid : WinValid opts put_win
put_valid = first_round.2.0

abbrev put_within : Within 1000000 put_win
put_within = first_round.2.2

uid_small : uid_for hashed 0 < uid_none
unfolding as_u32 hash_win hash_tab2 hash_row
uid_small = omega arith

get_key_val_copy_example :
    Returns
      (GetResult opts hashed put_win)
      (get_key_val_copy opts vfs no_callback hashed put_win thread)
get_key_val_copy_example =
    get_key_val_copy-GetResult opts vfs no_callback hashed 1000000 put_win thread put_valid
      put_within roomy links

get_uid_val_copy_example :
    Returns
      (UidResult opts (uid_for hashed 0) put_win)
      (get_uid_val_copy opts vfs no_callback hashed (uid_for hashed 0) put_win thread)
get_uid_val_copy_example =
    get_uid_val_copy-UidResult opts vfs no_callback hashed 1000000 put_win thread put_valid
      put_within roomy links (uid_for hashed 0) uid_small

get-put_example :
    PutThen opts hashed fresh_win
      (GetsPut opts vfs no_callback hashed val thread)
      (put_key_val opts vfs 2048 hashed val fresh_win)
get-put_example =
    get-put opts vfs no_callback hashed val 100000 1000000 refl fit roomy (omega arith) 2048
      fresh_win thread fresh_win-WinValid fresh_win-Within (omega arith) fresh_win-Missing

del_key_val_example :
    Returns
      (λ x.
        ((x.0 ≡ ret_key_none) × Missing opts hashed put_win × SameUids opts put_win x.1)
        ⊎ ((ref : ℕ) × (e : Entry) × (ref < refs_per_row)
            × (at_uid opts put_win (hash_tab2 hashed.hash) (hash_row hashed.hash) ref ≡ some e)
            × IsKey hashed (some e)
            × Deletes opts put_win thread (hash_tab2 hashed.hash) (hash_row hashed.hash) ref x))
      (del_key_val opts vfs no_callback hashed put_win thread)
del_key_val_example = del_key_val-Deletes opts vfs no_callback hashed put_win thread put_valid refl

del_uid_val_example :
    Returns
      (λ x.
        ((x.0 ≡ ret_key_none)
          × (at_uid opts put_win (as_part 524800).tab (as_part 524800).row (as_part 524800).ref
              ≡ none)
          × (x.1 ≡ put_win))
        ⊎ ((e : Entry) × (at_uid opts put_win
                (as_part 524800).tab
                (as_part 524800).row
                (as_part 524800).ref
              ≡ some e)
            × Deletes opts put_win thread
                (as_part 524800).tab
                (as_part 524800).row
                (as_part 524800).ref
                x))
      (del_uid_val opts vfs no_callback hashed 524800 put_win thread)
del_uid_val_example =
    del_uid_val-Deletes opts vfs no_callback hashed put_win thread put_valid refl 524800
      (omega arith)

del-put_example :
    PutThen opts hashed fresh_win
      (DelsPut opts vfs no_callback hashed thread fresh_win)
      (put_key_val opts vfs 2048 hashed val fresh_win)
del-put_example =
    del-put opts vfs no_callback hashed val 100000 1000000 refl fit roomy (omega arith) 2048
      fresh_win thread fresh_win-WinValid fresh_win-Within (omega arith) fresh_win-Missing refl

abbrev some_uid : Uid
some_uid = record { win = 200; tab = 2000; row = 500; ref = 10 }

as_part-as_u32_example :
    (as_part (as_u32 some_uid) ≡ some_uid)
    × (as_u32 some_uid < 2 ^ 32)
    × ((as_u32 some_uid ≡ uid_none)
        ↔ (some_uid ≡ record { win = 255; tab = 2047; row = 511; ref = 15 }))
as_part-as_u32_example =
    as_part-as_u32 some_uid
      (record { win = omega arith; tab = omega arith; row = omega arith; ref = omega arith })

as_u32-as_part_example : InRange (as_part 305419896) × (as_u32 (as_part 305419896) ≡ 305419896)
as_u32-as_part_example = as_u32-as_part 305419896 (omega arith)

mod_page_example :
    (69633 ≤ mod_page 69633)
    × (mod_page 69633 < 69633 + size_page)
    × (mod_page 69633 % size_page ≡ 0)
mod_page_example = mod_page_bounds 69633 (omega arith) (omega arith)

-- Keys of 2 bytes and values of 3.
abbrev pub fixed_opts : Opts
fixed_opts = record {
  is_fixed_key_val_len = true;
  fixed_key_len = 2;
  fixed_val_len = 3;
  data_needed_factor = 1;
}

mark_mem_example :
    (get_u32 (mark_mem fixed_opts fresh_tab.mem 65560 2 3 70000) (65560 + 1 + 4) ≡ 70000)
    × (65560 + data_needed fixed_opts 2 3 < 65560 + 1 + 4 + 4)
mark_mem_example =
    mark_mem-overrun fixed_opts fresh_tab.mem 65560 2 3 70000 refl (omega arith) (omega arith)
      (omega arith)
