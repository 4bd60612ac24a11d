-- ===== src/Put.antt =====
-- shf_put_key_val() of src/shf.c, within the window that the hash of the key leads to.
pub mod Store
pub mod Total
pub mod Only
use sharedhashfile.Prelude.{
  ℕ, zero, suc, ◌+◌, ◌*◌, ◌/◌, Option, none, some, List, ltb, ◌==◌, if◌then◌else◌, Run, ok, ◌>>=◌,
}
use sharedhashfile.Prelude.Family.{update}
use sharedhashfile.Layout.{refs_per_row, u32, hash_win, hash_tab2, hash_row, hash_rnd, as_u32, Uid}
use sharedhashfile.Tab.{Ref, Opts, Vfs, Val, append, set_ref}
use sharedhashfile.Win.{Win, shrink, part}

-- What shf_make_hash() leaves in the thread: the 128-bit hash, and the key. The hash function,
-- MurmurHash3, is not modelled: `hash` may be any number.
pub record Hashed : Type 0 where
  pub hash : ℕ
  pub key : List ℕ

-- The UID for a ref of the hash's row.
abbrev pub uid_for : Hashed → ℕ → ℕ
uid_for h ref =
    as_u32
      (record { win = hash_win h.hash; tab = hash_tab2 h.hash; row = hash_row h.hash; ref = ref })

-- The first unused ref of a row, of `n` from `ref` on.
unfoldable pub free_ref : (ℕ → Ref) → ℕ → ℕ → Option ℕ
free_ref row zero ref = none
free_ref row (suc n) ref =
    let rest = free_ref row n (ref + 1) in if (row ref).pos == 0 then some ref else rest

-- The branch for an unused ref of a tab.
unfoldable pub put_ref : Opts → Vfs → Hashed → Val → ℕ → ℕ → Win → Run Win
put_ref o vfs h val tab ref w = do
  (pos, t) ← append o vfs h.key val (w.tab_mmap tab)
  ok (record w {
    tab_mmap = update w.tab_mmap tab (record t {
      row =
          set_ref t.row (hash_row h.hash) ref
            (record { tab = hash_tab2 h.hash; rnd = hash_rnd h.hash; pos = pos });
    });
  })

-- The test for garbage at the end.
unfoldable pub shrink_after_put : Opts → Vfs → ℕ → Win → Run Win
shrink_after_put o vfs tab w =
    if ltb (u32 ((w.tab_mmap tab).tab_data_used * 20) / 100) (w.tab_mmap tab).tab_data_free
    then shrink o vfs tab w
    else ok w

-- A round, with the first unused ref of the row, and what is done again after parting the tab.
unfoldable pub put_at :
    Opts
    → Vfs
    → Hashed
    → Val
    → ℕ
    → Win
    → (Win → Run (Option (ℕ × Win)))
    → Option ℕ
    → Run (Option (ℕ × Win))
put_at o vfs h val tab w again none = part o vfs tab w >>= again
put_at o vfs h val tab w again (some ref) = do
  w₁ ← put_ref o vfs h val tab ref w
  w₂ ← shrink_after_put o vfs tab w₁
  ok (some (uid_for h ref, w₂))

-- The whole, with the number of rounds that it may take: the new UID, `none` if the rounds ran
-- out. Each round but the last parts the tab, unlocks the window and starts again.
unfoldable pub put_key_val : Opts → Vfs → ℕ → Hashed → Val → Win → Run (Option (ℕ × Win))
unfolding put_at
put_key_val o vfs zero h val w = ok none
put_key_val o vfs (suc rounds) h val w =
    let tab = w.tabs (hash_tab2 h.hash) in
    put_at o vfs h val tab w (put_key_val o vfs rounds h val)
      (free_ref ((w.tab_mmap tab).row (hash_row h.hash)) refs_per_row 0)
