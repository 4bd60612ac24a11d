-- ===== src/Find/Cases.antt =====
-- shf_find_key_internal() in a well-formed window: either no entry is found, or the rest of the
-- function runs on the ref of an entry.
use sharedhashfile.Prelude.{
  ℕ, ◌<◌, ◌≡◌, ◌≢◌, ◌⊎◌, inl, inr, refl, sym, ◌∙◌, Bool, true, false, ◌&&◌, arith, Option, none,
  some, Bool-cases, ok, ◌==◌,
}
use mathlib.Core.Bool.{not}
use sharedhashfile.Layout.{refs_per_row, uid_none, hash_tab2, hash_row, as_part, ret_key_none}
use sharedhashfile.Layout.Laws.{InRange}
use sharedhashfile.Tab.{Ref, Opts, Vfs}
use sharedhashfile.Tab.Slot.{slot_at}
use sharedhashfile.Tab.Valid.{Entry}
use sharedhashfile.Win.{Win}
use sharedhashfile.Win.Valid.{at_uid, WinValid}
use sharedhashfile.Win.Part.{SameUids}
use sharedhashfile.Put.{Hashed, uid_for}
use sharedhashfile.Find.{
  What, Callback, Thread, Misses, found, find_key, find_uid, find_by_uid, after_key, after_uid,
  find_ref, addr_of,
}
use sharedhashfile.Find.Scan.{
  IsKey, Missing, IsFirst, find_ref-IsFirst, at_uid-used, at_uid-unused, check_ref_lem,
}

-- The window with other counts of misses.
abbrev pub with_misses : Win → Misses → Win
with_misses w s = record w { keylen_misses = s.keylen_misses; memcmp_misses = s.memcmp_misses }

-- Counting misses changes nothing else.
pub misses-SameUids :
    (o : Opts) (w : Win) (s : Misses) → WinValid o w → SameUids o w (with_misses w s)
unfolding at_uid
misses-SameUids o w s valid = record {
  valid = record {
    some_tab = valid.some_tab;
    few = valid.few;
    range = valid.range;
    valid = valid.valid;
    home = valid.home;
  };
  uids = λ tab2 r i _ _ _. refl;
  within = λ n h. h;
}

abbrev pub ref_of : Win → ℕ → ℕ → ℕ → Ref
ref_of w tab2 r i = (w.tab_mmap (w.tabs tab2)).row r i

-- The entry that a used ref stands for.
abbrev pub entry_here : Opts → Win → ℕ → ℕ → ℕ → Entry
entry_here o w tab2 r i = record {
  tab = (ref_of w tab2 r i).tab;
  rnd = (ref_of w tab2 r i).rnd;
  slot = slot_at o (w.tab_mmap (w.tabs tab2)).mem (ref_of w tab2 r i).pos;
}

-- The UID stands for an entry.
pub record Here (o : Opts) (w : Win) (tab2 r i : ℕ) : Type 0 where
  pub live : (ref_of w tab2 r i).pos ≢ 0
  pub home : (ref_of w tab2 r i).tab ≡ tab2
  pub stands : at_uid o w tab2 r i ≡ some (entry_here o w tab2 r i)

-- The test of a ref for a tab2.
abbrev used_by : Win → ℕ → ℕ → ℕ → Bool
used_by w tab2 r i = not ((ref_of w tab2 r i).pos == 0) && (ref_of w tab2 r i).tab == tab2

pub at_uid-cases :
    (o : Opts) (w : Win) (tab2 r i : ℕ)
    → ((at_uid o w tab2 r i ≡ none) × (used_by w tab2 r i ≡ false)) ⊎ Here o w tab2 r i
at_uid-cases o w tab2 r i = elim (Bool-cases ((ref_of w tab2 r i).pos == 0)) [
  | inl e ↦ inl (at_uid-unused o w tab2 r i (ground arith), rw e refl)
  | inr e ↦
      let there = at_uid-used o w tab2 r i (ground arith) in
      elim (Bool-cases ((ref_of w tab2 r i).tab == tab2)) [
        | inl e₁ ↦
            inr (record { live = ground arith; home = ground arith; stands = rw (there, e₁) refl })
        | inr e₁ ↦ inl (rw (there, e₁) refl, rw (e, e₁) refl)
      ]
]

pub Here-none : (o : Opts) (w : Win) (tab2 r i : ℕ) → Here o w tab2 r i → at_uid o w tab2 r i ≢ none
Here-none o w tab2 r i here e = let clash = sym here.stands ∙ e in cc

module _ (o : Opts) (vfs : Vfs) (cb : Callback) (what : What) (h : Hashed) (w : Win) (th : Thread)
    (valid : WinValid o w) where
  abbrev tab2 : ℕ
  tab2 = hash_tab2 h.hash

  abbrev row : ℕ
  row = hash_row h.hash

  abbrev start : Misses
  start = record { keylen_misses = w.keylen_misses; memcmp_misses = w.memcmp_misses }

  abbrev KeyNone : Type 0
  KeyNone =
      (s : Misses) × (find_key o vfs cb what h w th
        ≡ ok (ret_key_none, with_misses w s, record th { uid = uid_none; val_addr = none }))
      × Missing o h w

  abbrev KeyFound : Type 0
  KeyFound =
      (s : Misses) × (ref : ℕ) × (find_key o vfs cb what h w th
        ≡ found o vfs cb what (w.tabs tab2) row ref (with_misses w s) (record th {
          uid = uid_for h ref;
          val_addr = addr_of o (w.tab_mmap (w.tabs tab2)) row ref;
        }))
      × (ref < refs_per_row)
      × Here o w tab2 row ref
      × IsKey h (some (entry_here o w tab2 row ref))

  pub find_key-cases : KeyNone ⊎ KeyFound
  unfolding find_key after_key
  find_key-cases =
      let (x, e, first) = find_ref-IsFirst o h w valid refs_per_row 0 refs_per_row start refl in
      go x.0 x.1 e first
    where
      go :
          (x : Option ℕ) (s : Misses)
          → find_ref o h (w.tab_mmap (w.tabs tab2)) refs_per_row 0 start ≡ ok (x, s)
          → IsFirst o h w valid 0 refs_per_row x
          → KeyNone ⊎ KeyFound
      go none s e first = inl (s, rw e refl, λ i l. first i (omega arith) l)
      go (some ref) s e (lo, hi, key, before) = elim (at_uid-cases o w tab2 row ref) [
        | inl (nothing, _) ↦ absurd (rw nothing at key)
        | inr here ↦ inr (s, ref, rw e refl, hi, here, rw (here.stands) at key)
      ]

module _ (o : Opts) (vfs : Vfs) (cb : Callback) (what : What) (uid : ℕ) (w : Win) (th : Thread)
    (valid : WinValid o w) (range : InRange (as_part uid)) where
  abbrev part_tab : ℕ
  part_tab = (as_part uid).tab

  abbrev part_row : ℕ
  part_row = (as_part uid).row

  abbrev part_ref : ℕ
  part_ref = (as_part uid).ref

  abbrev UidNone : Type 0
  UidNone =
      (find_by_uid o vfs cb what uid w th ≡ ok (ret_key_none, w, record th { val_addr = none }))
      × (at_uid o w part_tab part_row part_ref ≡ none)

  abbrev UidFound : Type 0
  UidFound =
      (find_by_uid o vfs cb what uid w th
        ≡ found o vfs cb what (w.tabs part_tab) part_row part_ref w
            (record th { val_addr = addr_of o (w.tab_mmap (w.tabs part_tab)) part_row part_ref }))
      × Here o w part_tab part_row part_ref

  pub find_by_uid-cases : UidNone ⊎ UidFound
  unfolding find_by_uid find_uid after_uid
  find_by_uid-cases = elim (at_uid-cases o w part_tab part_row part_ref) [
    | inl (nothing, test) ↦ inl (rw test refl, nothing)
    | inr here ↦
        let checked =
          check_ref_lem o (w.tab_mmap (w.tabs part_tab)) part_row part_ref
            (valid.valid _ (valid.range part_tab range.tab)) here.live in
        let test : used_by w part_tab part_row part_ref ≡ true =
          ground (arith, here.live, here.home) in
        inr (rw (test, checked) refl, here)
  ]
