-- ===== src/Api/Add.antt =====
-- shf_add_key_val(): a key counts.
use sharedhashfile.Prelude.{
  ℕ, ◌+◌, ◌≤◌, ◌<◌, ◌^◌, ◌≡◌, ◌⊎◌, inl, inr, refl, ap, sym, ◌∙◌, List, length, arith, none, some,
  Bool-cases, ◌==◌, Returns,
}
use sharedhashfile.Layout.{
  refs_per_row, u64, uid_none, hash_tab2, hash_row, ret_key_found, ret_bad_val, ret_key_none,
}
use sharedhashfile.Layout.Laws.{hash_in_range}
use sharedhashfile.Mem.{put_u64}
use sharedhashfile.Mem.Long.{drop, long_of, get_u64-long_of, get_u64-put_u64}
use sharedhashfile.Tab.{Opts, Vfs}
use sharedhashfile.Tab.Valid.{Entry}
use sharedhashfile.Win.{Win}
use sharedhashfile.Win.Valid.{at_uid, WinValid}
use sharedhashfile.Win.Part.{SameUids}
use sharedhashfile.Put.{Hashed, uid_for}
use sharedhashfile.Find.{
  and_atom_add, Callback, Thread, Misses, found, atom_add, find_key_internal, addr_of,
}
use sharedhashfile.Find.Scan.{IsKey, Missing}
use sharedhashfile.Find.Cases.{with_misses, misses-SameUids, Here, entry_here, find_key-cases}
use sharedhashfile.Api.{add_key_val_atom, long_bytes}
use sharedhashfile.Api.Del.{Deleted}
use sharedhashfile.Api.InPlace.{with_val, Rewritten, AtomAdds, atom_add-AtomAdds}

pub Rewritten-after :
    (o : Opts) (w w₁ w' : Win) (tab2 r i : ℕ) (e : Entry)
    → SameUids o w w₁
    → Rewritten o w₁ tab2 r i e w'
    → Rewritten o w tab2 r i e w'
Rewritten-after o w w₁ w' tab2 r i e same re = record {
  valid = re.valid;
  now = re.now;
  others = λ a b c l m k ne. re.others a b c l m k ne ∙ same.uids a b c l m k;
  within = λ n h. re.within n (same.within n h);
}

pub Here-misses :
    (o : Opts) (h : Hashed) (w : Win) (s : Misses) (ref : ℕ)
    → WinValid o w
    → ref < refs_per_row
    → Here o w (hash_tab2 h.hash) (hash_row h.hash) ref
    → Here o (with_misses w s) (hash_tab2 h.hash) (hash_row h.hash) ref
Here-misses o h w s ref valid lt here = record {
  live = here.live;
  home = here.home;
  stands =
      (misses-SameUids o w s valid).uids _ _ ref (hash_in_range h.hash).1 (hash_in_range h.hash).2
        lt
      ∙ here.stands;
}

-- The value of an entry before and after an addition: its first eight bytes are the sum.
abbrev pub Sums : ℕ → List ℕ → List ℕ → Type 0
Sums sum val val' = (long_of val' ≡ sum) × (drop 8 val' ≡ drop 8 val) × (length val' ≡ length val)

-- What an atomic addition to the entry `e` of a UID returns and leaves.
abbrev pub Counts : Opts → Win → Thread → ℕ → ℕ → ℕ → Entry → ℕ × Win × Thread → Type 0
Counts o w th tab2 r i e (result, w', th') =
    ((8 ≤ length e.slot.val)
      × (result ≡ ret_key_found)
      × (th'.val_long ≡ u64 (long_of e.slot.val + th.val_long))
      × (th'.ttl ≡ th.ttl)
      × ((val' : List ℕ) × Sums th'.val_long e.slot.val val'
          × Rewritten o w tab2 r i (with_val e val') w'))
    ⊎ ((length e.slot.val < 8) × (result ≡ ret_key_found + ret_bad_val) × SameUids o w w')

-- What the search for a key and the atomic addition to its entry return and leave.
abbrev pub KeyCounts : Opts → Hashed → Win → Thread → ℕ × Win × Thread → Type 0
KeyCounts o h w th x =
    ((x.0 ≡ ret_key_none) × Missing o h w × SameUids o w x.1 × (x.1.tabs_used ≡ w.tabs_used))
    ⊎ ((ref : ℕ) × (e : Entry) × (ref < refs_per_row)
        × (at_uid o w (hash_tab2 h.hash) (hash_row h.hash) ref ≡ some e)
        × IsKey h (some e)
        × Counts o w th (hash_tab2 h.hash) (hash_row h.hash) ref e x)

module _ (o : Opts) (vfs : Vfs) (cb : Callback) (h : Hashed) (w : Win) (th : Thread)
    (valid : WinValid o w) where
  Counts-after :
      (s : Misses) (th' : Thread) (ref : ℕ) (x : ℕ × Win × Thread)
      → (lt : ref < refs_per_row) → (here : Here o w (hash_tab2 h.hash) (hash_row h.hash) ref)
      → th'.val_long ≡ th.val_long
      → th'.ttl ≡ th.ttl
      → AtomAdds o
          (with_misses w s)
          (misses-SameUids o w s valid).valid
          (hash_tab2 h.hash)
          (hash_row h.hash)
          ref
          (hash_in_range h.hash).1
          (hash_in_range h.hash).2
          lt
          (Here-misses o h w s ref valid lt here)
          th'
          x
      → Counts o w th
          (hash_tab2 h.hash)
          (hash_row h.hash)
          ref
          (entry_here o w (hash_tab2 h.hash) (hash_row h.hash) ref)
          x
  Counts-after s th' ref x lt here long ttl adds = elim adds [
    | inl (eight, r, sum, t, (val', sums, re)) ↦ inl (
      eight,
      r,
      sum
          ∙ ap
              (λ (n : ℕ).
                u64
                  (long_of (entry_here o w (hash_tab2 h.hash) (hash_row h.hash) ref).slot.val + n))
              long,
      t ∙ ttl,
      (val', sums, Rewritten-after o w _ x.1 _ _ ref _ (misses-SameUids o w s valid) re),
    )
    | inr (short, r, same, _) ↦ inr (short, r, rw same (misses-SameUids o w s valid))
  ]

module _ (o : Opts) (vfs : Vfs) (cb : Callback) (h : Hashed) (w : Win) (th : Thread)
    (valid : WinValid o w) where
  pub add_key_val_atom-KeyCounts :
      (add : ℕ)
      → Returns
          (KeyCounts o h w (record th { val_long = add }))
          (add_key_val_atom o vfs cb h add w th)
  unfolding add_key_val_atom find_key_internal found
  add_key_val_atom-KeyCounts add =
      let start = record th { val_long = add } in
      elim (find_key-cases o vfs cb and_atom_add h w start valid) [
        | inl (s, e, missing) ↦ (
          (ret_key_none, with_misses w s, record start { uid = uid_none; val_addr = none }),
          e,
          inl (refl, missing, misses-SameUids o w s valid, refl),
        )
        | inr (s, ref, e, lt, here, key) ↦
            let th' = record start {
              uid = uid_for h ref;
              val_addr = addr_of o (w.tab_mmap (w.tabs (hash_tab2 h.hash))) (hash_row h.hash) ref;
            } in
            let x =
              atom_add o (w.tabs (hash_tab2 h.hash)) (hash_row h.hash) ref (with_misses w s) th' in
            (
              x,
              e,
              inr (
                ref,
                _,
                lt,
                here.stands,
                key,
                Counts-after o vfs cb h w start valid s th' ref x lt here refl refl (
                    atom_add-AtomAdds o (with_misses w s) (misses-SameUids o w s valid).valid _ _
                      ref (hash_in_range h.hash).1 (hash_in_range h.hash).2 lt
                      (Here-misses o h w s ref valid lt here) th'),
              ),
            )
      ]

-- No two entries are for the key.
abbrev pub Single : Opts → Hashed → Win → Type 0
Single o h w =
    (i j : ℕ)
    → i < refs_per_row
    → j < refs_per_row
    → IsKey h (at_uid o w (hash_tab2 h.hash) (hash_row h.hash) i)
    → IsKey h (at_uid o w (hash_tab2 h.hash) (hash_row h.hash) j)
    → i ≡ j

pub Deleted-Rewritten :
    (o : Opts) (w w₁ w' : Win) (tab2 r i : ℕ) (e : Entry)
    → Rewritten o w tab2 r i e w₁
    → Deleted o w₁ tab2 r i w'
    → Deleted o w tab2 r i w'
Deleted-Rewritten o w w₁ w' tab2 r i e re del = record {
  valid = del.valid;
  gone = del.gone;
  others = λ a b c l m k ne. del.others a b c l m k ne ∙ re.others a b c l m k ne;
  within = λ n h. del.within n (re.within n h);
}

-- Rewriting a value of an entry adds none for the key.
pub only_ref :
    (o : Opts) (h : Hashed) (w w' : Win) (ref ref' : ℕ) (e e' : Entry)
    → Single o h w
    → ref < refs_per_row
    → ref' < refs_per_row
    → at_uid o w (hash_tab2 h.hash) (hash_row h.hash) ref ≡ some e
    → IsKey h (some e)
    → Rewritten o w (hash_tab2 h.hash) (hash_row h.hash) ref e' w'
    → IsKey h (at_uid o w' (hash_tab2 h.hash) (hash_row h.hash) ref')
    → ref ≡ ref'
only_ref o h w w' ref ref' e e' single lt lt' at key re key' = elim (Bool-cases (ref == ref')) [
  | inl eq ↦ ground arith
  | inr ne ↦
      let old =
        re.others (hash_tab2 h.hash) (hash_row h.hash) ref' (hash_in_range h.hash).1
          (hash_in_range h.hash).2 lt' (inr (inr (ground arith))) in
      single ref ref' lt lt' (rw at key) (rw old at key')
]

pub long_of-long_bytes : (v : ℕ) → v < 2 ^ 64 → long_of (long_bytes v) ≡ v
long_of-long_bytes v small =
    sym (get_u64-long_of (put_u64 (λ a. 0) 0 v) 0 8 (omega arith))
    ∙ get_u64-put_u64 (λ a. 0) 0 v small
