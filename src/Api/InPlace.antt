-- ===== src/Api/InPlace.antt =====
-- Writing to the value of the entry that a UID stands for: SHF_FIND_KEY_OR_UID_AND_ATOM_ADD and
-- SHF_FIND_KEY_OR_UID_AND_UPDATE.
use sharedhashfile.Prelude.{
  ℕ, ◌+◌, ◌-◌, ◌≤◌, ◌<◌, ◌^◌, ◌≡◌, ◌≢◌, ◌⊎◌, inl, inr, refl, ap, sym, ◌∙◌, List, length, arith,
  Option, none, some, Bool-cases, ◌==◌, leb, Returns, true,
}
use sharedhashfile.Layout.{
  tabs_per_win, rows_per_tab, refs_per_row, u32, u64, ret_key_found, ret_bad_val,
}
use sharedhashfile.Mem.{Mem, get_mem, get_u64, put_u64, put_mem}
use sharedhashfile.Mem.Frame.{put_mem-outside, get_mem-put_mem, length-get_mem}
use sharedhashfile.Mem.Long.{
  drop, drop-Same, long_of, get_u64-long_of, put_u64-Same, get_u64-put_u64,
}
use sharedhashfile.Tab.{TabMmap, Opts, val_len_at, val_at}
use sharedhashfile.Tab.Slot.{slot_at, length-val_at}
use sharedhashfile.Tab.Valid.{IsValid, Entry, entry_at}
use sharedhashfile.Tab.Write.{SameButVal, written-entry, written-entry_ne, written-IsValid}
use sharedhashfile.Tab.Store.{entry_of-used}
use sharedhashfile.Win.{Win}
use sharedhashfile.Win.Valid.{at_uid, WinValid, Within}
use sharedhashfile.Find.{Thread, Callback, or_found, atom_add, update_val, set_tab, val_pos}
use sharedhashfile.Find.Cases.{Here, entry_here, ref_of}

-- An entry with another value.
abbrev pub with_val : Entry → List ℕ → Entry
with_val e val = record e { slot = record e.slot { val = val } }

-- `w'` is well formed; its UID (tab2, r, i) stands for the entry `e`, and each other UID for what
-- it stood for in `w`; no tab holds more.
pub record Rewritten (o : Opts) (w : Win) (tab2 r i : ℕ) (e : Entry) (w' : Win) : Type 0 where
  pub valid : WinValid o w'
  pub now : at_uid o w' tab2 r i ≡ some e
  pub others :
      (tab2' r' i' : ℕ)
      → tab2' < tabs_per_win
      → r' < rows_per_tab
      → i' < refs_per_row
      → (tab2 ≢ tab2') ⊎ (r ≢ r') ⊎ (i ≢ i')
      → at_uid o w' tab2' r' i' ≡ at_uid o w tab2' r' i'
  pub within : (n : ℕ) → Within n w → Within n w'

tab_of : Option Entry → ℕ
tab_of none = 0
tab_of (some e) = e.tab

same_ref : (r i a b : ℕ) → ((r ≡ a) × (i ≡ b)) ⊎ ((r ≢ a) ⊎ (i ≢ b))
same_ref r i a b = ground arith

module _ (o : Opts) (w : Win) (valid : WinValid o w) (tab2 r i : ℕ) (lt : tab2 < tabs_per_win)
    (row_bound : r < rows_per_tab) (ref_bound : i < refs_per_row) (here : Here o w tab2 r i) where
  abbrev tab : ℕ
  tab = w.tabs tab2

  abbrev t : TabMmap
  t = w.tab_mmap tab

  abbrev pos : ℕ
  pos = (t.row r i).pos

  abbrev vp : ℕ
  vp = val_pos o t.mem pos

  abbrev v : ℕ
  v = val_len_at o t.mem pos

  -- The entry's value.
  abbrev pub val_here : List ℕ
  val_here = (entry_here o w tab2 r i).slot.val

  t-IsValid : IsValid o t
  t-IsValid = valid.valid tab (valid.range tab2 lt)

  length-val_here : length val_here ≡ v
  unfolding slot_at
  length-val_here = length-val_at o t.mem pos

  module _ (m' : Mem) (but : SameButVal o t.mem pos m') where
    abbrev t' : TabMmap
    t' = record t { mem = m' }

    abbrev e' : Entry
    e' = with_val (entry_here o w tab2 r i) (get_mem m' vp v)

    entry : entry_at o t' r i ≡ some e'
    unfolding slot_at
    entry = written-entry o r i t t-IsValid here.live row_bound ref_bound m' but

    entry_ne : (a b : ℕ) → (r ≢ a) ⊎ (i ≢ b) → entry_at o t' a b ≡ entry_at o t a b
    entry_ne = written-entry_ne o r i t t-IsValid here.live row_bound ref_bound m' but

    was : entry_at o t r i ≡ some (entry_here o w tab2 r i)
    unfolding entry_at
    was = entry_of-used o t.mem (t.row r i) here.live

    t'-IsValid : IsValid o t'
    t'-IsValid = written-IsValid o r i t t-IsValid here.live row_bound ref_bound m' but

    same_tab : (w.tabs tab2 == w.tabs tab2) ≡ true
    same_tab = ground arith

    now : at_uid o (set_tab w tab t') tab2 r i ≡ some e'
    unfolding at_uid
    now =
        let at_home : ((ref_of w tab2 r i).tab == tab2) ≡ true = ground (arith, here.home) in
        rw (same_tab, entry, at_home) refl

    home :
        (tab' a b : ℕ) (e : Entry)
        → tab' < w.tabs_used
        → a < rows_per_tab
        → b < refs_per_row
        → entry_at o ((set_tab w tab t').tab_mmap tab') a b ≡ some e
        → (e.tab < tabs_per_win) × (w.tabs e.tab ≡ tab')
    unfolding tab_of
    home tab' a b e l la lb h = elim (Bool-cases (tab == tab')) [
      | inr other ↦ valid.home tab' a b e l la lb (rw other at h)
      | inl same ↦
          let at_tab : tab ≡ tab' = ground arith in
          let h' = rw same at h in
          elim (same_ref r i a b) [
            | inl (p, q) ↦
                let h'' = rw (← p, ← q, entry) at h' in
                let was_home : e.tab ≡ tab2 = sym (ap tab_of h'') ∙ here.home in
                rw was_home (lt, at_tab)
            | inr ne ↦
                let old = rw (entry_ne a b ne) at h' in
                rw (← at_tab) (valid.home tab a b e (valid.range tab2 lt) la lb old)
          ]
    ]

    pub set_tab-Rewritten : Rewritten o w tab2 r i e' (set_tab w tab t')
    unfolding at_uid
    set_tab-Rewritten = record {
      valid = record {
        some_tab = valid.some_tab;
        few = valid.few;
        range = valid.range;
        valid = λ tab' l. elim (Bool-cases (tab == tab')) [
          | inl e ↦ rw e t'-IsValid
          | inr e ↦ rw e (valid.valid tab' l)
        ];
        home = home;
      };
      now = now;
      others = λ tab2' a b l la lb ne. ground (arith, entry_ne a b, entry, was, here.home);
      within = λ n h tab' l. ground (arith, h tab');
    }

  -- Any bytes as long as the value, written over it.
  pub put_mem-Rewritten :
      (bytes : List ℕ)
      → length bytes ≡ length val_here
      → Rewritten o w tab2 r i
          (with_val (entry_here o w tab2 r i) bytes)
          (set_tab w tab (record t { mem = put_mem t.mem vp bytes }))
  put_mem-Rewritten bytes e =
      let whole : get_mem (put_mem t.mem vp bytes) vp v ≡ bytes =
        rw (e, length-val_here) at (get_mem-put_mem t.mem vp bytes) in
      rw whole at (
        set_tab-Rewritten (put_mem t.mem vp bytes)
          (λ a out. put_mem-outside t.mem vp bytes a (omega (arith, out, e, length-val_here))))

  -- The number at the front of the value replaced, and the rest kept.
  abbrev pub Adds : ℕ → List ℕ → Type 0
  Adds sum val' =
      (long_of val' ≡ sum) × (drop 8 val' ≡ drop 8 val_here) × (length val' ≡ length val_here)

  dropped : (sum : ℕ) → 8 ≤ v → drop 8 (get_mem (put_u64 t.mem vp sum) vp v) ≡ drop 8 val_here
  unfolding slot_at val_at
  dropped sum long =
      drop-Same vp v 8 long (put_u64-Same t.mem vp sum (vp + 8) (v - 8) (inr (omega arith)))

  pub put_u64-Rewritten :
      (sum : ℕ)
      → sum < 2 ^ 64
      → 8 ≤ length val_here
      → (val' : List ℕ) × Adds sum val'
        × Rewritten o w tab2 r i
            (with_val (entry_here o w tab2 r i) val')
            (set_tab w tab (record t { mem = put_u64 t.mem vp sum }))
  put_u64-Rewritten sum small eight =
      let m' = put_u64 t.mem vp sum in
      let long : 8 ≤ v = omega (arith, eight, length-val_here) in
      (
        get_mem m' vp v,
        (
          sym (get_u64-long_of m' vp v long) ∙ get_u64-put_u64 t.mem vp sum small,
          dropped sum long,
          length-get_mem m' vp v ∙ sym length-val_here,
        ),
        set_tab-Rewritten m' (λ a out.
            put_u64-Same t.mem vp sum a 1 (omega (arith, out, long)) a (omega arith) (omega arith)),
      )

  -- What an atomic addition to the entry does: the number at the front of the value becomes the
  -- sum, modulo 2 ^ 64, and nothing else changes; or the value is too short, and nothing changes.
  abbrev pub AtomAdds : Thread → ℕ × Win × Thread → Type 0
  AtomAdds th (result, w', th') =
      ((8 ≤ length val_here)
        × (result ≡ ret_key_found)
        × (th'.val_long ≡ u64 (long_of val_here + th.val_long))
        × (th'.ttl ≡ th.ttl)
        × ((val' : List ℕ) × Adds th'.val_long val'
            × Rewritten o w tab2 r i (with_val (entry_here o w tab2 r i) val') w'))
      ⊎ ((length val_here < 8) × (result ≡ ret_key_found + ret_bad_val) × (w' ≡ w) × (th' ≡ th))

  front : 8 ≤ v → get_u64 t.mem vp ≡ long_of val_here
  unfolding slot_at val_at
  front long = get_u64-long_of t.mem vp v long

  pub atom_add-AtomAdds : (th : Thread) → AtomAdds th (atom_add o tab r i w th)
  unfolding atom_add
  atom_add-AtomAdds th = elim (Bool-cases (leb 8 v)) [
    | inl e ↦
        let long : 8 ≤ v = ground arith in
        let eight : 8 ≤ length val_here = omega (arith, long, length-val_here) in
        let sum = u64 (get_u64 t.mem vp + th.val_long) in
        let small : sum < 2 ^ 64 = omega arith in
        rw e (
          inl (
            eight,
            refl,
            ap (λ (n : ℕ). u64 (n + th.val_long)) (front long),
            refl,
            put_u64-Rewritten sum small eight,
          ))
    | inr e ↦ rw e (inr (ground (arith, length-val_here), refl, refl, refl))
  ]

  -- What an update of the entry does: the callback gets the value, which becomes what it leaves.
  abbrev pub Updates : Callback → Thread → ℕ × Win × Thread → Type 0
  Updates callback th (result, w', th') =
      (result ≡ or_found (callback val_here).0)
      × Rewritten o w tab2 r i (with_val (entry_here o w tab2 r i) (callback val_here).1) w'
      × (th' ≡ th)

  pub update_val-Updates :
      (callback : Callback) (th : Thread)
      → length (callback val_here).1 ≡ length val_here
      → th.failsafe ≡ 0
      → Returns (Updates callback th) (update_val o callback tab r i w th)
  unfolding update_val slot_at
  update_val-Updates callback th keeps quiet =
      let once : (u32 (th.failsafe + 1) == 1) ≡ true = ground (arith, quiet) in
      (
        (
          or_found (callback val_here).0,
          set_tab w tab (record t { mem = put_mem t.mem vp (callback val_here).1 }),
          th,
        ),
        rw once refl,
        (refl, put_mem-Rewritten (callback val_here).1 keeps, refl),
      )
