-- ===== src/Queue/Create.antt =====
-- What shf_q_new() as a whole leaves: its keys put, and its queues.
use sharedhashfile.Prelude.{
  ℕ, Bool, ◌>>◌, ◌+◌, ◌*◌, ◌^◌, ◌≤◌, ◌<◌, ◌≡◌, ◌⊎◌, inl, inr, refl, false, true, List, [], ◌∷◌,
  length, ltb, arith, ◌==◌, Bool-cases, Option, some, Run, ok, abort, ◌>>=◌, Returns, assert,
}
use mathlib.Core.Bool.{not}
use sharedhashfile.Prelude.Family.{update}
use sharedhashfile.Layout.{tabs_per_win, hash_win}
use sharedhashfile.Tab.{Opts, Vfs, Val, val_len, data_needed}
use sharedhashfile.Tab.Record.{LensFit}
use sharedhashfile.Tab.Valid.{Roomy}
use sharedhashfile.Win.{Win}
use sharedhashfile.Win.Valid.{WinValid, Within, Roomy-le}
use sharedhashfile.Win.Part.{SameUids}
use sharedhashfile.Put.{Hashed, uid_for}
use sharedhashfile.Put.Store.{IsPut}
use sharedhashfile.Put.Total.{RowFull, put_key_val-PutWithin}
use sharedhashfile.Queue.{Q}
use sharedhashfile.Queue.New.{Puts, also, put_all, all_put, after_puts, new_keys, set_up, new}
use sharedhashfile.Queue.First.{Made, set_up-Made}

-- Each key and value is an entry of the window of its hash, at the UID, put one after the other.
abbrev pub AllPut : Opts → List (Hashed × Val) → (ℕ → Win) → List ℕ → (ℕ → Win) → Type 0
AllPut o [] wins uids wins' = (uids ≡ []) × (wins' ≡ wins)
AllPut o (k ∷ ks) wins uids wins' =
    (ref : ℕ) × (w : Win) × (uids₁ : List ℕ) × (uids ≡ uid_for k.0 ref ∷ uids₁)
    × IsPut o k.0 k.1 (wins (hash_win k.0.hash)) ref w
    × AllPut o ks (update wins (hash_win k.0.hash) w) uids₁ wins'

-- A key, after those before it were put, is one for which all tabs of the window are in use and the
-- row is full.
abbrev pub SomeFull : Opts → List (Hashed × Val) → (ℕ → Win) → Type 0
SomeFull o [] wins = ⊥
SomeFull o (k ∷ ks) wins =
    ((w : Win) × SameUids o (wins (hash_win k.0.hash)) w
      × (w.tabs_used ≡ tabs_per_win)
      × RowFull k.0 w)
    ⊎ ((ref : ℕ) × (w : Win) × IsPut o k.0 k.1 (wins (hash_win k.0.hash)) ref w
        × SomeFull o ks (update wins (hash_win k.0.hash) w))

abbrev pub PutsResult : Opts → List (Hashed × Val) → (ℕ → Win) → Run Puts → Type 0
PutsResult o ks wins r =
    ((uids : List ℕ) × (wins' : ℕ → Win) × (r ≡ ok (some (uids, wins')))
      × AllPut o ks wins uids wins'
      × ((i : ℕ) → WinValid o (wins' i)))
    ⊎ ((r ≡ abort) × SomeFull o ks wins)

-- The bytes that the records take, and that their lengths fit.
abbrev pub all_needed : Opts → List (Hashed × Val) → ℕ
all_needed o [] = 0
all_needed o (k ∷ ks) = data_needed o (length k.0.key) (val_len k.1) + all_needed o ks

abbrev pub AllFit : Opts → List (Hashed × Val) → Type 0
AllFit o [] = Unit
AllFit o (k ∷ ks) = LensFit o (length k.0.key) (val_len k.1) × AllFit o ks

update-all :
    (P : Win → Type 0) (wins : ℕ → Win) (i : ℕ) (w : Win)
    → ((j : ℕ) → P (wins j))
    → P w
    → (j : ℕ) → P (update wins i w j)
update-all P wins i w all here j = elim (Bool-cases (i == j)) [
  | inl e ↦ rw e here
  | inr e ↦ rw e (all j)
]

also-PutsResult :
    (o : Opts) (k : Hashed × Val) (ks : List (Hashed × Val)) (wins : ℕ → Win) (ref : ℕ) (w : Win)
    (r : Run Puts)
    → IsPut o k.0 k.1 (wins (hash_win k.0.hash)) ref w
    → PutsResult o ks (update wins (hash_win k.0.hash) w) r
    → PutsResult o (k ∷ ks) wins (r >>= also (uid_for k.0 ref))
also-PutsResult o k ks wins ref w r put res = elim res [
  | inl (uids, wins', e, all, valid) ↦
      inl (uid_for k.0 ref ∷ uids, wins', rw e refl, (ref, w, uids, refl, put, all), valid)
  | inr (e, full) ↦ inr (rw e refl, inr (ref, w, put, full))
]

module _ (o : Opts) (vfs : Vfs) (n rounds : ℕ) (variable : o.is_fixed_key_val_len ≡ false)
    (roomy : Roomy o vfs n) (enough : tabs_per_win ≤ rounds) where
  put_all-PutsResult :
      (ks : List (Hashed × Val)) (m : ℕ) (wins : ℕ → Win)
      → AllFit o ks
      → m + all_needed o ks ≤ n
      → ((i : ℕ) → WinValid o (wins i))
      → ((i : ℕ) → Within m (wins i))
      → PutsResult o ks wins (put_all o vfs rounds ks wins)
  unfolding put_all
  put_all-PutsResult [] m wins fit room valid within = inl ([], wins, refl, (refl, refl), valid)
  put_all-PutsResult (k ∷ ks) m wins (fit, fits) room valid within =
      let i = hash_win k.0.hash in
      let m' = m + data_needed o (length k.0.key) (val_len k.1) in
      let here = valid i in
      elim (put_key_val-PutWithin o vfs k.0 k.1 m m' variable fit
        (Roomy-le o vfs n m' roomy (omega (arith, room))) (omega arith) rounds (wins i) here
        (within i) (omega (arith, here.some_tab, enough))) [
          | inl (ref, w, e, valid', put, within') ↦ rw e (
              also-PutsResult o k ks wins ref w _ put (
                put_all-PutsResult ks m' (update wins i w) fits (omega (arith, room))
                  (update-all (WinValid o) wins i w valid valid')
                  (update-all (Within m') wins i w (λ j tab l. omega (arith, within j tab l))
                    within')))
          | inr (e, full) ↦ inr (rw e refl, inl full)
        ]

-- How shf_q_new() ends: with the keys put and the queues made, or with a failed assertion, because a
-- row is full with all tabs in use or a key got the UID that is SHF_UID_NONE.
abbrev pub Creates :
    Opts → List (Hashed × Val) → (ℕ → Win) → ℕ → ℕ → Run (Option (Q × (ℕ → Win))) → Type 0
Creates o ks wins qs q_items r =
    ((uids : List ℕ) × (wins' : ℕ → Win) × (q' : Q) × (r ≡ ok (some (q', wins')))
      × AllPut o ks wins uids wins'
      × (all_put uids ≡ true)
      × ((i : ℕ) → WinValid o (wins' i))
      × Made qs q_items q')
    ⊎ ((r ≡ abort)
        × (SomeFull o ks wins
            ⊎ ((uids : List ℕ) × (wins' : ℕ → Win) × AllPut o ks wins uids wins'
                × (all_put uids ≡ false))))

after-Creates :
    (o : Opts) (ks : List (Hashed × Val)) (wins : ℕ → Win) (q : Q) (r : Run Puts)
    → Returns (Made q.qs q.q_items) (set_up q)
    → PutsResult o ks wins r
    → Creates o ks wins q.qs q.q_items (r >>= after_puts q)
after-Creates o ks wins q r (q', e', made) res = elim res [
  | inr (e, full) ↦ inr (rw e refl, inl full)
  | inl (uids, wins', e, all, valid) ↦ elim (Bool-cases (all_put uids)) [
    | inl t ↦ inl (uids, wins', q', rw (e, t, e') refl, all, t, valid, made)
    | inr f ↦ inr (rw (e, f) refl, inr (uids, wins', all, f))
  ]
]

small-LensFit :
    (o : Opts) (key_len value_len : ℕ)
    → o.is_fixed_key_val_len ≡ false
    → key_len < 2 ^ 32
    → value_len < 2 ^ 32
    → LensFit o key_len value_len
small-LensFit o key_len value_len variable lt lt' = record {
  fixed = λ e. absurd (ground arith);
  key_small = lt;
  val_small = lt';
}

new_keys-AllFit :
    (make_hash : List ℕ → ℕ) (lock_size : ℕ) (o : Opts) (q : Q)
    → o.is_fixed_key_val_len ≡ false
    → lock_size < 2 ^ 32
    → AllFit o (new_keys make_hash lock_size q)
new_keys-AllFit make_hash lock_size o q variable small = (
  small-LensFit o _ _ variable (omega arith) (omega arith),
  (
    small-LensFit o _ _ variable (omega arith) (omega arith),
    (
      small-LensFit o _ _ variable (omega arith) (omega arith),
      (
        small-LensFit o _ _ variable (omega arith) (omega arith),
        (
          small-LensFit o _ _ variable (omega arith) (omega arith),
          (
            small-LensFit o _ _ variable (omega arith) (omega arith),
            (
              small-LensFit o _ _ variable (omega arith) small,
              (small-LensFit o _ _ variable (omega arith) (omega arith), tt),
            ),
          ),
        ),
      ),
    ),
  ),
)

assert-Creates :
    (o : Opts) (ks : List (Hashed × Val)) (wins : ℕ → Win) (qs q_items : ℕ) (b : Bool)
    (m : Run (Option (Q × (ℕ → Win))))
    → b ≡ true
    → Creates o ks wins qs q_items m
    → Creates o ks wins qs q_items (assert b >> m)
assert-Creates o ks wins qs q_items b m e h = rw e h

module _ (make_hash : List ℕ → ℕ) (lock_size : ℕ) (o : Opts) (vfs : Vfs) (m n rounds : ℕ)
    (wins : ℕ → Win) (q : Q) (qs q_items q_item_size qids_nolock_max : ℕ) where
  abbrev the_q : Q
  the_q = record q {
    qs = qs;
    q_items = q_items;
    q_item_size = q_item_size;
    qids_nolock_max = qids_nolock_max;
  }

  abbrev ks : List (Hashed × Val)
  ks = new_keys make_hash lock_size the_q

  -- If no queues were made before, there are more than 2 queues and more than 1 item, at least 1 and
  -- fewer than `q_items` items are moved without the lock, items have at least 9 bytes, and
  -- the arrays and the lock take fewer than 2 ^ 32 bytes each; if lengths are stored with keys and
  -- values, the windows are well formed with tabs of at most `m` bytes, the file system has space for a
  -- tab of `n` bytes, `n` has space for the records of the keys, and a put may take 2048 rounds:
  -- shf_q_new() ends. Either it has put its eight keys, one after the other, none at SHF_UID_NONE,
  -- the windows are well formed, queue 0 is the sequence of all items by number, and every other
  -- queue is empty; or an assertion fails, because all tabs of a key's window are in use and the row is
  -- full, or because a key was put at the UID that is SHF_UID_NONE.
  pub new-Creates :
      q.q_is_ready ≡ false
      → 2 < qs
      → qs * 12 < 2 ^ 32
      → 1 < q_items
      → q_items * 8 < 2 ^ 32
      → q_items * q_item_size < 2 ^ 32
      → 1 ≤ qids_nolock_max
      → qids_nolock_max < q_items
      → 9 ≤ q_item_size
      → lock_size < 2 ^ 32
      → o.is_fixed_key_val_len ≡ false
      → Roomy o vfs n
      → m + all_needed o ks ≤ n
      → tabs_per_win ≤ rounds
      → ((i : ℕ) → WinValid o (wins i))
      → ((i : ℕ) → Within m (wins i))
      → Creates o ks wins qs q_items
          (new make_hash lock_size o vfs rounds qs q_items q_item_size qids_nolock_max wins q)
  unfolding new
  new-Creates idle two few items small space most fewer big lock variable roomy room enough valid
        within =
      let idle' : not q.q_is_ready ≡ true = rw idle refl in
      let done =
        after-Creates o ks wins the_q (put_all o vfs rounds ks wins)
          (set_up-Made the_q two few items small space most big)
          (put_all-PutsResult o vfs n rounds variable roomy enough ks m wins
            (new_keys-AllFit make_hash lock_size o the_q variable lock) room valid within) in
      assert-Creates o ks wins qs q_items (not q.q_is_ready) _ idle' (
        assert-Creates o ks wins qs q_items (ltb 2 qs) _ (ground arith) (
          assert-Creates o ks wins qs q_items (ltb 1 q_items) _ (ground arith) (
            assert-Creates o ks wins qs q_items (ltb 0 qids_nolock_max) _ (ground arith) (
              assert-Creates o ks wins qs q_items (ltb qids_nolock_max q_items) _ (ground arith)
                done))))
