-- ===== src/Find/Scan.antt =====
-- The search of a row in shf_find_key_internal() finds the first entry with the key.
use sharedhashfile.Prelude.{
  ℕ, zero, suc, ◌+◌, ◌≤◌, ◌<◌, ◌≡◌, ◌≢◌, ◌⊎◌, ◌↔◌, inl, inr, refl, ap, ◌∙◌, true, List, length, [],
  ◌∷◌, arith, Option, none, some, Bool-cases, Returns, ok, ◌==◌,
}
use sharedhashfile.Layout.{refs_per_row, u64, hash_tab2, hash_row, hash_rnd}
use sharedhashfile.Layout.Laws.{hash_in_range}
use sharedhashfile.Tab.{TabMmap, Opts, key_len_at, key_at}
use sharedhashfile.Tab.Slot.{slot_at, size_at, length-key_at}
use sharedhashfile.Tab.Valid.{Entry, IsValid, entry_at}
use sharedhashfile.Tab.Store.{entry_of-used, entry_of-unused}
use sharedhashfile.Win.{Win}
use sharedhashfile.Win.Valid.{of_tab2, at_uid, WinValid}
use sharedhashfile.Put.{Hashed}
use sharedhashfile.Find.{same_bytes, check_ref, find_ref, Misses}

pub same_bytes_iff : (as' bs : List ℕ) → (same_bytes as' bs ≡ true) ↔ (as' ≡ bs)
unfolding same_bytes
same_bytes_iff [] [] = ground arith
same_bytes_iff [] (b ∷ bs) = ground arith
same_bytes_iff (a ∷ as') [] = ground arith
same_bytes_iff (a ∷ as') (b ∷ bs) = ground (arith, same_bytes_iff as' bs)

-- The entry is for the hashed key.
abbrev pub IsKey : Hashed → Option Entry → Type 0
IsKey h none = ⊥
IsKey h (some e) = (e.rnd ≡ hash_rnd h.hash) × (e.slot.key ≡ h.key)

-- The key of the hash is not in the window.
abbrev pub Missing : Opts → Hashed → Win → Type 0
Missing o h w =
    (i : ℕ) → i < refs_per_row → ¬ IsKey h (at_uid o w (hash_tab2 h.hash) (hash_row h.hash) i)

-- The assertions hold for every used ref of a well-formed tab.
pub check_ref_lem :
    (o : Opts) (t : TabMmap) (r i : ℕ)
    → IsValid o t
    → (t.row r i).pos ≢ 0
    → check_ref o t r i ≡ ok tt
unfolding check_ref size_at
check_ref_lem o t r i valid live = ground (arith, valid.inside r i live, valid.fits, valid.sized)

pub at_uid-used :
    (o : Opts) (w : Win) (tab2 r i : ℕ)
    → ((w.tab_mmap (w.tabs tab2)).row r i).pos ≢ 0
    → at_uid o w tab2 r i
      ≡ of_tab2 tab2 (
          some (record {
            tab = ((w.tab_mmap (w.tabs tab2)).row r i).tab;
            rnd = ((w.tab_mmap (w.tabs tab2)).row r i).rnd;
            slot =
                slot_at o (w.tab_mmap (w.tabs tab2)).mem ((w.tab_mmap (w.tabs tab2)).row r i).pos;
          }))
unfolding at_uid entry_at
at_uid-used o w tab2 r i live = ap (of_tab2 tab2) (entry_of-used o _ _ live)

pub at_uid-unused :
    (o : Opts) (w : Win) (tab2 r i : ℕ)
    → ((w.tab_mmap (w.tabs tab2)).row r i).pos ≡ 0
    → at_uid o w tab2 r i ≡ none
unfolding at_uid entry_at
at_uid-unused o w tab2 r i e = ap (of_tab2 tab2) (entry_of-unused o _ _ e)

module _ (o : Opts) (h : Hashed) (w : Win) (valid : WinValid o w) where
  abbrev t : TabMmap
  t = w.tab_mmap (w.tabs (hash_tab2 h.hash))

  abbrev at : ℕ → Option Entry
  at i = at_uid o w (hash_tab2 h.hash) (hash_row h.hash) i

  -- The refs from `a` up to `b` stand for no entry with the key.
  abbrev pub NoKey : ℕ → ℕ → Type 0
  NoKey a b = (i : ℕ) → a ≤ i → i < b → ¬ IsKey h (at i)

  abbrev pub IsFirst : ℕ → ℕ → Option ℕ → Type 0
  IsFirst a b none = NoKey a b
  IsFirst a b (some j) = (a ≤ j) × (j < b) × IsKey h (at j) × NoKey a j

  t-IsValid : IsValid o t
  t-IsValid = valid.valid _ (valid.range _ (hash_in_range h.hash).1)

  extend : (a b : ℕ) (r : Option ℕ) → ¬ IsKey h (at a) → IsFirst (a + 1) b r → IsFirst a b r
  extend a b none other f = more
    where
      more : NoKey a b
      more i lo hi k = elim (Bool-cases (a == i)) [
        | inl e ↦ let same : a ≡ i = ground arith in other (rw same k)
        | inr e ↦ f i (ground arith) hi k
      ]
  extend a b (some j) other (lo, hi, k, f) = (omega arith, hi, k, more)
    where
      more : NoKey a j
      more i lo' hi' k' = elim (Bool-cases (a == i)) [
        | inl e ↦ let same : a ≡ i = ground arith in other (rw same k')
        | inr e ↦ f i (ground arith) hi' k'
      ]

  -- What one turn of the loop does.
  abbrev Turn : ℕ → ℕ → Misses → Type 0
  Turn n a s =
      ((s' : Misses) × (find_ref o h t (suc n) a s ≡ find_ref o h t n (a + 1) s')
        × ¬ IsKey h (at a))
      ⊎ ((find_ref o h t (suc n) a s ≡ ok (some a, s)) × IsKey h (at a))

  turn : (n a : ℕ) (s : Misses) → Turn n a s
  unfolding find_ref slot_at
  turn n a s =
      let x = t.row (hash_row h.hash) a in
      elim (Bool-cases (x.pos == 0)) [
        | inl e ↦
            let nothing = at_uid-unused o w (hash_tab2 h.hash) (hash_row h.hash) a (ground arith) in
            inl (s, rw e refl, rw nothing (λ k. k))
        | inr e ↦
            let live : x.pos ≢ 0 = ground arith in
            let there = at_uid-used o w (hash_tab2 h.hash) (hash_row h.hash) a live in
            let checked = check_ref_lem o t (hash_row h.hash) a t-IsValid live in
            elim (Bool-cases (x.rnd == hash_rnd h.hash)) [
              | inl e₁ ↦ elim (Bool-cases (x.tab == hash_tab2 h.hash)) [
                | inl e₂ ↦ elim (Bool-cases (key_len_at o t.mem x.pos == length h.key)) [
                  | inl e₃ ↦ elim (Bool-cases (same_bytes (key_at o t.mem x.pos) h.key)) [
                    | inl e₄ ↦ inr (
                      rw (e, e₁, e₂, checked, e₃, e₄) refl,
                      rw (there, e₂) (ground arith, (same_bytes_iff _ _).0 e₄),
                    )
                    | inr e₄ ↦ inl (
                      record s { memcmp_misses = u64 (s.memcmp_misses + 1) },
                      rw (e, e₁, e₂, checked, e₃, e₄) refl,
                      rw (there, e₂) (λ (_, k). absurd (ground (arith, (same_bytes_iff _ _).1 k))),
                    )
                  ]
                  | inr e₃ ↦ inl (
                    record s { keylen_misses = u64 (s.keylen_misses + 1) },
                    rw (e, e₁, e₂, checked, e₃) refl,
                    rw (there, e₂)
                        (λ (_, k).
                          absurd (ground (arith, length-key_at o t.mem x.pos, ap length k))),
                  )
                ]
                | inr e₂ ↦ inl (s, rw (e, e₁, e₂) refl, rw (there, e₂) (λ k. k))
              ]
              | inr e₁ ↦ inl (s, rw (e, e₁) refl, rw (there) (ground arith))
            ]
      ]

  pub find_ref-IsFirst :
      (n a b : ℕ) (s : Misses) → a + n ≡ b → Returns (λ x. IsFirst a b x.0) (find_ref o h t n a s)
  find_ref-IsFirst zero a b s e =
      unfold find_ref in ((none, s), refl, λ i lo hi. absurd (omega arith))
  find_ref-IsFirst (suc n) a b s e = elim (turn n a s) [
    | inl (s', eq, other) ↦
        let (x, eq', first) = find_ref-IsFirst n (a + 1) b s' (omega arith) in
        (x, eq ∙ eq', extend a b x.0 other first)
    | inr (eq, k) ↦
        ((some a, s), eq, (omega arith, omega arith, k, λ i lo hi. absurd (omega arith)))
  ]
