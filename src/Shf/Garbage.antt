-- ===== src/Shf/Garbage.antt =====
-- What shf_debug_get_garbage() adds up, and where it fails.
use sharedhashfile.Prelude.{
  ℕ, zero, suc, ◌+◌, ◌^◌, ◌≤◌, ◌<◌, ◌≡◌, ◌⊎◌, inl, inr, refl, ap, arith, Option, none, some,
  Option-cases, Run, ok, abort, Bool-cases, ◌==◌,
}
use sharedhashfile.Layout.{u64, wins_per_shf}
use sharedhashfile.Tab.{TabMmap}
use sharedhashfile.Shf.{Shf, garbage_of_tabs, garbage_of_wins, debug_get_garbage}

-- The sum of `n` elements of an array from `i` on.
abbrev pub sum_from : ℕ → ℕ → (ℕ → ℕ) → ℕ
sum_from zero i f = 0
sum_from (suc n) i f = f i + sum_from n (i + 1) f

-- The bytes marked as deleted in a tab that is mapped.
abbrev pub free_in : Option TabMmap → ℕ
free_in none = 0
free_in (some t) = t.tab_data_free

-- The bytes marked as deleted in a window, in the tabs that are mapped.
abbrev pub win_garbage : Shf → ℕ → ℕ
win_garbage shf win = sum_from (shf.wins win).tabs_used 0 (λ tab. free_in (shf.tabs win tab))

-- A tab that is not mapped, of `n` from `tab` on.
abbrev pub Unmapped : ℕ → ℕ → (ℕ → Option TabMmap) → Type 0
Unmapped n tab tabs = (t : ℕ) × (tab ≤ t) × (t < tab + n) × (tabs t ≡ none)

abbrev pub Mapped : ℕ → ℕ → (ℕ → Option TabMmap) → Type 0
Mapped n tab tabs = (t : ℕ) → tab ≤ t → t < tab + n → (x : TabMmap) × (tabs t ≡ some x)

garbage_of_tabs-sum_from :
    (n tab : ℕ) (tabs : ℕ → Option TabMmap) (all : ℕ)
    → all + sum_from n tab (λ t. free_in (tabs t)) < 2 ^ 64
    → (Mapped n tab tabs
        × (garbage_of_tabs n tab tabs all ≡ ok (all + sum_from n tab (λ t. free_in (tabs t)))))
      ⊎ (Unmapped n tab tabs × (garbage_of_tabs n tab tabs all ≡ abort))
unfolding garbage_of_tabs
garbage_of_tabs-sum_from zero tab tabs all small =
    inl ((λ t lo hi. absurd (omega arith)), ap ok (omega arith))
garbage_of_tabs-sum_from (suc n) tab tabs all small = elim (Option-cases (tabs tab)) [
  | inl e ↦ inr ((tab, omega arith, omega arith, e), rw e refl)
  | inr (x, e) ↦
      let small' : all + (x.tab_data_free + sum_from n (tab + 1) (λ t. free_in (tabs t))) < 2 ^ 64 =
        rw e at small in
      let fits : u64 (all + x.tab_data_free) ≡ all + x.tab_data_free = omega (arith, small') in
      elim (garbage_of_tabs-sum_from n (tab + 1) tabs (all + x.tab_data_free)
        (omega (arith, small'))) [
          | inl (mapped, r) ↦ inl (
            (λ t lo hi. elim (Bool-cases (tab == t)) [
              | inl eq ↦ let same : tab ≡ t = ground arith in (x, rw same at e)
              | inr ne ↦ mapped t (ground arith) (omega (arith, hi))
            ]),
            rw (e, fits, r) (ap ok (omega arith)),
          )
          | inr ((t, lo, hi, gone), r) ↦
              inr ((t, omega (arith, lo), omega (arith, hi), gone), rw (e, fits, r) refl)
        ]
]

-- A window, of `n` from `win` on, with a tab in use that the process does not map.
abbrev pub SomeUnmapped : ℕ → ℕ → Shf → Type 0
SomeUnmapped n win shf =
    (w : ℕ) × (win ≤ w) × (w < win + n) × Unmapped (shf.wins w).tabs_used 0 (shf.tabs w)

abbrev pub AllMapped : ℕ → ℕ → Shf → Type 0
AllMapped n win shf = (w : ℕ) → win ≤ w → w < win + n → Mapped (shf.wins w).tabs_used 0 (shf.tabs w)

-- The loop over windows: the sum, or a failure.
abbrev pub Adds : ℕ → ℕ → Shf → ℕ → Run ℕ → Type 0
Adds n win shf all r =
    (AllMapped n win shf × (r ≡ ok (all + sum_from n win (win_garbage shf))))
    ⊎ (SomeUnmapped n win shf × (r ≡ abort))

garbage_of_wins-Adds :
    (n win : ℕ) (shf : Shf) (all : ℕ)
    → all + sum_from n win (win_garbage shf) < 2 ^ 64
    → Adds n win shf all (garbage_of_wins n win shf all)
unfolding garbage_of_wins
garbage_of_wins-Adds zero win shf all small =
    inl ((λ w lo hi. absurd (omega arith)), ap ok (omega arith))
garbage_of_wins-Adds (suc n) win shf all small =
    elim (garbage_of_tabs-sum_from (shf.wins win).tabs_used 0 (shf.tabs win) all
      (omega (arith, small))) [
        | inr (gone, r) ↦ inr ((win, omega arith, omega arith, gone), rw r refl)
        | inl (mapped, r) ↦
            elim (garbage_of_wins-Adds n (win + 1) shf (all + win_garbage shf win)
              (omega (arith, small))) [
                | inl (rest, r') ↦ inl (
                  (λ w lo hi. elim (Bool-cases (win == w)) [
                    | inl eq ↦ let same : win ≡ w = ground arith in rw same at mapped
                    | inr ne ↦ rest w (ground arith) (omega (arith, hi))
                  ]),
                  rw (r, r') (ap ok (omega arith)),
                )
                | inr ((w, lo, hi, gone), r') ↦
                    inr ((w, omega (arith, lo), omega (arith, hi), gone), rw (r, r') refl)
              ]
      ]

-- If the bytes marked as deleted, in the tabs that the process maps, are fewer than 2 ^ 64 in all: where the
-- process maps every tab in use, shf_debug_get_garbage() returns the sum, over all windows and over their
-- tabs in use, of the bytes marked as deleted; else it reads through a NULL pointer.
pub debug_get_garbage-Adds :
    (shf : Shf)
    → sum_from wins_per_shf 0 (win_garbage shf) < 2 ^ 64
    → Adds wins_per_shf 0 shf 0 (debug_get_garbage shf)
unfolding debug_get_garbage
debug_get_garbage-Adds shf small = garbage_of_wins-Adds wins_per_shf 0 shf 0 (omega (arith, small))
