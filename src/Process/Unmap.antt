-- ===== src/Process/Unmap.antt =====
-- The loops of shf_detach() count the tabs that are mapped.
use sharedhashfile.Prelude.{
  ℕ, zero, suc, ◌+◌, ◌^◌, ◌≤◌, ◌<◌, ◌≡◌, ◌⊎◌, inl, inr, refl, true, false, leb, if◌then◌else◌,
  arith, ap, ◌∙◌, ok,
}
use sharedhashfile.Prelude.Sum.{total, total₂, total-le, total-le-2048}
use sharedhashfile.Layout.{size_page, wins_per_shf, tabs_per_win}
use sharedhashfile.Process.{Mapping}
use sharedhashfile.Process.Life.{munmap_tabs, munmap_wins}

-- 1 for a tab that is mapped.
abbrev pub live : Mapping → ℕ
live m = if m.is_mapped then 1 else 0

-- A mapping has at least a page; no mapping has no size.
abbrev pub Sized : Mapping → Type 0
Sized m = ((m.is_mapped ≡ true) × (4096 ≤ m.tab_size)) ⊎ ((m.is_mapped ≡ false) × (m.tab_size ≡ 0))

munmap_tabs_lem :
    (tabs : ℕ → Mapping) (n count : ℕ)
    → ((tab : ℕ) → Sized (tabs tab))
    → count + total n (λ tab. live (tabs tab)) < 2 ^ 32
    → munmap_tabs tabs n count ≡ ok (count + total n (λ tab. live (tabs tab)))
unfolding munmap_tabs total
munmap_tabs_lem tabs zero count sized small = ground arith
munmap_tabs_lem tabs (suc n) count sized small = elim (sized n) [
  | inl (mapped, page) ↦
      let before = munmap_tabs_lem tabs n count sized (omega (arith, small)) in
      let big : leb size_page (tabs n).tab_size ≡ true = ground arith in
      let one : live (tabs n) ≡ 1 = rw mapped refl in
      rw (before, big, mapped) (ap ok (omega (arith, small, one)))
  | inr (mapped, none_there) ↦
      let before = munmap_tabs_lem tabs n count sized (omega (arith, small)) in
      rw (before, none_there, mapped) (ap ok (ground arith))
]

pub munmap_wins_lem :
    (used : ℕ → ℕ) (tabs : ℕ → ℕ → Mapping) (n count : ℕ)
    → ((win tab : ℕ) → Sized (tabs win tab))
    → count + total n (λ win. total (used win) (λ tab. live (tabs win tab))) < 2 ^ 32
    → munmap_wins used tabs n count
      ≡ ok (count + total n (λ win. total (used win) (λ tab. live (tabs win tab))))
unfolding munmap_wins total
munmap_wins_lem used tabs zero count sized small = ap ok (omega arith)
munmap_wins_lem used tabs (suc n) count sized small =
    let before = munmap_wins_lem used tabs n count sized (omega (arith, small)) in
    rw (before)
      (munmap_tabs_lem (tabs n) (used n) _ (sized n) (omega (arith, small)) ∙ ap ok (omega arith))

live-le : (m : Mapping) → live m ≤ 1
live-le m = ground arith

pub live_bound :
    (tabs : ℕ → ℕ → Mapping)
    → total₂ wins_per_shf tabs_per_win (λ win tab. live (tabs win tab)) ≤ 524288
unfolding total₂
live_bound tabs =
    total-le-2048 wins_per_shf _
      (λ win. total-le tabs_per_win (λ tab. live (tabs win tab)) (λ tab. live-le (tabs win tab)))
