-- ===== src/Process/Detach.antt =====
-- The counts that shf_detach() asserts.
use sharedhashfile.Prelude.{
  ℕ, ◌+◌, ◌^◌, ◌≤◌, ◌<◌, ◌≡◌, ◌≢◌, ◌⊎◌, inl, inr, refl, Bool, true, false, some, ◌==◌,
  if◌then◌else◌, Bool-cases, arith, sym, ap, ◌∙◌, ok, abort, Returns,
}
use sharedhashfile.Prelude.Family.{update}
use sharedhashfile.Prelude.Sum.{total, total₂, total₂-change, total₂-zero, total-same, total-prefix}
use sharedhashfile.Layout.{wins_per_shf, tabs_per_win, u32}
use sharedhashfile.Process.{Disk, Mapping, View, unmapped}
use sharedhashfile.Process.Fresh.{Good, Linked}
use sharedhashfile.Process.Counts.{counted, Uses-counted}
use sharedhashfile.Process.Life.{
  Shf, new_shf, attach_existing, q_alloc, q_del, detach, freed, munmap_wins, view_of, with_view,
  Uses, Lives, attached, uses, sets_up, parted,
}
use sharedhashfile.Process.Unmap.{live, Sized, munmap_wins_lem, live_bound}

-- What holds of a process that attached.
record Inv (used : ℕ → ℕ) (s : Shf) : Type 0 where
  few : (win : ℕ) → used win ≤ tabs_per_win
  sized : (win tab : ℕ) → Sized (s.tabs win tab)
  unused : (win tab : ℕ) → used win ≤ tab → (s.tabs win tab).is_mapped ≡ false
  mmaps : s.count_mmap ≡ total₂ wins_per_shf tabs_per_win (λ win tab. live (s.tabs win tab)) + 1
  path : s.path ≡ true
  name : s.name ≡ true
  both : s.qids_nolock_push ≡ s.qids_nolock_pull
  ready : s.q_is_ready ≡ s.qids_nolock_push
  allocs : s.count_xalloc ≡ (if s.qids_nolock_push then 4 else 2)

attached-Inv :
    (opened : Bool) (used : ℕ → ℕ) (s : Shf)
    → ((win : ℕ) → used win ≤ tabs_per_win)
    → attach_existing opened ≡ some s
    → Inv used s
unfolding attach_existing
attached-Inv false used s few e = absurd cc
attached-Inv true used s few e =
    let same : new_shf ≡ s = cc in
    rw (← same) (record {
      few = few;
      sized = λ win tab. inr (refl, refl);
      unused = λ win tab l. refl;
      mmaps = omega (
        arith,
        total₂-zero wins_per_shf tabs_per_win (λ win tab. live unmapped) (λ a b l l'. refl),
      );
      path = refl;
      name = refl;
      both = refl;
      ready = refl;
      allocs = refl;
    })

update-other :
    (f : ℕ → ℕ → Mapping) (win tab : ℕ) (m : Mapping) (a b : ℕ)
    → (win ≢ a) ⊎ (tab ≢ b)
    → update f win (update (f win) tab m) a b ≡ f a b
update-other f win tab m a b ne = ground arith

update-same :
    (f : ℕ → ℕ → Mapping) (win tab : ℕ) (m : Mapping)
    → update f win (update (f win) tab m) win tab ≡ m
update-same f win tab m = ground arith

same_tab : (win tab a b : ℕ) → ((win ≡ a) × (tab ≡ b)) ⊎ ((win ≢ a) ⊎ (tab ≢ b))
same_tab win tab a b = ground arith

module _ (used : ℕ → ℕ) (s : Shf) (win tab : ℕ) (v : View) (inv : Inv used s)
    (lt : win < wins_per_shf) (in_use : tab < used win) (mapped : v.map.is_mapped ≡ true)
    (page : 4096 ≤ v.map.tab_size)
    (count : v.count_mmap ≡ counted (s.tabs win tab) s.count_mmap) where
  abbrev s' : Shf
  s' = with_view s win tab v

  mmaps' : s'.count_mmap ≡ total₂ wins_per_shf tabs_per_win (λ a b. live (s'.tabs a b)) + 1
  mmaps' =
      let changed =
        total₂-change wins_per_shf tabs_per_win (λ a b. live (s'.tabs a b))
          (λ a b. live (s.tabs a b)) win tab lt (omega (arith, in_use, inv.few win))
          (λ a b ne. ap live (update-other s.tabs win tab v.map a b ne)) in
      let now : live (s'.tabs win tab) ≡ 1 =
        ap live (update-same s.tabs win tab v.map) ∙ rw mapped refl in
      let bound = live_bound s.tabs in
      elim (Bool-cases (s.tabs win tab).is_mapped) [
        | inl e ↦
            let was : live (s.tabs win tab) ≡ 1 = rw e refl in
            let same : v.count_mmap ≡ s.count_mmap = count ∙ rw e refl in
            omega (arith, changed, now, was, same, inv.mmaps)
        | inr e ↦
            let was : live (s.tabs win tab) ≡ 0 = rw e refl in
            let more : v.count_mmap ≡ u32 (s.count_mmap + 1) = count ∙ rw e refl in
            omega (arith, changed, now, was, more, inv.mmaps, bound)
      ]

  uses-Inv : Inv used s'
  uses-Inv = record {
    few = inv.few;
    sized = λ a b. elim (same_tab win tab a b) [
      | inl (p, q) ↦ rw (← p, ← q, update-same s.tabs win tab v.map) (inl (mapped, page))
      | inr ne ↦ rw (update-other s.tabs win tab v.map a b ne) (inv.sized a b)
    ];
    unused = λ a b l. elim (same_tab win tab a b) [
      | inl (p, q) ↦ absurd (ground (arith, in_use, l, p, q))
      | inr ne ↦ rw (update-other s.tabs win tab v.map a b ne) (inv.unused a b l)
    ];
    mmaps = mmaps';
    path = inv.path;
    name = inv.name;
    both = inv.both;
    ready = inv.ready;
    allocs = inv.allocs;
  }

counts_small : (used : ℕ → ℕ) (s : Shf) → Inv used s → s.count_mmap < 2 ^ 32
counts_small used s inv = omega (arith, inv.mmaps, live_bound s.tabs)

used_tab-Inv :
    (used : ℕ → ℕ) (s : Shf) (win tab : ℕ) (d : Disk) (v : View)
    → Inv used s
    → win < wins_per_shf
    → tab < used win
    → Good d
    → Linked d (s.tabs win tab)
    → Uses (view_of s win tab d) v
    → Inv used (with_view s win tab v)
used_tab-Inv used s win tab d v inv lt in_use good linked u =
    let (mapped, page, count) =
      Uses-counted (view_of s win tab d) v good linked (counts_small used s inv) u in
    uses-Inv used s win tab v inv lt in_use mapped page count

sets_up-Inv :
    (used : ℕ → ℕ) (s : Shf) → Inv used s → s.qids_nolock_push ≡ false → Inv used (q_alloc s)
unfolding q_alloc
sets_up-Inv used s inv no_push = record {
  few = inv.few;
  sized = inv.sized;
  unused = inv.unused;
  mmaps = inv.mmaps;
  path = inv.path;
  name = inv.name;
  both = refl;
  ready = refl;
  allocs = let two : s.count_xalloc ≡ 2 = rw no_push at (inv.allocs) in omega (arith, two);
}

parted-Inv :
    (used : ℕ → ℕ) (s : Shf) (win : ℕ)
    → Inv used s
    → used win < tabs_per_win
    → Inv (update used win (used win + 1)) s
parted-Inv used s win inv lt = record {
  few = λ a. ground (arith, inv.few a);
  sized = inv.sized;
  unused = λ a b l. inv.unused a b (ground arith);
  mmaps = inv.mmaps;
  path = inv.path;
  name = inv.name;
  both = inv.both;
  ready = inv.ready;
  allocs = inv.allocs;
}

Lives-Inv : {used : ℕ → ℕ} {s : Shf} → Lives used s → Inv used s
Lives-Inv (attached {s} opened used few e) = attached-Inv opened used s few e
Lives-Inv (uses {used} {s} win tab d {v} l lt in_use good linked u) =
    used_tab-Inv used s win tab d v (Lives-Inv l) lt in_use good linked u
Lives-Inv (sets_up {used} {s} l e) = sets_up-Inv used s (Lives-Inv l) e
Lives-Inv (parted {used} {s} win l lt) = parted-Inv used s win (Lives-Inv l) lt

-- shf_detach() unmaps what is mapped.
unmaps :
    (used : ℕ → ℕ) (s : Shf)
    → Inv used s
    → (c : ℕ) × (munmap_wins used s.tabs wins_per_shf 0 ≡ ok c) × (u32 (c + 1) ≡ s.count_mmap)
unfolding total₂
unmaps used s inv =
    let same =
      total-same wins_per_shf (λ win. total (used win) (λ tab. live (s.tabs win tab)))
        (λ win. total tabs_per_win (λ tab. live (s.tabs win tab)))
        (λ win l.
          total-prefix (used win) tabs_per_win (λ tab. live (s.tabs win tab)) (inv.few win)
            (λ tab l'. rw (inv.unused win tab l') refl)) in
    let bound = live_bound s.tabs in
    (
      0 + total wins_per_shf (λ win. total (used win) (λ tab. live (s.tabs win tab))),
      munmap_wins_lem used s.tabs wins_per_shf 0 inv.sized (omega (arith, same, bound)),
      omega (arith, same, bound, inv.mmaps),
    )

-- A process attached, looked at tabs, appended to them and shrank them, in any order and in
-- any state of the files that processes leave, set up the queues at most once, and windows got more tabs: then shf_detach() ends with
-- as many munmap() as mmap(), and as many free() as allocations, as it asserts.
pub detach-Lives : {used : ℕ → ℕ} {s : Shf} → Lives used s → detach used s ≡ ok tt
unfolding detach
detach-Lives {used} {s} l =
    let inv = Lives-Inv l in
    let (c, e, same) = unmaps used s inv in
    let equal : (u32 (c + 1) == s.count_mmap) ≡ true = ground arith in
    elim (Bool-cases s.qids_nolock_push) [
      | inl p ↦
          let four : s.count_xalloc ≡ 4 = rw p at (inv.allocs) in
          rw (e, equal, ← inv.both, p, inv.path, inv.name, four) refl
      | inr p ↦
          let two : s.count_xalloc ≡ 2 = rw p at (inv.allocs) in
          rw (e, equal, ← inv.both, p, inv.path, inv.name, two) refl
    ]

-- Likewise up to shf_q_del(), where the queues were set up: that returns, but shf_detach() after it does not.
-- The pointers to the freed lists are not reset, so shf_detach() frees them again, and counts fewer allocations than it frees.
pub detach-q_del :
    {used : ℕ → ℕ} {s : Shf}
    → Lives used s
    → s.q_is_ready ≡ true
    → Returns (λ s'. detach used s' ≡ abort) (q_del s)
unfolding q_del detach
detach-q_del {used} {s} l ready =
    let inv = Lives-Inv l in
    let (c, e, same) = unmaps used s inv in
    let equal : (u32 (c + 1) == s.count_mmap) ≡ true = ground arith in
    let push : s.qids_nolock_push ≡ true = sym inv.ready ∙ ready in
    let four : s.count_xalloc ≡ 4 = rw push at (inv.allocs) in
    (
      record s {
        q_is_ready = false;
        count_xalloc = freed s.qids_nolock_pull (freed s.qids_nolock_push s.count_xalloc);
      },
      rw ready refl,
      rw (e, equal, ← inv.both, push, inv.path, inv.name, four) refl,
    )
