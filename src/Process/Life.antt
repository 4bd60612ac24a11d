-- ===== src/Process/Life.antt =====
-- shf_attach_existing(), shf_detach() and what shf_q_new(), shf_q_get() and shf_q_del() allocate and free: the counts of
-- mappings and allocations of one process.
use sharedhashfile.Prelude.{
  ℕ, zero, suc, ◌+◌, ◌-◌, ◌^◌, ◌≤◌, ◌<◌, ◌≡◌, Bool, true, false, Option, none, some, List, leb,
  ◌==◌, if◌then◌else◌, Run, ok, assert, ◌>>=◌, ◌>>◌,
}
use sharedhashfile.Prelude.Family.{update}
use sharedhashfile.Layout.{data_offset, size_page, wins_per_shf, tabs_per_win, u32, sub32, mod_page}
use sharedhashfile.Process.{
  Disk, Mapping, View, get_tab_mmap, grow_file, shrink_file, Small, unmapped,
}
use sharedhashfile.Process.Fresh.{Good, Linked}

-- SHF: the mappings of tabs; which of its pointers to allocations are not NULL; and the counts.
pub record Shf : Type 0 where
  pub tabs : ℕ → ℕ → Mapping
  pub qids_nolock_push : Bool
  pub qids_nolock_pull : Bool
  pub path : Bool
  pub name : Bool
  pub q_is_ready : Bool
  pub count_mmap : ℕ
  pub count_xalloc : ℕ

-- `*shf` as shf_attach_existing() returns it.
abbrev pub new_shf : Shf
new_shf = record {
  tabs = λ win tab. unmapped;
  qids_nolock_push = false;
  qids_nolock_pull = false;
  path = true;
  name = true;
  q_is_ready = false;
  count_mmap = 1;
  count_xalloc = 2;
}

-- shf_attach_existing(): NULL unless open() succeeds; the other calls do.
unfoldable pub attach_existing : Bool → Option Shf
attach_existing false = none
attach_existing true = some new_shf

-- The memory that shf_q_new() and shf_q_get() allocate.
unfoldable pub q_alloc : Shf → Shf
q_alloc s = record s {
  qids_nolock_push = true;
  qids_nolock_pull = true;
  q_is_ready = true;
  count_xalloc = u32 (u32 (s.count_xalloc + 1) + 1);
}

-- `if (pointer) { free(pointer); shf->count_xalloc --; }`
abbrev pub freed : Bool → ℕ → ℕ
freed pointer count = if pointer then sub32 count 1 else count

-- shf_q_del(), where the keys are deleted. The pointers stay as they are.
unfoldable pub q_del : Shf → Run Shf
q_del s = do
  assert s.q_is_ready
  ok (record s {
    q_is_ready = false;
    count_xalloc = freed s.qids_nolock_pull (freed s.qids_nolock_push s.count_xalloc);
  })

-- shf_detach(): the loop over the tabs of a window, the first `n`, and over the first `n` windows.
unfoldable pub munmap_tabs : (ℕ → Mapping) → ℕ → ℕ → Run ℕ
munmap_tabs tabs zero count = ok count
munmap_tabs tabs (suc n) count = do
  c ← munmap_tabs tabs n count
  if leb size_page (tabs n).tab_size then (do assert (tabs n).is_mapped; ok (u32 (c + 1))) else ok c

unfoldable pub munmap_wins : (ℕ → ℕ) → (ℕ → ℕ → Mapping) → ℕ → ℕ → Run ℕ
munmap_wins tabs_used tabs zero count = ok count
munmap_wins tabs_used tabs (suc n) count = do
  c ← munmap_wins tabs_used tabs n count
  munmap_tabs (tabs n) (tabs_used n) c

-- `if (pointer) { free(pointer); count_free ++; }`
abbrev pub also_freed : Bool → ℕ → ℕ
also_freed pointer count = if pointer then u32 (count + 1) else count

-- shf_detach(), without the log; `tabs_used` is in the memory that processes share.
unfoldable pub detach : (ℕ → ℕ) → Shf → Run (Unit {0})
detach tabs_used s =
    let count_xalloc = freed s.qids_nolock_pull (freed s.qids_nolock_push s.count_xalloc) in
    do
      c ← munmap_wins tabs_used s.tabs wins_per_shf 0
      let count_free = also_freed s.name (also_freed s.path 0)
      assert (u32 (c + 1) == s.count_mmap)
      assert (count_free == count_xalloc)

abbrev pub view_of : Shf → ℕ → ℕ → Disk → View
view_of s win tab d = record { disk = d; map = s.tabs win tab; count_mmap = s.count_mmap }

abbrev pub with_view : Shf → ℕ → ℕ → View → Shf
with_view s win tab v = record s {
  tabs = update s.tabs win (update (s.tabs win) tab v.map);
  count_mmap = v.count_mmap;
}

-- What a process does to a tab.
pub data Uses (v v' : View) : Type 0 where
  looks : get_tab_mmap v ≡ ok v' → Uses v v'
  appends :
      (more : ℕ) (v₁ : View)
      → get_tab_mmap v ≡ ok v₁
      → (v₁.disk.file v₁.map.file).tab_size + more < 2 ^ 32 - 4096
      → grow_file more v₁ ≡ ok v'
      → Uses v v'
  shrinks :
      (growth : List ℕ)
      → Small (mod_page data_offset) growth
      → shrink_file growth v ≡ ok v'
      → Uses v v'

-- A process that attached uses tabs, in any state of their files; sets up the queues, once; and the tabs in use become more.
pub data Lives : (ℕ → ℕ) → Shf → Type 0 where
  attached :
      {s : Shf} (opened : Bool) (used : ℕ → ℕ)
      → ((win : ℕ) → used win ≤ tabs_per_win)
      → attach_existing opened ≡ some s
      → Lives used s
  uses :
      {used : ℕ → ℕ} {s : Shf} (win tab : ℕ) (d : Disk) {v : View}
      → Lives used s
      → win < wins_per_shf
      → tab < used win
      → Good d
      → Linked d (s.tabs win tab)
      → Uses (view_of s win tab d) v
      → Lives used (with_view s win tab v)
  sets_up :
      {used : ℕ → ℕ} {s : Shf} → Lives used s → s.qids_nolock_push ≡ false → Lives used (q_alloc s)
  parted :
      {used : ℕ → ℕ} {s : Shf} (win : ℕ)
      → Lives used s
      → used win < tabs_per_win
      → Lives (update used win (used win + 1)) s
