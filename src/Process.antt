-- ===== src/Process.antt =====
-- What a process keeps of a shared hash file, in src/shf.c: how it maps the files of tabs, which other
-- processes grow and replace.
pub mod Fresh
pub mod Access
pub mod Resize
pub mod Current
pub mod Life
pub mod Counts
pub mod Unmap
pub mod Detach
pub mod Backticks
pub mod Race
use sharedhashfile.Prelude.{
  ℕ, ◌+◌, ◌-◌, ◌^◌, ◌<◌, ◌≡◌, Bool, true, false, List, [], ◌∷◌, ltb, ◌==◌, if◌then◌else◌, Run, ok,
  assert, ◌>>=◌, ◌>>◌,
}
use sharedhashfile.Prelude.Family.{update}
use sharedhashfile.Layout.{data_offset, u32, sub32, mod_page}

-- A tab file: its length, and `tab_size` of the tab in it.
pub record File : Type 0 where
  pub len : ℕ
  pub tab_size : ℕ

-- The files that were created for one tab. The name of the tab's file leads to `current`; the others were
-- unlinked, and stay where they are mapped.
pub record Disk : Type 0 where
  pub current : ℕ
  pub made : ℕ
  pub file : ℕ → File

-- `tabs[win][tab]` of a process, SHF_OFF: `tab_mmap` is not 0, the file that it maps, and `tab_size`.
pub record Mapping : Type 0 where
  pub is_mapped : Bool
  pub file : ℕ
  pub tab_size : ℕ

-- A tab as a process sees it, with the process's `count_mmap`.
pub record View : Type 0 where
  pub disk : Disk
  pub map : Mapping
  pub count_mmap : ℕ

abbrev pub set_file : Disk → ℕ → File → Disk
set_file d f x = record d { file = update d.file f x }

-- `tab_mmap->tab_size = size` in a file
abbrev pub set_size : Disk → ℕ → ℕ → Disk
set_size d f size = set_file d f (record (d.file f) { tab_size = size })

-- SHF_GET_TAB_MMAP: "need to mmap() tab?"
unfoldable pub map_file : View → Run View
map_file v =
    let len = (v.disk.file v.disk.current).len in
    if v.map.is_mapped then ok v else (do
      assert (len == mod_page len)
      ok (record v {
        map = record { is_mapped = true; file = v.disk.current; tab_size = u32 len };
        count_mmap = u32 (v.count_mmap + 1);
      }))

-- SHF_GET_TAB_MMAP: the first process that maps the file sets its `tab_size`.
unfoldable pub init_size : View → View
init_size v =
    if (v.disk.file v.map.file).tab_size == 0
    then record v { disk = set_size v.disk v.map.file v.map.tab_size }
    else v

-- SHF_GET_TAB_MMAP: the file has grown, or a new one takes its place. Touching the last byte is fatal if
-- it is behind the end of the file.
unfoldable pub sync : View → Run View
sync v =
    let size = (v.disk.file v.map.file).tab_size in
    let len = (v.disk.file v.disk.current).len in
    if v.map.tab_size == size
    then ok v
    else if size == 1
    then (do
      assert (ltb (sub32 (u32 len) 1) len)
      ok (record v { map = record v.map { file = v.disk.current; tab_size = u32 len } }))
    else (do
      assert (ltb (sub32 size 1) (v.disk.file v.map.file).len)
      ok (record v { map = record v.map { tab_size = size } }))

-- SHF_GET_TAB_MMAP
unfoldable pub get_tab_mmap : View → Run View
get_tab_mmap v = do v₁ ← map_file v; sync (init_size v₁)

-- The part of SHF_TAB_APPEND that grows the file, by `more` bytes before rounding; whether the file system
-- has space for them is asked in `Tab.grow`.
unfoldable pub grow_file : ℕ → View → Run View
grow_file more v =
    let new_tab_size = mod_page ((v.disk.file v.map.file).tab_size + more) in
    do
      assert (ltb (new_tab_size - 1) new_tab_size)
      ok (record v {
        disk =
            set_file v.disk v.disk.current
              (record { len = new_tab_size; tab_size = u32 new_tab_size });
        map = record v.map { file = v.disk.current; tab_size = u32 new_tab_size };
      })

-- shf_tab_create() for a tab whose file was unlinked.
abbrev pub create : Disk → Disk
create d = record {
  current = d.made;
  made = d.made + 1;
  file = update d.file d.made (record { len = mod_page data_offset; tab_size = 0 });
}

unfoldable pub grow_all : List ℕ → View → Run View
grow_all [] v = ok v
grow_all (more ∷ rest) v = grow_file more v >>= grow_all rest

-- The files and mappings in shf_tab_shrink(), where the records copied make the new file grow by
-- `growth`.
unfoldable pub shrink_file : List ℕ → View → Run View
shrink_file growth v = do
  v₁ ← get_tab_mmap v
  v₂ ← get_tab_mmap (record v₁ { disk = create v₁.disk; map = record v₁.map { is_mapped = false } })
  v₃ ← grow_all growth v₂
  ok (record v₃ { disk = set_size v₃.disk v₁.map.file 1; count_mmap = sub32 v₃.count_mmap 1 })

-- Processes at a tab, numbered; each runs these with the window's lock held.
pub record System : Type 0 where
  pub disk : Disk
  pub maps : ℕ → Mapping
  pub counts : ℕ → ℕ

abbrev pub view : System → ℕ → View
view s p = record { disk = s.disk; map = s.maps p; count_mmap = s.counts p }

abbrev pub seen : System → ℕ → View → System
seen s p v = record {
  disk = v.disk;
  maps = update s.maps p v.map;
  counts = update s.counts p v.count_mmap;
}

abbrev pub unmapped : Mapping
unmapped = record { is_mapped = false; file = 0; tab_size = 0 }

-- A file of `size` bytes that grows this way stays below 4 GB.
abbrev pub Small : ℕ → List ℕ → Type 0
Small size [] = Unit
Small size (more ∷ rest) = (size + more < 2 ^ 32 - 4096) × Small (mod_page (size + more)) rest

-- A process looks at the tab, appends to it, shrinks it, or ends; none lets a tab grow to 4 GB.
pub data Step (s : System) : System → Type 0 where
  access : (p : ℕ) {v : View} → get_tab_mmap (view s p) ≡ ok v → Step s (seen s p v)
  append :
      (p more : ℕ) {v₁ v : View}
      → get_tab_mmap (view s p) ≡ ok v₁
      → (v₁.disk.file v₁.map.file).tab_size + more < 2 ^ 32 - 4096
      → grow_file more v₁ ≡ ok v
      → Step s (seen s p v)
  shrink :
      (p : ℕ) (growth : List ℕ) {v : View}
      → Small (mod_page data_offset) growth
      → shrink_file growth (view s p) ≡ ok v
      → Step s (seen s p v)
  leave : (p : ℕ) → Step s (record s { maps = update s.maps p unmapped })

abbrev pub no_files : Disk
no_files = record { current = 0; made = 0; file = λ f. record { len = 0; tab_size = 0 } }

-- The tab's file was created, and no process maps it.
abbrev pub at_first : System
at_first = record { disk = create no_files; maps = λ p. unmapped; counts = λ p. 1 }

pub data Reach : System → Type 0 where
  start : Reach at_first
  later : {s t : System} → Reach s → Step s t → Reach t
