-- ===== src/Process/Access.antt =====
-- SHF_GET_TAB_MMAP maps the whole of the current file.
use sharedhashfile.Prelude.{
  ℕ, ◌+◌, ◌%◌, ◌^◌, ◌≤◌, ◌<◌, ◌≡◌, ◌≢◌, ◌⊎◌, inl, inr, refl, true, false, ltb, ◌==◌, Bool-cases,
  arith, sym, ◌∙◌, Returns,
}
use sharedhashfile.Layout.{u32, sub32, mod_page}
use sharedhashfile.Layout.Laws.{mod_page_bounds}
use sharedhashfile.Process.{View, set_size, map_file, init_size, sync, get_tab_mmap}
use sharedhashfile.Process.Fresh.{len_of, size_of, Good, Linked, Got, same_disk, Follows-current}

page_len : (len : ℕ) → len % 4096 ≡ 0 → 4096 ≤ len → len < 2 ^ 32 → mod_page len ≡ len
page_len len pages some_page small =
    omega (arith, mod_page_bounds len (omega arith) (omega arith), pages)

-- Behind "need to mmap() tab?", a replaced file is mapped, or the current one.
abbrev MapsFile : View → Type 0
MapsFile v₁ =
    (v₁.map.is_mapped ≡ true)
    × (4096 ≤ v₁.map.tab_size)
    × (((v₁.map.file ≢ v₁.disk.current)
          × ((v₁.disk.file v₁.map.file).tab_size ≡ 1)
          × (size_of v₁.disk ≡ len_of v₁.disk))
        ⊎ ((v₁.map.file ≡ v₁.disk.current)
            × ((size_of v₁.disk ≡ len_of v₁.disk) ⊎ (v₁.map.tab_size ≡ len_of v₁.disk))))

map_file-MapsFile :
    (v : View)
    → Good v.disk
    → Linked v.disk v.map
    → Returns (λ v₁. (v₁.disk ≡ v.disk) × MapsFile v₁) (map_file v)
unfolding map_file
map_file-MapsFile v good linked = elim (Bool-cases (v.map.is_mapped)) [
  | inl e ↦ elim (Bool-cases (v.map.file == v.disk.current)) [
    | inl same ↦
        (v, rw e refl, (refl, (e, linked.some_page e, inr (ground arith, inl (linked.full e)))))
    | inr other ↦
        let elsewhere : v.map.file ≢ v.disk.current = ground arith in
        (
          v,
          rw e refl,
          (refl, (e, linked.some_page e, inl (elsewhere, linked.old e elsewhere, linked.full e))),
        )
  ]
  | inr e ↦
      let whole : (len_of v.disk == mod_page (len_of v.disk)) ≡ true =
        ground (arith, page_len (len_of v.disk) good.pages good.some_page good.small) in
      (
        record v {
          map = record { is_mapped = true; file = v.disk.current; tab_size = u32 (len_of v.disk) };
          count_mmap = u32 (v.count_mmap + 1);
        },
        rw (e, whole) refl,
        (
          refl,
          (
            refl,
            omega (arith, good.some_page, good.small),
            inr (refl, inr (omega (arith, good.small))),
          ),
        ),
      )
]

module _ (v : View) (good : Good v.disk) (mapped : v.map.is_mapped ≡ true)
    (page : 4096 ≤ v.map.tab_size) where
  abbrev len : ℕ
  len = len_of v.disk

  sync-old :
      (v.disk.file v.map.file).tab_size ≡ 1
      → size_of v.disk ≡ len_of v.disk
      → Returns (Got v.disk) (sync (init_size v))
  unfolding sync init_size
  sync-old replaced full =
      let set : ((v.disk.file v.map.file).tab_size == 0) ≡ false = ground arith in
      let other : (v.map.tab_size == (v.disk.file v.map.file).tab_size) ≡ false = ground arith in
      let one : ((v.disk.file v.map.file).tab_size == 1) ≡ true = ground arith in
      let inside : ltb (sub32 (u32 len) 1) len ≡ true =
        ground (arith, good.some_page, good.small) in
      (
        record v { map = record v.map { file = v.disk.current; tab_size = u32 len } },
        rw (set, other, one, inside) refl,
        (
          (mapped, refl, omega (arith, good.small), full),
          same_disk v.disk good full,
          refl,
          refl,
          refl,
        ),
      )

  sync-current :
      v.map.file ≡ v.disk.current
      → size_of v.disk ≡ len_of v.disk
      → Returns (Got v.disk) (sync (init_size v))
  unfolding sync init_size
  sync-current at_current full = elim (Bool-cases (v.map.tab_size == size_of v.disk)) [
    | inl e ↦
        let set : (size_of v.disk == 0) ≡ false = ground (arith, good.some_page) in
        (
          v,
          rw (at_current, set, e) refl,
          ((mapped, at_current, ground arith, full), same_disk v.disk good full, refl, refl, refl),
        )
    | inr e ↦
        let set : (size_of v.disk == 0) ≡ false = ground (arith, good.some_page) in
        let one : (size_of v.disk == 1) ≡ false = ground (arith, good.some_page) in
        let inside : ltb (sub32 (size_of v.disk) 1) len ≡ true =
          ground (arith, good.some_page, good.small) in
        (
          record v { map = record v.map { tab_size = size_of v.disk } },
          rw (at_current, set, e, one, inside) refl,
          ((mapped, at_current, full, full), same_disk v.disk good full, refl, refl, refl),
        )
  ]

  sync-first :
      v.map.file ≡ v.disk.current
      → size_of v.disk ≡ 0
      → v.map.tab_size ≡ len_of v.disk
      → Returns (Got v.disk) (sync (init_size v))
  unfolding sync init_size
  sync-first at_current zero whole =
      let v' = record v { disk = set_size v.disk v.map.file v.map.tab_size } in
      let set : ((v.disk.file v.map.file).tab_size == 0) ≡ true =
        ground (arith, at_current, zero) in
      let whole' : size_of v'.disk ≡ len_of v'.disk = ground (arith, at_current, whole) in
      let same : (v.map.tab_size == (v'.disk.file v.map.file).tab_size) ≡ true = ground arith in
      let len' : len_of v'.disk ≡ len_of v.disk = ground (arith, at_current) in
      (
        v',
        rw (set, same) refl,
        (
          (mapped, at_current, whole ∙ sym len', whole'),
          Follows-current v.disk v'.disk
              (record {
                made = good.made;
                pages = rw len' (good.pages);
                some_page = rw len' (good.some_page);
                small = rw len' (good.small);
                size = inl whole';
              })
              whole' refl refl (λ f ne. ground (arith, at_current)),
          refl,
          refl,
          len',
        ),
      )

pub get_tab_mmap-Got :
    (v : View) → Good v.disk → Linked v.disk v.map → Returns (Got v.disk) (get_tab_mmap v)
unfolding get_tab_mmap
get_tab_mmap-Got v good linked =
    let (v₁, e, (same, (mapped, page, file))) = map_file-MapsFile v good linked in
    let good₁ : Good v₁.disk = rw same good in
    let (v', e', got) : Returns (Got v₁.disk) (sync (init_size v₁)) = elim file [
      | inl (_, replaced, full) ↦ sync-old v₁ good₁ mapped page replaced full
      | inr (at_current, inl full) ↦ sync-current v₁ good₁ mapped page at_current full
      | inr (at_current, inr whole) ↦ elim (good₁.size) [
        | inl full ↦ sync-current v₁ good₁ mapped page at_current full
        | inr zero ↦ sync-first v₁ good₁ mapped page at_current zero whole
      ]
    ] in
    (v', rw e e', rw same at got)
