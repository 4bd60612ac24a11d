-- ===== src/Process/Resize.antt =====
-- Growing a tab's file and replacing it leave the whole of the current one mapped.
use sharedhashfile.Prelude.{
  ℕ, ◌+◌, ◌-◌, ◌^◌, ◌<◌, ltb, true, ◌≡◌, ◌≢◌, inl, inr, refl, false, List, [], ◌∷◌, ◌==◌,
  Bool-cases, arith, sym, ◌∙◌, Returns,
}
use sharedhashfile.Layout.{u32, data_offset, sub32, mod_page}
use sharedhashfile.Process.{
  Disk, View, set_file, set_size, grow_file, create, grow_all, shrink_file, Small,
}
use sharedhashfile.Layout.Laws.{mod_page_bounds}
use sharedhashfile.Process.Fresh.{
  len_of, size_of, Good, Linked, Follows, Whole, Got, same_disk, Follows-current,
}
use sharedhashfile.Process.Access.{get_tab_mmap-Got}

pub grow_file-Got :
    (v : View) (more : ℕ)
    → Good v.disk
    → Whole v
    → size_of v.disk + more < 2 ^ 32 - 4096
    → Returns
        (λ v'.
          Whole v'
          × Follows v.disk v'.disk
          × (v'.disk.current ≡ v.disk.current)
          × (v'.disk.made ≡ v.disk.made)
          × (len_of v'.disk ≡ mod_page (size_of v.disk + more)))
        (grow_file more v)
unfolding grow_file
grow_file-Got v more good (mapped, at_current, whole, full) small =
    let (lo, hi, pages) =
      mod_page_bounds (size_of v.disk + more) (omega (arith, full, good.some_page))
        (omega (arith, small)) in
    let new = mod_page (size_of v.disk + more) in
    let inside : ltb (new - 1) new ≡ true = ground (arith, lo, full, good.some_page) in
    let v' : View = record v {
      disk = set_file v.disk v.disk.current (record { len = new; tab_size = u32 new });
      map = record v.map { file = v.disk.current; tab_size = u32 new };
    } in
    let len' : len_of v'.disk ≡ new = ground arith in
    let size' : size_of v'.disk ≡ u32 new = ground arith in
    let fits : u32 new ≡ new = omega (arith, hi, small) in
    let full' : size_of v'.disk ≡ len_of v'.disk = size' ∙ fits ∙ sym len' in
    (
      v',
      rw (at_current, inside) refl,
      (
        (mapped, refl, fits ∙ sym len', full'),
        Follows-current v.disk v'.disk
            (record {
              made = good.made;
              pages = rw len' pages;
              some_page = omega (arith, len', lo, full, good.some_page);
              small = omega (arith, len', hi, small);
              size = inl full';
            })
            full' refl refl (λ f ne. ground arith),
        refl,
        refl,
        len',
      ),
    )

pub Follows-trans : (d d' d'' : Disk) → Follows d d' → Follows d' d'' → Follows d d''
Follows-trans d d' d'' one two = record {
  good = two.good;
  full = two.full;
  made = omega (arith, one.made, two.made);
  old = λ f lt ne was. two.old f (omega (arith, lt, one.made)) ne (λ ne'. one.old f lt ne' was);
}

-- A step of a process at the tab leaves the whole of the current file mapped.
abbrev pub Kept : Disk → View → Type 0
Kept d v' = Whole v' × Follows d v'.disk

abbrev Grown : Disk → View → Type 0
Grown d v' = Whole v' × Follows d v'.disk × (v'.disk.current ≡ d.current) × (v'.disk.made ≡ d.made)

grow_all-Grown :
    (v : View) (growth : List ℕ)
    → Good v.disk
    → Whole v
    → Small (size_of v.disk) growth
    → Returns (Grown v.disk) (grow_all growth v)
unfolding grow_all
grow_all-Grown v [] good (a, b, c, full) small =
    (v, refl, ((a, b, c, full), same_disk v.disk good full, refl, refl))
grow_all-Grown v (more ∷ rest) good whole (fits, small) =
    let (v₁, e, (whole₁, follows, cur, made, len)) = grow_file-Got v more good whole fits in
    let size : mod_page (size_of v.disk + more) ≡ size_of v₁.disk = sym (follows.full ∙ len) in
    let (v₂, e', (whole₂, follows', cur', made')) =
      grow_all-Grown v₁ rest follows.good whole₁ (rw size at small) in
    (
      v₂,
      rw e e',
      (whole₂, Follows-trans v.disk v₁.disk v₂.disk follows follows', cur' ∙ cur, made' ∙ made),
    )

new_len : mod_page data_offset ≡ 69632
unfolding mod_page
new_len = refl

pub create-Good : (d : Disk) → Good (create d)
create-Good d =
    let len : len_of (create d) ≡ 69632 = ground (arith, new_len) in
    record {
      made = omega arith;
      pages = rw len refl;
      some_page = omega (arith, len);
      small = omega (arith, len);
      size = inr (ground arith);
    }

-- The replaced file is marked, once the new one is complete.
replaced-Kept :
    (d d₁ : Disk) (v : View)
    → Follows d d₁
    → Whole v
    → Follows (create d₁) v.disk
    → v.disk.current ≡ d₁.made
    → Kept d (record v { disk = set_size v.disk d₁.current 1; count_mmap = sub32 v.count_mmap 1 })
replaced-Kept d d₁ v one (mapped, at_current, whole, full) two cur =
    let ne : d₁.current ≢ v.disk.current = omega (arith, one.good.made, cur) in
    let v' = record v { disk = set_size v.disk d₁.current 1; count_mmap = sub32 v.count_mmap 1 } in
    let len' : len_of v'.disk ≡ len_of v.disk = ground (arith, ne) in
    let size' : size_of v'.disk ≡ size_of v.disk = ground (arith, ne) in
    let full' : size_of v'.disk ≡ len_of v'.disk = size' ∙ full ∙ sym len' in
    (
      (mapped, at_current, whole ∙ sym len', full'),
      record {
        good = record {
          made = two.good.made;
          pages = rw len' (two.good.pages);
          some_page = rw len' (two.good.some_page);
          small = rw len' (two.good.small);
          size = inl full';
        };
        full = full';
        made = omega (arith, one.made, two.made);
        old = λ f lt ne was. elim (Bool-cases (d₁.current == f)) [
          | inl e ↦ rw e refl
          | inr e ↦
              let old₁ = one.old f lt (ground arith) was in
              rw e (
                two.old f (omega (arith, lt, one.made)) ne
                  (λ _. ground (arith, old₁, lt, one.made)))
        ];
      },
    )

shrunk :
    (d d₁ : Disk) (v₂ : View) (f : ℕ) (growth : List ℕ)
    → f ≡ d₁.current
    → Follows d d₁
    → Got (create d₁) v₂
    → Small (mod_page data_offset) growth
    → Returns
        (λ v₃.
          Kept d (record v₃ { disk = set_size v₃.disk f 1; count_mmap = sub32 v₃.count_mmap 1 }))
        (grow_all growth v₂)
shrunk d d₁ v₂ f growth same one (whole, two, cur, made, len) small =
    let size : mod_page data_offset ≡ size_of v₂.disk =
      new_len ∙ sym (two.full ∙ len ∙ ground (arith, new_len)) in
    let (v₃, e, (whole₃, three, cur₃, made₃)) =
      grow_all-Grown v₂ growth two.good whole (rw size at small) in
    (
      v₃,
      e,
      rw same (
          replaced-Kept d d₁ v₃ one whole₃ (Follows-trans (create d₁) v₂.disk v₃.disk two three)
            (cur₃ ∙ cur)),
    )

pub shrink_file-Kept :
    (v : View) (growth : List ℕ)
    → Good v.disk
    → Linked v.disk v.map
    → Small (mod_page data_offset) growth
    → Returns (Kept v.disk) (shrink_file growth v)
unfolding shrink_file
shrink_file-Kept v growth good linked small =
    let (v₁, e₁, ((_, at_current, _, _), follows, _, _, _)) = get_tab_mmap-Got v good linked in
    let new = record v₁ { disk = create v₁.disk; map = record v₁.map { is_mapped = false } } in
    let (v₂, e₂, got) =
      get_tab_mmap-Got new (create-Good v₁.disk)
        (record { made = λ e. cc; some_page = λ e. cc; old = λ e. cc; full = λ e. cc }) in
    let (v₃, e₃, kept) = shrunk v.disk v₁.disk v₂ v₁.map.file growth at_current follows got small in
    (
      record v₃ { disk = set_size v₃.disk v₁.map.file 1; count_mmap = sub32 v₃.count_mmap 1 },
      rw (e₁, e₂, e₃) refl,
      kept,
    )
