-- ===== src/Process/Counts.antt =====
-- How using a tab changes `count_mmap`.
use sharedhashfile.Prelude.{
  ℕ, ◌+◌, ◌^◌, ◌≤◌, ◌<◌, ◌≡◌, true, List, [], ◌∷◌, if◌then◌else◌, arith, ap, ◌∙◌, ok, bind-ok,
}
use sharedhashfile.Layout.{u32, sub32}
use sharedhashfile.Process.{
  Disk, Mapping, View, get_tab_mmap, map_file, init_size, sync, grow_file, grow_all, shrink_file,
}
use sharedhashfile.Process.Fresh.{Good, Linked, Follows, Whole}
use sharedhashfile.Process.Access.{get_tab_mmap-Got}
use sharedhashfile.Process.Resize.{grow_file-Got, shrink_file-Kept}
use sharedhashfile.Process.Current.{left_by}
use sharedhashfile.Process.Life.{Uses, looks, appends, shrinks}

-- How using a tab counts: one more if it was not mapped.
abbrev pub counted : Mapping → ℕ → ℕ
counted m count = if m.is_mapped then count else u32 (count + 1)

map_file-counted : (v v' : View) → map_file v ≡ ok v' → v'.count_mmap ≡ counted v.map v.count_mmap
unfolding map_file
map_file-counted v v' e = ground arith

init_size-counted : (v : View) → (init_size v).count_mmap ≡ v.count_mmap
unfolding init_size
init_size-counted v = ground arith

sync-counted : (v v' : View) → sync v ≡ ok v' → v'.count_mmap ≡ v.count_mmap
unfolding sync
sync-counted v v' e = ground arith

get_tab_mmap-counted :
    (v v' : View) → get_tab_mmap v ≡ ok v' → v'.count_mmap ≡ counted v.map v.count_mmap
unfolding get_tab_mmap
get_tab_mmap-counted v v' e =
    let (v₁, e₁, e₂) = bind-ok (map_file v) (λ v₁. sync (init_size v₁)) v' e in
    sync-counted (init_size v₁) v' e₂ ∙ init_size-counted v₁ ∙ map_file-counted v v₁ e₁

grow_file-counted :
    (more : ℕ) (v v' : View) → grow_file more v ≡ ok v' → v'.count_mmap ≡ v.count_mmap
unfolding grow_file
grow_file-counted more v v' e = ground arith

grow_all-counted :
    (growth : List ℕ) (v v' : View) → grow_all growth v ≡ ok v' → v'.count_mmap ≡ v.count_mmap
unfolding grow_all
grow_all-counted [] v v' e = ground arith
grow_all-counted (more ∷ rest) v v' e =
    let (v₁, e₁, e₂) = bind-ok (grow_file more v) (grow_all rest) v' e in
    grow_all-counted rest v₁ v' e₂ ∙ grow_file-counted more v v₁ e₁

minus_one : (c : ℕ) → c < 2 ^ 32 → sub32 (u32 (c + 1)) 1 ≡ c
minus_one c small = omega arith

counted_small : (m : Mapping) (c : ℕ) → c < 2 ^ 32 → counted m c < 2 ^ 32
counted_small m c small = ground arith

shrink_file-counted :
    (growth : List ℕ) (v v' : View)
    → v.count_mmap < 2 ^ 32
    → shrink_file growth v ≡ ok v'
    → v'.count_mmap ≡ counted v.map v.count_mmap
unfolding shrink_file
shrink_file-counted growth v v' small e =
    let (v₁, e₁, rest) = bind-ok (get_tab_mmap v) _ v' e in
    let (v₂, e₂, rest') = bind-ok (get_tab_mmap _) _ v' rest in
    let (v₃, e₃, done) = bind-ok (grow_all growth v₂) _ v' rest' in
    let c₁ = get_tab_mmap-counted v v₁ e₁ in
    let c₂ : v₂.count_mmap ≡ u32 (v₁.count_mmap + 1) = get_tab_mmap-counted _ v₂ e₂ in
    let c₃ = grow_all-counted growth v₂ v₃ e₃ in
    let last : v'.count_mmap ≡ sub32 v₃.count_mmap 1 = ground arith in
    last
    ∙ ap (λ (c : ℕ). sub32 c 1) (c₃ ∙ c₂)
    ∙ minus_one v₁.count_mmap (rw c₁ (counted_small v.map v.count_mmap small))
    ∙ c₁

at_least_a_page :
    (d : Disk) (v : View)
    → Whole v
    → Follows d v.disk
    → (v.map.is_mapped ≡ true) × (4096 ≤ v.map.tab_size)
at_least_a_page d v (mapped, _, len, _) follows =
    (mapped, omega (arith, len, follows.good.some_page))

-- After any use, the tab is mapped and counted.
pub Uses-counted :
    (v v' : View)
    → Good v.disk
    → Linked v.disk v.map
    → v.count_mmap < 2 ^ 32
    → Uses v v'
    → (v'.map.is_mapped ≡ true)
      × (4096 ≤ v'.map.tab_size)
      × (v'.count_mmap ≡ counted v.map v.count_mmap)
Uses-counted v v' good linked few (looks e) =
    let got = left_by (get_tab_mmap v) v' (get_tab_mmap-Got v good linked) e in
    let (mapped, page) = at_least_a_page v.disk v' got.0 got.1 in
    (mapped, page, get_tab_mmap-counted v v' e)
Uses-counted v v' good linked few (appends more v₁ e small e') =
    let got = left_by (get_tab_mmap v) v₁ (get_tab_mmap-Got v good linked) e in
    let at_current = got.0.1 in
    let grown =
      left_by (grow_file more v₁) v'
        (grow_file-Got v₁ more got.1.good got.0 (rw at_current at small)) e' in
    let (mapped, page) = at_least_a_page v₁.disk v' grown.0 grown.1 in
    (mapped, page, grow_file-counted more v₁ v' e' ∙ get_tab_mmap-counted v v₁ e)
Uses-counted v v' good linked few (shrinks growth small e) =
    let kept = left_by (shrink_file growth v) v' (shrink_file-Kept v growth good linked small) e in
    let (mapped, page) = at_least_a_page v.disk v' kept.0 kept.1 in
    (mapped, page, shrink_file-counted growth v v' few e)
