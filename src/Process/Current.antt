-- ===== src/Process/Current.antt =====
-- In every state that processes can reach: SHF_GET_TAB_MMAP maps the whole of the current file.
use sharedhashfile.Prelude.{
  ℕ, ◌+◌, ◌-◌, ◌^◌, ◌<◌, ◌≡◌, inl, inr, List, ◌==◌, Bool-cases, sym, ◌∙◌, Run, ok, Returns, ◌>>=◌,
}
use sharedhashfile.Prelude.Family.{update}
use sharedhashfile.Layout.{data_offset, mod_page}
use sharedhashfile.Process.{
  Disk, View, get_tab_mmap, grow_file, shrink_file, Small, System, access, append, shrink, leave,
  Reach, start, later, no_files, at_first, unmapped, view, seen,
}
use sharedhashfile.Process.Fresh.{
  len_of, size_of, Good, Linked, Whole, Linked-Follows, Linked-Whole, Got,
}
use sharedhashfile.Process.Access.{get_tab_mmap-Got}
use sharedhashfile.Process.Resize.{
  create-Good, Follows-trans, grow_file-Got, Kept, shrink_file-Kept,
}

pub record Inv (s : System) : Type 0 where
  pub good : Good s.disk
  pub linked : (p : ℕ) → Linked s.disk (s.maps p)

Kept-Inv : (s : System) (p : ℕ) (v : View) → Inv s → Kept s.disk v → Inv (seen s p v)
Kept-Inv s p v inv (whole, follows) = record {
  good = follows.good;
  linked = λ q. elim (Bool-cases (p == q)) [
    | inl e ↦ rw e (Linked-Whole v follows.good whole)
    | inr e ↦ rw e (Linked-Follows s.disk v.disk (s.maps q) follows (inv.linked q))
  ];
}

unmapped-Linked : (d : Disk) → Linked d unmapped
unmapped-Linked d = record { made = λ e. cc; some_page = λ e. cc; old = λ e. cc; full = λ e. cc }

-- Looking at the tab, appending and shrinking, by a process in a given state.
pub get_tab_mmap-Kept :
    (s : System) (p : ℕ) → Inv s → Returns (Got s.disk) (get_tab_mmap (view s p))
get_tab_mmap-Kept s p inv = get_tab_mmap-Got (view s p) inv.good (inv.linked p)

appended-Kept :
    (s : System) (p more : ℕ) (v₁ : View)
    → Got s.disk v₁
    → size_of v₁.disk + more < 2 ^ 32 - 4096
    → Returns (Kept s.disk) (grow_file more v₁)
appended-Kept s p more v₁ (whole, follows, _, _, _) small =
    let (v₂, e, (whole₂, follows₂, _, _, _)) = grow_file-Got v₁ more follows.good whole small in
    (v₂, e, (whole₂, Follows-trans s.disk v₁.disk v₂.disk follows follows₂))

same_view : (v v' : View) (r : Run View) → r ≡ ok v → r ≡ ok v' → v ≡ v'
same_view v v' r e e' = let both = sym e ∙ e' in cc

pub left_by : {P : View → Type 0} (r : Run View) (v : View) → Returns P r → r ≡ ok v → P v
left_by r v (v', e', holds) e = rw (same_view v' v r e' e) at holds

at_first-Inv : Inv at_first
at_first-Inv = record { good = create-Good no_files; linked = λ p. unmapped-Linked at_first.disk }

access-Inv :
    (s : System) (p : ℕ) (v : View) → Inv s → get_tab_mmap (view s p) ≡ ok v → Inv (seen s p v)
access-Inv s p v inv e =
    let got : Got s.disk v = left_by (get_tab_mmap (view s p)) v (get_tab_mmap-Kept s p inv) e in
    Kept-Inv s p v inv (got.0, got.1)

append-Inv :
    (s : System) (p more : ℕ) (v₁ v : View)
    → Inv s
    → get_tab_mmap (view s p) ≡ ok v₁
    → (v₁.disk.file v₁.map.file).tab_size + more < 2 ^ 32 - 4096
    → grow_file more v₁ ≡ ok v
    → Inv (seen s p v)
append-Inv s p more v₁ v inv e small e₂ =
    let got : Got s.disk v₁ = left_by (get_tab_mmap (view s p)) v₁ (get_tab_mmap-Kept s p inv) e in
    let at_current = got.0.1 in
    let kept : Kept s.disk v =
      left_by (grow_file more v₁) v (appended-Kept s p more v₁ got (rw at_current at small)) e₂ in
    Kept-Inv s p v inv kept

shrink-Inv :
    (s : System) (p : ℕ) (growth : List ℕ) (v : View)
    → Inv s
    → Small (mod_page data_offset) growth
    → shrink_file growth (view s p) ≡ ok v
    → Inv (seen s p v)
shrink-Inv s p growth v inv small e =
    let kept : Kept s.disk v =
      left_by (shrink_file growth (view s p)) v
        (shrink_file-Kept (view s p) growth inv.good (inv.linked p) small) e in
    Kept-Inv s p v inv kept

leave-Inv : (s : System) (p : ℕ) → Inv s → Inv (record s { maps = update s.maps p unmapped })
leave-Inv s p inv = record {
  good = inv.good;
  linked = λ q. elim (Bool-cases (p == q)) [
    | inl e ↦ rw e (unmapped-Linked s.disk)
    | inr e ↦ rw e (inv.linked q)
  ];
}

pub Reach-Inv : {s : System} → Reach s → Inv s
Reach-Inv start = at_first-Inv
Reach-Inv (later {s} r (access p {v} e)) = access-Inv s p v (Reach-Inv r) e
Reach-Inv (later {s} r (append p more {v₁} {v} e small e₂)) =
    append-Inv s p more v₁ v (Reach-Inv r) e small e₂
Reach-Inv (later {s} r (shrink p growth {v} small e)) =
    shrink-Inv s p growth v (Reach-Inv r) small e
Reach-Inv (later {s} r (leave p)) = leave-Inv s p (Reach-Inv r)

-- In every state that processes reach from a new tab file by looking at the tab, appending to it,
-- shrinking it and ending, in any order and number, with each tab file below 4 GB:
-- SHF_GET_TAB_MMAP returns, for any process, with the whole of the file that the tab's name leads to
-- mapped, whose length is the tab's `tab_size`; so do growing, where the file stays below 4 GB,
-- and shrinking, where the new file does, after which the process maps the whole of the file that the name
-- leads to then.
pub Reach-current :
    {s : System} (p more : ℕ) (growth : List ℕ)
    → Reach s
    → len_of s.disk + more < 2 ^ 32 - 4096
    → Small (mod_page data_offset) growth
    → Returns (Got s.disk) (get_tab_mmap (view s p))
      × Returns Whole (get_tab_mmap (view s p) >>= grow_file more)
      × Returns Whole (shrink_file growth (view s p))
Reach-current {s} p more growth r small small' =
    let inv = Reach-Inv r in
    let (v, e, got) = get_tab_mmap-Kept s p inv in
    let full : size_of v.disk ≡ len_of s.disk = got.1.full ∙ got.4 in
    let (v₁, e₁, kept₁) = appended-Kept s p more v got (rw full small) in
    let (v₂, e₂, kept₂) = shrink_file-Kept (view s p) growth inv.good (inv.linked p) small' in
    ((v, e, got), (v₁, rw e e₁, kept₁.0), (v₂, e₂, kept₂.0))
