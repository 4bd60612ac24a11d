-- ===== src/Queue/Seg.antt =====
-- Lists linked through the `next` fields of items, as the queues of src/shf.c hold them.
use sharedhashfile.Prelude.{
  ℕ, ◌<◌, ◌≡◌, ◌≢◌, refl, ap, sym, List, [], ◌∷◌, ◌++◌, length, arith, ◌==◌, if◌then◌else◌, inl,
  inr, Bool, Bool-cases, false,
}
use mathlib.Core.Path.{subst}
use sharedhashfile.Layout.{qiid_none}
use sharedhashfile.Queue.{Qid, Qiid, set_next, set_last, link_behind, walk}

abbrev pub All {ℓ} : (ℕ → Type ℓ) → List ℕ → Type ℓ
All P [] = Unit
All P (x ∷ xs) = P x × All P xs

abbrev pub Avoids : ℕ → List ℕ → Type 0
Avoids x ys = All (λ y. x ≢ y) ys

abbrev pub Distinct : List ℕ → Type 0
Distinct [] = Unit
Distinct (x ∷ xs) = Avoids x xs × Distinct xs

-- No item is in both lists.
abbrev pub Disjoint : List ℕ → List ℕ → Type 0
Disjoint xs ys = All (λ x. Avoids x ys) xs

-- The last item, or `d` if there is none.
abbrev pub last_of : ℕ → List ℕ → ℕ
last_of d [] = d
last_of d (x ∷ xs) = last_of x xs

-- From `f`, the `next` fields lead through `xs` to `n`.
abbrev pub Seg : (ℕ → Qiid) → ℕ → List ℕ → ℕ → Type 0
Seg m f [] n = f ≡ n
Seg m f (x ∷ xs) n = (f ≡ x) × (x < qiid_none) × Seg m (m x).next xs n

-- The list of a queue: `tail` is its first item, the next one to be pulled, and `head` its last.
pub record IsList (m : ℕ → Qiid) (d : Qid) (xs : List ℕ) : Type 0 where
  pub linked : Seg m d.tail xs qiid_none
  pub ends : d.head ≡ last_of qiid_none xs
  pub sized : d.size ≡ length xs

pub All-last : (P : ℕ → Type 0) (x : ℕ) (xs : List ℕ) → P x → All P xs → P (last_of x xs)
All-last P x [] p h = p
All-last P x (y ∷ ys) p (q, h) = All-last P y ys q h

pub All-append : (P : ℕ → Type 0) (xs ys : List ℕ) → All P (xs ++ ys) → All P xs × All P ys
All-append P [] ys h = (tt, h)
All-append P (x ∷ xs) ys (p, h) = let (a, b) = All-append P xs ys h in ((p, a), b)

pub append-All : (P : ℕ → Type 0) (xs ys : List ℕ) → All P xs → All P ys → All P (xs ++ ys)
append-All P [] ys h k = k
append-All P (x ∷ xs) ys (p, h) k = (p, append-All P xs ys h k)

pub Distinct-append :
    (xs ys : List ℕ) → Distinct (xs ++ ys) → Distinct xs × Distinct ys × Disjoint xs ys
Distinct-append [] ys h = (tt, h, tt)
Distinct-append (x ∷ xs) ys (p, h) =
    let (a, b, c) = Distinct-append xs ys h in
    let (d, e) = All-append (λ y. x ≢ y) xs ys p in ((d, a), b, (e, c))

pub append_nil : (xs : List ℕ) → xs ++ [] ≡ xs
append_nil [] = refl
append_nil (x ∷ xs) = ap (λ (ys : List ℕ). x ∷ ys) (append_nil xs)

pub last_of-append : (d : ℕ) (xs ys : List ℕ) → last_of d (xs ++ ys) ≡ last_of (last_of d xs) ys
last_of-append d [] ys = refl
last_of-append d (x ∷ xs) ys = last_of-append x xs ys

pub Seg-append :
    (m : ℕ → Qiid) (f t n : ℕ) (xs ys : List ℕ) → Seg m f xs t → Seg m t ys n → Seg m f (xs ++ ys) n
Seg-append m f t n [] ys h k = rw h k
Seg-append m f t n (x ∷ xs) ys (e, l, h) k = (e, l, Seg-append m _ t n xs ys h k)

-- Where a list is cut, both parts are linked.
pub Seg-split :
    (m : ℕ → Qiid) (f n x : ℕ) (xs ys : List ℕ)
    → Seg m f (x ∷ (xs ++ ys)) n
    → Seg m f (x ∷ xs) (m (last_of x xs)).next × Seg m (m (last_of x xs)).next ys n
Seg-split m f n x [] ys (e, l, h) = ((e, l, refl), h)
Seg-split m f n x (y ∷ xs) ys (e, l, h) =
    let (a, b) = Seg-split m (m x).next n y xs ys h in ((e, l, a), b)

pub Seg-set_last :
    (m : ℕ → Qiid) (i v f n : ℕ) (xs : List ℕ) → Seg m f xs n → Seg (set_last m i v) f xs n
Seg-set_last m i v f n [] h = h
Seg-set_last m i v f n (x ∷ xs) (e, l, h) =
    let same : (set_last m i v x).next ≡ (m x).next = ground arith in
    (e, l, rw same (Seg-set_last m i v _ n xs h))

pub Seg-set_next :
    (m : ℕ → Qiid) (i v f n : ℕ) (xs : List ℕ)
    → Avoids i xs
    → Seg m f xs n
    → Seg (set_next m i v) f xs n
Seg-set_next m i v f n [] a h = h
Seg-set_next m i v f n (x ∷ xs) (ne, a) (e, l, h) =
    let same : (set_next m i v x).next ≡ (m x).next = ground arith in
    (e, l, rw same (Seg-set_next m i v _ n xs a h))

-- Setting `next` of the last item changes where the list leads.
pub Seg-last :
    (m : ℕ → Qiid) (v f n x : ℕ) (xs : List ℕ)
    → Distinct (x ∷ xs)
    → Seg m f (x ∷ xs) n
    → Seg (set_next m (last_of x xs) v) f (x ∷ xs) v
Seg-last m v f n x [] d (e, l, h) = (e, l, ground arith)
Seg-last m v f n x (y ∷ ys) ((ne, a), d) (e, l, h) =
    let other : x ≢ last_of y ys = All-last (λ z. x ≢ z) y ys ne a in
    let same : (set_next m (last_of y ys) v x).next ≡ (m x).next = ground arith in
    (e, l, rw same (Seg-last m v (m x).next n y ys d h))

pub Seg-last-lt :
    (m : ℕ → Qiid) (f n x : ℕ) (xs : List ℕ) → Seg m f (x ∷ xs) n → last_of x xs < qiid_none
Seg-last-lt m f n x [] (e, l, h) = l
Seg-last-lt m f n x (y ∷ ys) (e, l, h) = Seg-last-lt m _ n y ys h

-- Walking from the first item over the others reaches the last.
pub walk_lem :
    (m : ℕ → Qiid) (f n x : ℕ) (xs : List ℕ)
    → Seg m f (x ∷ xs) n
    → walk m (length xs) f ≡ last_of x xs
unfolding walk
walk_lem m f n x [] (e, l, h) = e
walk_lem m f n x (y ∷ ys) (e, l, h) = rw e (walk_lem m (m x).next n y ys h)

-- No item of the one list is the last of the other.
pub Disjoint-last :
    (zs : List ℕ) (y : ℕ) (ys : List ℕ) → Disjoint zs (y ∷ ys) → Avoids (last_of y ys) zs
Disjoint-last [] y ys h = tt
Disjoint-last (z ∷ zs) y ys ((ne, a), h) =
    ((λ e. All-last (λ w. z ≢ w) y ys ne a (sym e)), Disjoint-last zs y ys h)

-- Linking leaves a list alone that has neither of the two items whose `next` is set.
pub link_behind-keep :
    (m : ℕ → Qiid) (t h old f n : ℕ) (zs : List ℕ)
    → Avoids h zs
    → (old ≢ qiid_none → Avoids old zs)
    → Seg m f zs n
    → Seg (link_behind m t h old) f zs n
unfolding link_behind
link_behind-keep m t h old f n zs a b s =
    let m₁ = set_last m t old in
    let m₂ = set_next m₁ h qiid_none in
    let one = Seg-set_next m₁ h qiid_none f n zs a (Seg-set_last m t old f n zs s) in
    elim (Bool-cases (old == qiid_none)) [
      | inl e ↦ rw e one
      | inr e ↦
          let some_old : old ≢ qiid_none = ground arith in
          rw e (Seg-set_next m₂ old t f n zs (b some_old) one)
    ]

link_behind-some :
    (m : ℕ → Qiid) (t h old : ℕ)
    → (old == qiid_none) ≡ false
    → link_behind m t h old ≡ set_next (set_next (set_last m t old) h qiid_none) old t
unfolding link_behind
link_behind-some m t h old e = rw e refl

-- Linking items behind a list joins them.
pub link_behind-join :
    (m : ℕ → Qiid) (f t n y : ℕ) (xs ys : List ℕ)
    → Seg m f xs qiid_none
    → Seg m t (y ∷ ys) n
    → Distinct (xs ++ (y ∷ ys))
    → Seg
        (link_behind m t (last_of y ys) (last_of qiid_none xs))
        (if last_of qiid_none xs == qiid_none then t else f)
        (xs ++ (y ∷ ys))
        qiid_none
unfolding link_behind
link_behind-join m f t n y [] ys h k d =
    Seg-last (set_last m t qiid_none) qiid_none t n y ys d
      (Seg-set_last m t qiid_none t n (y ∷ ys) k)
link_behind-join m f t n y (x ∷ xs) ys h k d =
    let (dx, dy, apart) = Distinct-append (x ∷ xs) (y ∷ ys) d in
    let old = last_of x xs in
    let m₁ = set_last m t old in
    let m₂ = set_next m₁ (last_of y ys) qiid_none in
    let old_lt : last_of x xs < qiid_none = Seg-last-lt m f qiid_none x xs h in
    let test : (last_of x xs == qiid_none) ≡ false = ground arith in
    let old_apart : Avoids old (y ∷ ys) = All-last (λ z. Avoids z (y ∷ ys)) x xs apart.0 apart.1 in
    let new_part = Seg-last m₁ qiid_none t n y ys dy (Seg-set_last m t old t n (y ∷ ys) k) in
    let old_part =
      Seg-set_next m₁ (last_of y ys) qiid_none f qiid_none (x ∷ xs)
        (Disjoint-last (x ∷ xs) y ys apart) (Seg-set_last m t old f qiid_none (x ∷ xs) h) in
    let joined =
      Seg-append (set_next m₂ old t) f t qiid_none (x ∷ xs) (y ∷ ys)
        (Seg-last m₂ t f qiid_none x xs dx old_part)
        (Seg-set_next m₂ old t t qiid_none (y ∷ ys) old_apart new_part) in
    subst
      (λ (m' : ℕ → Qiid).
        Seg m' (if old == qiid_none then t else f) ((x ∷ xs) ++ (y ∷ ys)) qiid_none)
      (sym (link_behind-some m t (last_of y ys) old test))
      (subst
        (λ (b : Bool).
          Seg (set_next m₂ old t) (if b then t else f) ((x ∷ xs) ++ (y ∷ ys)) qiid_none)
        (sym test) joined)
