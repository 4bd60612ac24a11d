-- ===== src/Queue/Pull.antt =====
-- Moving items from the shared queue to the process, and pulling one.
use sharedhashfile.Prelude.{
  ℕ, zero, suc, ◌+◌, ◌-◌, ◌^◌, ◌≤◌, ◌<◌, ◌≡◌, refl, ap, sym, ◌∙◌, List, [], ◌∷◌, ◌++◌, length,
  length-append, arith, ltb, ◌==◌, if◌then◌else◌, Bool, true, false,
}
use mathlib.Core.Path.{subst}
use sharedhashfile.Layout.{qiid_none, u32, sub32}
use sharedhashfile.Queue.{
  Qid, Qiid, Q, set_last, no_items, walk, qiids_to_pull, pull_item, pull_locked, flush_pull,
}
use sharedhashfile.Queue.Seg.{
  Avoids, Distinct, Disjoint, last_of, Seg, IsList, Distinct-append, append_nil, last_of-append,
  Seg-split, Seg-set_last, walk_lem,
}
use sharedhashfile.Queue.Push.{Disjoint-append, link-IsList, link-IsList_ne}

pub append_assoc : (xs ys zs : List ℕ) → xs ++ (ys ++ zs) ≡ (xs ++ ys) ++ zs
append_assoc [] ys zs = refl
append_assoc (x ∷ xs) ys zs = ap (λ (l : List ℕ). x ∷ l) (append_assoc xs ys zs)

Disjoint-cons :
    (xs : List ℕ) (y : ℕ) (ys : List ℕ) → Disjoint xs (y ∷ ys) → Avoids y xs × Disjoint xs ys
Disjoint-cons [] y ys h = (tt, tt)
Disjoint-cons (x ∷ xs) y ys ((ne, a), h) =
    let (p, q) = Disjoint-cons xs y ys h in (((λ e. ne (sym e)), p), (a, q))

pub Disjoint-sym : (xs ys : List ℕ) → Disjoint xs ys → Disjoint ys xs
Disjoint-sym xs [] h = tt
Disjoint-sym xs (y ∷ ys) h = let (a, b) = Disjoint-cons xs y ys h in (a, Disjoint-sym xs ys b)

set_last-IsList :
    (m : ℕ → Qiid) (i v : ℕ) (d : Qid) (xs : List ℕ) → IsList m d xs → IsList (set_last m i v) d xs
set_last-IsList m i v d xs is = record {
  linked = Seg-set_last m i v d.tail qiid_none xs is.linked;
  ends = is.ends;
  sized = is.sized;
}

-- What pulling from the process's list of items returns and leaves.
abbrev pub Pulled : Q → ℕ → List ℕ → ℕ × Q → Type 0
Pulled q qid [] (x, q') = (x ≡ qiid_none) × (q'.qiids ≡ q.qiids)
Pulled q qid (y ∷ ys) (x, q') =
    (x ≡ y)
    × IsList q'.qiids (q'.qids_nolock_pull qid) ys
    × ((d : Qid) (zs : List ℕ) → IsList q.qiids d zs → IsList q'.qiids d zs)

-- If the process's list of pulled items of a queue is `xs`, of fewer than 2 ^ 32 items, then taking
-- an item from it returns SHF_QIID_NONE and moves no item where `xs` is empty; else it returns the
-- first item, leaves the others, in their order, and leaves every list of every queue as it is. The
-- shared queues and the items to push are unchanged, and `shf_qiid` is the result.
pub pull_item-Pulled :
    (q : Q) (qid : ℕ) (xs : List ℕ)
    → IsList q.qiids (q.qids_nolock_pull qid) xs
    → length xs < 2 ^ 32
    → Pulled q qid xs (pull_item qid q)
      × ((pull_item qid q).1.qids ≡ q.qids)
      × ((pull_item qid q).1.qids_nolock_push ≡ q.qids_nolock_push)
      × ((pull_item qid q).1.qiid ≡ (pull_item qid q).0)
unfolding pull_item
pull_item-Pulled q qid [] is short =
    let empty : ((q.qids_nolock_pull qid).size == 0) ≡ true = ground (arith, is.sized) in
    rw empty ((refl, refl), refl, refl, refl)
pull_item-Pulled q qid (x ∷ []) is short =
    let some_items : ((q.qids_nolock_pull qid).size == 0) ≡ false = ground (arith, is.sized) in
    let same : (qid == qid) ≡ true = ground arith in
    let (first, lt, rest) = is.linked in
    let last_one : (q.qiids (q.qids_nolock_pull qid).tail).next ≡ qiid_none = rw first rest in
    let one_less : sub32 (q.qids_nolock_pull qid).size 1 ≡ 0 = omega (arith, is.sized) in
    rw (some_items, same, last_one, one_less)
      ((first, record { linked = refl; ends = refl; sized = refl }, λ d zs h. h), refl, refl, refl)
pull_item-Pulled q qid (x ∷ (y ∷ ys)) is short =
    let pull = q.qids_nolock_pull qid in
    let some_items : (pull.size == 0) ≡ false = ground (arith, is.sized) in
    let same : (qid == qid) ≡ true = ground arith in
    let (first, lt, (second, lt', rest)) = is.linked in
    let next : (q.qiids pull.tail).next ≡ y = rw first second in
    let more : (y == qiid_none) ≡ false = ground arith in
    let one_less : sub32 pull.size 1 ≡ suc (length ys) = omega (arith, is.sized) in
    let left : IsList q.qiids (record { head = pull.head; tail = y; size = suc (length ys) })
        (y ∷ ys) =
      record { linked = (refl, lt', rest); ends = is.ends; sized = refl } in
    rw (some_items, same, next, more, one_less)
      (
        (
          first,
          set_last-IsList q.qiids y qiid_none _ (y ∷ ys) left,
          λ d zs h. set_last-IsList q.qiids y qiid_none d zs h,
        ),
        refl,
        refl,
        refl,
      )

-- Any list can be cut after a number of items.
cut :
    (n : ℕ) (xs : List ℕ) → n ≤ length xs → (as' bs : List ℕ) × (xs ≡ as' ++ bs) × (length as' ≡ n)
cut zero xs h = ([], xs, refl, refl)
cut (suc n) [] h = absurd (omega arith)
cut (suc n) (x ∷ xs) h =
    let (as', bs, e, l) = cut n xs (omega arith) in
    (x ∷ as', bs, ap (λ (l : List ℕ). x ∷ l) e, omega arith)

-- What filling the process's list leaves: `as'`, the first items of the shared queue, now stand
-- behind `zs`, and `bs`, the others, stay.
pub record Filled (q : Q) (qid : ℕ) (zs as' bs : List ℕ) (q' : Q) : Type 0 where
  pub pulled : IsList q'.qiids (q'.qids_nolock_pull qid) (zs ++ as')
  pub left : IsList q'.qiids (q'.qids qid) bs
  pub others :
      (d : Qid) (ws : List ℕ)
      → IsList q.qiids d ws
      → Disjoint ws (zs ++ (as' ++ bs))
      → IsList q'.qiids d ws
  pub push : q'.qids_nolock_push ≡ q.qids_nolock_push

module _ (q : Q) (qid : ℕ) (zs bs : List ℕ) (is : IsList q.qiids (q.qids_nolock_pull qid) zs) where
  abbrev n : ℕ
  n = qiids_to_pull qid q

  none-Filled : IsList q.qiids (q.qids qid) bs → 0 ≡ n → Filled q qid zs [] bs (flush_pull qid q)
  unfolding flush_pull
  none-Filled is' e =
      let nothing : ltb 0 n ≡ false = ground arith in
      rw nothing (record {
        pulled = rw (append_nil zs) is;
        left = is';
        others = λ d ws h apart. h;
        push = refl;
      })

  -- The items that stay, with the shared queue's new tail.
  rest-IsList :
      (m : ℕ → Qiid) (head t a size : ℕ) (as' : List ℕ)
      → head ≡ last_of a (as' ++ bs)
      → size ≡ length bs
      → Seg m t bs qiid_none
      → IsList m (if size == 0 then no_items else record { head = head; tail = t; size = size }) bs
  rest-IsList m head t a size as' e l seg = go bs e l seg
    where
      go :
          (bs : List ℕ)
          → head ≡ last_of a (as' ++ bs)
          → size ≡ length bs
          → Seg m t bs qiid_none
          → IsList m
              (if size == 0 then no_items else record { head = head; tail = t; size = size })
              bs
      go [] e l seg =
          let empty : (size == 0) ≡ true = ground arith in
          rw empty (record { linked = refl; ends = refl; sized = refl })
      go (b ∷ bs) e l seg =
          let some_left : (size == 0) ≡ false = ground arith in
          rw some_left
            (record { linked = seg; ends = e ∙ last_of-append a as' (b ∷ bs); sized = l })

  some-Filled :
      (k a : ℕ) (as' : List ℕ)
      → IsList q.qiids (q.qids qid) (a ∷ (as' ++ bs))
      → k ≡ suc (length as')
      → Distinct (zs ++ ((a ∷ as') ++ bs))
      → length zs + length (a ∷ (as' ++ bs)) < 2 ^ 32
      → Filled q qid zs (a ∷ as') bs (pull_locked k qid q)
  unfolding pull_locked
  some-Filled k a as' is' e distinct short =
      let locked = q.qids qid in
      let pull = q.qids_nolock_pull qid in
      let (seg, rest) = Seg-split q.qiids locked.tail qiid_none a as' bs is'.linked in
      let steps : k - 1 ≡ length as' = omega arith in
      let at_last : walk q.qiids (k - 1) locked.tail ≡ last_of a as' =
        rw steps (walk_lem q.qiids locked.tail _ a as' seg) in
      let same : (qid == qid) ≡ true = ground arith in
      let all : length (as' ++ bs) ≡ length as' + length bs = length-append as' bs in
      let size : u32 (pull.size + k) ≡ length (zs ++ (a ∷ as')) =
        omega (arith, is.sized, length-append zs (a ∷ as'), all) in
      let size_left : sub32 locked.size k ≡ length bs = omega (arith, is'.sized, all) in
      let assoc = append_assoc zs (a ∷ as') bs in
      let (d₁, _, apart) = Distinct-append (zs ++ (a ∷ as')) bs (rw (← assoc) distinct) in
      let kept =
        rest-IsList q.qiids locked.head (q.qiids (last_of a as')).next a (sub32 locked.size k) as'
          is'.ends size_left rest in
      record {
        pulled =
            rw (same, at_last)
              (link-IsList q.qiids pull locked.tail _ a zs as' (u32 (pull.size + k)) is seg d₁
                size);
        left =
            rw (same, at_last)
              (link-IsList_ne q.qiids pull _ locked.tail a zs as' bs is kept
                (Disjoint-sym (zs ++ (a ∷ as')) bs apart));
        others = λ d ws h apart'. rw at_last (
            link-IsList_ne q.qiids pull d locked.tail a zs as' ws is h
              (Disjoint-append ws (zs ++ (a ∷ as')) bs (rw (← assoc) apart')).0);
        push = refl;
      }

-- If the process's list of pulled items of a queue is `zs` and the shared queue holds `xs`, all
-- different items and fewer than 2 ^ 32, then the filling in shf_q_flush() cuts `xs` behind its
-- first items, as many as the process's list has space for, or all: these now stand behind `zs`, in
-- their order, and the others stay in the shared queue. Every list, of any queue, that has none of
-- these items stays as it is, and so do the lists of items to push.
pub flush_pull-Filled :
    (q : Q) (qid : ℕ) (zs xs : List ℕ)
    → IsList q.qiids (q.qids_nolock_pull qid) zs
    → IsList q.qiids (q.qids qid) xs
    → Distinct (zs ++ xs)
    → length zs + length xs < 2 ^ 32
    → (as' bs : List ℕ) × (xs ≡ as' ++ bs)
      × (length as' ≡ qiids_to_pull qid q)
      × Filled q qid zs as' bs (flush_pull qid q)
unfolding flush_pull
flush_pull-Filled q qid zs xs is is' distinct short =
    let (as', bs, e, l) = cut (qiids_to_pull qid q) xs (ground (arith, is'.sized)) in
    (as', bs, e, l, go as' bs l (rw e at is') (rw e at distinct) (rw e at short))
  where
    go :
        (as' bs : List ℕ)
        → length as' ≡ qiids_to_pull qid q
        → IsList q.qiids (q.qids qid) (as' ++ bs)
        → Distinct (zs ++ (as' ++ bs))
        → length zs + length (as' ++ bs) < 2 ^ 32
        → Filled q qid zs as' bs (flush_pull qid q)
    go [] bs l is' d s = none-Filled q qid zs bs is is' l
    go (a ∷ as') bs l is' d s =
        let something : ltb 0 (qiids_to_pull qid q) ≡ true = ground arith in
        subst
          (λ (test : Bool).
            Filled q qid zs (a ∷ as') bs
              (if test then pull_locked (qiids_to_pull qid q) qid q else q))
          (sym something) (some-Filled q qid zs bs is (qiids_to_pull qid q) a as' is' (sym l) d s)
