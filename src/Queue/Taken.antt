-- ===== src/Queue/Taken.antt =====
-- Taking an item from the process's list keeps what the queues hold, but for that item.
use sharedhashfile.Prelude.{
  ℕ, ◌^◌, ◌<◌, ◌≡◌, ◌≢◌, inl, inr, refl, ap, ◌∙◌, true, List, [], ◌∷◌, ◌++◌, length, length-append,
  arith, ◌==◌, Bool-cases,
}
use sharedhashfile.Prelude.Family.{update}
use sharedhashfile.Layout.{qiid_none}
use sharedhashfile.Queue.{Q, Qid, pull_item}
use sharedhashfile.Queue.Seg.{Distinct, Disjoint, IsList}
use sharedhashfile.Queue.Pull.{Disjoint-sym, pull_item-Pulled}
use sharedhashfile.Queue.Fifo.{Lists, contents, Holds, Fifo, Alike, same-Holds}

record TakenFrame (qid : ℕ) (q q' : Q) : Type 0 where
  alike : Alike q q'
  pull : (j : ℕ) → qid ≢ j → q'.qids_nolock_pull j ≡ q.qids_nolock_pull j

pull_item-frame : (qid : ℕ) (q : Q) → TakenFrame qid q (pull_item qid q).1
unfolding pull_item
pull_item-frame qid q = record {
  alike = record { qs = ground arith; ready = ground arith; most = ground arith };
  pull = λ j ne. ground arith;
}

pull_item-none :
    (qid : ℕ) (q : Q)
    → (q.qids_nolock_pull qid).size ≡ 0
    → (pull_item qid q).1.qids_nolock_pull ≡ q.qids_nolock_pull
unfolding pull_item
pull_item-none qid q e = rw e refl

-- What taking an item from queue `qid`, which holds a sequence, returns and leaves.
abbrev pub Took : ℕ → (ℕ → List ℕ) → List ℕ → ℕ × Q → Type 0
Took qid c [] (x, q') = (x ≡ qiid_none) × Fifo q' c
Took qid c (y ∷ ys) (x, q') = (x ≡ y) × Fifo q' (update c qid ys)

module _ (qid : ℕ) (q : Q) (a : Lists) (h : Holds q a) (lt : qid < q.qs) (y : ℕ) (ys : List ℕ)
    (held : a.pull qid ≡ y ∷ ys) where
  abbrev taken : Lists
  taken = record a { pull = update a.pull qid ys }

  taken-here : contents a qid ≡ y ∷ contents taken qid
  taken-here = let here : (qid == qid) ≡ true = ground arith in rw (held, here) refl

  taken-Disjoint :
      (i : ℕ) (zs : List ℕ) → Disjoint (contents a i) zs → Disjoint (contents taken i) zs
  taken-Disjoint i zs d = elim (Bool-cases (qid == i)) [
    | inl e ↦
        let same : qid ≡ i = ground arith in
        let (_, rest) = rw (← same, taken-here) at d in rw (← same) rest
    | inr e ↦ rw e d
  ]

  taken-Distinct : (i : ℕ) → Distinct (contents a i) → Distinct (contents taken i)
  taken-Distinct i d = elim (Bool-cases (qid == i)) [
    | inl e ↦
        let same : qid ≡ i = ground arith in
        let (_, rest) = rw (← same, taken-here) at d in rw (← same) rest
    | inr e ↦ rw e d
  ]

  taken-short : (i : ℕ) → length (contents a i) < 2 ^ 32 → length (contents taken i) < 2 ^ 32
  taken-short i d = elim (Bool-cases (qid == i)) [
    | inl e ↦
        let same : qid ≡ i = ground arith in
        let d' = rw (← same, taken-here) at d in rw (← same) (omega (arith, d'))
    | inr e ↦ rw e d
  ]

  taken-Holds :
      (q' : Q)
      → TakenFrame qid q q'
      → IsList q'.qiids (q'.qids_nolock_pull qid) ys
      → ((d : Qid) (zs : List ℕ) → IsList q.qiids d zs → IsList q'.qiids d zs)
      → q'.qids ≡ q.qids
      → q'.qids_nolock_push ≡ q.qids_nolock_push
      → Holds q' taken
  taken-Holds q' frame left others same_locks same_pushes =
      let few = frame.alike.qs in
      record {
        ready = frame.alike.ready ∙ h.ready;
        most = omega (arith, h.most, frame.alike.most);
        few = omega (arith, h.few, few);
        pushes = λ i l. rw same_pushes (others _ _ (h.pushes i (omega (arith, few))));
        locks = λ i l. rw same_locks (others _ _ (h.locks i (omega (arith, few))));
        pulls = λ i l. elim (Bool-cases (qid == i)) [
          | inl e ↦ let same : qid ≡ i = ground arith in rw (e, ← same) left
          | inr e ↦
              let ne : qid ≢ i = ground arith in
              rw (e, frame.pull i ne) (others _ _ (h.pulls i (omega (arith, few))))
        ];
        distinct = λ i l. taken-Distinct i (h.distinct i (omega (arith, few)));
        apart = λ i j l m ne.
            let one =
              taken-Disjoint i _ (h.apart i j (omega (arith, few)) (omega (arith, few)) ne) in
            Disjoint-sym _ _
              (taken-Disjoint j _ (Disjoint-sym (contents taken i) (contents a j) one));
        short = λ i l. taken-short i (h.short i (omega (arith, few)));
      }

-- Taking an item from a queue that holds the sequence `c qid`, once the process's list is filled.
pub pull_item-Took :
    (qid : ℕ) (q : Q) (c : ℕ → List ℕ) (f : Fifo q c) (xs : List ℕ)
    → qid < q.qs
    → f.lists.pull qid ≡ xs
    → (xs ≡ [] → c qid ≡ [])
    → Took qid c (c qid) (pull_item qid q)
pull_item-Took qid q c f [] lt held filled =
    let is = f.holds.pulls qid lt in
    let none_held = rw held at is in
    let (pulled, locks, pushes, _) = pull_item-Pulled q qid [] none_held (omega arith) in
    let frame = pull_item-frame qid q in
    let pulls = pull_item-none qid q none_held.sized in
    let few = frame.alike.qs in
    rw (filled refl) (
      pulled.0,
      record {
        lists = f.lists;
        holds =
            same-Holds q (pull_item qid q).1 f.lists f.lists f.holds frame.alike (λ i. refl)
              (λ i l. rw (pulled.1, pushes) (f.holds.pushes i l))
              (λ i l. rw (pulled.1, locks) (f.holds.locks i l))
              (λ i l. rw (pulled.1, pulls) (f.holds.pulls i l));
        same = λ i l. f.same i (omega (arith, few));
      },
    )
pull_item-Took qid q c f (y ∷ ys) lt held filled =
    let is = f.holds.pulls qid lt in
    let some_held = rw held at is in
    let whole = f.same qid lt in
    let here = taken-here qid q f.lists f.holds lt y ys held in
    let short = f.holds.short qid lt in
    let bound : length (y ∷ ys) < 2 ^ 32 = omega (
      arith,
      ap length held,
      short,
      length-append (f.lists.pull qid) (f.lists.lock qid ++ f.lists.push qid),
    ) in
    let (pulled, locks, pushes, _) = pull_item-Pulled q qid (y ∷ ys) some_held bound in
    let frame = pull_item-frame qid q in
    let few = frame.alike.qs in
    rw (← whole, here)
      (
        pulled.0,
        record {
          lists = taken qid q f.lists f.holds lt y ys held;
          holds =
              taken-Holds qid q f.lists f.holds lt y ys held (pull_item qid q).1 frame pulled.1
                pulled.2 locks pushes;
          same = λ i l. elim (Bool-cases (qid == i)) [
            | inl e ↦
                let same : qid ≡ i = ground arith in
                let once : (qid == qid) ≡ true = ground arith in rw (← same, once) refl
            | inr e ↦ rw e (f.same i (omega (arith, few)))
          ];
        },
      )
