-- ===== src/Queue/Fill.antt =====
-- Filling the process's list of a queue, and shf_q_flush() as a whole, keep the sequence of every
-- queue.
use sharedhashfile.Prelude.{
  ℕ, ◌+◌, ◌^◌, ◌<◌, ◌≡◌, ◌≢◌, inl, inr, refl, ap, sym, ◌∙◌, true, false, List, [], ◌∷◌, ◌++◌,
  length, length-append, arith, ◌==◌, Bool-cases, Returns,
}
use sharedhashfile.Prelude.Family.{update}
use sharedhashfile.Layout.{qid_none}
use sharedhashfile.Queue.{Q, flush_pushes, flush_pull, pull_locked, qiids_to_pull, flush}
use sharedhashfile.Queue.Seg.{Distinct, Disjoint, Distinct-append}
use sharedhashfile.Queue.Push.{Disjoint-append}
use sharedhashfile.Queue.Pull.{append_assoc, Disjoint-sym, Filled, flush_pull-Filled}
use sharedhashfile.Queue.Fifo.{Lists, contents, Holds, Fifo, Alike, Away, contents-Away, same-Holds}
use sharedhashfile.Queue.Flush.{flush_pushes-Holds}

record FilledFrame (qid : ℕ) (q q' : Q) : Type 0 where
  alike : Alike q q'
  qids : (j : ℕ) → qid ≢ j → q'.qids j ≡ q.qids j
  pull : (j : ℕ) → qid ≢ j → q'.qids_nolock_pull j ≡ q.qids_nolock_pull j

flush_pull-frame : (qid : ℕ) (q : Q) → FilledFrame qid q (flush_pull qid q)
unfolding flush_pull pull_locked
flush_pull-frame qid q = record {
  alike = record { qs = ground arith; ready = ground arith; most = ground arith };
  qids = λ j ne. ground arith;
  pull = λ j ne. ground arith;
}

-- The lists after the first items of the shared queue, `as'`, were moved, and `bs` stayed.
abbrev filled : ℕ → Lists → List ℕ → List ℕ → Lists
filled qid a as' bs = record a {
  lock = update a.lock qid bs;
  pull = update a.pull qid (a.pull qid ++ as');
}

filled-contents :
    (qid : ℕ) (a : Lists) (as' bs : List ℕ)
    → a.lock qid ≡ as' ++ bs
    → (i : ℕ) → contents (filled qid a as' bs) i ≡ contents a i
filled-contents qid a as' bs split i = elim (Bool-cases (qid == i)) [
  | inl e ↦
      let same : qid ≡ i = ground arith in
      rw
        (
          e,
          ← same,
          split,
          ← append_assoc (a.pull qid) as' (bs ++ a.push qid),
          append_assoc as' bs (a.push qid),
        )
        refl
  | inr e ↦ rw e refl
]

module _ (qid : ℕ) (q : Q) (a : Lists) (h : Holds q a) (lt : qid < q.qs) where
  all_parts : Distinct ((a.pull qid ++ a.lock qid) ++ a.push qid)
  all_parts = rw (← append_assoc (a.pull qid) (a.lock qid) (a.push qid)) (h.distinct qid lt)

  front_Away : (j : ℕ) → j < q.qs → qid ≢ j → Away a j (a.pull qid ++ a.lock qid)
  front_Away j l ne =
      contents-Away a j (a.pull qid ++ a.lock qid)
        (Disjoint-append (contents a j) (a.pull qid ++ a.lock qid) (a.push qid) (
          rw (← append_assoc (a.pull qid) (a.lock qid) (a.push qid))
            (h.apart j qid l lt (λ e. ne (sym e))))).0

  pub front_Distinct : Distinct (a.pull qid ++ a.lock qid)
  front_Distinct = (Distinct-append (a.pull qid ++ a.lock qid) (a.push qid) all_parts).0

  pub front_short : length (a.pull qid) + length (a.lock qid) < 2 ^ 32
  front_short = omega (
    arith,
    h.short qid lt,
    length-append (a.pull qid) (a.lock qid ++ a.push qid),
    length-append (a.lock qid) (a.push qid),
  )

  flush_pull-Holds :
      (as' bs : List ℕ)
      → a.lock qid ≡ as' ++ bs
      → Filled q qid (a.pull qid) as' bs (flush_pull qid q)
      → Holds (flush_pull qid q) (filled qid a as' bs)
  flush_pull-Holds as' bs split f =
      let frame = flush_pull-frame qid q in
      let (d, _, front) = Distinct-append (a.pull qid ++ a.lock qid) (a.push qid) all_parts in
      let back : Disjoint (a.push qid) (a.pull qid ++ a.lock qid) =
        Disjoint-sym (a.pull qid ++ a.lock qid) (a.push qid) front in
      let others = rw (← split) at f.others in
      same-Holds q (flush_pull qid q) a (filled qid a as' bs) h frame.alike
        (filled-contents qid a as' bs split)
        (λ j l. elim (Bool-cases (qid == j)) [
          | inl e ↦
              let same : qid ≡ j = ground arith in
              rw (f.push, ← same)
                (others (q.qids_nolock_push qid) (a.push qid) (h.pushes qid lt) back)
          | inr e ↦
              let ne : qid ≢ j = ground arith in
              rw (f.push)
                (others (q.qids_nolock_push j) (a.push j) (h.pushes j l) (front_Away j l ne).push)
        ])
        (λ j l. elim (Bool-cases (qid == j)) [
          | inl e ↦ let same : qid ≡ j = ground arith in rw (e, ← same) (f.left)
          | inr e ↦
              let ne : qid ≢ j = ground arith in
              rw (e, frame.qids j ne)
                (others (q.qids j) (a.lock j) (h.locks j l) (front_Away j l ne).lock)
        ])
        (λ j l. elim (Bool-cases (qid == j)) [
          | inl e ↦ let same : qid ≡ j = ground arith in rw (e, ← same) (f.pulled)
          | inr e ↦
              let ne : qid ≢ j = ground arith in
              rw (e, frame.pull j ne)
                (others (q.qids_nolock_pull j) (a.pull j) (h.pulls j l) (front_Away j l ne).pull)
        ])

append-nil : (xs ys : List ℕ) → xs ++ ys ≡ [] → (xs ≡ []) × (ys ≡ [])
append-nil [] ys e = (refl, e)
append-nil (x ∷ xs) ys e = absurd (cc)

length-nil : (xs : List ℕ) → length xs ≡ 0 → xs ≡ []
length-nil [] e = refl
length-nil (x ∷ xs) e = absurd (omega arith)

-- After the filling, the process's list is empty only if the queue is.
filled-progress :
    (qid : ℕ) (q : Q) (a : Lists) (as' bs : List ℕ)
    → Holds q a
    → qid < q.qs
    → a.push qid ≡ []
    → a.lock qid ≡ as' ++ bs
    → length as' ≡ qiids_to_pull qid q
    → a.pull qid ++ as' ≡ []
    → contents a qid ≡ []
filled-progress qid q a as' bs h lt pushed split l e =
    let (no_pull, no_as) = append-nil (a.pull qid) as' e in
    let none_pulled = ap length no_pull in
    let none_moved = ap length no_as in
    let nothing : length (a.lock qid) ≡ 0 =
      ground (arith, (h.locks qid lt).sized, (h.pulls qid lt).sized, h.most) in
    let no_lock : a.lock qid ≡ [] = length-nil (a.lock qid) nothing in
    rw (no_pull, no_lock, pushed) refl

-- shf_q_flush() for a queue keeps every sequence, and leaves the process's list of that queue empty
-- only if the queue is empty.
pub flush-Fifo :
    (qid : ℕ) (q : Q) (c : ℕ → List ℕ)
    → Fifo q c
    → qid < q.qs
    → Returns
        (λ q'. (f : Fifo q' c) × (q'.qs ≡ q.qs) × (f.lists.pull qid ≡ [] → c qid ≡ []))
        (flush qid q)
unfolding flush
flush-Fifo qid q c f lt =
    let (a, h, same, none_left, alike) =
      flush_pushes-Holds q.qs 0 q f.lists f.holds (omega arith) (λ j l. absurd (omega arith)) in
    let q₁ = flush_pushes q.qs 0 q in
    let lt₁ : qid < q₁.qs = omega (arith, alike.qs) in
    let (as', bs, split, l, fill) =
      flush_pull-Filled q₁ qid (a.pull qid) (a.lock qid) (h.pulls qid lt₁) (h.locks qid lt₁)
        (front_Distinct qid q₁ a h lt₁) (front_short qid q₁ a h lt₁) in
    let h' = flush_pull-Holds qid q₁ a h lt₁ as' bs split fill in
    let frame = flush_pull-frame qid q₁ in
    let some_qid : (qid == qid_none) ≡ false = ground (arith, f.holds.few) in
    (
      flush_pull qid q₁,
      rw (f.holds.ready, some_qid) refl,
      (
        record {
          lists = filled qid a as' bs;
          holds = h';
          same = λ i l'.
              filled-contents qid a as' bs split i
              ∙ same i
              ∙ f.same i (omega (arith, frame.alike.qs, alike.qs));
        },
        omega (arith, frame.alike.qs, alike.qs),
        λ e.
            let here : (qid == qid) ≡ true = ground arith in
            let empty = rw here at e in
            sym (f.same qid lt)
            ∙ sym (same qid)
            ∙ filled-progress qid q₁ a as' bs h lt₁ (none_left qid lt) split l empty,
      ),
    )

pub flush_all-Fifo :
    (q : Q) (c : ℕ → List ℕ)
    → Fifo q c
    → Returns (λ q'. Fifo q' c × (q'.qs ≡ q.qs)) (flush qid_none q)
unfolding flush
flush_all-Fifo q c f =
    let (a, h, same, none_left, alike) =
      flush_pushes-Holds q.qs 0 q f.lists f.holds (omega arith) (λ j l. absurd (omega arith)) in
    (
      flush_pushes q.qs 0 q,
      rw (f.holds.ready) refl,
      (
        record { lists = a; holds = h; same = λ i l. same i ∙ f.same i (omega (arith, alike.qs)) },
        alike.qs,
      ),
    )
