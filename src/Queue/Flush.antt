-- ===== src/Queue/Flush.antt =====
-- The loop of shf_q_flush() over all queues keeps the sequence of every queue.
use sharedhashfile.Prelude.{
  ℕ, zero, suc, ◌+◌, ◌^◌, ◌<◌, ◌≡◌, ◌≢◌, inl, inr, refl, sym, ◌∙◌, [], ◌++◌, length, length-append,
  arith, ◌==◌, Bool-cases,
}
use sharedhashfile.Prelude.Family.{update}
use sharedhashfile.Queue.{Q, flush_push, flush_pushes}
use sharedhashfile.Queue.Seg.{append_nil}
use sharedhashfile.Queue.Push.{Disjoint-append, flush_push-IsList}
use sharedhashfile.Queue.Fifo.{
  Lists, contents, Holds, Alike, Away, contents-Away, Parts, Distinct-Parts, same-Holds,
  Alike-trans,
}

-- What the loop body of shf_q_flush() leaves alone.
record PushedFrame (qid : ℕ) (q q' : Q) : Type 0 where
  alike : Alike q q'
  qids : (j : ℕ) → qid ≢ j → q'.qids j ≡ q.qids j
  push : (j : ℕ) → qid ≢ j → q'.qids_nolock_push j ≡ q.qids_nolock_push j

flush_push-frame : (qid : ℕ) (q : Q) → PushedFrame qid q (flush_push qid q)
unfolding flush_push
flush_push-frame qid q = record {
  alike = record { qs = ground arith; ready = ground arith; most = ground arith };
  qids = λ j ne. ground arith;
  push = λ j ne. ground arith;
}

-- The lists after the pushed items of a queue were moved.
abbrev moved : ℕ → Lists → Lists
moved qid a = record a {
  lock = update a.lock qid (a.lock qid ++ a.push qid);
  push = update a.push qid [];
}

moved-contents : (qid : ℕ) (a : Lists) (i : ℕ) → contents (moved qid a) i ≡ contents a i
moved-contents qid a i = elim (Bool-cases (qid == i)) [
  | inl e ↦
      let same : qid ≡ i = ground arith in rw (e, same, append_nil (a.lock i ++ a.push i)) refl
  | inr e ↦ rw e refl
]

module _ (qid : ℕ) (q : Q) (a : Lists) (h : Holds q a) (lt : qid < q.qs) where
  parts : Parts a qid
  parts = Distinct-Parts a qid (h.distinct qid lt)

  short_rest : length (a.lock qid) + length (a.push qid) < 2 ^ 32
  short_rest = omega (
    arith,
    h.short qid lt,
    length-append (a.pull qid) (a.lock qid ++ a.push qid),
    length-append (a.lock qid) (a.push qid),
  )

  away : (j : ℕ) → j < q.qs → qid ≢ j → Away a j (a.lock qid ++ a.push qid)
  away j l ne =
      contents-Away a j (a.lock qid ++ a.push qid)
        (Disjoint-append (contents a j) (a.pull qid) (a.lock qid ++ a.push qid)
          (h.apart j qid l lt (λ e. ne (sym e)))).1

  flush_push-Holds : Holds (flush_push qid q) (moved qid a)
  flush_push-Holds =
      let frame = flush_push-frame qid q in
      let (locked, empty, others, same_pulls) =
        flush_push-IsList q qid (a.lock qid) (a.push qid) (h.locks qid lt) (h.pushes qid lt)
          parts.rest short_rest in
      same-Holds q (flush_push qid q) a (moved qid a) h frame.alike (moved-contents qid a)
        (λ j l. elim (Bool-cases (qid == j)) [
          | inl e ↦ let same : qid ≡ j = ground arith in rw (e, ← same) empty
          | inr e ↦
              let ne : qid ≢ j = ground arith in
              rw (e, frame.push j ne)
                (others (q.qids_nolock_push j) (a.push j) (h.pushes j l) (away j l ne).push)
        ])
        (λ j l. elim (Bool-cases (qid == j)) [
          | inl e ↦ let same : qid ≡ j = ground arith in rw (e, ← same) locked
          | inr e ↦
              let ne : qid ≢ j = ground arith in
              rw (e, frame.qids j ne)
                (others (q.qids j) (a.lock j) (h.locks j l) (away j l ne).lock)
        ])
        (λ j l. elim (Bool-cases (qid == j)) [
          | inl e ↦
              let same : qid ≡ j = ground arith in
              rw (same_pulls, ← same)
                (others (q.qids_nolock_pull qid) (a.pull qid) (h.pulls qid lt) parts.across)
          | inr e ↦
              let ne : qid ≢ j = ground arith in
              rw same_pulls
                (others (q.qids_nolock_pull j) (a.pull j) (h.pulls j l) (away j l ne).pull)
        ])

-- The loop over all queues leaves nothing to push.
pub flush_pushes-Holds :
    (n i : ℕ) (q : Q) (a : Lists)
    → Holds q a
    → i + n ≡ q.qs
    → ((j : ℕ) → j < i → a.push j ≡ [])
    → (a' : Lists) × Holds (flush_pushes n i q) a'
      × ((j : ℕ) → contents a' j ≡ contents a j)
      × ((j : ℕ) → j < q.qs → a'.push j ≡ [])
      × Alike q (flush_pushes n i q)
unfolding flush_pushes
flush_pushes-Holds zero i q a h e empty = (
  a,
  h,
  (λ j. refl),
  (λ j l. empty j (omega arith)),
  record { qs = refl; ready = refl; most = refl },
)
flush_pushes-Holds (suc n) i q a h e empty =
    let frame = flush_push-frame i q in
    let (a', h', same, none_left, alike) =
      flush_pushes-Holds n (i + 1) (flush_push i q) (moved i a)
        (flush_push-Holds i q a h (omega arith)) (omega (arith, frame.alike.qs))
        (λ j l. elim (Bool-cases (i == j)) [
          | inl e' ↦ rw e' refl
          | inr e' ↦ rw e' (empty j (ground arith))
        ]) in
    (
      a',
      h',
      (λ j. same j ∙ moved-contents i a j),
      (λ j l. none_left j (omega (arith, frame.alike.qs))),
      Alike-trans q (flush_push i q) _ frame.alike alike,
    )
