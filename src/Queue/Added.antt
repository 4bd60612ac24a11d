-- ===== src/Queue/Added.antt =====
-- Pushing an item to the process's list keeps what the queues hold, and adds that item.
use sharedhashfile.Prelude.{
  ℕ, ◌+◌, ◌^◌, ◌<◌, ◌≡◌, ◌≢◌, inl, inr, refl, sym, ◌∙◌, true, false, List, [], ◌∷◌, ◌++◌, length,
  length-append, arith, ◌==◌, Bool-cases,
}
use sharedhashfile.Prelude.Family.{update}
use sharedhashfile.Layout.{qiid_none}
use sharedhashfile.Queue.{Q, push_item}
use sharedhashfile.Queue.Seg.{Avoids, Distinct, Disjoint, append-All}
use sharedhashfile.Queue.Pull.{Disjoint-sym, append_assoc}
use sharedhashfile.Queue.Push.{Disjoint-append, push_item-IsList}
use sharedhashfile.Queue.Fifo.{
  Lists, contents, Holds, Fifo, Alike, Distinct-Parts, Away, contents-Away,
}

record AddedFrame (qid : ℕ) (q q' : Q) : Type 0 where
  alike : Alike q q'
  push : (j : ℕ) → qid ≢ j → q'.qids_nolock_push j ≡ q.qids_nolock_push j

push_item-frame : (qid x : ℕ) (q : Q) → AddedFrame qid q (push_item qid x q)
unfolding push_item
push_item-frame qid x q = record {
  alike = record { qs = ground arith; ready = ground arith; most = ground arith };
  push = λ j ne. ground arith;
}

Disjoint-end :
    (zs xs : List ℕ) (x : ℕ) → Disjoint zs xs → Avoids x zs → Disjoint zs (xs ++ (x ∷ []))
Disjoint-end [] xs x d a = tt
Disjoint-end (z ∷ zs) xs x (p, d) (ne, a) =
    (append-All (λ y. z ≢ y) xs (x ∷ []) p ((λ e. ne (sym e)), tt), Disjoint-end zs xs x d a)

Distinct-end : (xs : List ℕ) (x : ℕ) → Distinct xs → Avoids x xs → Distinct (xs ++ (x ∷ []))
Distinct-end [] x d a = (tt, tt)
Distinct-end (y ∷ ys) x (p, d) (ne, a) =
    (append-All (λ z. y ≢ z) ys (x ∷ []) p ((λ e. ne (sym e)), tt), Distinct-end ys x d a)

Avoids-end : (zs : List ℕ) (x : ℕ) → Disjoint zs (x ∷ []) → Avoids x zs
Avoids-end [] x d = tt
Avoids-end (z ∷ zs) x ((ne, _), d) = ((λ e. ne (sym e)), Avoids-end zs x d)

module _ (qid : ℕ) (q : Q) (a : Lists) (h : Holds q a) (lt : qid < q.qs) (x : ℕ)
    (fresh : (j : ℕ) → j < q.qs → Avoids x (contents a j)) where
  abbrev added : Lists
  added = record a { push = update a.push qid (a.push qid ++ (x ∷ [])) }

  pub added-contents :
      (i : ℕ) → contents added i ≡ update (contents a) qid (contents a qid ++ (x ∷ [])) i
  added-contents i = elim (Bool-cases (qid == i)) [
    | inl e ↦
        let same : qid ≡ i = ground arith in
        let here : (qid == qid) ≡ true = ground arith in
        rw
          (
            ← same,
            here,
            append_assoc (a.lock qid) (a.push qid) (x ∷ []),
            append_assoc (a.pull qid) (a.lock qid ++ a.push qid) (x ∷ []),
          )
          refl
    | inr e ↦ rw e refl
  ]

  added-Disjoint :
      (i : ℕ) (zs : List ℕ)
      → Disjoint (contents a i) zs
      → (qid ≡ i → Avoids x zs)
      → Disjoint (contents added i) zs
  added-Disjoint i zs d out = elim (Bool-cases (qid == i)) [
    | inl e ↦
        let same : qid ≡ i = ground arith in
        rw (added-contents i, e, same)
          (append-All (λ y. Avoids y zs) (contents a i) (x ∷ []) d (out same, tt))
    | inr e ↦ rw e d
  ]

  added-Distinct : (i : ℕ) → i < q.qs → Distinct (contents added i)
  added-Distinct i l = elim (Bool-cases (qid == i)) [
    | inl e ↦
        let same : qid ≡ i = ground arith in
        rw (added-contents i, e, same) (Distinct-end (contents a i) x (h.distinct i l) (fresh i l))
    | inr e ↦ rw e (h.distinct i l)
  ]

  added-apart :
      (i j : ℕ) → i < q.qs → j < q.qs → i ≢ j → Disjoint (contents added i) (contents added j)
  added-apart i j l m ne =
      let one = added-Disjoint i (contents a j) (h.apart i j l m ne) (λ e. fresh j m) in
      Disjoint-sym (contents added j) (contents added i) (
        added-Disjoint j (contents added i) (Disjoint-sym (contents added i) (contents a j) one)
          (λ e. let other : (qid == i) ≡ false = ground arith in rw other (fresh i l)))

  fresh-Away : (j : ℕ) → j < q.qs → Away a j (x ∷ [])
  fresh-Away j l = contents-Away a j (x ∷ []) (Disjoint-sym (x ∷ []) (contents a j) (fresh j l, tt))

  fresh-end : (j : ℕ) → j < q.qs → qid ≢ j → Away a j (a.push qid ++ (x ∷ []))
  fresh-end j l ne =
      let other =
        contents-Away a j (a.lock qid ++ a.push qid)
          (Disjoint-append (contents a j) (a.pull qid) (a.lock qid ++ a.push qid)
            (h.apart j qid l lt (λ e. ne (sym e)))).1 in
      let new = fresh-Away j l in
      record {
        push =
            Disjoint-end _ _ x (Disjoint-append (a.push j) (a.lock qid) (a.push qid) other.push).1
              (Avoids-end _ x new.push);
        lock =
            Disjoint-end _ _ x (Disjoint-append (a.lock j) (a.lock qid) (a.push qid) other.lock).1
              (Avoids-end _ x new.lock);
        pull =
            Disjoint-end _ _ x (Disjoint-append (a.pull j) (a.lock qid) (a.push qid) other.pull).1
              (Avoids-end _ x new.pull);
      }

  apart_lock : (j : ℕ) → j < q.qs → Disjoint (a.lock j) (a.push qid ++ (x ∷ []))
  apart_lock j l = elim (Bool-cases (qid == j)) [
    | inl e ↦
        let same : qid ≡ j = ground arith in
        let p = Distinct-Parts a qid (h.distinct qid lt) in
        rw (← same) (Disjoint-end _ _ x p.between (Avoids-end _ x (fresh-Away qid lt).lock))
    | inr e ↦ (fresh-end j l (ground arith)).lock
  ]

  apart_pull : (j : ℕ) → j < q.qs → Disjoint (a.pull j) (a.push qid ++ (x ∷ []))
  apart_pull j l = elim (Bool-cases (qid == j)) [
    | inl e ↦
        let same : qid ≡ j = ground arith in
        let p = Distinct-Parts a qid (h.distinct qid lt) in
        let clear = (Disjoint-append (a.pull qid) (a.lock qid) (a.push qid) p.across).1 in
        rw (← same) (Disjoint-end _ _ x clear (Avoids-end _ x (fresh-Away qid lt).pull))
    | inr e ↦ (fresh-end j l (ground arith)).pull
  ]

  added-short :
      length (contents a qid) + 1 < 2 ^ 32 → (i : ℕ) → i < q.qs → length (contents added i) < 2 ^ 32
  added-short short i l = elim (Bool-cases (qid == i)) [
    | inl e ↦
        rw (added-contents i, e) (omega (arith, short, length-append (contents a qid) (x ∷ [])))
    | inr e ↦ rw e (h.short i l)
  ]

  push_item-Holds :
      x < qiid_none → length (contents a qid) + 1 < 2 ^ 32 → Holds (push_item qid x q) added
  push_item-Holds small short =
      let frame = push_item-frame qid x q in
      let p = Distinct-Parts a qid (h.distinct qid lt) in
      let new = fresh-Away qid lt in
      let few = frame.alike.qs in
      let (linked, others, locks, pulls) =
        push_item-IsList q qid x (a.push qid) (h.pushes qid lt) small
          (Distinct-end (a.push qid) x p.push (Avoids-end (a.push qid) x new.push))
          (omega (
            arith,
            short,
            length-append (a.pull qid) (a.lock qid ++ a.push qid),
            length-append (a.lock qid) (a.push qid),
          )) in
      record {
        ready = frame.alike.ready ∙ h.ready;
        most = omega (arith, h.most, frame.alike.most);
        few = omega (arith, h.few, few);
        pushes = λ i l. elim (Bool-cases (qid == i)) [
          | inl e ↦ let same : qid ≡ i = ground arith in rw (e, ← same) linked
          | inr e ↦
              let ne : qid ≢ i = ground arith in
              rw (e, frame.push i ne)
                (others _ _ (h.pushes i (omega (arith, few)))
                  (fresh-end i (omega (arith, few)) ne).push)
        ];
        locks = λ i l.
            rw locks
              (others _ _ (h.locks i (omega (arith, few))) (apart_lock i (omega (arith, few))));
        pulls = λ i l.
            rw pulls
              (others _ _ (h.pulls i (omega (arith, few))) (apart_pull i (omega (arith, few))));
        distinct = λ i l. added-Distinct i (omega (arith, few));
        apart = λ i j l m ne. added-apart i j (omega (arith, few)) (omega (arith, few)) ne;
        short = λ i l. added-short short i (omega (arith, few));
      }

-- The sequences after `x` was pushed to queue `qid`.
abbrev pub with_item : ℕ → ℕ → (ℕ → List ℕ) → ℕ → List ℕ
with_item qid x c = update c qid (c qid ++ (x ∷ []))

-- An item that may be pushed to queue `qid`: it is in no queue, and there is room in the size.
pub record Pushable (q : Q) (c : ℕ → List ℕ) (qid x : ℕ) : Type 0 where
  pub queue : qid < q.qs
  pub small : x < qiid_none
  pub fresh : (j : ℕ) → j < q.qs → Avoids x (c j)
  pub room : length (c qid) + 1 < 2 ^ 32

pub push_item-Fifo :
    (qid x : ℕ) (q : Q) (c : ℕ → List ℕ)
    → Fifo q c
    → Pushable q c qid x
    → Fifo (push_item qid x q) (with_item qid x c) × ((push_item qid x q).qs ≡ q.qs)
push_item-Fifo qid x q c f p =
    let here = f.same qid p.queue in
    let few = (push_item-frame qid x q).alike.qs in
    let fresh : (j : ℕ) → j < q.qs → Avoids x (contents f.lists j) =
      λ j l. rw (f.same j l) (p.fresh j l) in
    (
      record {
        lists = added qid q f.lists f.holds p.queue x fresh;
        holds = push_item-Holds qid q f.lists f.holds p.queue x fresh p.small (rw here (p.room));
        same = λ i l.
            added-contents qid q f.lists f.holds p.queue x fresh i ∙ elim (Bool-cases (qid == i)) [
              | inl e ↦ rw (e, here) refl
              | inr e ↦ rw e (f.same i (omega (arith, few)))
            ];
      },
      few,
    )
