-- ===== src/Queue/Fifo.antt =====
-- What the queues hold, all at once: each queue is one sequence of items.
use sharedhashfile.Prelude.{ℕ, ◌^◌, ◌≤◌, ◌<◌, ◌≡◌, ◌≢◌, true, ◌∙◌, List, ◌++◌, length, arith}
use sharedhashfile.Layout.{qid_none}
use sharedhashfile.Queue.{Q}
use sharedhashfile.Queue.Seg.{Distinct, Disjoint, IsList, Avoids, All-append, Distinct-append}

-- The items that the process has to push, that a shared queue holds, and that the process pulled.
pub record Lists : Type 0 where
  pub push : ℕ → List ℕ
  pub lock : ℕ → List ℕ
  pub pull : ℕ → List ℕ

-- The items of a queue, the next to be pulled first.
abbrev pub contents : Lists → ℕ → List ℕ
contents a i = a.pull i ++ (a.lock i ++ a.push i)

pub record Holds (q : Q) (a : Lists) : Type 0 where
  pub ready : q.q_is_ready ≡ true
  pub most : 1 ≤ q.qids_nolock_max
  pub few : q.qs ≤ qid_none
  pub pushes : (i : ℕ) → i < q.qs → IsList q.qiids (q.qids_nolock_push i) (a.push i)
  pub locks : (i : ℕ) → i < q.qs → IsList q.qiids (q.qids i) (a.lock i)
  pub pulls : (i : ℕ) → i < q.qs → IsList q.qiids (q.qids_nolock_pull i) (a.pull i)
  pub distinct : (i : ℕ) → i < q.qs → Distinct (contents a i)
  pub apart : (i j : ℕ) → i < q.qs → j < q.qs → i ≢ j → Disjoint (contents a i) (contents a j)
  pub short : (i : ℕ) → i < q.qs → length (contents a i) < 2 ^ 32

-- The queues of `q` are the sequences `c`.
pub record Fifo (q : Q) (c : ℕ → List ℕ) : Type 0 where
  pub lists : Lists
  pub holds : Holds q lists
  pub same : (i : ℕ) → i < q.qs → contents lists i ≡ c i

-- Two states agree on all but the items.
pub record Alike (q q' : Q) : Type 0 where
  pub qs : q'.qs ≡ q.qs
  pub ready : q'.q_is_ready ≡ q.q_is_ready
  pub most : q'.qids_nolock_max ≡ q.qids_nolock_max

-- Parts of a queue have no item of another queue.
pub record Away (a : Lists) (j : ℕ) (ys : List ℕ) : Type 0 where
  pub push : Disjoint (a.push j) ys
  pub lock : Disjoint (a.lock j) ys
  pub pull : Disjoint (a.pull j) ys

pub Disjoint-left : (xs ys zs : List ℕ) → Disjoint (xs ++ ys) zs → Disjoint xs zs × Disjoint ys zs
Disjoint-left xs ys zs h = All-append (λ x. Avoids x zs) xs ys h

pub contents-Away : (a : Lists) (j : ℕ) (ys : List ℕ) → Disjoint (contents a j) ys → Away a j ys
contents-Away a j ys h =
    let (p, rest) = Disjoint-left (a.pull j) (a.lock j ++ a.push j) ys h in
    let (l, s) = Disjoint-left (a.lock j) (a.push j) ys rest in
    record { push = s; lock = l; pull = p }

-- The parts of one queue have no item in common.
pub record Parts (a : Lists) (i : ℕ) : Type 0 where
  pub pull : Distinct (a.pull i)
  pub rest : Distinct (a.lock i ++ a.push i)
  pub across : Disjoint (a.pull i) (a.lock i ++ a.push i)
  pub lock : Distinct (a.lock i)
  pub push : Distinct (a.push i)
  pub between : Disjoint (a.lock i) (a.push i)

pub Distinct-Parts : (a : Lists) (i : ℕ) → Distinct (contents a i) → Parts a i
Distinct-Parts a i h =
    let (p, r, x) = Distinct-append (a.pull i) (a.lock i ++ a.push i) h in
    let (l, s, y) = Distinct-append (a.lock i) (a.push i) r in
    record { pull = p; rest = r; across = x; lock = l; push = s; between = y }

-- Where the sequences are the same, only the linked lists have to be shown again.
pub same-Holds :
    (q q' : Q) (a a' : Lists)
    → Holds q a
    → Alike q q'
    → ((i : ℕ) → contents a' i ≡ contents a i)
    → ((i : ℕ) → i < q.qs → IsList q'.qiids (q'.qids_nolock_push i) (a'.push i))
    → ((i : ℕ) → i < q.qs → IsList q'.qiids (q'.qids i) (a'.lock i))
    → ((i : ℕ) → i < q.qs → IsList q'.qiids (q'.qids_nolock_pull i) (a'.pull i))
    → Holds q' a'
same-Holds q q' a a' h alike same pushes locks pulls = record {
  ready = alike.ready ∙ h.ready;
  most = omega (arith, h.most, alike.most);
  few = omega (arith, h.few, alike.qs);
  pushes = λ i l. pushes i (omega (arith, alike.qs));
  locks = λ i l. locks i (omega (arith, alike.qs));
  pulls = λ i l. pulls i (omega (arith, alike.qs));
  distinct = λ i l. rw (same i) (h.distinct i (omega (arith, alike.qs)));
  apart = λ i j l m ne.
      rw (same i, same j) (h.apart i j (omega (arith, alike.qs)) (omega (arith, alike.qs)) ne);
  short = λ i l. rw (same i) (h.short i (omega (arith, alike.qs)));
}

pub Alike-trans : (q q' q'' : Q) → Alike q q' → Alike q' q'' → Alike q q''
Alike-trans q q' q'' f g = record {
  qs = g.qs ∙ f.qs;
  ready = g.ready ∙ f.ready;
  most = g.most ∙ f.most;
}
