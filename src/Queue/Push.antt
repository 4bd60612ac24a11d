-- ===== src/Queue/Push.antt =====
-- Pushing an item, and moving the pushed items to the shared queue.
use sharedhashfile.Prelude.{
  ℕ, ◌+◌, ◌^◌, ◌<◌, ◌≡◌, ◌≢◌, refl, sym, List, [], ◌∷◌, ◌++◌, length, length-append, arith, ltb,
  ◌==◌, if◌then◌else◌, true, false,
}
use sharedhashfile.Layout.{qiid_none, u32}
use sharedhashfile.Queue.{Qid, Qiid, Q, link_behind, push_item, flush_push}
use sharedhashfile.Queue.Seg.{
  Avoids, Distinct, Disjoint, last_of, Seg, IsList, All-append, Disjoint-last, append_nil,
  last_of-append, link_behind-keep, link_behind-join,
}

pub Disjoint-append : (zs xs ys : List ℕ) → Disjoint zs (xs ++ ys) → Disjoint zs xs × Disjoint zs ys
Disjoint-append [] xs ys h = (tt, tt)
Disjoint-append (z ∷ zs) xs ys (a, h) =
    let (p, q) = All-append (λ y. z ≢ y) xs ys a in
    let (r, s) = Disjoint-append zs xs ys h in ((p, r), (q, s))

-- The end of a list is not in a disjoint list.
end_not_in :
    (zs xs : List ℕ)
    → Disjoint zs xs
    → last_of qiid_none xs ≢ qiid_none
    → Avoids (last_of qiid_none xs) zs
end_not_in zs [] h some_end = absurd (some_end refl)
end_not_in zs (x ∷ xs) h some_end = Disjoint-last zs x xs h

-- Linking items behind a list: the joined list, and any list that has none of the items.
pub link-IsList :
    (m : ℕ → Qiid) (d : Qid) (t n y : ℕ) (xs ys : List ℕ) (size : ℕ)
    → IsList m d xs
    → Seg m t (y ∷ ys) n
    → Distinct (xs ++ (y ∷ ys))
    → size ≡ length (xs ++ (y ∷ ys))
    → IsList
        (link_behind m t (last_of y ys) d.head)
        (record {
          head = last_of y ys;
          tail = if d.head == qiid_none then t else d.tail;
          size = size;
        })
        (xs ++ (y ∷ ys))
link-IsList m d t n y xs ys size is seg distinct sized = record {
  linked = rw (is.ends) (link_behind-join m d.tail t n y xs ys is.linked seg distinct);
  ends = sym (last_of-append qiid_none xs (y ∷ ys));
  sized = sized;
}

pub link-IsList_ne :
    (m : ℕ → Qiid) (d d' : Qid) (t y : ℕ) (xs ys zs : List ℕ)
    → IsList m d xs
    → IsList m d' zs
    → Disjoint zs (xs ++ (y ∷ ys))
    → IsList (link_behind m t (last_of y ys) d.head) d' zs
link-IsList_ne m d d' t y xs ys zs is is' apart =
    let (a, b) = Disjoint-append zs xs (y ∷ ys) apart in
    record {
      linked = rw (is.ends) (
          link_behind-keep m t (last_of y ys) (last_of qiid_none xs) d'.tail qiid_none zs
            (Disjoint-last zs y ys b) (end_not_in zs xs a) is'.linked);
      ends = is'.ends;
      sized = is'.sized;
    }

-- If the process's list of items to push is `xs`, and the item is none of these and no
-- SHF_QIID_NONE, and the list stays shorter than 2 ^ 32, then pushing leaves the list `xs` with the
-- item at its end. Every list, of any queue, that has none of these items stays as it is, and so do
-- the queues that all processes share and the lists of items pulled.
pub push_item-IsList :
    (q : Q) (qid x : ℕ) (xs : List ℕ)
    → IsList q.qiids (q.qids_nolock_push qid) xs
    → x < qiid_none
    → Distinct (xs ++ (x ∷ []))
    → length xs + 1 < 2 ^ 32
    → IsList (push_item qid x q).qiids ((push_item qid x q).qids_nolock_push qid) (xs ++ (x ∷ []))
      × ((d : Qid) (zs : List ℕ)
          → IsList q.qiids d zs
          → Disjoint zs (xs ++ (x ∷ []))
          → IsList (push_item qid x q).qiids d zs)
      × ((push_item qid x q).qids ≡ q.qids)
      × ((push_item qid x q).qids_nolock_pull ≡ q.qids_nolock_pull)
unfolding push_item
push_item-IsList q qid x xs is lt distinct short =
    let push = q.qids_nolock_push qid in
    let size : u32 (push.size + 1) ≡ length (xs ++ (x ∷ [])) =
      omega (arith, is.sized, length-append xs (x ∷ [])) in
    let joined =
      link-IsList q.qiids push x (q.qiids x).next x xs [] (u32 (push.size + 1)) is (refl, lt, refl)
        distinct size in
    let same : (qid == qid) ≡ true = ground arith in
    (
      rw same joined,
      (λ d zs is' apart. link-IsList_ne q.qiids push d x x xs [] zs is is' apart),
      refl,
      refl,
    )

-- If a queue that all processes share holds `xs` and the process has `ys` to push to it, all
-- different items and fewer than 2 ^ 32, then the body of the loop in shf_q_flush() leaves the queue
-- with `xs` and then `ys`, in this order, and the process with nothing to push to it. Every list, of
-- any queue, that has none of these items stays as it is, and so do the lists of items pulled.
pub flush_push-IsList :
    (q : Q) (qid : ℕ) (xs ys : List ℕ)
    → IsList q.qiids (q.qids qid) xs
    → IsList q.qiids (q.qids_nolock_push qid) ys
    → Distinct (xs ++ ys)
    → length xs + length ys < 2 ^ 32
    → IsList (flush_push qid q).qiids ((flush_push qid q).qids qid) (xs ++ ys)
      × IsList (flush_push qid q).qiids ((flush_push qid q).qids_nolock_push qid) []
      × ((d : Qid) (zs : List ℕ)
          → IsList q.qiids d zs
          → Disjoint zs (xs ++ ys)
          → IsList (flush_push qid q).qiids d zs)
      × ((flush_push qid q).qids_nolock_pull ≡ q.qids_nolock_pull)
unfolding flush_push
flush_push-IsList q qid xs [] is is' distinct short =
    let empty : ltb 0 (q.qids_nolock_push qid).size ≡ false = ground (arith, is'.sized) in
    rw (empty, append_nil xs) (is, is', (λ d zs h apart. h), refl)
flush_push-IsList q qid xs (y ∷ ys) is is' distinct short =
    let this = q.qids_nolock_push qid in
    let locked = q.qids qid in
    let some_items : ltb 0 this.size ≡ true = ground (arith, is'.sized) in
    let same : (qid == qid) ≡ true = ground arith in
    let size : u32 (locked.size + this.size) ≡ length (xs ++ (y ∷ ys)) =
      omega (arith, is.sized, is'.sized, length-append xs (y ∷ ys)) in
    let joined =
      link-IsList q.qiids locked this.tail qiid_none y xs ys (u32 (locked.size + this.size)) is
        is'.linked distinct size in
    rw (some_items, same, is'.ends)
      (
        joined,
        record { linked = refl; ends = refl; sized = refl },
        (λ d zs h apart. link-IsList_ne q.qiids locked d this.tail y xs ys zs is h apart),
        refl,
      )
