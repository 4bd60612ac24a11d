-- ===== src/Queue/Ends.antt =====
-- shf_q_push_head(), shf_q_pull_tail() and shf_q_push_head_pull_tail() on queues as sequences.
use sharedhashfile.Prelude.{
  ℕ, ◌<◌, ◌≡◌, ◌⊎◌, inl, inr, refl, ap, ◌∙◌, true, false, ◌||◌, List, [], length, leb, arith, ◌==◌,
  if◌then◌else◌, Bool, Bool-cases, ok, Returns, bind-Returns, assert-Returns,
}
use sharedhashfile.Layout.{qiid_none}
use sharedhashfile.Queue.{Q, push_item, pull_item, flush, push_head, pull_tail, push_head_pull_tail}
use sharedhashfile.Queue.Fifo.{Fifo}
use sharedhashfile.Queue.Fill.{flush-Fifo, flush_all-Fifo}
use sharedhashfile.Queue.Taken.{Took, pull_item-Took}
use sharedhashfile.Queue.Added.{with_item, Pushable, push_item-Fifo}

-- The sequences after `x` was pushed to queue `qid`, where SHF_QIID_NONE pushes nothing.
abbrev pub queued : ℕ → ℕ → (ℕ → List ℕ) → ℕ → List ℕ
queued qid x c = if x == qiid_none then c else with_item qid x c

or-true : (b : Bool) → (b || true) ≡ true
or-true true = refl
or-true false = refl

-- Whether the process's list is filled when it must be.
abbrev FilledFor : ℕ → (ℕ → List ℕ) → Q → Type 0
FilledFor qid c q = (f : Fifo q c) × (qid < q.qs) × (f.lists.pull qid ≡ [] → c qid ≡ [])

flush_if-Fifo :
    (b : Bool) (qid : ℕ) (q : Q) (c : ℕ → List ℕ)
    → Fifo q c
    → qid < q.qs
    → ((q.qids_nolock_pull qid).size ≡ 0 → b ≡ true)
    → Returns (FilledFor qid c) (if b then flush qid q else ok q)
flush_if-Fifo true qid q c f lt must =
    let (q', e, (f', few, filled)) = flush-Fifo qid q c f lt in
    (q', e, (f', omega (arith, few), filled))
flush_if-Fifo false qid q c f lt must =
    let is = f.holds.pulls qid lt in
    (q, refl, (f, lt, λ e. let bad = must (is.sized ∙ ap length e) in absurd (cc)))

pull_filled-Took :
    (qid : ℕ) (q : Q) (c : ℕ → List ℕ)
    → FilledFor qid c q
    → Returns (Took qid c (c qid)) (ok (pull_item qid q))
pull_filled-Took qid q c (f, lt, filled) =
    (pull_item qid q, refl, pull_item-Took qid q c f (f.lists.pull qid) lt refl filled)

-- If the queues hold the sequences `c`, pulling from queue `qid` returns: SHF_QIID_NONE and the same
-- sequences if `c qid` is empty, whether its items were pushed, shared or pulled before; else the
-- first item of `c qid`, and then queue `qid` holds the rest and every other queue what it held.
pub pull_tail-Fifo :
    (qid : ℕ) (q : Q) (c : ℕ → List ℕ)
    → Fifo q c
    → qid < q.qs
    → Returns (Took qid c (c qid)) (pull_tail qid q)
unfolding pull_tail
pull_tail-Fifo qid q c f lt = assert-Returns (Took qid c (c qid)) q.q_is_ready _ f.holds.ready (
    bind-Returns (FilledFor qid c) (Took qid c (c qid)) _ _
      (flush_if-Fifo ((q.qids_nolock_pull qid).size == 0) qid q c f lt (λ e. rw e refl))
      (λ q₁. pull_filled-Took qid q₁ c))

-- If the queues hold the sequences `c`, pushing an item that is in no queue returns, and then the
-- item is the last of queue `qid` and nothing else changed, whether the push shares the items or
-- not; pushing SHF_QIID_NONE leaves `c` as it is.
pub push_head-Fifo :
    (qid x : ℕ) (q : Q) (c : ℕ → List ℕ)
    → Fifo q c
    → (x ≡ qiid_none) ⊎ Pushable q c qid x
    → Returns (λ q'. Fifo q' (queued qid x c) × (q'.qs ≡ q.qs)) (push_head qid x q)
unfolding push_head
push_head-Fifo qid x q c f (inl none_pushed) =
    let e : (x == qiid_none) ≡ true = ground arith in
    assert-Returns _ q.q_is_ready _ f.holds.ready (rw e (q, refl, (f, refl)))
push_head-Fifo qid x q c f (inr p) =
    let e : (x == qiid_none) ≡ false = ground (arith, p.small) in
    let (f₁, few) = push_item-Fifo qid x q c f p in
    let q₁ = push_item qid x q in
    elim (Bool-cases (leb q.qids_nolock_max (q₁.qids_nolock_push qid).size)) [
      | inl full ↦
          let (q', e', (f', same)) = flush_all-Fifo q₁ (with_item qid x c) f₁ in
          assert-Returns _ q.q_is_ready _ f.holds.ready (rw (e, full) (q', e', (f', same ∙ few)))
      | inr room ↦
          assert-Returns _ q.q_is_ready _ f.holds.ready (rw (e, room) (q₁, refl, (f₁, few)))
    ]

push_if-Fifo :
    (qid x : ℕ) (q : Q) (c : ℕ → List ℕ)
    → Fifo q c
    → (x ≡ qiid_none) ⊎ Pushable q c qid x
    → Fifo (if x == qiid_none then q else push_item qid x q) (queued qid x c)
      × ((if x == qiid_none then q else push_item qid x q).qs ≡ q.qs)
push_if-Fifo qid x q c f (inl none_pushed) =
    let e : (x == qiid_none) ≡ true = ground arith in rw e (f, refl)
push_if-Fifo qid x q c f (inr p) =
    let e : (x == qiid_none) ≡ false = ground (arith, p.small) in
    rw e (push_item-Fifo qid x q c f p)

-- If the queues hold the sequences `c`, pushing an item that is in no queue, or SHF_QIID_NONE, and
-- then pulling from a queue returns as a push and a pull would: the pull takes the first item of
-- what `c` is after the push, so an item pushed to an empty queue is pulled at once.
pub push_head_pull_tail-Fifo :
    (push_qid x pull_qid : ℕ) (q : Q) (c : ℕ → List ℕ)
    → Fifo q c
    → (x ≡ qiid_none) ⊎ Pushable q c push_qid x
    → pull_qid < q.qs
    → Returns
        (Took pull_qid (queued push_qid x c) (queued push_qid x c pull_qid))
        (push_head_pull_tail push_qid x pull_qid q)
unfolding push_head_pull_tail
push_head_pull_tail-Fifo push_qid x pull_qid q c f p lt =
    let (f₁, few) = push_if-Fifo push_qid x q c f p in
    let q₁ = if x == qiid_none then q else push_item push_qid x q in
    let c₁ = queued push_qid x c in
    assert-Returns (Took pull_qid c₁ (c₁ pull_qid)) q.q_is_ready _ f.holds.ready (
      bind-Returns (FilledFor pull_qid c₁) (Took pull_qid c₁ (c₁ pull_qid)) _ _
        (flush_if-Fifo
          (leb q₁.qids_nolock_max (q₁.qids_nolock_push push_qid).size
            || (q₁.qids_nolock_pull pull_qid).size == 0)
          pull_qid q₁ c₁ f₁ (omega (arith, few)) (λ e. rw e (or-true _)))
        (λ q₂. pull_filled-Took pull_qid q₂ c₁))
