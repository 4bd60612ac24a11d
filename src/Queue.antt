-- ===== src/Queue.antt =====
-- The queues of src/shf.c, as one process sees them: the queues that all processes share, and the
-- process's own lists of items to push and pulled, which it moves without the lock. The checks
-- under SHF_DEBUG_VERSION are left out.
pub mod Seg
pub mod Push
pub mod Pull
pub mod Fifo
pub mod Flush
pub mod Fill
pub mod Taken
pub mod Added
pub mod Ends
pub mod New
pub mod Create
pub mod Loops
pub mod First
use sharedhashfile.Prelude.{
  ℕ, zero, suc, ◌+◌, ◌-◌, ◌*◌, Bool, true, false, ◌||◌, Option, none, some, ltb, leb, ◌==◌,
  if◌then◌else◌, Run, ok, assert, ◌>>=◌, ◌>>◌,
}
use mathlib.Core.Bool.{not}
use sharedhashfile.Prelude.Family.{update}
use sharedhashfile.Layout.{u32, sub32, qid_none, qiid_none}

-- SHF_QID_MMAP
pub record Qid : Type 0 where
  pub head : ℕ
  pub tail : ℕ
  pub size : ℕ

-- SHF_QIID_MMAP
pub record Qiid : Type 0 where
  pub last : ℕ
  pub next : ℕ

-- SHF_Q, and the thread's `shf_qiid`, `shf_qiid_addr` (an offset from `q_item_addr`) and
-- `shf_qiid_addr_len`.
pub record Q : Type 0 where
  pub qs : ℕ
  pub q_items : ℕ
  pub q_item_size : ℕ
  pub qids_nolock_max : ℕ
  pub qids_nolock_push : ℕ → Qid
  pub qids_nolock_pull : ℕ → Qid
  pub qids : ℕ → Qid
  pub qiids : ℕ → Qiid
  pub q_is_ready : Bool
  pub qiid : ℕ
  pub qiid_addr : Option ℕ
  pub qiid_addr_len : ℕ

abbrev pub no_items : Qid
no_items = record { head = qid_none; tail = qid_none; size = 0 }

-- `qiids[i].next = x` and `qiids[i].last = x`
abbrev pub set_next : (ℕ → Qiid) → ℕ → ℕ → ℕ → Qiid
set_next m i x = update m i (record (m i) { next = x })

abbrev pub set_last : (ℕ → Qiid) → ℕ → ℕ → ℕ → Qiid
set_last m i x = update m i (record (m i) { last = x })

-- How items `this_tail` to `this_head` are linked behind the head `old_head` of a list.
unfoldable pub link_behind : (ℕ → Qiid) → ℕ → ℕ → ℕ → ℕ → Qiid
link_behind m this_tail this_head old_head =
    let m₁ = set_last m this_tail old_head in
    let m₂ = set_next m₁ this_head qiid_none in
    if old_head == qiid_none then m₂ else set_next m₂ old_head this_tail

-- shf_q_flush(): the body of the loop over all queues.
unfoldable pub flush_push : ℕ → Q → Q
flush_push qid q =
    let this = q.qids_nolock_push qid in
    let locked = q.qids qid in
    if ltb 0 this.size
    then record q {
      qiids = link_behind q.qiids this.tail this.head locked.head;
      qids = update q.qids qid (record {
        head = this.head;
        tail = if locked.head == qiid_none then this.tail else locked.tail;
        size = u32 (locked.size + this.size);
      });
      qids_nolock_push = update q.qids_nolock_push qid no_items;
    }
    else q

-- The loop, over `n` queues from `i` on.
unfoldable pub flush_pushes : ℕ → ℕ → Q → Q
flush_pushes zero i q = q
flush_pushes (suc n) i q = flush_pushes n (i + 1) (flush_push i q)

-- The loop "walk locked qiids".
unfoldable pub walk : (ℕ → Qiid) → ℕ → ℕ → ℕ
walk m zero qiid = qiid
walk m (suc n) qiid = walk m n (m qiid).next

abbrev pub qiids_to_pull : ℕ → Q → ℕ
qiids_to_pull qid q =
    let pull = (q.qids_nolock_pull qid).size in
    let most = if ltb pull q.qids_nolock_max then q.qids_nolock_max - pull else 0 in
    if ltb (q.qids qid).size most then (q.qids qid).size else most

-- shf_q_flush(): moving the first `n` items of the shared queue to the process's list, where `n` is
-- above 0.
unfoldable pub pull_locked : ℕ → ℕ → Q → Q
pull_locked n qid q =
    let locked = q.qids qid in
    let pull = q.qids_nolock_pull qid in
    let this_head = walk q.qiids (n - 1) locked.tail in
    let next_locked = (q.qiids this_head).next in
    let size = sub32 locked.size n in
    record q {
      qiids = link_behind q.qiids locked.tail this_head pull.head;
      qids_nolock_pull = update q.qids_nolock_pull qid (record {
        head = this_head;
        tail = if pull.head == qiid_none then locked.tail else pull.tail;
        size = u32 (pull.size + n);
      });
      qids = update q.qids qid (
          if size == 0
          then no_items
          else record { head = locked.head; tail = next_locked; size = size });
    }

-- shf_q_flush(): filling the process's list of a queue.
unfoldable pub flush_pull : ℕ → Q → Q
flush_pull qid q =
    if ltb 0 (qiids_to_pull qid q) then pull_locked (qiids_to_pull qid q) qid q else q

-- shf_q_flush()
unfoldable pub flush : ℕ → Q → Run Q
flush pull_qid q = do
  assert q.q_is_ready
  ok (let q₁ = flush_pushes q.qs 0 q in if pull_qid == qid_none then q₁ else flush_pull pull_qid q₁)

-- The part of shf_q_push_head() and shf_q_push_head_pull_tail() that links an item.
unfoldable pub push_item : ℕ → ℕ → Q → Q
push_item qid qiid q =
    let push = q.qids_nolock_push qid in
    record q {
      qiids = link_behind q.qiids qiid qiid push.head;
      qids_nolock_push = update q.qids_nolock_push qid (record {
        head = qiid;
        tail = if push.head == qiid_none then qiid else push.tail;
        size = u32 (push.size + 1);
      });
    }

-- shf_q_push_head()
unfoldable pub push_head : ℕ → ℕ → Q → Run Q
push_head qid qiid q = do
  assert q.q_is_ready
  if qiid == qiid_none
      then ok q
      else (let q₁ = push_item qid qiid q in
          if leb q.qids_nolock_max (q₁.qids_nolock_push qid).size then flush qid_none q₁ else ok q₁)

-- The part of shf_q_pull_tail() and shf_q_push_head_pull_tail() that takes an item.
unfoldable pub pull_item : ℕ → Q → ℕ × Q
pull_item qid q =
    let pull = q.qids_nolock_pull qid in
    let next = (q.qiids pull.tail).next in
    if pull.size == 0
    then (qiid_none, record q { qiid = qiid_none; qiid_addr = none; qiid_addr_len = 0 })
    else (
      pull.tail,
      record q {
        qids_nolock_pull = update q.qids_nolock_pull qid (record {
          head = if next == qiid_none then qiid_none else pull.head;
          tail = next;
          size = sub32 pull.size 1;
        });
        qiids = if next == qiid_none then q.qiids else set_last q.qiids next qiid_none;
        qiid = pull.tail;
        qiid_addr = some (u32 (pull.tail * q.q_item_size));
        qiid_addr_len = q.q_item_size;
      },
    )

-- shf_q_pull_tail()
unfoldable pub pull_tail : ℕ → Q → Run (ℕ × Q)
pull_tail qid q = do
  assert q.q_is_ready
  q₁ ← (if (q.qids_nolock_pull qid).size == 0 then flush qid q else ok q)
  ok (pull_item qid q₁)

-- shf_q_push_head_pull_tail()
unfoldable pub push_head_pull_tail : ℕ → ℕ → ℕ → Q → Run (ℕ × Q)
push_head_pull_tail push_qid push_qiid pull_qid q =
    let q₁ = if push_qiid == qiid_none then q else push_item push_qid push_qiid q in
    do
      assert q.q_is_ready
      q₂ ←
          (if leb q₁.qids_nolock_max (q₁.qids_nolock_push push_qid).size
              || (q₁.qids_nolock_pull pull_qid).size == 0
            then flush pull_qid q₁
            else ok q₁)
      ok (pull_item pull_qid q₂)
