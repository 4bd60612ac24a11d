-- ===== src/Tests/Ends.antt =====
-- The theorems on whole queues at the queues that shf_q_new() makes.
use sharedhashfile.Prelude.{
  ℕ, zero, suc, ◌==◌, ◌<◌, ◌≡◌, refl, ◌>>=◌, false, none, arith, inr, List, length, Run, ok, abort,
  Returns,
}
use sharedhashfile.Layout.{qiid_none}
use sharedhashfile.Queue.{
  Q, no_items, flush, flush_pushes, flush_push, flush_pull, link_behind, pull_locked, walk,
  push_item, pull_item, push_head, pull_tail, push_head_pull_tail,
}
use sharedhashfile.Queue.Seg.{Avoids}
use sharedhashfile.Queue.New.{
  new_keys, new, set_up, new_qids, new_qiids, new_first, at_first, get, get_qids,
}
use sharedhashfile.Queue.First.{Made, set_up-Made}
use sharedhashfile.Queue.Create.{Creates, new-Creates}
use sharedhashfile.Win.{fresh_win}
use sharedhashfile.Tests.{opts, vfs, roomy, fresh_win-WinValid, fresh_win-Within}
use sharedhashfile.Queue.Fifo.{Fifo}
use sharedhashfile.Queue.Taken.{Took}
use sharedhashfile.Queue.Added.{Pushable}
use sharedhashfile.Queue.Ends.{queued, pull_tail-Fifo, push_head-Fifo, push_head_pull_tail-Fifo}

abbrev blank : Q
blank = record {
  qs = 0;
  q_items = 0;
  q_item_size = 0;
  qids_nolock_max = 0;
  qids_nolock_push = λ i. no_items;
  qids_nolock_pull = λ i. no_items;
  qids = λ i. no_items;
  qiids = λ i. record { last = 0; next = 0 };
  q_is_ready = false;
  qiid = qiid_none;
  qiid_addr = none;
  qiid_addr_len = 0;
}

abbrev sized : Q
sized = record blank { qs = 3; q_items = 4; q_item_size = 16; qids_nolock_max = 2 }

-- What shf_make_hash() makes of a key is the number of its bytes.
abbrev few_bytes : List ℕ → ℕ
few_bytes key = length key

new_example :
    Creates opts
      (new_keys few_bytes 44 sized)
      (λ i. fresh_win)
      3
      4
      (new few_bytes 44 opts vfs 2048 3 4 16 2 (λ i. fresh_win) blank)
new_example =
    new-Creates few_bytes 44 opts vfs 100000 1000000 2048 (λ i. fresh_win) blank 3 4 16 2 refl
      (omega arith) (omega arith) (omega arith) (omega arith) (omega arith) (omega arith)
      (omega arith) (omega arith) (omega arith) refl roomy (omega arith) (omega arith)
      (λ i. fresh_win-WinValid) (λ i. fresh_win-Within)

start : Returns (Made 3 4) (set_up sized)
start =
    set_up-Made sized (omega arith) (omega arith) (omega arith) (omega arith) (omega arith)
      (omega arith) (omega arith)

three : 0 < start.0.qs
three = omega (arith, start.2.1)

pull_tail-Fifo_example : Returns (Took 0 (at_first 4) (at_first 4 0)) (pull_tail 0 start.0)
pull_tail-Fifo_example = pull_tail-Fifo 0 start.0 (at_first 4) start.2.0 three

fresh_four : (j : ℕ) → j < start.0.qs → Avoids 4 (at_first 4 j)
fresh_four zero l = (omega arith, (omega arith, (omega arith, (omega arith, tt))))
fresh_four (suc j) l = let other : (suc j == 0) ≡ false = ground arith in rw other tt

pushable : Pushable start.0 (at_first 4) 1 4
pushable = record {
  queue = omega (arith, start.2.1);
  small = omega arith;
  fresh = fresh_four;
  room = omega arith;
}

push_head-Fifo_example :
    Returns (λ q'. Fifo q' (queued 1 4 (at_first 4)) × (q'.qs ≡ start.0.qs)) (push_head 1 4 start.0)
push_head-Fifo_example = push_head-Fifo 1 4 start.0 (at_first 4) start.2.0 (inr pushable)

push_head_pull_tail-Fifo_example :
    Returns
      (Took 1 (queued 1 4 (at_first 4)) (queued 1 4 (at_first 4) 1))
      (push_head_pull_tail 1 4 1 start.0)
push_head_pull_tail-Fifo_example =
    push_head_pull_tail-Fifo 1 4 1 start.0 (at_first 4) start.2.0 (inr pushable)
      (omega (arith, start.2.1))

-- A process makes the queues and moves two items to queue 1; another attaches and pulls one there.
abbrev first_pulled : Run (ℕ × Q) → ℕ
first_pulled (ok (x, q)) = x
first_pulled abort = qiid_none

abbrev moved_items : Run Q
moved_items = do
  q ← set_up sized
  (x, q₁) ← pull_tail 0 q
  (y, q₂) ← push_head_pull_tail 1 x 0 q₁
  push_head 1 y q₂

abbrev attached_pull : Run Q → Run (ℕ × Q)
attached_pull (ok q) = pull_tail 1 (get q blank)
attached_pull abort = abort

attached : first_pulled (attached_pull moved_items) ≡ 0
unfolding set_up new_qids new_qiids new_first get get_qids push_head push_item pull_tail
    push_head_pull_tail flush flush_pushes flush_push flush_pull pull_locked link_behind walk
    pull_item
attached = refl
