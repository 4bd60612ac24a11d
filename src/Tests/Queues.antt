-- ===== src/Tests/Queues.antt =====
-- Runs of the queues from a concrete state.
use sharedhashfile.Prelude.{
  ℕ, zero, suc, ◌+◌, ◌≡◌, refl, true, List, [], ◌∷◌, leb, ◌==◌, if◌then◌else◌, none, Run, ok, abort,
}
use sharedhashfile.Layout.{qiid_none}
use sharedhashfile.Queue.{
  Q, no_items, push_item, pull_item, flush_push, flush_pull, flush_pushes, flush, push_head,
  pull_tail, link_behind, pull_locked, walk,
}

-- The first queue of three holds the items 0, 1 and 2; item 3 was pushed to it, and item 5 pulled.
abbrev pub state : Q
state = record {
  qs = 3;
  q_items = 6;
  q_item_size = 16;
  qids_nolock_max = 2;
  qids_nolock_push = λ qid. if qid == 0 then record { head = 3; tail = 3; size = 1 } else no_items;
  qids_nolock_pull = λ qid. if qid == 0 then record { head = 5; tail = 5; size = 1 } else no_items;
  qids = λ qid. if qid == 0 then record { head = 2; tail = 0; size = 3 } else no_items;
  qiids = λ i. record { last = qiid_none; next = if leb 2 i then qiid_none else i + 1 };
  q_is_ready = true;
  qiid = qiid_none;
  qiid_addr = none;
  qiid_addr_len = 0;
}

-- The items that `n` pulls from the first queue return.
abbrev with_pulled : (Q → List ℕ) → Run (ℕ × Q) → List ℕ
with_pulled rest (ok (x, q)) = x ∷ rest q
with_pulled rest abort = []

abbrev pulls : ℕ → Q → List ℕ
pulls zero q = []
pulls (suc n) q = let rest = pulls n in with_pulled rest (pull_tail 0 q)

in_order : pulls 6 state ≡ (5 ∷ 0 ∷ 1 ∷ 2 ∷ 3 ∷ qiid_none ∷ [])
unfolding pull_tail flush flush_pushes flush_push flush_pull pull_locked link_behind walk pull_item
in_order = refl

abbrev after_push : Run Q → List ℕ
after_push (ok q) = pulls 6 q
after_push abort = []

pushed_last : after_push (push_head 0 4 state) ≡ (5 ∷ 0 ∷ 1 ∷ 2 ∷ 3 ∷ 4 ∷ [])
unfolding push_head push_item pull_tail flush flush_pushes flush_push flush_pull pull_locked
    link_behind walk pull_item
pushed_last = refl
