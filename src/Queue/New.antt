-- ===== src/Queue/New.antt =====
-- shf_q_new(), shf_q_get() and shf_q_is_ready() of src/shf.c: creating the queues. Where the values of
-- the keys for the arrays lie, and malloc(), are left out: an array holds what it held before until
-- the code writes it.
use sharedhashfile.Prelude.{
  ℕ, zero, suc, ◌+◌, ◌-◌, ◌*◌, ◌/◌, ◌%◌, Bool, true, false, Option, none, some, List, [], ◌∷◌, ltb,
  leb, ◌==◌, if◌then◌else◌, ok, Run, assert, ◌>>=◌, ◌>>◌,
}
use mathlib.Core.Bool.{not}
use sharedhashfile.Prelude.Family.{update}
use sharedhashfile.Layout.{u32, sub32, qid_none, uid_none, hash_win}
use sharedhashfile.Tab.{Opts, Vfs, Val, given, reserve}
use sharedhashfile.Win.{Win}
use sharedhashfile.Put.{Hashed, put_key_val}
use sharedhashfile.Queue.{Q, no_items}

-- The first loop of shf_q_new(), over `n` queues from `i` on.
unfoldable pub new_qids : ℕ → ℕ → Q → Q
new_qids zero i q = q
new_qids (suc n) i q = new_qids n (i + 1) (record q {
  qids_nolock_push = update q.qids_nolock_push i no_items;
  qids_nolock_pull = update q.qids_nolock_pull i no_items;
  qids = update q.qids i no_items;
})

-- The second loop of shf_q_new(), over `n` items from `i` on. Writing the item's number into the
-- item is left out.
unfoldable pub new_qiids : ℕ → ℕ → Q → Run Q
new_qiids zero i q = ok q
new_qiids (suc n) i q = do
  assert (leb 9 q.q_item_size)
  new_qiids n (i + 1)
      (record q { qiids = update q.qiids i (record { last = sub32 i 1; next = u32 (i + 1) }) })

-- shf_q_new(), after its loops: all items are in queue 0.
unfoldable pub new_first : Q → Q
new_first q =
    let m = update q.qiids 0 (record (q.qiids 0) { last = qid_none }) in
    let last = q.q_items - 1 in
    record q {
      qiids = update m last (record (m last) { next = qid_none });
      qids = update q.qids 0 (record { head = last; tail = 0; size = q.q_items });
      qiid_addr = some 0;
      qiid_addr_len = u32 (q.q_item_size * q.q_items);
      q_is_ready = true;
    }

-- shf_q_new(), from its loops on. The arrays of queues and of items take 12 and 8 bytes for each; a
-- loop that would write behind its value, whose length is 32 bits wide, is fatal.
unfoldable pub set_up : Q → Run Q
set_up q = do
  assert (leb (q.qs * 12) (u32 (q.qs * 12)))
  assert (leb (q.q_items * 8) (u32 (q.q_items * 8)))
  assert (leb (q.q_items * q.q_item_size) (u32 (q.q_items * q.q_item_size)))
  q₂ ← new_qiids q.q_items 0 (new_qids q.qs 0 q)
  ok (new_first q₂)

-- The keys that shf_q_new() puts, with their values: the numbers, and space for the arrays, the lock
-- and the items. `make_hash` is shf_make_hash(), and `lock_size` the size of the lock.
abbrev pub u32_bytes : ℕ → List ℕ
u32_bytes n = n % 256 ∷ (n / 256) % 256 ∷ (n / 65536) % 256 ∷ (n / 16777216) % 256 ∷ []

-- "__qs", "__q_items", "__q_item_size", "__qids_nolock_max", "__qids", "__qiids", "__q_lock" and
-- "__q_items_addr"
abbrev pub key_qs : List ℕ
key_qs = 95 ∷ 95 ∷ 113 ∷ 115 ∷ []

abbrev pub key_q_items : List ℕ
key_q_items = 95 ∷ 95 ∷ 113 ∷ 95 ∷ 105 ∷ 116 ∷ 101 ∷ 109 ∷ 115 ∷ []

abbrev pub key_q_item_size : List ℕ
key_q_item_size = 95 ∷ 95 ∷ 113 ∷ 95 ∷ 105 ∷ 116 ∷ 101 ∷ 109 ∷ 95 ∷ 115 ∷ 105 ∷ 122 ∷ 101 ∷ []

abbrev pub key_qids_nolock_max : List ℕ
key_qids_nolock_max =
    95 ∷ 95 ∷ 113 ∷ 105 ∷ 100 ∷ 115 ∷ 95 ∷ 110 ∷ 111 ∷ 108 ∷ 111 ∷ 99 ∷ 107 ∷ 95 ∷ 109 ∷ 97 ∷ 120
    ∷ []

abbrev pub key_qids : List ℕ
key_qids = 95 ∷ 95 ∷ 113 ∷ 105 ∷ 100 ∷ 115 ∷ []

abbrev pub key_qiids : List ℕ
key_qiids = 95 ∷ 95 ∷ 113 ∷ 105 ∷ 105 ∷ 100 ∷ 115 ∷ []

abbrev pub key_q_lock : List ℕ
key_q_lock = 95 ∷ 95 ∷ 113 ∷ 95 ∷ 108 ∷ 111 ∷ 99 ∷ 107 ∷ []

abbrev pub key_q_items_addr : List ℕ
key_q_items_addr = 95 ∷ 95 ∷ 113 ∷ 95 ∷ 105 ∷ 116 ∷ 101 ∷ 109 ∷ 115 ∷ 95 ∷ 97 ∷ 100 ∷ 100 ∷ 114 ∷ []

abbrev pub hashed_key : (List ℕ → ℕ) → List ℕ → Hashed
hashed_key make_hash key = record { hash = make_hash key; key = key }

abbrev pub new_keys : (List ℕ → ℕ) → ℕ → Q → List (Hashed × Val)
new_keys make_hash lock_size q =
    (hashed_key make_hash key_qs, given (u32_bytes q.qs))
    ∷ (hashed_key make_hash key_q_items, given (u32_bytes q.q_items))
    ∷ (hashed_key make_hash key_q_item_size, given (u32_bytes q.q_item_size))
    ∷ (hashed_key make_hash key_qids_nolock_max, given (u32_bytes q.qids_nolock_max))
    ∷ (hashed_key make_hash key_qids, reserve (u32 (q.qs * 12)))
    ∷ (hashed_key make_hash key_qiids, reserve (u32 (q.q_items * 8)))
    ∷ (hashed_key make_hash key_q_lock, reserve lock_size)
    ∷ (hashed_key make_hash key_q_items_addr, reserve (u32 (q.q_items * q.q_item_size)))
    ∷ []

-- The UIDs of the keys put, and the windows.
abbrev pub Puts : Type 0
Puts = Option (List ℕ × (ℕ → Win))

abbrev pub also : ℕ → Puts → Run Puts
also uid none = ok none
also uid (some (uids, wins)) = ok (some (uid ∷ uids, wins))

abbrev pub put_rest : ((ℕ → Win) → Run Puts) → ℕ → (ℕ → Win) → Option (ℕ × Win) → Run Puts
put_rest rest i wins none = ok none
put_rest rest i wins (some (uid, w)) = rest (update wins i w) >>= also uid

-- shf_put_key_val() for each key, in the window of its hash; `none` if the rounds ran out.
unfoldable pub put_all : Opts → Vfs → ℕ → List (Hashed × Val) → (ℕ → Win) → Run Puts
put_all o vfs rounds [] wins = ok (some ([], wins))
put_all o vfs rounds (k ∷ ks) wins =
    put_key_val o vfs rounds k.0 k.1 (wins (hash_win k.0.hash))
    >>= put_rest (put_all o vfs rounds ks) (hash_win k.0.hash) wins

-- The assertions that no UID is SHF_UID_NONE.
abbrev pub all_put : List ℕ → Bool
all_put [] = true
all_put (uid ∷ uids) = if uid == uid_none then false else all_put uids

abbrev pub after_puts : Q → Puts → Run (Option (Q × (ℕ → Win)))
after_puts q none = ok none
after_puts q (some (uids, wins)) = do assert (all_put uids); q' ← set_up q; ok (some (q', wins))

-- shf_q_new()
unfoldable pub new :
    (List ℕ → ℕ) → ℕ → Opts → Vfs → ℕ → ℕ → ℕ → ℕ → ℕ → (ℕ → Win) → Q → Run (Option (Q × (ℕ → Win)))
new make_hash lock_size o vfs rounds qs q_items q_item_size qids_nolock_max wins q =
    let q₁ = record q {
      qs = qs;
      q_items = q_items;
      q_item_size = q_item_size;
      qids_nolock_max = qids_nolock_max;
    } in
    do
      assert (not q₁.q_is_ready)
      assert (ltb 2 qs)
      assert (ltb 1 q_items)
      assert (ltb 0 qids_nolock_max)
      assert (ltb qids_nolock_max q_items)
      put_all o vfs rounds (new_keys make_hash lock_size q₁) wins >>= after_puts q₁

-- The loop of shf_q_get(), over `n` queues from `i` on.
unfoldable pub get_qids : ℕ → ℕ → Q → Q
get_qids zero i q = q
get_qids (suc n) i q = get_qids n (i + 1) (record q {
  qids_nolock_push = update q.qids_nolock_push i no_items;
  qids_nolock_pull = update q.qids_nolock_pull i no_items;
})

-- shf_q_get(), once the keys are found: `shared` is what they hold.
unfoldable pub get : Q → Q → Q
get shared q =
    let q₁ = record q {
      qs = shared.qs;
      q_items = shared.q_items;
      q_item_size = shared.q_item_size;
      qids_nolock_max = shared.qids_nolock_max;
      qids = shared.qids;
      qiids = shared.qiids;
      qiid_addr = some 0;
      qiid_addr_len = u32 (shared.q_item_size * shared.q_items);
    } in
    record (get_qids q₁.qs 0 q₁) { q_is_ready = true }

-- shf_q_is_ready()
unfoldable pub is_ready : Q → Bool
is_ready q = q.q_is_ready

-- The items from `i` on, `n` of them.
abbrev pub upto : ℕ → ℕ → List ℕ
upto zero i = []
upto (suc n) i = i ∷ upto n (i + 1)

-- What the queues hold at first: all items are in queue 0.
abbrev pub at_first : ℕ → ℕ → List ℕ
at_first q_items i = if i == 0 then upto q_items 0 else []
