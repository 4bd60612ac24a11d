-- ===== src/Queue/Loops.antt =====
-- What the loops of shf_q_new() do to the queues and to the items' links.
use sharedhashfile.Prelude.{
  ℕ, zero, suc, ◌+◌, ◌≤◌, ◌<◌, ◌≡◌, inl, inr, refl, ap, ◌∙◌, true, false, length, leb, arith, ◌==◌,
  Bool-cases, Returns,
}
use sharedhashfile.Prelude.Family.{update}
use sharedhashfile.Layout.{u32, sub32, qiid_none}
use sharedhashfile.Queue.{Q, Qid, Qiid, no_items}
use sharedhashfile.Queue.Seg.{Avoids, Distinct, Seg, last_of}
use sharedhashfile.Queue.New.{new_qids, new_qiids, upto}

-- The queues' lists after the loop over `n` queues from `i` on.
pub record Emptied (n i : ℕ) (q q' : Q) : Type 0 where
  pub push : ℕ → Qid
  pub pull : ℕ → Qid
  pub lock : ℕ → Qid
  pub same : q' ≡ record q { qids_nolock_push = push; qids_nolock_pull = pull; qids = lock }
  pub empty :
      (j : ℕ) → i ≤ j → j < i + n → (push j ≡ no_items) × (pull j ≡ no_items) × (lock j ≡ no_items)
  pub before :
      (j : ℕ)
      → j < i
      → (push j ≡ q.qids_nolock_push j) × (pull j ≡ q.qids_nolock_pull j) × (lock j ≡ q.qids j)

pub new_qids-Emptied : (n i : ℕ) (q : Q) → Emptied n i q (new_qids n i q)
unfolding new_qids
new_qids-Emptied zero i q = record {
  push = q.qids_nolock_push;
  pull = q.qids_nolock_pull;
  lock = q.qids;
  same = refl;
  empty = λ j l m. absurd (omega arith);
  before = λ j l. (refl, refl, refl);
}
new_qids-Emptied (suc n) i q =
    let q₁ = record q {
      qids_nolock_push = update q.qids_nolock_push i no_items;
      qids_nolock_pull = update q.qids_nolock_pull i no_items;
      qids = update q.qids i no_items;
    } in
    let rest = new_qids-Emptied n (i + 1) q₁ in
    record {
      push = rest.push;
      pull = rest.pull;
      lock = rest.lock;
      same = rest.same;
      empty = λ j l m. elim (Bool-cases (i == j)) [
        | inl e ↦
            let at : j < i + 1 = ground arith in
            let once = rest.before j at in
            (once.0 ∙ rw e refl, once.1 ∙ rw e refl, once.2 ∙ rw e refl)
        | inr e ↦ rest.empty j (ground arith) (omega arith)
      ];
      before = λ j l.
          let other : (i == j) ≡ false = ground arith in
          let once = rest.before j (omega arith) in
          (once.0 ∙ rw other refl, once.1 ∙ rw other refl, once.2 ∙ rw other refl);
    }

-- The items' links after the loop over `n` items from `i` on.
pub record Linked (n i : ℕ) (q q' : Q) : Type 0 where
  pub items : ℕ → Qiid
  pub same : q' ≡ record q { qiids = items }
  pub next : (j : ℕ) → i ≤ j → j < i + n → (items j).next ≡ u32 (j + 1)
  pub before : (j : ℕ) → j < i → items j ≡ q.qiids j

pub new_qiids-Linked :
    (n i : ℕ) (q : Q) → 9 ≤ q.q_item_size → Returns (Linked n i q) (new_qiids n i q)
unfolding new_qiids
new_qiids-Linked zero i q big = (
  q,
  refl,
  record {
    items = q.qiids;
    same = refl;
    next = λ j l m. absurd (omega arith);
    before = λ j l. refl;
  },
)
new_qiids-Linked (suc n) i q big =
    let fits : leb 9 q.q_item_size ≡ true = ground arith in
    let q₁ = record q {
      qiids = update q.qiids i (record { last = sub32 i 1; next = u32 (i + 1) });
    } in
    let (q', e, rest) = new_qiids-Linked n (i + 1) q₁ big in
    (
      q',
      rw fits e,
      record {
        items = rest.items;
        same = rest.same;
        next = λ j l m. elim (Bool-cases (i == j)) [
          | inl e' ↦
              let same : i ≡ j = ground arith in
              ap (λ (x : Qiid). x.next) (rest.before j (omega arith)) ∙ rw (e', same) refl
          | inr e' ↦ rest.next j (ground arith) (omega arith)
        ];
        before = λ j l.
            let other : (i == j) ≡ false = ground arith in
            rest.before j (omega arith) ∙ rw other refl;
      },
    )

pub upto-Seg :
    (m : ℕ → Qiid) (n i : ℕ)
    → ((j : ℕ) → i ≤ j → j < i + n → (m j).next ≡ j + 1)
    → (m (i + n)).next ≡ qiid_none
    → i + n < qiid_none
    → Seg m i (upto (suc n) i) qiid_none
upto-Seg m zero i next last small =
    let same : i + 0 ≡ i = omega arith in (refl, omega arith, rw same at last)
upto-Seg m (suc n) i next last small =
    let same : i + suc n ≡ (i + 1) + n = omega arith in
    (
      refl,
      omega arith,
      rw (next i (omega arith) (omega arith)) (
          upto-Seg m n (i + 1) (λ j l k. next j (omega arith) (omega arith)) (rw same at last)
            (omega arith)),
    )

pub upto-last : (n i d : ℕ) → last_of d (upto (suc n) i) ≡ i + n
upto-last zero i d = omega arith
upto-last (suc n) i d = upto-last n (i + 1) i ∙ (omega arith)

pub length-upto : (n i : ℕ) → length (upto n i) ≡ n
length-upto zero i = refl
length-upto (suc n) i = ap suc (length-upto n (i + 1))

pub upto-Avoids : (n i x : ℕ) → x < i → Avoids x (upto n i)
upto-Avoids zero i x l = tt
upto-Avoids (suc n) i x l = ((λ e. absurd (omega arith)), upto-Avoids n (i + 1) x (omega arith))

pub upto-Distinct : (n i : ℕ) → Distinct (upto n i)
upto-Distinct zero i = tt
upto-Distinct (suc n) i = (upto-Avoids n (i + 1) i (omega arith), upto-Distinct n (i + 1))
