-- ===== src/Queue/First.antt =====
-- What shf_q_new() makes: queue 0 with all items, and the other queues empty.
use sharedhashfile.Prelude.{
  ℕ, suc, ◌+◌, ◌-◌, ◌^◌, ◌≤◌, ◌<◌, ◌≡◌, ◌≢◌, inl, inr, refl, ap, sym, ◌∙◌, true, false, List, [],
  ◌∷◌, length, leb, ◌*◌, arith, ◌==◌, Bool-cases, ok, ◌>>=◌, Returns, assert-Returns,
}
use sharedhashfile.Layout.{u32, qid_none, qiid_none}
use sharedhashfile.Queue.{Q, Qid, Qiid, no_items}
use sharedhashfile.Queue.Seg.{Distinct, Disjoint, IsList, append_nil}
use sharedhashfile.Queue.Fifo.{Lists, contents, Holds, Fifo}
use sharedhashfile.Queue.New.{new_qids, new_qiids, new_first, set_up, upto, at_first}
use sharedhashfile.Queue.Loops.{
  Emptied, new_qids-Emptied, Linked, new_qiids-Linked, upto-Seg, upto-last, length-upto,
  upto-Distinct,
}

-- What the queues are once the loops of shf_q_new() ended.
record Looped (q : Q) : Type 0 where
  push : (j : ℕ) → j < q.qs → q.qids_nolock_push j ≡ no_items
  pull : (j : ℕ) → j < q.qs → q.qids_nolock_pull j ≡ no_items
  lock : (j : ℕ) → j < q.qs → q.qids j ≡ no_items
  next : (j : ℕ) → j < q.q_items → (q.qiids j).next ≡ u32 (j + 1)
  some_queues : 2 < q.qs
  few : q.qs ≤ qid_none
  some_items : 1 < q.q_items
  small : q.q_items ≤ qiid_none
  most : 1 ≤ q.qids_nolock_max

none-IsList : (m : ℕ → Qiid) (d : Qid) → d ≡ no_items → IsList m d []
none-IsList m d e = rw e (record { linked = refl; ends = refl; sized = refl })

abbrev first_lists : ℕ → Lists
first_lists q_items = record { push = λ i. []; lock = at_first q_items; pull = λ i. [] }

first-next : (q : Q) → Looped q → (j : ℕ) → j < q.q_items - 1 → ((new_first q).qiids j).next ≡ j + 1
unfolding new_first
first-next q h j l =
    let e = h.next j (omega arith) in
    let w : u32 (j + 1) ≡ j + 1 = omega (arith, h.small) in
    let other : (q.q_items - 1 == j) ≡ false = ground arith in
    elim (Bool-cases (0 == j)) [
      | inl z ↦ let at : 0 ≡ j = ground arith in rw (other, z, at) (e ∙ w)
      | inr z ↦ rw (other, z) (e ∙ w)
    ]

first-last : (q : Q) → ((new_first q).qiids (q.q_items - 1)).next ≡ qiid_none
unfolding new_first
first-last q = let here : (q.q_items - 1 == q.q_items - 1) ≡ true = ground arith in rw here refl

first-IsList :
    (q : Q) → Looped q → IsList (new_first q).qiids ((new_first q).qids 0) (upto q.q_items 0)
unfolding new_first
first-IsList q h =
    let all_items : q.q_items ≡ suc (q.q_items - 1) = omega (arith, h.some_items) in
    let from_zero : 0 + (q.q_items - 1) ≡ q.q_items - 1 = omega arith in
    let seg =
      upto-Seg (new_first q).qiids (q.q_items - 1) 0 (λ j _ l. first-next q h j (omega arith))
        (rw from_zero (first-last q)) (omega (arith, h.small, h.some_items)) in
    record {
      linked = rw (ap (λ (n : ℕ). upto n 0) all_items) seg;
      ends =
          rw (ap (λ (n : ℕ). upto n 0) all_items)
            (sym (upto-last (q.q_items - 1) 0 qiid_none ∙ from_zero));
      sized = sym (length-upto q.q_items 0);
    }

first-contents : (q_items i : ℕ) → contents (first_lists q_items) i ≡ at_first q_items i
first-contents q_items i = append_nil (at_first q_items i)

first-empty :
    (q : Q) → Looped q → (i : ℕ) → i < q.qs → (0 == i) ≡ false → (new_first q).qids i ≡ no_items
unfolding new_first
first-empty q h i l e = rw e (h.lock i l)

at_first-Distinct : (q_items i : ℕ) → Distinct (at_first q_items i)
at_first-Distinct q_items i = elim (Bool-cases (i == 0)) [
  | inl e ↦ rw e (upto-Distinct q_items 0)
  | inr e ↦ rw e tt
]

Disjoint-none : (xs : List ℕ) → Disjoint xs []
Disjoint-none [] = tt
Disjoint-none (x ∷ xs) = (tt, Disjoint-none xs)

at_first-Disjoint : (q_items i j : ℕ) → i ≢ j → Disjoint (at_first q_items i) (at_first q_items j)
at_first-Disjoint q_items i j ne = elim (Bool-cases (i == 0)) [
  | inl e ↦
      let other : (j == 0) ≡ false = ground arith in rw (e, other) (Disjoint-none (upto q_items 0))
  | inr e ↦ rw e tt
]

at_first-short : (q_items i : ℕ) → q_items ≤ qiid_none → length (at_first q_items i) < 2 ^ 32
at_first-short q_items i small = elim (Bool-cases (i == 0)) [
  | inl e ↦ rw e (omega (arith, length-upto q_items 0, small))
  | inr e ↦ rw e (omega arith)
]

first-lock :
    (q : Q)
    → Looped q
    → (i : ℕ) → i < q.qs
    → IsList (new_first q).qiids ((new_first q).qids i) (at_first q.q_items i)
first-lock q h i l = elim (Bool-cases (0 == i)) [
  | inl e ↦ let at : 0 ≡ i = ground arith in rw (← at) (first-IsList q h)
  | inr e ↦
      let other : (i == 0) ≡ false = ground arith in
      rw other (none-IsList (new_first q).qiids ((new_first q).qids i) (first-empty q h i l e))
]

first-Holds : (q : Q) → Looped q → Holds (new_first q) (first_lists q.q_items)
unfolding new_first
first-Holds q h = record {
  ready = refl;
  most = h.most;
  few = h.few;
  pushes = λ i l. none-IsList _ _ (h.push i l);
  locks = first-lock q h;
  pulls = λ i l. none-IsList _ _ (h.pull i l);
  distinct = λ i l. rw (first-contents q.q_items i) (at_first-Distinct q.q_items i);
  apart = λ i j l m ne.
      rw (first-contents q.q_items i, first-contents q.q_items j)
        (at_first-Disjoint q.q_items i j ne);
  short = λ i l. rw (first-contents q.q_items i) (at_first-short q.q_items i h.small);
}

loops-Looped :
    (qs q_items : ℕ) (q₁ q₂ q₃ : Q)
    → q₁.qs ≡ qs
    → q₁.q_items ≡ q_items
    → Emptied qs 0 q₁ q₂
    → Linked q_items 0 q₂ q₃
    → 2 < qs
    → qs ≤ qid_none
    → 1 < q_items
    → q_items ≤ qiid_none
    → 1 ≤ q₁.qids_nolock_max
    → Looped q₃ × (q₃.qs ≡ qs) × (q₃.q_items ≡ q_items)
loops-Looped qs q_items q₁ q₂ q₃ e e' a b two few items small most =
    let same_qs : q₃.qs ≡ qs = ap (λ (x : Q). x.qs) b.same ∙ ap (λ (x : Q). x.qs) a.same ∙ e in
    let same_items : q₃.q_items ≡ q_items =
      ap (λ (x : Q). x.q_items) b.same ∙ ap (λ (x : Q). x.q_items) a.same ∙ e' in
    let same_most : q₃.qids_nolock_max ≡ q₁.qids_nolock_max =
      ap (λ (x : Q). x.qids_nolock_max) b.same ∙ ap (λ (x : Q). x.qids_nolock_max) a.same in
    (
      record {
        push = λ j l.
            ap (λ (x : Q). x.qids_nolock_push j) b.same
            ∙ ap (λ (x : Q). x.qids_nolock_push j) a.same
            ∙ (a.empty j (omega arith) (omega (arith, same_qs))).0;
        pull = λ j l.
            ap (λ (x : Q). x.qids_nolock_pull j) b.same
            ∙ ap (λ (x : Q). x.qids_nolock_pull j) a.same
            ∙ (a.empty j (omega arith) (omega (arith, same_qs))).1;
        lock = λ j l.
            ap (λ (x : Q). x.qids j) b.same
            ∙ ap (λ (x : Q). x.qids j) a.same
            ∙ (a.empty j (omega arith) (omega (arith, same_qs))).2;
        next = λ j l.
            ap (λ (x : Q). (x.qiids j).next) b.same
            ∙ b.next j (omega arith) (omega (arith, same_items));
        some_queues = omega (arith, same_qs);
        few = omega (arith, same_qs);
        some_items = omega (arith, same_items);
        small = omega (arith, same_items);
        most = omega (arith, same_most);
      },
      same_qs,
      same_items,
    )

-- What shf_q_new() returns.
abbrev pub Made : ℕ → ℕ → Q → Type 0
Made qs q_items q' = Fifo q' (at_first q_items) × (q'.qs ≡ qs)

first-Made :
    (q : Q) (qs q_items : ℕ)
    → Looped q
    → q.qs ≡ qs
    → q.q_items ≡ q_items
    → Made qs q_items (new_first q)
unfolding new_first
first-Made q qs q_items h e e' = (
  record {
    lists = first_lists q.q_items;
    holds = first-Holds q h;
    same = λ i l. rw (← e') (first-contents q.q_items i);
  },
  e,
)

-- Setting up the queues with numbers in range, items of at least 9 bytes, and arrays of fewer than
-- 2 ^ 32 bytes.
pub set_up-Made :
    (q : Q)
    → 2 < q.qs
    → q.qs * 12 < 2 ^ 32
    → 1 < q.q_items
    → q.q_items * 8 < 2 ^ 32
    → q.q_items * q.q_item_size < 2 ^ 32
    → 1 ≤ q.qids_nolock_max
    → 9 ≤ q.q_item_size
    → Returns (Made q.qs q.q_items) (set_up q)
unfolding set_up
set_up-Made q two few items small space most big =
    let a = new_qids-Emptied q.qs 0 q in
    let size : (new_qids q.qs 0 q).q_item_size ≡ q.q_item_size =
      ap (λ (x : Q). x.q_item_size) a.same in
    let (q₃, made, b) =
      new_qiids-Linked q.q_items 0 (new_qids q.qs 0 q) (omega (arith, size, big)) in
    let (h, same_qs, same_items) =
      loops-Looped q.qs q.q_items q (new_qids q.qs 0 q) q₃ refl refl a b two (omega arith) items
        (omega arith) most in
    let made_ready : Returns (Made q.qs q.q_items)
        (new_qiids q.q_items 0 (new_qids q.qs 0 q) >>= λ q₂. ok (new_first q₂)) =
      rw made (new_first q₃, refl, first-Made q₃ q.qs q.q_items h same_qs same_items) in
    assert-Returns (Made q.qs q.q_items) (leb (q.qs * 12) (u32 (q.qs * 12))) _ (ground arith) (
      assert-Returns (Made q.qs q.q_items) (leb (q.q_items * 8) (u32 (q.q_items * 8))) _
        (ground arith)
        (assert-Returns (Made q.qs q.q_items)
          (leb (q.q_items * q.q_item_size) (u32 (q.q_items * q.q_item_size))) _ (ground arith)
          made_ready))
