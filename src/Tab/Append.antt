-- ===== src/Tab/Append.antt =====
-- SHF_TAB_APPEND finds room and writes the record behind the used bytes.
use sharedhashfile.Prelude.{
  ℕ, ◌+◌, ◌*◌, ◌-◌, ◌≤◌, ◌<◌, ◌^◌, ◌≡◌, inl, inr, refl, true, false, ◌&&◌, List, length, ◌==◌,
  arith, Returns, ok, Bool-cases, ltb, leb,
}
use mathlib.Core.Bool.{not}
use sharedhashfile.Layout.{u64, u32, sub32, mod_page}
use sharedhashfile.Layout.Laws.{mod_page_bounds}
use sharedhashfile.Tab.{
  TabMmap, Opts, Vfs, Val, val_len, len_len, data_needed, grow, put_record, append_at_end, append,
}
use sharedhashfile.Tab.Valid.{NoReuse, Roomy}

-- `t'` is `t`, perhaps bigger, with the record appended.
pub record Appended (o : Opts) (key : List ℕ) (val : Val) (t : TabMmap) (p : ℕ × TabMmap)
    : Type 0 where
  pub at : p.0 ≡ t.tab_used
  pub used : p.1.tab_used ≡ t.tab_used + data_needed o (length key) (val_len val)
  pub fits : p.1.tab_used ≤ p.1.tab_size
  pub sized : p.1.tab_size < 2 ^ 32
  pub rows : p.1.row ≡ t.row
  pub mem : p.1.mem ≡ put_record o t.mem t.tab_used key val
  pub free_pos : p.1.tab_data_free_pos ≡ t.tab_data_free_pos
  pub free : p.1.tab_data_free ≡ t.tab_data_free
  pub counted : p.1.tab_data_used ≡ u32 (t.tab_data_used + data_needed o (length key) (val_len val))
  pub refs : p.1.tab_refs_used ≡ u32 (t.tab_refs_used + 1)

-- The new size that SHF_MOD_PAGE gives has room for the record, and still is a 32-bit number.
page_bounds :
    (size needed f n : ℕ)
    → 1 ≤ f
    → 0 < needed
    → needed ≤ n
    → size < n
    → n * f + n + 8192 ≤ 2 ^ 32
    → (size + needed ≤ mod_page (size + needed * f)) × (mod_page (size + needed * f) < 2 ^ 32)
page_bounds size needed f n one pos few short bound =
    let (lo, hi, _) =
      mod_page_bounds (size + needed * f) (omega (arith, more)) (omega (arith, less)) in
    (omega (arith, more), omega (arith, less))
  where
    more : needed ≤ needed * f
    more = grind arith

    less : needed * f ≤ n * f
    less = grind arith

le→leb : (a b : ℕ) → a ≤ b → leb a b ≡ true
le→leb a b h = ground arith

no_reuse :
    (o : Opts) (t : TabMmap)
    → NoReuse o t
    → (o.is_fixed_key_val_len && not (t.tab_data_free_pos == 0)) ≡ false
no_reuse o t h = ground arith

-- The growth leaves everything but the size, which has room for `needed` bytes.
grow_lem :
    (o : Opts) (vfs : Vfs) (n needed : ℕ) (t : TabMmap)
    → Roomy o vfs n
    → t.tab_used ≤ t.tab_size
    → t.tab_size < 2 ^ 32
    → 0 < needed
    → t.tab_used + needed ≤ n
    → (s : ℕ) × (grow o vfs needed t ≡ ok (record t { tab_size = s }))
      × (t.tab_used + needed ≤ s)
      × (s < 2 ^ 32)
unfolding grow
grow_lem o vfs n needed t roomy fits sized pos small =
    elim (Bool-cases (ltb (sub32 t.tab_size t.tab_used) needed)) [
      | inr enough ↦ (t.tab_size, rw enough, ground arith, sized)
      | inl short ↦
          let (lo, hi) =
            page_bounds t.tab_size needed o.data_needed_factor n roomy.factor pos (omega arith)
              (ground arith) roomy.bound in
          (
            u32 (mod_page (t.tab_size + needed * o.data_needed_factor)),
            rw (
              short,
              le→leb
                  (u64
                    (mod_page (t.tab_size + needed * o.data_needed_factor) + (2 ^ 64 - t.tab_size)))
                  (vfs t) (omega (arith, roomy.space t, lo, hi)),
            ),
            omega arith,
            omega arith,
          )
    ]

append_at_end-Appended :
    (o : Opts) (key : List ℕ) (val : Val) (t : TabMmap) (s : ℕ)
    → t.tab_used + data_needed o (length key) (val_len val) ≤ s
    → s < 2 ^ 32
    → Returns (Appended o key val t) (append_at_end o key val (record t { tab_size = s }))
unfolding append_at_end
append_at_end-Appended o key val t s room sized =
    let needed = data_needed o (length key) (val_len val) in
    (
      (
        t.tab_used,
        record t {
          tab_size = s;
          mem = put_record o t.mem t.tab_used key val;
          tab_used = u32 (t.tab_used + needed);
          tab_refs_used = u32 (t.tab_refs_used + 1);
          tab_data_used = u32 (t.tab_data_used + needed);
        },
      ),
      rw (
        le→leb (u32 (t.tab_used + 1 + len_len o + length key)) s (omega arith),
        le→leb (u32 (t.tab_used + needed)) s (omega arith),
      ),
      record {
        at = refl;
        used = omega arith;
        fits = omega arith;
        sized = sized;
        rows = refl;
        mem = refl;
        free_pos = refl;
        free = refl;
        counted = refl;
        refs = refl;
      },
    )

-- Where the tab's size is a 32-bit number with the used bytes inside, growing to `n` bytes cannot
-- fail, the record fits into `n` bytes, and no deleted record is taken, SHF_TAB_APPEND succeeds: the
-- record is written at the old end of the tab, inside the new size, and is counted; nothing else
-- but the size changes.
pub append-Appended :
    (o : Opts) (vfs : Vfs) (n : ℕ) (key : List ℕ) (val : Val) (t : TabMmap)
    → Roomy o vfs n
    → t.tab_used ≤ t.tab_size
    → t.tab_size < 2 ^ 32
    → NoReuse o t
    → t.tab_used + data_needed o (length key) (val_len val) ≤ n
    → Returns (Appended o key val t) (append o vfs key val t)
unfolding append
append-Appended o vfs n key val t roomy fits sized fresh small =
    let (s, e, room, below) =
      grow_lem o vfs n (data_needed o (length key) (val_len val)) t roomy fits sized (omega arith)
        small in
    rw (no_reuse o t fresh, e) (append_at_end-Appended o key val t s room below)
