-- ===== src/Tab.antt =====
-- One tab of src/shf.c: the refs and the memory of an SHF_TAB_MMAP, the macros SHF_TAB_APPEND,
-- SHF_TAB_REF_MARK_AS_DELETED and SHF_TAB_REF_COPY, and the copying loop of shf_tab_shrink().
-- Offsets run from the base of the mapping; the header and the refs are fields of a record beside
-- the bytes, and every offset that the code writes at lies behind them (Tab/Valid.antt).
pub mod Slot
pub mod Record
pub mod Valid
pub mod Append
pub mod Store
pub mod Delete
pub mod Write
pub mod Copy
pub mod Loop
pub mod Shrink
use sharedhashfile.Prelude.{
  ◌^◌, ℕ, ◌+◌, ◌-◌, ◌*◌, Bool, true, false, ◌&&◌, List, length, ltb, leb, ◌==◌, if◌then◌else◌, Run,
  ok, assert, ◌>>=◌, ◌>>◌, for_range,
}
use mathlib.Core.Bool.{not}
use sharedhashfile.Prelude.Family.{update}
use sharedhashfile.Mem.{Mem, put_u08, get_u32, put_u32, get_mem, put_mem}
use sharedhashfile.Layout.{
  u64, data_offset, rows_per_tab, refs_per_row, data_type_str32, data_type_deleted, u32, sub32,
  mod_page,
}

-- SHF_REF_MMAP; `pos` 0 means that the ref is unused.
pub record Ref : Type 0 where
  pub tab : ℕ
  pub rnd : ℕ
  pub pos : ℕ

-- SHF_TAB_MMAP
pub record TabMmap : Type 0 where
  pub tab_size : ℕ
  pub tab_used : ℕ
  pub tab_refs_used : ℕ
  pub tab_data_free_pos : ℕ
  pub tab_data_free : ℕ
  pub tab_data_used : ℕ
  pub row : ℕ → ℕ → Ref
  pub mem : Mem

-- The settings of an SHF that the macros read, and the thread's `shf_data_needed_factor`.
pub record Opts : Type 0 where
  pub is_fixed_key_val_len : Bool
  pub fixed_key_len : ℕ
  pub fixed_val_len : ℕ
  pub data_needed_factor : ℕ

-- What shf_get_vfs_available() answers when a given tab is about to grow.
abbrev pub Vfs : Type 0
Vfs = TabMmap → ℕ

-- The arguments (val, val_len): a buffer of that many bytes, or NULL, which reserves them.
pub data Val : Type 0 where
  given : List ℕ → Val
  reserve : ℕ → Val

abbrev pub val_len : Val → ℕ
val_len (given v) = length v
val_len (reserve n) = n

abbrev pub unused : Ref
unused = record { tab = 0; rnd = 0; pos = 0 }

-- A tab file as shf_tab_create() leaves it, after the initialisation in SHF_GET_TAB_MMAP.
abbrev pub fresh_tab : TabMmap
fresh_tab = record {
  tab_size = 69632;
  tab_used = data_offset;
  tab_refs_used = 0;
  tab_data_free_pos = 0;
  tab_data_free = 0;
  tab_data_used = 0;
  row = λ r i. unused;
  mem = λ a. 0;
}

-- `row[r].ref[i] = x`
abbrev pub set_ref : (ℕ → ℕ → Ref) → ℕ → ℕ → Ref → ℕ → ℕ → Ref
set_ref rows r i x = update rows r (update (rows r) i x)

abbrev pub len_len : Opts → ℕ
len_len o = if o.is_fixed_key_val_len then 0 else 4

-- The lengths and the bytes of the key and the value of the record at an offset.
unfoldable pub key_len_at : Opts → Mem → ℕ → ℕ
key_len_at o m pos = if o.is_fixed_key_val_len then o.fixed_key_len else get_u32 m (pos + 1)

unfoldable pub val_len_at : Opts → Mem → ℕ → ℕ
val_len_at o m pos =
    if o.is_fixed_key_val_len
    then o.fixed_val_len
    else get_u32 m (pos + 1 + len_len o + key_len_at o m pos)

unfoldable pub key_at : Opts → Mem → ℕ → List ℕ
key_at o m pos = get_mem m (pos + 1 + len_len o) (key_len_at o m pos)

unfoldable pub val_at : Opts → Mem → ℕ → List ℕ
val_at o m pos =
    get_mem m (pos + 1 + len_len o + key_len_at o m pos + len_len o) (val_len_at o m pos)

-- `data_needed` of SHF_TAB_APPEND
abbrev pub data_needed : Opts → ℕ → ℕ → ℕ
data_needed o key_len val_len = 1 + len_len o + key_len + len_len o + val_len

-- The part of SHF_TAB_APPEND that grows the tab; what a bigger file adds is zero bytes.
unfoldable pub grow : Opts → Vfs → ℕ → TabMmap → Run TabMmap
grow o vfs needed t =
    let new_tab_size = mod_page (t.tab_size + needed * o.data_needed_factor) in
    if ltb (sub32 t.tab_size t.tab_used) needed
    then (do
      assert (leb (u64 (new_tab_size + (2 ^ 64 - t.tab_size))) (vfs t))
      ok (record t { tab_size = u32 new_tab_size }))
    else ok t

-- The bytes that a record is made of, written at `pos`.
unfoldable pub put_val : Mem → ℕ → Val → Mem
put_val m pos (given v) = put_mem m pos v
put_val m pos (reserve n) = m

-- The two lengths, unless they are fixed.
unfoldable pub put_lens : Opts → Mem → ℕ → ℕ → ℕ → Mem
put_lens o m pos key_len val_len =
    if o.is_fixed_key_val_len
    then m
    else put_u32 (put_u32 m (pos + 1) key_len) (pos + 1 + len_len o + key_len) val_len

unfoldable pub put_record : Opts → Mem → ℕ → List ℕ → Val → Mem
unfolding put_val put_lens
put_record o m pos key val =
    let m₁ = put_u08 m pos data_type_str32 in
    let m₂ = put_lens o m₁ pos (length key) (val_len val) in
    let m₃ = put_mem m₂ (pos + 1 + len_len o) key in
    put_val m₃ (pos + 1 + len_len o + length key + len_len o) val

-- SHF_TAB_APPEND, when it takes the record at the head of the free list: POS and the tab.
unfoldable pub reuse : Opts → List ℕ → Val → TabMmap → ℕ × TabMmap
unfolding put_record
reuse o key val t =
    let pos = t.tab_data_free_pos in
    let needed = data_needed o (length key) (val_len val) in
    (
      pos,
      record t {
        tab_data_free_pos = get_u32 t.mem (pos + 1 + 4);
        mem = put_record o t.mem pos key val;
        tab_data_free = sub32 t.tab_data_free (1 + length key + val_len val);
        tab_refs_used = u32 (t.tab_refs_used + 1);
        tab_data_used = u32 (t.tab_data_used + needed);
      },
    )

-- SHF_TAB_APPEND, behind the growth: the two bounds asserted, then the record at `tab_used`.
unfoldable pub append_at_end : Opts → List ℕ → Val → TabMmap → Run (ℕ × TabMmap)
unfolding put_record
append_at_end o key val t =
    let needed = data_needed o (length key) (val_len val) in
    do
      assert (leb (u32 (t.tab_used + 1 + len_len o + length key)) t.tab_size)
      assert (leb (u32 (t.tab_used + needed)) t.tab_size)
      ok (
        t.tab_used,
        record t {
          mem = put_record o t.mem t.tab_used key val;
          tab_used = u32 (t.tab_used + needed);
          tab_refs_used = u32 (t.tab_refs_used + 1);
          tab_data_used = u32 (t.tab_data_used + needed);
        },
      )

-- SHF_TAB_APPEND: POS and the tab.
unfoldable pub append : Opts → Vfs → List ℕ → Val → TabMmap → Run (ℕ × TabMmap)
append o vfs key val t =
    if o.is_fixed_key_val_len && not (t.tab_data_free_pos == 0) then ok (reuse o key val t) else (do
      t' ← grow o vfs (data_needed o (length key) (val_len val)) t
      append_at_end o key val t')

-- Is a deleted record linked into the free list?
abbrev pub is_linked : Opts → ℕ → ℕ → Bool
is_linked o key_len val_len = o.is_fixed_key_val_len && leb 4 (u32 (key_len + val_len))

-- The writes to memory of SHF_TAB_REF_MARK_AS_DELETED, for a record at `pos`.
unfoldable pub mark_mem : Opts → Mem → ℕ → ℕ → ℕ → ℕ → Mem
mark_mem o m pos key_len val_len old_pos =
    let m₁ = put_u08 m pos data_type_deleted in
    let m₂ =
      if o.is_fixed_key_val_len
      then m₁
      else put_u32 m₁ (pos + 1) (u32 (key_len + len_len o + val_len)) in
    if is_linked o key_len val_len then put_u32 m₂ (pos + 1 + 4) old_pos else m₂

-- SHF_TAB_REF_MARK_AS_DELETED
unfoldable pub mark_as_deleted : Opts → ℕ → ℕ → ℕ → ℕ → TabMmap → TabMmap
mark_as_deleted o row ref key_len val_len t =
    let pos = (t.row row ref).pos in
    let total = data_needed o key_len val_len in
    record t {
      mem = mark_mem o t.mem pos key_len val_len t.tab_data_free_pos;
      tab_data_free_pos = if is_linked o key_len val_len then pos else t.tab_data_free_pos;
      tab_data_used = sub32 t.tab_data_used total;
      tab_data_free = u32 (t.tab_data_free + total);
      row = set_ref t.row row ref (record (t.row row ref) { pos = 0 });
      tab_refs_used = sub32 t.tab_refs_used 1;
    }

-- The old tab and the new tab of a copying loop.
pub record Pair : Type 0 where
  pub old : TabMmap
  pub new : TabMmap

-- SHF_TAB_REF_COPY
unfoldable pub ref_copy : Opts → Vfs → ℕ → ℕ → Pair → Run Pair
ref_copy o vfs row ref s =
    let x = s.old.row row ref in
    let key = key_at o s.old.mem x.pos in
    let val = val_at o s.old.mem x.pos in
    do
      (tab_used_new, t) ← append o vfs key (given val) s.new
      ok (record {
        old =
            mark_as_deleted o row ref (key_len_at o s.old.mem x.pos) (val_len_at o s.old.mem x.pos)
              s.old;
        new = record t {
          row = set_ref t.row row ref (record { tab = x.tab; rnd = x.rnd; pos = tab_used_new });
          tab_refs_used = u32 (t.tab_refs_used + 1);
        };
      })

-- The loop over all refs, with the body for one ref.
unfoldable pub for_refs {ℓ} : {S : Type ℓ} → (ℕ → ℕ → S → Run S) → S → Run S
for_refs body s = for_range rows_per_tab 0 (λ row. for_range refs_per_row 0 (λ ref. body row ref)) s

-- The loop's body in shf_tab_shrink().
unfoldable pub shrink_ref : Opts → Vfs → ℕ → ℕ → Pair → Run Pair
shrink_ref o vfs row ref s = if (s.old.row row ref).pos == 0 then ok s else ref_copy o vfs row ref s

-- shf_tab_shrink(): the new tab. The old one is unmapped, with `tab_size` 1 for other processes.
unfoldable pub tab_shrink : Opts → Vfs → TabMmap → Run TabMmap
unfolding shrink_ref for_refs
tab_shrink o vfs t = do
  s ← for_refs (shrink_ref o vfs) (record { old = t; new = fresh_tab })
  ok s.new
