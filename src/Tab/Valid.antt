-- ===== src/Tab/Valid.antt =====
-- When a tab is well formed, and what its refs stand for.
use sharedhashfile.Prelude.{
  ap, ℕ, ◌+◌, ◌*◌, ◌≤◌, ◌<◌, ◌^◌, ◌≡◌, ◌≢◌, ◌⊎◌, false, Option, none, some, ◌==◌, if◌then◌else◌,
}
use sharedhashfile.Mem.{Mem}
use sharedhashfile.Layout.{rows_per_tab, refs_per_row, data_offset}
use sharedhashfile.Tab.{Ref, TabMmap, Opts, Vfs}
use sharedhashfile.Prelude.Sum.{total₂, total₂-change, le-total₂, total₂-zero}
use sharedhashfile.Tab.Slot.{slot_size, Slot, slot_at, size_at}

-- What a used ref stands for: the tab2 and the random bits of its hash, its key and its value.
pub record Entry : Type 0 where
  pub tab : ℕ
  pub rnd : ℕ
  pub slot : Slot

-- What a ref stands for, over the memory that it points into.
unfoldable pub entry_of : Opts → Mem → Ref → Option Entry
entry_of o m x =
    if x.pos == 0
    then none
    else some (record { tab = x.tab; rnd = x.rnd; slot = slot_at o m x.pos })

unfoldable pub entry_at : Opts → TabMmap → ℕ → ℕ → Option Entry
unfolding entry_of
entry_at o t r i = entry_of o t.mem (t.row r i)

-- The bytes of what a ref stands for.
abbrev pub entry_size : Opts → Option Entry → ℕ
entry_size o none = 0
entry_size o (some e) = slot_size o e.slot

-- The bytes of all the records that refs point at.
pub live_size : Opts → TabMmap → ℕ
live_size o t = total₂ rows_per_tab refs_per_row (λ r i. entry_size o (entry_at o t r i))

pub live_size-change :
    (o : Opts) (t t' : TabMmap) (r i : ℕ)
    → r < rows_per_tab
    → i < refs_per_row
    → ((a b : ℕ) → (r ≢ a) ⊎ (i ≢ b) → entry_at o t' a b ≡ entry_at o t a b)
    → live_size o t' + entry_size o (entry_at o t r i)
      ≡ live_size o t + entry_size o (entry_at o t' r i)
unfolding live_size
live_size-change o t t' r i lr li h =
    total₂-change rows_per_tab refs_per_row _ _ r i lr li (λ a b ne. ap (entry_size o) (h a b ne))

pub live_size-le :
    (o : Opts) (t : TabMmap) (r i : ℕ)
    → r < rows_per_tab
    → i < refs_per_row
    → entry_size o (entry_at o t r i) ≤ live_size o t
unfolding live_size
live_size-le o t r i lr li =
    le-total₂ rows_per_tab refs_per_row (λ a b. entry_size o (entry_at o t a b)) r i lr li

-- A tab whose refs are all unused has no live bytes.
pub live_size-zero :
    (o : Opts) (t : TabMmap)
    → ((a b : ℕ) → a < rows_per_tab → b < refs_per_row → entry_at o t a b ≡ none)
    → live_size o t ≡ 0
unfolding live_size
live_size-zero o t h =
    total₂-zero rows_per_tab refs_per_row _ (λ a b la lb. ap (entry_size o) (h a b la lb))

-- Two byte ranges do not overlap.
abbrev pub Apart : ℕ → ℕ → ℕ → ℕ → Type 0
Apart p n q k = (p + n ≤ q) ⊎ (q + k ≤ p)

pub record IsValid (o : Opts) (t : TabMmap) : Type 0 where
  pub sized : t.tab_size < 2 ^ 32
  pub starts : data_offset ≤ t.tab_used
  pub fits : t.tab_used ≤ t.tab_size
  -- The bytes counted as used and as free are all the bytes behind the header.
  pub accounted : t.tab_data_used + t.tab_data_free + data_offset ≡ t.tab_used
  -- The bytes counted as used are those of the records that refs point at.
  pub counted : t.tab_data_used ≡ live_size o t
  -- Each used ref points at a record between the header and `tab_used`.
  pub inside :
      (r i : ℕ)
      → (t.row r i).pos ≢ 0
      → (data_offset ≤ (t.row r i).pos)
        × ((t.row r i).pos + size_at o t.mem (t.row r i).pos ≤ t.tab_used)
  -- The records of two used refs do not overlap.
  pub apart :
      (r i r' i' : ℕ)
      → (t.row r i).pos ≢ 0
      → (t.row r' i').pos ≢ 0
      → (r ≢ r') ⊎ (i ≢ i')
      → Apart
          (t.row r i).pos
          (size_at o t.mem (t.row r i).pos)
          (t.row r' i').pos
          (size_at o t.mem (t.row r' i').pos)

-- Appending never takes a record from the free list.
abbrev pub NoReuse : Opts → TabMmap → Type 0
NoReuse o t = (o.is_fixed_key_val_len ≡ false) ⊎ (t.tab_data_free_pos ≡ 0)

-- A tab that holds at most `n` bytes can be grown to any size that is asked for: the sizes stay
-- below 2 ^ 32, and the file system has the space.
pub record Roomy (o : Opts) (vfs : Vfs) (n : ℕ) : Type 0 where
  pub factor : 1 ≤ o.data_needed_factor
  pub bound : n * o.data_needed_factor + n + 8192 ≤ 2 ^ 32
  pub space : (t : TabMmap) → 2 ^ 32 ≤ vfs t
