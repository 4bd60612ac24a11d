-- ===== src/Layout/Laws.antt =====
-- Facts about the address arithmetic.
use sharedhashfile.Prelude.{ℕ, ◌+◌, ◌^◌, ◌≤◌, ◌<◌, ◌≡◌, ◌↔◌, ◌%◌, arith}
use sharedhashfile.Layout.{
  size_page, wins_per_shf, tabs_per_win, rows_per_tab, refs_per_row, uid_none, mod_page, Uid,
  as_u32, as_part, hash_win, hash_tab2, hash_row, hash_rnd,
}

-- The parts are in range of the arrays that they index.
pub record InRange (u : Uid) : Type 0 where
  pub win : u.win < wins_per_shf
  pub tab : u.tab < tabs_per_win
  pub row : u.row < rows_per_tab
  pub ref : u.ref < refs_per_row

-- For UID parts that are in range of the arrays, packing gives a 32-bit number and unpacking gives
-- the parts back; and the number is SHF_UID_NONE exactly for the last slot of the last row of the
-- last tab2 of the last window.
pub as_part-as_u32 :
    (u : Uid)
    → InRange u
    → (as_part (as_u32 u) ≡ u)
      × (as_u32 u < 2 ^ 32)
      × ((as_u32 u ≡ uid_none) ↔ (u ≡ record { win = 255; tab = 2047; row = 511; ref = 15 }))
unfolding as_part as_u32
as_part-as_u32 u h = (ground arith, ground arith, ((λ e. ground arith), (λ e. ground arith)))

-- Unpacking any 32-bit number gives parts in range, which pack to the number.
pub as_u32-as_part : (x : ℕ) → x < 2 ^ 32 → InRange (as_part x) × (as_u32 (as_part x) ≡ x)
unfolding as_part as_u32
as_u32-as_part x h = (omega arith, omega arith)

-- For a size between 1 and 2 ^ 63, SHF_MOD_PAGE gives a multiple of the page size that is not
-- smaller, and less than a page larger.
pub mod_page_bounds :
    (b : ℕ)
    → 0 < b
    → b < 2 ^ 63
    → (b ≤ mod_page b) × (mod_page b < b + size_page) × (mod_page b % size_page ≡ 0)
unfolding mod_page
mod_page_bounds b pos small = omega arith

-- The parts of any hash are in range.
pub hash_in_range :
    (h : ℕ)
    → (hash_win h < wins_per_shf)
      × (hash_tab2 h < tabs_per_win)
      × (hash_row h < rows_per_tab)
      × (hash_rnd h < 2 ^ 21)
unfolding hash_win hash_tab2 hash_row hash_rnd
hash_in_range h = omega arith
