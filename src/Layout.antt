-- ===== src/Layout.antt =====
-- The constants and address arithmetic of src/shf.private.h, src/shf.h and src/shf.defines.h:
-- sizes, the parts of a hash and of a UID, and rounding up to pages.
pub mod Laws
use sharedhashfile.Prelude.{ℕ, ◌+◌, ◌-◌, ◌*◌, ◌/◌, ◌%◌, ◌^◌}

abbrev pub size_page : ℕ
size_page = 4096

abbrev pub refs_per_row : ℕ
refs_per_row = 16

abbrev pub rows_per_tab : ℕ
rows_per_tab = 512

abbrev pub tabs_per_win : ℕ
tabs_per_win = 2048

abbrev pub wins_per_shf : ℕ
wins_per_shf = 256

-- offsetof(SHF_TAB_MMAP, data): six words, then 512 rows of 16 refs of 8 bytes; also the
-- sizeof(SHF_TAB_MMAP), as `data` is empty.
abbrev pub data_offset : ℕ
data_offset = 6 * 4 + rows_per_tab * (refs_per_row * 8)

abbrev pub uid_none : ℕ
uid_none = 4294967295

abbrev pub qid_none : ℕ
qid_none = 4294967295

abbrev pub qiid_none : ℕ
qiid_none = 4294967295

abbrev pub ret_ok : ℕ
ret_ok = 0

abbrev pub ret_key_found : ℕ
ret_key_found = 1

abbrev pub ret_bad_val : ℕ
ret_bad_val = 2

abbrev pub ret_bad_cb : ℕ
ret_bad_cb = 4

abbrev pub ret_key_put : ℕ
ret_key_put = 8

abbrev pub ret_not_ttl : ℕ
ret_not_ttl = 16

abbrev pub ret_key_none : ℕ
ret_key_none = 128

-- SHF_DATA_TYPE with key type STR32 (6, three bits) and value type STR32 (7, four bits). The
-- source leaves the eighth bit, `extended`, as it finds it on the stack; here it is 0.
abbrev pub data_type_str32 : ℕ
data_type_str32 = 6 + 7 * 8

abbrev pub data_type_deleted : ℕ
data_type_deleted = 0xff

-- Arithmetic of uint32_t and uint64_t.
abbrev pub u32 : ℕ → ℕ
u32 x = x % 2 ^ 32

abbrev pub sub32 : ℕ → ℕ → ℕ
sub32 a b = (a + (2 ^ 32 - b % 2 ^ 32)) % 2 ^ 32

abbrev pub u64 : ℕ → ℕ
u64 x = x % 2 ^ 64

-- SHF_MOD_PAGE on a uint64_t.
unfoldable pub mod_page : ℕ → ℕ
mod_page bytes = u64 ((u64 (bytes + (2 ^ 64 - 1)) / size_page + 1) * size_page)

-- The parts of the 128-bit hash, a little-endian number: u16[0], u16[1], u16[2] and u32[2].
unfoldable pub hash_win : ℕ → ℕ
hash_win h = (h % 2 ^ 16) % wins_per_shf

unfoldable pub hash_tab2 : ℕ → ℕ
hash_tab2 h = (h / 2 ^ 16 % 2 ^ 16) % tabs_per_win

unfoldable pub hash_row : ℕ → ℕ
hash_row h = (h / 2 ^ 32 % 2 ^ 16) % rows_per_tab

unfoldable pub hash_rnd : ℕ → ℕ
hash_rnd h = (h / 2 ^ 64 % 2 ^ 32) % 2 ^ 21

-- SHF_UID.as_part
pub record Uid : Type 0 where
  pub win : ℕ
  pub tab : ℕ
  pub row : ℕ
  pub ref : ℕ

-- SHF_UID.as_u32: 8 bits of `win`, 11 of `tab`, 9 of `row`, 4 of `ref`, from the low end.
unfoldable pub as_u32 : Uid → ℕ
as_u32 u = u.win + 2 ^ 8 * u.tab + 2 ^ 19 * u.row + 2 ^ 28 * u.ref

unfoldable pub as_part : ℕ → Uid
as_part x = record {
  win = x % 2 ^ 8;
  tab = x / 2 ^ 8 % 2 ^ 11;
  row = x / 2 ^ 19 % 2 ^ 9;
  ref = x / 2 ^ 28 % 2 ^ 4;
}
