-- ===== src/Mem.antt =====
-- Byte-addressed memory as src/shf.defines.h reads and writes it: the macros SHF_U08_AT,
-- SHF_U32_AT (little endian) and SHF_MEM_AT, over the bytes of one mapped tab file.
pub mod Frame
pub mod Long
use sharedhashfile.Prelude.{
  ℕ, zero, suc, ◌+◌, ◌*◌, ◌/◌, ◌%◌, ◌^◌, List, [], ◌∷◌, ◌==◌, if◌then◌else◌,
}

-- A byte for each offset from the base of the mapping.
abbrev pub Mem : Type 0
Mem = ℕ → ℕ

-- SHF_U08_AT(BASE, OFFSET) = v
unfoldable pub put_u08 : Mem → ℕ → ℕ → Mem
put_u08 m p v a = if p == a then v % 256 else m a

-- SHF_U32_AT(BASE, OFFSET)
unfoldable pub get_u32 : Mem → ℕ → ℕ
get_u32 m p = m p + 256 * m (p + 1) + 65536 * m (p + 2) + 16777216 * m (p + 3)

-- SHF_U32_AT(BASE, OFFSET) = v
unfoldable pub put_u32 : Mem → ℕ → ℕ → Mem
unfolding put_u08
put_u32 m p v =
    put_u08 (put_u08 (put_u08 (put_u08 m p v) (p + 1) (v / 256)) (p + 2) (v / 65536)) (p + 3)
      (v / 16777216)

-- The `long` at an offset, as a number below 2 ^ 64.
unfoldable pub get_u64 : Mem → ℕ → ℕ
get_u64 m p = get_u32 m p + 2 ^ 32 * get_u32 m (p + 4)

unfoldable pub put_u64 : Mem → ℕ → ℕ → Mem
put_u64 m p v = put_u32 (put_u32 m p (v % 2 ^ 32)) (p + 4) (v / 2 ^ 32)

-- The `n` bytes at an offset.
unfoldable pub get_mem : Mem → ℕ → ℕ → List ℕ
get_mem m p zero = []
get_mem m p (suc n) = m p ∷ get_mem m (p + 1) n

-- SHF_MEM_AT(BASE, OFFSET, FROM_LEN, FROM)
unfoldable pub put_mem : Mem → ℕ → List ℕ → Mem
put_mem m p [] = m
put_mem m p (b ∷ bs) = put_mem (λ a. if p == a then b else m a) (p + 1) bs
