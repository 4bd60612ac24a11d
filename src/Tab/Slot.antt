-- ===== src/Tab/Slot.antt =====
-- What a record at an offset stands for, and what its bytes determine.
use sharedhashfile.Prelude.{
  ℕ, ◌+◌, ◌≡◌, refl, ap, Bool, true, false, List, arith, length, if◌then◌else◌,
}
use sharedhashfile.Mem.{Mem}
use sharedhashfile.Mem.Frame.{Same, Same-within, get_u32-Same, get_mem-Same, length-get_mem}
use sharedhashfile.Tab.{Opts, len_len, key_len_at, val_len_at, key_at, val_at, data_needed}

pub record Slot : Type 0 where
  pub key : List ℕ
  pub val : List ℕ

unfoldable pub slot_at : Opts → Mem → ℕ → Slot
slot_at o m pos = record { key = key_at o m pos; val = val_at o m pos }

pub slot_size : Opts → Slot → ℕ
slot_size o s = data_needed o (length s.key) (length s.val)

-- The bytes from the type byte to the end of the value.
unfoldable pub size_at : Opts → Mem → ℕ → ℕ
size_at o m pos = data_needed o (key_len_at o m pos) (val_len_at o m pos)

pub length-key_at : (o : Opts) (m : Mem) (pos : ℕ) → length (key_at o m pos) ≡ key_len_at o m pos
unfolding key_at
length-key_at o m pos = length-get_mem m _ _

pub length-val_at : (o : Opts) (m : Mem) (pos : ℕ) → length (val_at o m pos) ≡ val_len_at o m pos
unfolding val_at
length-val_at o m pos = length-get_mem m _ _

pub size_at-slot_at :
    (o : Opts) (m : Mem) (pos : ℕ) → size_at o m pos ≡ slot_size o (slot_at o m pos)
unfolding size_at slot_size slot_at
size_at-slot_at o m pos = rw (length-key_at, length-val_at)

pub len_len-variable : (o : Opts) → o.is_fixed_key_val_len ≡ false → len_len o ≡ 4
len_len-variable o e = ap (λ (b : Bool). if b then 0 else 4) e

pub if_congr :
    (b : Bool) (x y y' : ℕ) → (b ≡ false → y ≡ y') → (if b then x else y) ≡ (if b then x else y')
if_congr true x y y' h = refl
if_congr false x y y' h = h refl

-- The two lengths and the two strings are read from the record's own bytes.
module _ (o : Opts) {m m' : Mem} (pos : ℕ) (f : Same m m' pos (size_at o m pos)) where
  pub key_len_at-Same : key_len_at o m' pos ≡ key_len_at o m pos
  unfolding key_len_at size_at
  key_len_at-Same = if_congr o.is_fixed_key_val_len o.fixed_key_len _ _ λ e.
      get_u32-Same (pos + 1) (
        Same-within pos (size_at o m pos) (pos + 1) 4 (omega arith)
          (omega (arith, len_len-variable o e)) f)

  pub val_len_at-Same : val_len_at o m' pos ≡ val_len_at o m pos
  unfolding val_len_at size_at
  val_len_at-Same = rw key_len_at-Same (
      if_congr o.is_fixed_key_val_len o.fixed_val_len _ _ λ e.
        get_u32-Same (pos + 1 + len_len o + key_len_at o m pos) (
          Same-within pos (size_at o m pos) _ 4 (omega arith) (omega (arith, len_len-variable o e))
            f))

  key_at-Same : key_at o m' pos ≡ key_at o m pos
  unfolding key_at size_at
  key_at-Same =
      rw key_len_at-Same
        (get_mem-Same _ _ (Same-within pos (size_at o m pos) _ _ (omega arith) (omega arith) f))

  val_at-Same : val_at o m' pos ≡ val_at o m pos
  unfolding val_at size_at
  val_at-Same =
      rw (val_len_at-Same, key_len_at-Same)
        (get_mem-Same _ _ (Same-within pos (size_at o m pos) _ _ (omega arith) (omega arith) f))

  pub slot_at-Same : slot_at o m' pos ≡ slot_at o m pos
  unfolding slot_at
  slot_at-Same = λ i. record { key = key_at-Same i; val = val_at-Same i }

  pub size_at-Same : size_at o m' pos ≡ size_at o m pos
  unfolding size_at
  size_at-Same = rw (key_len_at-Same, val_len_at-Same)
