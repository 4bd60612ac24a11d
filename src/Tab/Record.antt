-- ===== src/Tab/Record.antt =====
-- Writing one record and reading it back.
use sharedhashfile.Prelude.{
  ℕ, ◌+◌, ◌≤◌, ◌<◌, ◌^◌, ◌≡◌, refl, ap, sym, ◌∙◌, Bool, true, false, inl, inr, ◌⊎◌, List, arith,
  length, Bool-cases, if◌then◌else◌,
}
use sharedhashfile.Mem.{Mem, put_u08, put_u32}
use sharedhashfile.Mem.Frame.{
  Same, Same-trans, get_u32-Same, get_mem-Same, put_u08-Same, put_u32-Same, put_mem-Same,
  get_u32-put_u32, get_mem-put_mem,
}
use sharedhashfile.Layout.{data_type_str32}
use sharedhashfile.Tab.{
  Opts, Val, given, reserve, val_len, len_len, key_len_at, val_len_at, key_at, val_at, data_needed,
  put_val, put_lens, put_record,
}
use sharedhashfile.Tab.Slot.{len_len-variable}

-- The lengths of a key and a value fit their 32-bit words, and are the fixed ones if there are any.
pub record LensFit (o : Opts) (key_len val_len : ℕ) : Type 0 where
  pub fixed :
      o.is_fixed_key_val_len ≡ true → (key_len ≡ o.fixed_key_len) × (val_len ≡ o.fixed_val_len)
  pub key_small : key_len < 2 ^ 32
  pub val_small : val_len < 2 ^ 32

if_eq : (b : Bool) (x y z : ℕ) → (b ≡ true → x ≡ z) → (b ≡ false → y ≡ z) → (if b then x else y) ≡ z
if_eq true x y z h k = h refl
if_eq false x y z h k = k refl

put_lens-variable :
    (o : Opts) (m : Mem) (pos k v : ℕ)
    → o.is_fixed_key_val_len ≡ false
    → put_lens o m pos k v ≡ put_u32 (put_u32 m (pos + 1) k) (pos + 1 + len_len o + k) v
unfolding put_lens
put_lens-variable o m pos k v e =
    ap (λ (b : Bool). if b then m else put_u32 (put_u32 m (pos + 1) k) (pos + 1 + len_len o + k) v)
      e

put_lens-fixed :
    (o : Opts) (m : Mem) (pos k v : ℕ) → o.is_fixed_key_val_len ≡ true → put_lens o m pos k v ≡ m
unfolding put_lens
put_lens-fixed o m pos k v e =
    ap (λ (b : Bool). if b then m else put_u32 (put_u32 m (pos + 1) k) (pos + 1 + len_len o + k) v)
      e

put_lens-Same :
    (o : Opts) (m : Mem) (pos k v p n : ℕ)
    → (pos + 1 + len_len o + k + len_len o ≤ p) ⊎ (p + n ≤ pos)
    → Same m (put_lens o m pos k v) p n
put_lens-Same o m pos k v p n apart = elim (Bool-cases o.is_fixed_key_val_len) [
  | inl e ↦ rw (put_lens-fixed o m pos k v e) (λ a lo hi. refl)
  | inr e ↦
      let four = len_len-variable o e in
      rw (put_lens-variable o m pos k v e) (
        Same-trans p n (put_u32-Same m (pos + 1) k p n (ground arith))
          (put_u32-Same _ (pos + 1 + len_len o + k) v p n (ground arith)))
]

put_val-Same :
    (m : Mem) (pos : ℕ) (val : Val) (p n : ℕ)
    → (pos + val_len val ≤ p) ⊎ (p + n ≤ pos)
    → Same m (put_val m pos val) p n
unfolding put_val
put_val-Same m pos (given v) p n apart = put_mem-Same m pos v p n apart
put_val-Same m pos (reserve k) p n apart = λ a lo hi. refl

-- A record is written within its own bytes.
pub put_record-Same :
    (o : Opts) (m : Mem) (pos : ℕ) (key : List ℕ) (val : Val) (p n : ℕ)
    → (pos + data_needed o (length key) (val_len val) ≤ p) ⊎ (p + n ≤ pos)
    → Same m (put_record o m pos key val) p n
unfolding put_record
put_record-Same o m pos key val p n apart =
    Same-trans p n (put_u08-Same m pos data_type_str32 p n (ground arith)) (
      Same-trans p n (put_lens-Same o _ pos (length key) (val_len val) p n (ground arith)) (
        Same-trans p n (put_mem-Same _ (pos + 1 + len_len o) key p n (ground arith))
          (put_val-Same _ (pos + 1 + len_len o + length key + len_len o) val p n (ground arith))))

abbrev lens_mem : Opts → Mem → ℕ → List ℕ → Val → Mem
lens_mem o m pos key val = put_lens o (put_u08 m pos data_type_str32) pos (length key) (val_len val)

-- What is written behind the lengths leaves the bytes below and between them alone.
after_lens :
    (o : Opts) (m : Mem) (pos : ℕ) (key : List ℕ) (val : Val) (p : ℕ)
    → o.is_fixed_key_val_len ≡ false
    → (p ≡ pos + 1) ⊎ (p ≡ pos + 1 + len_len o + length key)
    → Same (lens_mem o m pos key val) (put_record o m pos key val) p 4
unfolding put_record
after_lens o m pos key val p e at =
    let four = len_len-variable o e in
    Same-trans p 4 (put_mem-Same _ (pos + 1 + len_len o) key p 4 (ground arith))
      (put_val-Same _ (pos + 1 + len_len o + length key + len_len o) val p 4 (ground arith))

module _ (o : Opts) (m : Mem) (pos : ℕ) (key : List ℕ) (val : Val)
    (fit : LensFit o (length key) (val_len val)) where
  open fit use {fixed, key_small, val_small}

  pub key_len_at-put_record : key_len_at o (put_record o m pos key val) pos ≡ length key
  unfolding key_len_at
  key_len_at-put_record =
      if_eq o.is_fixed_key_val_len o.fixed_key_len _ _ (λ e. sym (fixed e).0)
        λ e.
          let four = len_len-variable o e in
          get_u32-Same (pos + 1) (after_lens o m pos key val (pos + 1) e (inl refl))
          ∙ rw (put_lens-variable o _ pos (length key) (val_len val) e) (
              get_u32-Same (pos + 1) (put_u32-Same _ _ _ (pos + 1) 4 (ground arith))
              ∙ get_u32-put_u32 _ (pos + 1) (length key) key_small)

  pub val_len_at-put_record : val_len_at o (put_record o m pos key val) pos ≡ val_len val
  unfolding val_len_at
  val_len_at-put_record =
      if_eq o.is_fixed_key_val_len o.fixed_val_len _ _ (λ e. sym (fixed e).1)
        λ e. rw key_len_at-put_record (
          get_u32-Same _ (after_lens o m pos key val _ e (inr refl))
          ∙ rw (put_lens-variable o _ pos (length key) (val_len val) e)
              (get_u32-put_u32 _ _ (val_len val) val_small))

  -- The key reads back, the value has its length, and reads back if its bytes were given.
  pub key_at-put_record : key_at o (put_record o m pos key val) pos ≡ key
  unfolding key_at put_record
  key_at-put_record = rw key_len_at-put_record (
      get_mem-Same _ _
        (put_val-Same _ (pos + 1 + len_len o + length key + len_len o) val _ _ (omega arith))
      ∙ get_mem-put_mem _ _ key)

pub val_at-put_record :
    (o : Opts) (m : Mem) (pos : ℕ) (key v : List ℕ)
    → LensFit o (length key) (length v)
    → val_at o (put_record o m pos key (given v)) pos ≡ v
unfolding val_at put_record put_val
val_at-put_record o m pos key v fit =
    rw
      (
        val_len_at-put_record o m pos key (given v) fit,
        key_len_at-put_record o m pos key (given v) fit,
      )
      (get_mem-put_mem _ _ v)
