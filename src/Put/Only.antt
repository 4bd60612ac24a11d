-- ===== src/Put/Only.antt =====
-- After a put of a key that was not there, the entry put is the only one for the key.
use sharedhashfile.Prelude.{ℕ, ◌<◌, ◌≡◌, inl, inr, refl, sym, ◌∙◌, arith, some, Bool-cases, ◌==◌}
use sharedhashfile.Layout.{refs_per_row, hash_tab2, hash_row, hash_rnd}
use sharedhashfile.Layout.Laws.{hash_in_range}
use sharedhashfile.Tab.{Opts, Val}
use sharedhashfile.Tab.Valid.{Entry}
use sharedhashfile.Win.{Win}
use sharedhashfile.Win.Valid.{at_uid}
use sharedhashfile.Put.{Hashed}
use sharedhashfile.Put.Store.{IsPut, HoldsVal}
use sharedhashfile.Find.Scan.{IsKey, Missing}

pub IsPut-IsKey :
    (o : Opts) (h : Hashed) (val : Val) (w₀ w : Win) (ref : ℕ)
    → IsPut o h val w₀ ref w
    → IsKey h (at_uid o w (hash_tab2 h.hash) (hash_row h.hash) ref)
IsPut-IsKey o h val w₀ w ref put = rw (put.now) (refl, put.holds_key)

pub IsPut-only :
    (o : Opts) (h : Hashed) (val : Val) (w₀ w : Win) (ref ref' : ℕ) (e : Entry)
    → Missing o h w₀
    → IsPut o h val w₀ ref w
    → ref' < refs_per_row
    → at_uid o w (hash_tab2 h.hash) (hash_row h.hash) ref' ≡ some e
    → IsKey h (some e)
    → (ref' ≡ ref) × HoldsVal val e.slot.val
IsPut-only o h val w₀ w ref ref' e missing put lt at key = elim (Bool-cases (ref == ref')) [
  | inl eq ↦
      let same : ref ≡ ref' = ground arith in
      let at' : at_uid o w (hash_tab2 h.hash) (hash_row h.hash) ref ≡ some e = rw same at in
      let both = sym at' ∙ put.now in
      let found_it : e ≡ record { tab = hash_tab2 h.hash; rnd = hash_rnd h.hash; slot = put.slot } =
        cc in
      (sym same, rw found_it (put.holds_val))
  | inr ne ↦
      let old =
        put.others (hash_tab2 h.hash) (hash_row h.hash) ref' (hash_in_range h.hash).1
          (hash_in_range h.hash).2 lt (inr (inr (ground arith))) in
      absurd (missing ref' lt (rw (sym old ∙ at) key))
]
