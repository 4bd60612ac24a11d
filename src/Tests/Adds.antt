-- ===== src/Tests/Adds.antt =====
-- shf_add_key_val() and shf_upd_key_val() at concrete inputs.
use sharedhashfile.Prelude.{
  ℕ, ◌<◌, ◌+◌, ◌≡◌, ◌≢◌, ◌⊎◌, refl, [], ◌∷◌, length, arith, some, Returns, ok,
}
use sharedhashfile.Layout.{
  hash_tab2, hash_row, ret_key_found, ret_key_none, ret_bad_cb, refs_per_row,
}
use sharedhashfile.Tab.Record.{LensFit}
use sharedhashfile.Tab.Valid.{Entry}
use sharedhashfile.Win.{Win, fresh_win}
use sharedhashfile.Win.Valid.{at_uid}
use sharedhashfile.Win.Part.{SameUids}
use sharedhashfile.Find.{Thread}
use sharedhashfile.Find.Scan.{IsKey, Missing}
use sharedhashfile.Api.{add_key_val, upd_key_val, upd_callback_copy}
use sharedhashfile.Api.InPlace.{with_val, Rewritten}
use sharedhashfile.Api.Add.{Single}
use sharedhashfile.Api.AddKey.{Added, Created, add_key_val-Added}
use sharedhashfile.Api.Update.{upd_key_val-copy}
use sharedhashfile.Tests.{
  opts, vfs, no_callback, hashed, thread, roomy, fresh_win-Missing, fresh_win-WinValid,
  fresh_win-Within, put_win, put_valid,
}

fit : LensFit opts 1 8
fit = record {
  fixed = λ e. absurd (ground arith);
  key_small = omega arith;
  val_small = omega arith;
}

fresh_win-Single : Single opts hashed fresh_win
fresh_win-Single i j l m k = absurd (fresh_win-Missing i l k)

add_key_val_example :
    (Missing opts hashed fresh_win
      × Created opts hashed 7 fresh_win
          (add_key_val opts vfs no_callback 2048 hashed 7 fresh_win thread))
    ⊎ ((ref : ℕ) × (e : Entry) × (ref < refs_per_row)
        × (at_uid opts fresh_win (hash_tab2 hashed.hash) (hash_row hashed.hash) ref ≡ some e)
        × IsKey hashed (some e)
        × (x : ℕ × Win × Thread) × (add_key_val opts vfs no_callback 2048 hashed 7 fresh_win thread
            ≡ ok (some x))
        × Added opts hashed 7 fresh_win ref e x)
add_key_val_example =
    add_key_val-Added opts vfs no_callback 2048 hashed 7 fresh_win thread 100000 1000000 refl fit
      roomy (omega arith) fresh_win-WinValid fresh_win-Within (omega arith) fresh_win-Single
      (omega arith) refl

upd_key_val_example :
    Returns
      (λ x.
        ((x.0 ≡ ret_key_none) × Missing opts hashed put_win × SameUids opts put_win x.1)
        ⊎ ((ref : ℕ) × (e : Entry) × (ref < refs_per_row)
            × (at_uid opts put_win (hash_tab2 hashed.hash) (hash_row hashed.hash) ref ≡ some e)
            × IsKey hashed (some e)
            × (((length e.slot.val ≡ 2)
                  × (x.0 ≡ ret_key_found)
                  × Rewritten opts put_win
                      (hash_tab2 hashed.hash)
                      (hash_row hashed.hash)
                      ref
                      (with_val e (1 ∷ 2 ∷ []))
                      x.1)
                ⊎ ((length e.slot.val ≢ 2)
                    × (x.0 ≡ ret_key_found + ret_bad_cb)
                    × Rewritten opts put_win
                        (hash_tab2 hashed.hash)
                        (hash_row hashed.hash)
                        ref
                        e
                        x.1))))
      (upd_key_val opts vfs (upd_callback_copy (1 ∷ 2 ∷ [])) hashed put_win thread)
upd_key_val_example = upd_key_val-copy opts vfs (1 ∷ 2 ∷ []) hashed put_win thread put_valid refl
