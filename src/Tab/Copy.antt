-- ===== src/Tab/Copy.antt =====
-- SHF_TAB_REF_COPY moves what one ref stands for from the old tab to the new one.
use sharedhashfile.Prelude.{
  ℕ, ◌+◌, ◌≤◌, ◌<◌, ◌≡◌, ◌≢◌, inr, sym, ap, ◌∙◌, Bool, true, false, ◌&&◌, ◌||◌, length, ◌==◌,
  if◌then◌else◌, arith, Option, none, some, ltb, Returns,
}
use sharedhashfile.Mem.{Mem}
use sharedhashfile.Layout.{rows_per_tab, refs_per_row, u32}
use sharedhashfile.Tab.{
  Ref, TabMmap, Opts, Vfs, given, key_len_at, val_len_at, key_at, val_at, data_needed, Pair,
  ref_copy, set_ref, mark_as_deleted,
}
use sharedhashfile.Tab.Slot.{Slot, slot_at, size_at, length-key_at, length-val_at}
use sharedhashfile.Tab.Record.{LensFit, key_at-put_record, val_at-put_record}
use sharedhashfile.Tab.Valid.{IsValid, Entry, entry_of, entry_at, live_size-le, Roomy}
use sharedhashfile.Tab.Append.{Appended, append-Appended}
use sharedhashfile.Tab.Store.{
  Ne, Stored, Stored-IsValid, Stored-entry, Stored-entry_ne, entry_of-used, entry_of-unused,
}
use sharedhashfile.Tab.Delete.{
  LinkFits, deleted-IsValid, deleted-used, deleted-entry, deleted-entry_ne, was_size,
  live_size-deleted,
}

-- If records have fixed lengths, then a link of the free list fits into a record, unless the
-- records are too short to be linked.
abbrev pub LinksFit : Opts → Type 0
LinksFit o = LinkFits o o.fixed_key_len o.fixed_val_len

-- Is the ref (a, b) before (r, i) in the order of the loops?
abbrev pub before : ℕ → ℕ → ℕ → ℕ → Bool
before r i a b = ltb a r || (a == r && ltb b i)

-- The entries of the tab2s that `sel` selects, and the others.
abbrev pub pick : (ℕ → Bool) → Option Entry → Option Entry
pick sel none = none
pick sel (some e) = if sel e.tab then some e else none

abbrev pub drop : (ℕ → Bool) → Option Entry → Option Entry
drop sel none = none
drop sel (some e) = if sel e.tab then none else some e

-- The copying of the selected entries of `t`, when the loops have reached the ref (r, i).
pub record Copying (o : Opts) (t : TabMmap) (sel : ℕ → Bool) (r i : ℕ) (s : Pair) : Type 0 where
  pub old_valid : IsValid o s.old
  pub new_valid : IsValid o s.new
  pub old_used : s.old.tab_used ≡ t.tab_used
  pub no_links : s.new.tab_data_free_pos ≡ 0
  pub no_free : s.new.tab_data_free ≡ 0
  pub budget : s.new.tab_data_used + s.old.tab_data_used ≡ t.tab_data_used
  pub moved :
      (a b : ℕ)
      → b < refs_per_row
      → entry_at o s.new a b ≡ (if before r i a b then pick sel (entry_at o t a b) else none)
  pub left :
      (a b : ℕ)
      → b < refs_per_row
      → entry_at o s.old a b
        ≡ (if before r i a b then drop sel (entry_at o t a b) else entry_at o t a b)

entry_at-none : (o : Opts) (t : TabMmap) (r i : ℕ) → entry_at o t r i ≡ none → (t.row r i).pos ≡ 0
unfolding entry_at entry_of
entry_at-none o t r i h = ground arith

link_fits :
    (o : Opts) (m : Mem) (pos : ℕ)
    → LinksFit o
    → LinkFits o (key_len_at o m pos) (val_len_at o m pos)
unfolding key_len_at val_len_at
link_fits o m pos h = ground arith

module _ (o : Opts) (vfs : Vfs) (t : TabMmap) (sel : ℕ → Bool) (roomy : Roomy o vfs t.tab_used)
    (links : LinksFit o) (t_valid : IsValid o t) (r i : ℕ) (row_bound : r < rows_per_tab)
    (ref_bound : i < refs_per_row) (s : Pair) (inv : Copying o t sel r i s) where
  -- A ref that is unused, or is not selected, stays.
  pub skip-Copying : (pick sel (entry_at o t r i) ≡ none) → Copying o t sel r (i + 1) s
  skip-Copying not_picked = record {
    old_valid = inv.old_valid;
    new_valid = inv.new_valid;
    old_used = inv.old_used;
    no_links = inv.no_links;
    no_free = inv.no_free;
    budget = inv.budget;
    moved = λ a b l. ground (arith, inv.moved a b l);
    left = λ a b l. ground (arith, inv.left a b l);
  }

  -- The entry is that of `t`, and is not yet in the new tab.
  pub entry_here :
      (s.old.row r i).pos ≢ 0
      → entry_at o t r i
        ≡ some (record {
          tab = (s.old.row r i).tab;
          rnd = (s.old.row r i).rnd;
          slot = slot_at o s.old.mem (s.old.row r i).pos;
        })
  unfolding entry_at
  entry_here live =
      let now : before r i r i ≡ false = ground arith in
      let same : entry_at o s.old r i ≡ entry_at o t r i =
        inv.left r i ref_bound
        ∙ ap (λ (b : Bool). if b then drop sel (entry_at o t r i) else entry_at o t r i) now in
      sym same ∙ entry_of-used o s.old.mem (s.old.row r i) live

  -- Where the old tab's ref is unused, `t` has no entry.
  pub no_entry_here : (s.old.row r i).pos ≡ 0 → entry_at o t r i ≡ none
  unfolding entry_at
  no_entry_here unused =
      let now : before r i r i ≡ false = ground arith in
      let same : entry_at o s.old r i ≡ entry_at o t r i =
        inv.left r i ref_bound
        ∙ ap (λ (b : Bool). if b then drop sel (entry_at o t r i) else entry_at o t r i) now in
      sym same ∙ entry_of-unused o s.old.mem (s.old.row r i) unused

  module _ (live : (s.old.row r i).pos ≢ 0) (chosen : sel (s.old.row r i).tab ≡ true) where
    abbrev x : Ref
    x = s.old.row r i

    abbrev key_len : ℕ
    key_len = key_len_at o s.old.mem x.pos

    abbrev val_len : ℕ
    val_len = val_len_at o s.old.mem x.pos

    abbrev slot : Slot
    slot = slot_at o s.old.mem x.pos

    here : entry_at o t r i ≡ some (record { tab = x.tab; rnd = x.rnd; slot = slot })
    here = entry_here live

    new_unused : (s.new.row r i).pos ≡ 0
    new_unused =
        let now : before r i r i ≡ false = ground arith in
        entry_at-none o s.new r i (
          inv.moved r i ref_bound
          ∙ ap (λ (b : Bool). if b then pick sel (entry_at o t r i) else none) now)

    lens_fit : LensFit o (length (key_at o s.old.mem x.pos)) (length (val_at o s.old.mem x.pos))
    lens_fit =
        rw (length-key_at, length-val_at)
          (record {
            fixed = λ e. unfold key_len_at val_len_at in ground arith;
            key_small =
                unfold size_at in
                omega
                  (arith, inv.old_valid.inside r i live, inv.old_valid.fits, inv.old_valid.sized);
            val_small =
                unfold size_at in
                omega
                  (arith, inv.old_valid.inside r i live, inv.old_valid.fits, inv.old_valid.sized);
          })

    -- The new tab holds no more than the old one did.
    room :
        s.new.tab_used
          + data_needed o (length (key_at o s.old.mem x.pos)) (length (val_at o s.old.mem x.pos))
        ≤ t.tab_used
    room =
        rw (length-key_at, length-val_at)
          (omega (
            arith,
            was_size o r i s.old inv.old_valid live row_bound ref_bound,
            live_size-le o s.old r i row_bound ref_bound,
            inv.budget,
            inv.no_free,
            inv.old_valid.counted,
            inv.new_valid.accounted,
            t_valid.accounted,
          ))

    abbrev key_val : Slot
    key_val = record { key = key_at o s.old.mem x.pos; val = val_at o s.old.mem x.pos }

    abbrev old' : TabMmap
    old' = mark_as_deleted o r i key_len val_len s.old

    abbrev new' : ℕ × TabMmap → TabMmap
    new' p = record (p.1) {
      row = set_ref p.1.row r i (record { tab = x.tab; rnd = x.rnd; pos = p.0 });
      tab_refs_used = u32 (p.1.tab_refs_used + 1);
    }

    stored :
        (p : ℕ × TabMmap)
        → Appended o key_val.key (given key_val.val) s.new p
        → Stored o key_val.key (given key_val.val) r i x.tab x.rnd s.new (new' p)
    stored p app = record {
      used = app.used;
      fits = app.fits;
      sized = app.sized;
      rows = rw (app.rows, app.at);
      mem = app.mem;
      free_pos = app.free_pos;
      free = app.free;
      counted = app.counted;
    }

    module _ (p : ℕ × TabMmap) (app : Appended o key_val.key (given key_val.val) s.new p) where
      abbrev st : Stored o key_val.key (given key_val.val) r i x.tab x.rnd s.new (new' p)
      st = stored p app

      link : LinkFits o key_len val_len
      link = link_fits o s.old.mem x.pos links

      new_entry : entry_at o (new' p) r i ≡ entry_at o t r i
      unfolding slot_at
      new_entry =
          Stored-entry o key_val.key (given key_val.val) r i x.tab x.rnd s.new (new' p)
            inv.new_valid new_unused row_bound ref_bound lens_fit st
          ∙ rw (
            here,
            key_at-put_record o s.new.mem s.new.tab_used key_val.key (given key_val.val) lens_fit,
            val_at-put_record o s.new.mem s.new.tab_used key_val.key key_val.val lens_fit,
          )

      new_entry_ne : (a b : ℕ) → Ne r i a b → entry_at o (new' p) a b ≡ entry_at o s.new a b
      new_entry_ne =
          Stored-entry_ne o key_val.key (given key_val.val) r i x.tab x.rnd s.new (new' p)
            inv.new_valid new_unused row_bound ref_bound lens_fit st

      pick_here : pick sel (entry_at o t r i) ≡ entry_at o t r i
      pick_here = rw (here, chosen)

      drop_here : drop sel (entry_at o t r i) ≡ none
      drop_here = rw (here, chosen)

      old-IsValid : IsValid o old'
      old-IsValid = deleted-IsValid o r i s.old inv.old_valid live row_bound ref_bound link

      new-IsValid : IsValid o (new' p)
      new-IsValid =
          Stored-IsValid o key_val.key (given key_val.val) r i x.tab x.rnd s.new (new' p)
            inv.new_valid new_unused row_bound ref_bound lens_fit st

      budget : (new' p).tab_data_used + old'.tab_data_used ≡ t.tab_data_used
      budget = omega (
        arith,
        length-key_at o s.old.mem x.pos,
        length-val_at o s.old.mem x.pos,
        live_size-deleted o r i s.old inv.old_valid live row_bound ref_bound link,
        old-IsValid.counted,
        new-IsValid.accounted,
        app.used,
        app.free,
        inv.budget,
        inv.no_free,
        inv.old_valid.counted,
        inv.new_valid.accounted,
      )

      next : Copying o t sel r (i + 1) (record { old = old'; new = new' p })
      next = record {
        old_valid = old-IsValid;
        new_valid = new-IsValid;
        old_used = deleted-used o r i s.old inv.old_valid live row_bound ref_bound ∙ inv.old_used;
        no_links = app.free_pos ∙ inv.no_links;
        no_free = app.free ∙ inv.no_free;
        budget = budget;
        moved = λ a b l. ground (arith, inv.moved a b l, new_entry_ne a b, new_entry, pick_here);
        left = λ a b l. ground (
          arith,
          inv.left a b l,
          deleted-entry_ne o r i s.old inv.old_valid live row_bound ref_bound link a b,
          deleted-entry o r i s.old inv.old_valid live row_bound ref_bound,
          drop_here,
        );
      }

    -- A selected ref that is in use is copied, without fail.
    pub ref_copy-Copying : Returns (Copying o t sel r (i + 1)) (ref_copy o vfs r i s)
    unfolding ref_copy
    ref_copy-Copying =
        let (p, e, app) =
          append-Appended o vfs t.tab_used key_val.key (given key_val.val) s.new roomy
            inv.new_valid.fits inv.new_valid.sized (inr inv.no_links) room in
        (record { old = old'; new = new' p }, rw e, next p app)
