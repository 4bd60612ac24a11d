-- ===== src/Tests/Processes.antt =====
-- Processes at the files of tabs, at concrete states.
use sharedhashfile.Prelude.{
  ℕ, ◌+◌, ◌-◌, ◌^◌, ◌<◌, ◌≡◌, refl, true, [], ◌∷◌, arith, some, leb, ◌==◌, if◌then◌else◌, inl,
  Returns, ok, abort, ◌>>=◌,
}
use sharedhashfile.Layout.{data_offset, mod_page}
use sharedhashfile.Process.{
  System, Reach, start, later, access, at_first, view, seen, get_tab_mmap, grow_file, shrink_file,
}
use sharedhashfile.Process.Fresh.{Got, Whole, len_of}
use sharedhashfile.Process.Current.{Reach-current, Reach-Inv, get_tab_mmap-Kept}
use sharedhashfile.Process.Life.{
  Shf, new_shf, attach_existing, q_alloc, with_view, Lives, attached, uses, sets_up, looks, detach,
  q_del,
}
use sharedhashfile.Process.Detach.{detach-Lives, detach-q_del}
use sharedhashfile.Process.Backticks.{Buffer, Fread, Reads, Trimmed, backticks, backticks-Trimmed}

-- Process 0 looks at the new tab.
looked : Returns (Got at_first.disk) (get_tab_mmap (view at_first 0))
looked = get_tab_mmap-Kept at_first 0 (Reach-Inv start)

abbrev after_look : System
after_look = seen at_first 0 looked.0

reached : Reach after_look
reached = later start (access 0 looked.1)

new_tab : mod_page data_offset + 5000 < 2 ^ 32 - 4096
unfolding mod_page
new_tab = omega arith

long_enough : len_of after_look.disk + 10000 < 2 ^ 32 - 4096
unfolding mod_page
long_enough = omega (arith, looked.2.4)

Reach-current_example :
    Returns (Got after_look.disk) (get_tab_mmap (view after_look 1))
    × Returns Whole (get_tab_mmap (view after_look 1) >>= grow_file 10000)
    × Returns Whole (shrink_file (5000 ∷ []) (view after_look 1))
Reach-current_example = Reach-current 1 10000 (5000 ∷ []) reached long_enough (new_tab, tt)

abbrev two_tabs : ℕ → ℕ
two_tabs win = 2

opened : attach_existing true ≡ some new_shf
unfolding attach_existing
opened = refl

attached_shf : Lives two_tabs new_shf
attached_shf = attached true two_tabs (λ win. omega arith) opened

abbrev mapped_shf : Shf
mapped_shf = with_view new_shf 7 1 looked.0

mapped : Lives two_tabs mapped_shf
mapped =
    uses 7 1 at_first.disk attached_shf (omega arith) (omega arith) (Reach-Inv start).good
      ((Reach-Inv start).linked 0) (looks looked.1)

queues : Lives two_tabs (q_alloc mapped_shf)
queues = sets_up mapped refl

detach_example : detach two_tabs (q_alloc mapped_shf) ≡ ok tt
detach_example = detach-Lives queues

is_ready : (q_alloc mapped_shf).q_is_ready ≡ true
unfolding q_alloc
is_ready = refl

q_del_example : Returns (λ s'. detach two_tabs s' ≡ abort) (q_del (q_alloc mapped_shf))
q_del_example = detach-q_del queues is_ready

-- "ls", a newline and two spaces, of which fread() reads as much as it may.
abbrev output : ℕ → ℕ
output i = if i == 0 then 108 else if i == 1 then 115 else if i == 2 then 10 else 32

abbrev reader : Fread
reader used max = if leb (5 - used) max then 5 - used else max

reader-Reads : Reads reader 5
reader-Reads = record {
  few = λ used max. ground arith;
  inside = λ used max le. ground arith;
  some_byte = λ used max lt pos. ground arith;
}

abbrev no_buffer : Buffer
no_buffer = record { bytes = λ a. 0; size = 0; used = 0 }

backticks_example :
    (b : Buffer) × (backticks output reader 6 no_buffer ≡ some b) × Trimmed output 5 b
backticks_example =
    backticks-Trimmed output reader 5 6 no_buffer reader-Reads (omega arith) (omega arith)
      (inl refl) (omega arith)
