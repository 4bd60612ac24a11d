-- ===== src/Process/Fresh.antt =====
-- What is to hold of the files of a tab and of a process's mapping.
use sharedhashfile.Prelude.{ℕ, ◌%◌, ◌^◌, ◌≤◌, ◌<◌, ◌≡◌, ◌≢◌, ◌⊎◌, true, arith, ◌∙◌}
use sharedhashfile.Process.{Disk, Mapping, View}

abbrev pub len_of : Disk → ℕ
len_of d = (d.file d.current).len

abbrev pub size_of : Disk → ℕ
size_of d = (d.file d.current).tab_size

-- The file that the name leads to.
pub record Good (d : Disk) : Type 0 where
  pub made : d.current < d.made
  pub pages : len_of d % 4096 ≡ 0
  pub some_page : 4096 ≤ len_of d
  pub small : len_of d < 2 ^ 32
  pub size : (size_of d ≡ len_of d) ⊎ (size_of d ≡ 0)

-- What a process maps: a file that was replaced says so by its `tab_size`, the current one was initialised.
pub record Linked (d : Disk) (m : Mapping) : Type 0 where
  pub made : m.is_mapped ≡ true → m.file < d.made
  pub some_page : m.is_mapped ≡ true → 4096 ≤ m.tab_size
  pub old : m.is_mapped ≡ true → m.file ≢ d.current → (d.file m.file).tab_size ≡ 1
  pub full : m.is_mapped ≡ true → size_of d ≡ len_of d

-- `d'` follows `d`, with the current file initialised.
pub record Follows (d d' : Disk) : Type 0 where
  pub good : Good d'
  pub full : size_of d' ≡ len_of d'
  pub made : d.made ≤ d'.made
  pub old :
      (f : ℕ)
      → f < d.made
      → f ≢ d'.current
      → (f ≢ d.current → (d.file f).tab_size ≡ 1)
      → (d'.file f).tab_size ≡ 1

-- The whole of the current file is mapped.
abbrev pub Whole : View → Type 0
Whole v =
    (v.map.is_mapped ≡ true)
    × (v.map.file ≡ v.disk.current)
    × (v.map.tab_size ≡ len_of v.disk)
    × (size_of v.disk ≡ len_of v.disk)

pub Linked-Follows : (d d' : Disk) (m : Mapping) → Follows d d' → Linked d m → Linked d' m
Linked-Follows d d' m follows linked = record {
  made = λ e. omega (arith, linked.made e, follows.made);
  some_page = linked.some_page;
  old = λ e ne. follows.old m.file (linked.made e) ne (linked.old e);
  full = λ e. follows.full;
}

pub Linked-Whole : (v : View) → Good v.disk → Whole v → Linked v.disk v.map
Linked-Whole v good (a, b, c, d) = record {
  made = λ e. rw b (good.made);
  some_page = λ e. rw c (good.some_page);
  old = λ e ne. absurd (ne b);
  full = λ e. d;
}

-- What SHF_GET_TAB_MMAP leaves.
abbrev pub Got : Disk → View → Type 0
Got d v' =
    Whole v'
    × Follows d v'.disk
    × (v'.disk.current ≡ d.current)
    × (v'.disk.made ≡ d.made)
    × (len_of v'.disk ≡ len_of d)

pub same_disk : (d : Disk) → Good d → size_of d ≡ len_of d → Follows d d
same_disk d good full = record {
  good = good;
  full = full;
  made = omega arith;
  old = λ f lt ne was. was ne;
}

-- Only the current file changes.
pub Follows-current :
    (d d' : Disk)
    → Good d'
    → size_of d' ≡ len_of d'
    → d'.current ≡ d.current
    → d'.made ≡ d.made
    → ((f : ℕ) → f ≢ d.current → (d'.file f).tab_size ≡ (d.file f).tab_size)
    → Follows d d'
Follows-current d d' good full same made others = record {
  good = good;
  full = full;
  made = omega (arith, made);
  old = λ f lt ne was. let ne' : f ≢ d.current = rw same at ne in others f ne' ∙ was ne';
}
