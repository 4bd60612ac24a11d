-- ===== src/Log/Fit.antt =====
-- What shf_log() outputs: the leading parts of a line that fit its buffer.
use sharedhashfile.Prelude.{
  ℕ, zero, suc, ◌+◌, ◌-◌, ◌^◌, ◌≤◌, ◌<◌, ◌≡◌, ◌⊎◌, inl, inr, refl, ap, ◌∙◌, List, [], ◌∷◌, ◌++◌,
  length, length-append, Bool, Bool-cases, true, false, ltb, leb, ◌==◌, if◌then◌else◌, arith,
}
use sharedhashfile.Layout.{u32, sub32}
use sharedhashfile.Mem.{Mem, get_mem, put_mem}
use sharedhashfile.Mem.Frame.{Same, Same-trans, get_mem-Same, put_mem-Same, get_mem-put_mem}
use sharedhashfile.Log.Parts.{get_mem-append}
use sharedhashfile.Log.Format.{
  buffer_size, dot, eol, Buffer, take_at_most, print_at, safe_append, print, and_print, log_buffer,
  log_line,
}

take_at_most-all : (n : ℕ) (xs : List ℕ) → length xs ≤ n → take_at_most n xs ≡ xs
take_at_most-all zero [] l = refl
take_at_most-all zero (x ∷ xs) l = absurd (omega arith)
take_at_most-all (suc n) [] l = refl
take_at_most-all (suc n) (x ∷ xs) l =
    ap (λ (ys : List ℕ). x ∷ ys) (take_at_most-all n xs (omega arith))

put_mem-append :
    (m : Mem) (p : ℕ) (xs ys : List ℕ)
    → put_mem m p (xs ++ ys) ≡ put_mem (put_mem m p xs) (p + length xs) ys
unfolding put_mem
put_mem-append m p [] ys = let e : p + 0 ≡ p = omega arith in rw e refl
put_mem-append m p (x ∷ xs) ys =
    let e : p + suc (length xs) ≡ (p + 1) + length xs = omega arith in
    rw e (put_mem-append (λ a. if p == a then x else m a) (p + 1) xs ys)

print_at-Same : (m : Mem) (i n : ℕ) (text : List ℕ) → Same m (print_at m i n text) 0 i
print_at-Same m i n text a lo hi = elim (Bool-cases (n == 0)) [
  | inl e ↦ rw e refl
  | inr e ↦
      rw e
        (put_mem-Same m i (take_at_most (n - 1) text ++ (0 ∷ [])) 0 i (inr (omega arith)) a lo hi)
]

print_at-text :
    (m : Mem) (i n : ℕ) (text : List ℕ)
    → length text < n
    → get_mem (print_at m i n text) 0 (i + length text) ≡ get_mem m 0 i ++ text
print_at-text m i n text short =
    let some_room : (n == 0) ≡ false = ground arith in
    let m₁ = put_mem m i text in
    let zero_plus : 0 + i ≡ i = omega arith in
    rw
      (
        some_room,
        take_at_most-all (n - 1) text (omega arith),
        put_mem-append m i text (0 ∷ []),
        get_mem-Same 0 (i + length text)
            (put_mem-Same m₁ (i + length text) (0 ∷ []) 0 (i + length text) (inr (omega arith))),
        get_mem-append m₁ 0 i (length text),
        zero_plus,
        get_mem-put_mem m i text,
        get_mem-Same 0 i (put_mem-Same m i text 0 i (inr (omega arith))),
      )
      refl

-- The parts of a line so far, and whether all of them fit.
abbrev pub fit : ℕ → List ℕ → Bool × List ℕ → Bool × List ℕ
fit size text (true, xs) =
    if ltb (length xs + length text) size then (true, xs ++ text) else (false, xs)
fit size text (false, xs) = (false, xs)

-- A buffer holds these parts; the marker at its end may have replaced some of the last bytes.
pub record Holds (size : ℕ) (r : Bool × Buffer) (s : Bool × List ℕ) : Type 0 where
  pub same : r.0 ≡ s.0
  pub index : r.1.index ≡ length s.1
  pub room : length s.1 < size
  pub text : (s.0 ≡ true) ⊎ (length s.1 + 4 ≤ size) → get_mem r.1.bytes 0 r.1.index ≡ s.1

left_room : (n size : ℕ) → (false ≡ true) ⊎ (n + 4 ≤ size) → n + 4 ≤ size
left_room n size (inl e) = absurd (cc)
left_room n size (inr l) = l

pub print-Holds :
    (size : ℕ) (text xs : List ℕ) (b : Buffer)
    → size < 2 ^ 32
    → Holds size (true, b) (true, xs)
    → Holds size (print size text b) (fit size text (true, xs))
unfolding safe_append
print-Holds size text xs b small h = elim (Bool-cases (ltb (length xs + length text) size)) [
  | inl fits ↦
      let here = h.index in
      let test : leb (sub32 size b.index) (length text) ≡ false = ground (arith, h.room) in
      let next : u32 (b.index + length text) ≡ b.index + length text = ground (arith, h.room) in
      rw (fits, test, next)
        (record {
          same = refl;
          index = omega (arith, length-append xs text);
          room = ground (arith, length-append xs text);
          text = λ _.
              print_at-text b.bytes b.index (size - b.index) text (ground (arith, h.room))
              ∙ rw (h.text (inl refl)) refl;
        })
  | inr full ↦
      let here = h.index in
      let test : leb (sub32 size b.index) (length text) ≡ true = ground (arith, h.room) in
      let m = print_at b.bytes b.index (size - b.index) text in
      rw (full, test)
        (record {
          same = refl;
          index = h.index;
          room = h.room;
          text = λ fine.
              get_mem-Same 0 b.index (
                Same-trans 0 b.index (print_at-Same b.bytes b.index (size - b.index) text) (
                  put_mem-Same m (size - 4) (dot ∷ dot ∷ eol ∷ 0 ∷ []) 0 b.index
                    (inr (omega (arith, h.index, left_room (length xs) size fine)))))
              ∙ h.text (inl refl);
        })
]

and_print-Holds :
    (size : ℕ) (text : List ℕ) (r : Bool × Buffer) (s : Bool × List ℕ)
    → size < 2 ^ 32
    → Holds size r s
    → Holds size (and_print size text r) (fit size text s)
and_print-Holds size text (true, b) (true, xs) small h = print-Holds size text xs b small h
and_print-Holds size text (true, b) (false, xs) small h = absurd (let e = h.same in cc)
and_print-Holds size text (false, b) (true, xs) small h = absurd (let e = h.same in cc)
and_print-Holds size text (false, b) (false, xs) small h = h

-- The parts of a line that fit the buffer, and whether all do: the first that does not fit ends it.
abbrev pub fitting : List ℕ → List ℕ → List ℕ → List ℕ → Bool × List ℕ
fitting prefix user str_error line_end =
    fit buffer_size line_end
      (fit buffer_size str_error (fit buffer_size user (fit buffer_size prefix (true, []))))

-- The line that shf_log() outputs is made of its parts, in order, up to the first that does not fit
-- the rest of the buffer with a NUL, which is left out as a whole, as is all that follows; if all
-- parts fit, the line is the whole line. Where a part does not fit, the parts before it are at most
-- the buffer's size but 4 bytes, since the marker of a cut line replaces those bytes.
pub log_line-fitting :
    (prefix user str_error line_end : List ℕ) (m : Mem)
    → ((fitting prefix user str_error line_end).0 ≡ true)
      ⊎ (length (fitting prefix user str_error line_end).1 + 4 ≤ buffer_size)
    → log_line prefix user str_error line_end m ≡ (fitting prefix user str_error line_end).1
unfolding log_line log_buffer get_mem
log_line-fitting prefix user str_error line_end m fine =
    let start : Holds buffer_size (true, record { bytes = m; index = 0 }) (true, []) = record {
      same = refl;
      index = refl;
      room = omega arith;
      text = λ _. refl;
    } in
    let h₁ =
      print-Holds buffer_size prefix [] (record { bytes = m; index = 0 }) (omega arith) start in
    let h₂ = and_print-Holds buffer_size user _ _ (omega arith) h₁ in
    let h₃ = and_print-Holds buffer_size str_error _ _ (omega arith) h₂ in
    (and_print-Holds buffer_size line_end _ _ (omega arith) h₃).text fine
