-- ===== src/Log/Line.antt =====
-- shf_log_vfprintf() outputs whole lines.
use sharedhashfile.Prelude.{
  ℕ, suc, ◌+◌, ◌<◌, ◌≡◌, inl, inr, refl, ap, List, [], ◌∷◌, ◌++◌, length, length-append, Bool-cases,
  true, ltb, ◌==◌, if◌then◌else◌, arith,
}
use sharedhashfile.Layout.{sub32}
use sharedhashfile.Mem.{Mem, get_mem}
use sharedhashfile.Queue.Pull.{append_assoc}
use sharedhashfile.Log.Format.{buffer_size, eol, Buffer, print, log_vfprintf}
use sharedhashfile.Log.Fit.{Holds, print-Holds}

first_of : ℕ → List ℕ → ℕ
first_of d [] = d
first_of d (x ∷ xs) = x

rest_of : List ℕ → List ℕ
rest_of [] = []
rest_of (x ∷ xs) = xs

get_mem-last :
    (m : Mem) (p : ℕ) (xs : List ℕ) (y : ℕ)
    → get_mem m p (suc (length xs)) ≡ xs ++ (y ∷ [])
    → m (p + length xs) ≡ y
unfolding get_mem first_of rest_of
get_mem-last m p [] y e = let z : p + 0 ≡ p = omega arith in rw z (ap (first_of 0) e)
get_mem-last m p (x ∷ xs) y e =
    let next : p + suc (length xs) ≡ (p + 1) + length xs = omega arith in
    rw next (get_mem-last m (p + 1) xs y (ap rest_of e))

-- What shf_log_vfprintf() of a text that ends with `last` returns, leaves in the buffer and outputs,
-- where the buffer held `held`.
abbrev pub Buffered : List ℕ → List ℕ → ℕ → ℕ × Buffer × List ℕ → Type 0
Buffered held text last (len, b, line) =
    (len ≡ length text + 1)
    × (if last == eol
        then (b.index ≡ 0) × (line ≡ held ++ (text ++ (last ∷ [])))
        else (line ≡ []) × (get_mem b.bytes 0 b.index ≡ held ++ (text ++ (last ∷ []))))

-- If a text that is not empty, but ends with the byte `last`, fits the buffer behind what the buffer holds, then
-- shf_log_vfprintf() returns its length; if `last` is a newline, it outputs what the buffer held
-- followed by the text, and empties the buffer; else it outputs nothing, and the buffer holds both.
pub log_vfprintf-Buffered :
    (held text : List ℕ) (last : ℕ) (b : Buffer)
    → b.index ≡ length held
    → get_mem b.bytes 0 b.index ≡ held
    → length held + (length text + 1) < buffer_size
    → Buffered held text last (log_vfprintf (text ++ (last ∷ [])) b)
unfolding log_vfprintf
log_vfprintf-Buffered held text last b at bytes short =
    let t = text ++ (last ∷ []) in
    let len_t = length-append text (last ∷ []) in
    let len_all = length-append held t in
    let start : Holds buffer_size (true, b) (true, held) = record {
      same = refl;
      index = at;
      room = omega arith;
      text = λ _. bytes;
    } in
    let fits : ltb (length held + length t) buffer_size ≡ true = ground arith in
    let h : Holds buffer_size (print buffer_size t b) (true, held ++ t) =
      rw fits at (print-Holds buffer_size t held b (omega arith) start) in
    let b₁ = (print buffer_size t b).1 in
    let whole = h.text (inl refl) in
    let parts = length-append held text in
    let size : b₁.index ≡ suc (length (held ++ text)) =
      omega (arith, h.index, len_all, len_t, parts) in
    let before : sub32 b₁.index 1 ≡ 0 + length (held ++ text) = omega (arith, size, short, parts) in
    let line : get_mem b₁.bytes 0 (suc (length (held ++ text))) ≡ (held ++ text) ++ (last ∷ []) =
      rw (size, append_assoc held text (last ∷ [])) at whole in
    let end : b₁.bytes (sub32 b₁.index 1) ≡ last =
      rw before (get_mem-last b₁.bytes 0 (held ++ text) last line) in
    let printed : sub32 b₁.index b.index ≡ length text + 1 =
      omega (arith, size, short, parts, at) in
    elim (Bool-cases (last == eol)) [
      | inl e ↦ rw (end, e) (printed, (refl, whole))
      | inr e ↦ rw (end, e) (printed, (refl, whole))
    ]
