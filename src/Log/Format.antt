-- ===== src/Log/Format.antt =====
-- shf_log_safe_append(), shf_log(), shf_log_vfprintf() and its kin of src/shf.c: lines put together
-- in a buffer of fixed size. What a format and its arguments expand to is given as a list of bytes,
-- and what the output function does is a parameter.
use sharedhashfile.Prelude.{
  ℕ, zero, suc, ◌+◌, ◌-◌, List, [], ◌∷◌, ◌++◌, length, Bool, true, false, leb, ◌==◌, if◌then◌else◌,
  Option, none, some,
}
use sharedhashfile.Layout.{u32, sub32}
use sharedhashfile.Mem.{Mem, get_mem, put_mem}

-- SHF_LOG_BUFFER_SIZE
abbrev pub buffer_size : ℕ
buffer_size = 4096

-- The bytes '\n', '.', '?', '=' and '#'.
abbrev pub eol : ℕ
eol = 10

abbrev pub dot : ℕ
dot = 46

abbrev pub question : ℕ
question = 63

abbrev pub equals : ℕ
equals = 61

abbrev pub hash : ℕ
hash = 35

-- A buffer and the index in it.
pub record Buffer : Type 0 where
  pub bytes : Mem
  pub index : ℕ

abbrev pub take_at_most : ℕ → List ℕ → List ℕ
take_at_most zero xs = []
take_at_most (suc n) [] = []
take_at_most (suc n) (x ∷ xs) = x ∷ take_at_most n xs

-- snprintf(&buffer[i], n, ...) of a text: as much of it as leaves room for the NUL that ends it.
abbrev pub print_at : Mem → ℕ → ℕ → List ℕ → Mem
print_at m i n text = if n == 0 then m else put_mem m i (take_at_most (n - 1) text ++ (0 ∷ []))

-- The marker of a cut line.
abbrev pub cut : ℕ → Buffer → Bool × Buffer
cut size b = (false, record b { bytes = put_mem b.bytes (size - 4) (dot ∷ dot ∷ eol ∷ 0 ∷ []) })

-- shf_log_safe_append(), where a negative number of bytes, an error of snprintf(), is `none`.
unfoldable pub safe_append : ℕ → Option ℕ → Buffer → Bool × Buffer
safe_append size none b = cut size b
safe_append size (some appended) b =
    if leb (sub32 size b.index) appended
    then cut size b
    else (true, record b { index = u32 (b.index + appended) })

-- A call of shf_log_safe_append() on a text that snprintf() prints at the index.
abbrev pub print : ℕ → List ℕ → Buffer → Bool × Buffer
print size text b =
    safe_append size (some (length text))
      (record b { bytes = print_at b.bytes b.index (size - b.index) text })

abbrev pub and_print : ℕ → List ℕ → Bool × Buffer → Bool × Buffer
and_print size text (true, b) = print size text b
and_print size text (false, b) = (false, b)

-- shf_log(): the buffer after the prefix, the message, the system error and the end of line.
unfoldable pub log_buffer : List ℕ → List ℕ → List ℕ → List ℕ → Mem → Buffer
log_buffer prefix user str_error line_end m =
    (and_print buffer_size line_end (
      and_print buffer_size str_error (
        and_print buffer_size user (print buffer_size prefix (record { bytes = m; index = 0 }))))).1

-- shf_log() for LOG_INFO: the line that the output function gets.
unfoldable pub log_line : List ℕ → List ℕ → List ℕ → List ℕ → Mem → List ℕ
unfolding log_buffer
log_line prefix user str_error line_end m =
    let b = log_buffer prefix user str_error line_end m in get_mem b.bytes 0 b.index

-- The first byte of a line marked by the output function.
abbrev pub mark : ℕ → List ℕ → List ℕ
mark c [] = []
mark c (x ∷ xs) = (if x == question then c else x) ∷ xs

-- shf_log_output_stdout(): what it prints.
unfoldable pub output_stdout : List ℕ → List ℕ
output_stdout line = mark equals line

-- shf_log_output_shf_log(): what it appends.
unfoldable pub output_shf_log : List ℕ → List ℕ
output_shf_log line = mark hash line

-- shf_log_vfprintf(): the result, the buffer, and the line given to SHF_PLAIN(), if any.
unfoldable pub log_vfprintf : List ℕ → Buffer → ℕ × Buffer × List ℕ
log_vfprintf text b =
    let b₁ = (print buffer_size text b).1 in
    let len = sub32 b₁.index b.index in
    if b₁.bytes (sub32 b₁.index 1) == eol
    then (len, record b₁ { index = 0 }, get_mem b₁.bytes 0 b₁.index)
    else (len, b₁, [])

-- shf_log_fputs()
unfoldable pub log_fputs : List ℕ → Buffer → Buffer × List ℕ
log_fputs string b = let (len, b', line) = log_vfprintf string b in (b', line)

-- shf_log_fputc()
unfoldable pub log_fputc : ℕ → Buffer → Buffer × List ℕ
log_fputc character b = let (len, b', line) = log_vfprintf (character ∷ []) b in (b', line)
