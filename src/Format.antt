-- ===== src/Format.antt =====
-- src/kernel/printf.c: formatted output.
-- A char array is a function from indices to bytes. The strings and the format are in memory, known by
-- their addresses; `va_arg` gives the words of a function, one behind the other. The bytes that are
-- written to `str` are a list: nothing that is read is written.
pub mod Reverse
pub mod Digits
pub mod Render
mod Tests
use zoho_os.Prelude.{
  ℕ, zero, suc, ◌+◌, ◌-◌, ◌/◌, ◌%◌, ◌^◌, Bool, true, false, not, ◌||◌, ◌&&◌, List, [], ◌∷◌, ◌++◌,
  length, Option, none, some, arith, ◌==◌, ltb, leb, if◌then◌else◌, update,
}
use zoho_os.Bytes.{Memory, strlen}

abbrev pub word64 : ℕ → ℕ
word64 n = n % 2 ^ 64

-- The loop of `reverse`, between the indices i and j.
unfoldable pub reverse_from : ℕ → ℕ → ℕ → Memory → Memory
reverse_from zero i j s = s
reverse_from (suc fuel) i j s =
    let rest = reverse_from fuel (i + 1) (j - 1) (update (update s i (s j)) j (s i)) in
    if ltb i j then rest else s

-- The text is in an array of 65 bytes.
unfoldable pub reverse : Memory → Memory
unfolding strlen reverse_from
reverse s = elim (strlen 65 0 s) [ none ↦ s | some len ↦ reverse_from len 0 (len - 1) s ]

abbrev pub char_of : ℕ → ℕ
char_of rem = if ltb 9 rem then rem - 10 + b'a' else rem + b'0'

-- The loop of `itoa`, which puts the digits from index `i` on, the lowest one first: the index behind
-- them, and the array. A number of 64 bits has at most 64 digits.
unfoldable pub put_digits : ℕ → ℕ → ℕ → ℕ → Memory → ℕ × Memory
put_digits zero n base i s = (i, s)
put_digits (suc fuel) n base i s =
    let rest = put_digits fuel (n / base) base (i + 1) (update s i (char_of (n % base))) in
    if n == 0 then (i, s) else rest

unfoldable pub itoa : ℕ → Memory → ℕ → Memory
unfolding put_digits reverse
itoa n s base =
    let (i, t) = if n == 0 then (1, update s 0 b'0') else put_digits 64 n base 0 s in
    reverse (update t i 0)

-- The loop that appends a string while there is room: `limit` is `size - 1`.
unfoldable pub append_text : ℕ → Memory → ℕ → ℕ → List ℕ → List ℕ
append_text zero m s limit str = str
append_text (suc fuel) m s limit str =
    let rest = append_text fuel m (s + 1) limit (str ++ m s ∷ []) in
    if not (m s == 0) && ltb (length str) limit then rest else str

-- A number through `buf`, and its text from there.
unfoldable pub append_number : Memory → ℕ → ℕ → ℕ → List ℕ → List ℕ
unfolding itoa append_text
append_number buf n base limit str = append_text limit (itoa n buf base) 0 limit str

-- The `switch` on the character behind a `%`; `arg` is what `va_arg` gives, if it is called.
unfoldable pub directive : Memory → Memory → ℕ → ℕ → ℕ → List ℕ → List ℕ
unfolding append_text append_number
directive m buf limit c arg str =
    if c == b'c'
    then str ++ arg % 2 ^ 8 ∷ []
    else if c == b's'
    then append_text limit m arg limit str
    else if c == b'd'
    then if ltb arg (2 ^ 63)
      then append_number buf arg 10 limit str
      else append_number buf (2 ^ 64 - arg) 10 limit (str ++ b'-' ∷ [])
    else if c == b'u'
    then append_number buf arg 10 limit str
    else if c == b'x'
    then append_number buf arg 16 limit str
    else if c == b'p'
    then append_number buf arg 16 limit str
    else str ++ c ∷ []

-- Whether a directive calls `va_arg`.
abbrev pub takes_arg : ℕ → Bool
takes_arg c = c == b'c' || c == b's' || c == b'd' || c == b'u' || c == b'x' || c == b'p'

-- The loop over the format: `p` is the next of its bytes and `k` counts the arguments taken.
unfoldable pub format_from : ℕ → Memory → Memory → (ℕ → ℕ) → ℕ → ℕ → ℕ → List ℕ → List ℕ
unfolding directive
format_from zero m buf ap limit p k str = str
format_from (suc fuel) m buf ap limit p k str =
    let plain = not (m p == b'%') in
    let c = m (p + 1) in
    let rest =
      format_from fuel m buf ap limit (if plain then p + 1 else p + 2)
        (if plain then k else if takes_arg c then k + 1 else k)
        (if plain then str ++ m p ∷ [] else directive m buf limit c (ap k) str) in
    if not (m p == 0) && ltb (length str) limit then rest else str

-- `(int)i`, as its 32 bits: below 2 ^ 31 they are the number, above they stand for a negative one.
abbrev pub int_bits : ℕ → ℕ
int_bits i = i % 2 ^ 32

-- What is written to `str`, and the bits of the `int` that is returned. For a `size` of 0 the limit
-- wraps around.
unfoldable pub vsnprintf : ℕ → Memory → Memory → ℕ → ℕ → (ℕ → ℕ) → List ℕ × ℕ
unfolding format_from
vsnprintf fuel m buf size format ap =
    let str = format_from fuel m buf ap (word64 (size + 2 ^ 64 - 1)) format 0 [] in
    (str ++ 0 ∷ [], int_bits (length str))
