-- ===== src/Shell.antt =====
-- src/kernel/core/shell.c: the reading of a line, its splitting into words, and the search for the
-- command. A buffer is a C array of characters, and a pointer into it is an index. What console_getc
-- gives is a list of characters; when it is used up, the code waits. Echo and messages are left out.
pub mod Text
pub mod Words
pub mod Tokens
pub mod Lines
pub mod Run
pub mod Commands
mod Tests
use my_microkernel.Prelude.{
  ℕ, zero, suc, ◌+◌, ◌-◌, ◌==◌, Bool, true, false, not, ◌&&◌, ◌||◌, Option, none, some, List, [],
  ◌∷◌, ◌++◌, ltb, leb, if◌then◌else◌, update,
}

-- `SHELL_LINE_MAX`
abbrev pub line_max : ℕ
line_max = 128

-- `is_space`
pub is_space : ℕ → Bool
is_space c = c == 32 || (c == 9 || (c == 13 || c == 10))

-- The loop of `streq` from the pointers `a` and `b` on, with `n` rounds left; the strings are in memory.
pub streq_from : (ℕ → ℕ) → (a b n : ℕ) → Bool
streq_from m a b zero = m a == 0 && m b == 0
streq_from m a b (suc n) =
    let rest = streq_from m (a + 1) (b + 1) n in
    if not (m a == 0) && not (m b == 0)
    then if not (m a == m b) then false else rest
    else m a == 0 && m b == 0

-- `streq`, for strings of at most `n` characters.
pub streq : (ℕ → ℕ) → (n a b : ℕ) → Bool
streq m n a b = if a == 0 || b == 0 then false else streq_from m a b n

-- The loop of `shell_readline`: the buffer and the length when the line has ended, and the characters
-- that have not been read. None if it waits for more.
pub readline_from : (capacity : ℕ) → (ℕ → ℕ) → (len : ℕ) → List ℕ → Option ((ℕ → ℕ) × ℕ × List ℕ)
readline_from capacity buf len [] = none
readline_from capacity buf len (c ∷ input) =
    let less = readline_from capacity buf (len - 1) input in
    let same = readline_from capacity buf len input in
    let more = readline_from capacity (update buf len c) (len + 1) input in
    if c == 10
    then some (update buf len 0, len, input)
    else if c == 8 || c == 0x7F
    then if ltb 0 len then less else same
    else if ltb c 0x20
    then same
    else if ltb (len + 1) capacity
    then more
    else same

-- `shell_readline`, for a buffer that is not NULL.
pub readline : (capacity : ℕ) → (ℕ → ℕ) → List ℕ → Option ((ℕ → ℕ) × ℕ × List ℕ)
readline capacity buf input =
    if capacity == 0 then some (buf, 0, input) else readline_from capacity buf 0 input

-- The inner loops of `shell_tokenize` from `p` on, with `n` rounds left: over white space, and over a word.
pub skip_spaces : (ℕ → ℕ) → (p n : ℕ) → ℕ
skip_spaces line p zero = p
skip_spaces line p (suc n) =
    let rest = skip_spaces line (p + 1) n in
    if not (line p == 0) && is_space (line p) then rest else p

pub skip_word : (ℕ → ℕ) → (p n : ℕ) → ℕ
skip_word line p zero = p
skip_word line p (suc n) =
    let rest = skip_word line (p + 1) n in
    if not (line p == 0) && not (is_space (line p)) then rest else p

-- The loop of `shell_tokenize` at `p`, with room for `room` more words and `n` rounds left: the line with
-- its words ended by NUL, and the pointers to the words.
pub tokenize_from : (ℕ → ℕ) → (p room n : ℕ) → (ℕ → ℕ) × List ℕ
tokenize_from line p room zero = (line, [])
tokenize_from line p room (suc n) =
    let start = skip_spaces line p n in
    let end = skip_word line start n in
    let last = tokenize_from line end (room - 1) n in
    let rest = tokenize_from (update line end 0) (end + 1) (room - 1) n in
    if line p == 0
    then (line, [])
    else if line start == 0
    then (line, [])
    else if room == 0
    then (line, [])
    else if line end == 0
    then (last.0, start ∷ last.1)
    else (rest.0, start ∷ rest.1)

-- `shell_tokenize`, for pointers that are not NULL, and a line of at most `n` characters.
pub tokenize : (n : ℕ) → (ℕ → ℕ) → (argv_cap : ℕ) → (ℕ → ℕ) × List ℕ
tokenize n line argv_cap =
    if argv_cap == 0 then (line, []) else tokenize_from line 0 argv_cap (n + 1)

-- The loop of `shell_dispatch` over the names of the commands, from the number `i` on.
pub find_command : (ℕ → ℕ) → (n word : ℕ) → (i : ℕ) → List ℕ → Option ℕ
find_command m n word i [] = none
find_command m n word i (name ∷ names) =
    let rest = find_command m n word (i + 1) names in if streq m n word name then some i else rest
