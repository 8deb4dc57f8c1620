-- ===== src/CString.antt =====
-- libc/string and libc/ctype: strings as the lists of their bytes before the terminator, and memory
-- as a function of addresses.
pub mod Compare
pub mod Search
pub mod Move
pub mod Tokens
mod Examples
use hojicha.Common.{
  ℕ, zero, suc, ◌+◌, ◌-◌, ◌%◌, Bool, true, false, not, ◌&&◌, ◌||◌, Option, none, some, List, [],
  ◌∷◌, ltb, leb, ◌==◌, if◌then◌else◌, ℤ, pos, negsuc, sub_ℕ,
}

abbrev pub tolower : ℕ → ℕ
tolower c = if leb b'A' c && leb c b'Z' then c + 32 else c

abbrev pub toupper : ℕ → ℕ
toupper c = if leb b'a' c && leb c b'z' then c - 32 else c

abbrev pub isprint : ℕ → Bool
isprint c = leb b' ' c && leb c b'~'

-- ' ', '\f', '\n', '\r', '\t' and '\v'.
abbrev pub isspace : ℕ → Bool
isspace c = c == 32 || c == 12 || c == 10 || c == 13 || c == 9 || c == 11

-- The byte that a pointer into the string shows: the terminator at its end.
abbrev pub peek : List ℕ → ℕ
peek [] = 0
peek (c ∷ str) = c

abbrev pub advance : List ℕ → List ℕ
advance [] = []
advance (c ∷ str) = str

unfoldable pub strlen : List ℕ → ℕ
strlen [] = 0
strlen (c ∷ str) = suc (strlen str)

unfoldable pub strcmp : List ℕ → List ℕ → ℤ
strcmp [] b = sub_ℕ 0 (peek b)
strcmp (a ∷ as') b = if a == peek b then strcmp as' (advance b) else sub_ℕ a (peek b)

unfoldable pub strncmp : List ℕ → List ℕ → ℕ → ℤ
strncmp a b zero = pos 0
strncmp a b (suc len) =
    let rest = strncmp (advance a) (advance b) len in
    if not (peek a == peek b) then sub_ℕ (peek a) (peek b) else if peek a == 0 then pos 0 else rest

unfoldable pub strcasecmp : List ℕ → List ℕ → ℤ
strcasecmp [] b = sub_ℕ 0 (tolower (peek b))
strcasecmp (a ∷ as') b =
    let rest = strcasecmp as' (advance b) in
    if not (tolower a == tolower (peek b)) || tolower a == 0
    then sub_ℕ (tolower a) (tolower (peek b))
    else rest

unfoldable pub strncasecmp : List ℕ → List ℕ → ℕ → ℤ
strncasecmp a b zero = pos 0
strncasecmp a b (suc len) =
    let rest = strncasecmp (advance a) (advance b) len in
    if not (tolower (peek a) == tolower (peek b))
    then sub_ℕ (tolower (peek a)) (tolower (peek b))
    else if tolower (peek a) == 0
    then pos 0
    else rest

-- A pointer into a string is the rest of the string from there.
unfoldable pub strchr : List ℕ → ℕ → Option (List ℕ)
strchr [] ch = if ch == 0 then some [] else none
strchr (c ∷ str) ch = if c == ch then some (c ∷ str) else strchr str ch

-- The loop of `strrchr`, with the last occurrence so far.
unfoldable pub strrchr_loop : Option (List ℕ) → List ℕ → ℕ → Option (List ℕ)
strrchr_loop last [] ch = if ch == 0 then some [] else last
strrchr_loop last (c ∷ str) ch = strrchr_loop (if c == ch then some (c ∷ str) else last) str ch

unfoldable pub strrchr : List ℕ → ℕ → Option (List ℕ)
strrchr str ch = strrchr_loop none str ch

-- The inner loop of `strstr`: whether it gets to the end of the needle.
unfoldable pub begins_with : List ℕ → List ℕ → Bool
begins_with h [] = true
begins_with [] (n ∷ needle) = false
begins_with (h ∷ haystack) (n ∷ needle) = h == n && begins_with haystack needle

unfoldable pub strstr_loop : List ℕ → List ℕ → Option (List ℕ)
strstr_loop [] needle = none
strstr_loop (h ∷ haystack) needle =
    if begins_with (h ∷ haystack) needle then some (h ∷ haystack) else strstr_loop haystack needle

unfoldable pub strstr : List ℕ → List ℕ → Option (List ℕ)
strstr haystack [] = some haystack
strstr haystack (n ∷ needle) = strstr_loop haystack (n ∷ needle)

-- `strchr(delim, c) != NULL` for a byte of a string.
abbrev pub is_delim : List ℕ → ℕ → Bool
is_delim [] c = false
is_delim (d ∷ delim) c = d == c || is_delim delim c

unfoldable pub skip_delims : List ℕ → List ℕ → List ℕ
skip_delims delim [] = []
skip_delims delim (c ∷ str) = if is_delim delim c then skip_delims delim str else c ∷ str

-- The token and where the next call starts: past the delimiter that is overwritten.
unfoldable pub cut_token : List ℕ → List ℕ → List ℕ × List ℕ
cut_token delim [] = ([], [])
cut_token delim (c ∷ str) =
    let (token, rest) = cut_token delim str in
    if is_delim delim c then ([], str) else (c ∷ token, rest)

-- The result and `*saveptr`; `none` is NULL.
abbrev pub token_from : List ℕ → List ℕ → Option (List ℕ) × Option (List ℕ)
token_from delim [] = (none, some [])
token_from delim (c ∷ str) =
    let (token, rest) = cut_token delim (c ∷ str) in (some token, some rest)

unfoldable pub strtok_r :
    Option (List ℕ) → List ℕ → Option (List ℕ) → Option (List ℕ) × Option (List ℕ)
strtok_r (some str) delim saveptr = token_from delim (skip_delims delim str)
strtok_r none delim none = (none, none)
strtok_r none delim (some str) = token_from delim (skip_delims delim str)

-- The `n` bytes that `strncpy` writes.
unfoldable pub strncpy : List ℕ → ℕ → List ℕ
strncpy src zero = []
strncpy [] (suc n) = 0 ∷ strncpy [] n
strncpy (c ∷ src) (suc n) = c ∷ strncpy src n

abbrev pub Memory : Type 0
Memory = ℕ → ℕ

abbrev pub write : Memory → ℕ → ℕ → Memory
write memory p v = λ q. if q == p then v else memory q

-- `size` rounds from the front, and from the back.
unfoldable pub copy_up : ℕ → Memory → (dest src : ℕ) → Memory
copy_up zero memory dest src = memory
copy_up (suc size) memory dest src =
    copy_up size (write memory dest (memory src)) (dest + 1) (src + 1)

unfoldable pub copy_down : ℕ → Memory → (dest src : ℕ) → Memory
copy_down zero memory dest src = memory
copy_down (suc size) memory dest src =
    copy_down size (write memory (dest + size) (memory (src + size))) dest src

unfoldable pub memmove : Memory → (dest src size : ℕ) → Memory
unfolding copy_up copy_down
memmove memory dest src size =
    if ltb dest src then copy_up size memory dest src else copy_down size memory dest src

unfoldable pub memset : ℕ → Memory → (buf value : ℕ) → Memory
memset zero memory buf value = memory
memset (suc size) memory buf value = memset size (write memory buf (value % 256)) (buf + 1) value

-- On the two areas' bytes.
unfoldable pub memcmp : Memory → (a b size : ℕ) → ℤ
memcmp memory a b zero = pos 0
memcmp memory a b (suc size) =
    let rest = memcmp memory (a + 1) (b + 1) size in
    if ltb (memory a) (memory b)
    then negsuc 0
    else if ltb (memory b) (memory a)
    then pos 1
    else rest
