-- ===== src/CString/Examples.antt =====
-- libc/string on small strings.
use Prim.Native.Char.{code}
use Prim.Native.String.{String}
use hojicha.CString.{
  strcmp, strcasecmp, strchr, strrchr, strrchr_loop, begins_with, strstr, strstr_loop, skip_delims,
  cut_token, strtok_r, strncpy, copy_down, memmove, memcmp,
}
use hojicha.CString.Move.{memmove_lem}
use hojicha.CString.Search.{FindsFirst, strstr-FindsFirst}
use hojicha.CString.Tokens.{Tokenizes, strtok_r-Tokenizes}
use hojicha.Common.{
  ℕ, ◌+◌, ◌-◌, ◌≡◌, refl, ◌&&◌, none, some, List, [], ◌∷◌, ltb, leb, if◌then◌else◌, negsuc, pos,
}

abbrev bytes : String → List ℕ
bytes String.[] = []
bytes (String.◌∷◌ c s) = code c ∷ bytes s

found :
    (strchr (bytes "a/b/c") b'/' ≡ some (bytes "/b/c"))
    × (strrchr (bytes "a/b/c") b'/' ≡ some (bytes "/c"))
    × (strchr (bytes "ab") 0 ≡ some [])
    × (strstr (bytes "aabab") (bytes "ab") ≡ some (bytes "abab"))
    × (strncpy (bytes "abc") 5 ≡ b'a' ∷ b'b' ∷ b'c' ∷ 0 ∷ 0 ∷ [])
    × (strcasecmp (bytes "HeLLo") (bytes "hello") ≡ pos 0)
    × (strcmp (bytes "ab") (bytes "b") ≡ negsuc 0)
unfolding strchr strrchr strrchr_loop strstr strstr_loop begins_with strncpy strcasecmp strcmp
found = (refl, refl, refl, refl, refl, refl, refl)

first_token :
    strtok_r (some (bytes "  ls -l")) (bytes " ") none ≡ (some (bytes "ls"), some (bytes "-l"))
unfolding strtok_r skip_delims cut_token
first_token = refl

-- Each address holds its own number; the areas overlap.
moved : (memmove (λ p. p) 12 10 4 15 ≡ 13) × (memcmp (λ p. p) 3 4 2 ≡ negsuc 0)
unfolding memmove copy_down memcmp
moved = (refl, refl)

memmove_lem_example :
    memmove (λ p. p) 12 10 4 15 ≡ (if leb 12 15 && ltb 15 (12 + 4) then 10 + (15 - 12) else 15)
memmove_lem_example = memmove_lem (λ p. p) 12 10 4 15

strstr-FindsFirst_example :
    FindsFirst (bytes "aabab") (bytes "ab") (strstr (bytes "aabab") (bytes "ab"))
strstr-FindsFirst_example = strstr-FindsFirst (bytes "aabab") (bytes "ab")

strtok_r-Tokenizes_example :
    Tokenizes (bytes " ") (bytes "  ls -l") (strtok_r (some (bytes "  ls -l")) (bytes " ") none)
    × (strtok_r none (bytes " ") (some (bytes "  ls -l"))
        ≡ strtok_r (some (bytes "  ls -l")) (bytes " ") none)
    × (strtok_r none (bytes " ") none ≡ (none, none))
strtok_r-Tokenizes_example = strtok_r-Tokenizes (bytes " ") (bytes "  ls -l") none
