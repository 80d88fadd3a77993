-- ===== src/Utils/StrUtil.antt =====
-- utils/strutil.cc: `strnstr`, `split`, `trim` and `delafter` on byte strings. A pointer into a
-- text is the list of the bytes from there on, and a returned pointer is an offset. Lengths are
-- taken to be below 2 ^ 31, so that the `int` lengths of the source hold them.
pub mod Find
pub mod Split
pub mod Words
use unixtar.Prelude.{
  ℕ, zero, suc, ◌+◌, ◌-◌, Bool, true, false, ◌&&◌, not, List, [], ◌∷◌, ◌++◌, Option, none, some,
  Bytes, length, take, drop, leb, ◌==◌, if◌then◌else◌, get_or,
}
use mathlib.Core.Option
use mathlib.Core.List.{reverse}

-- `memcmp(text, needle, strlen(needle)) == 0`
unfoldable pub is_prefix : Bytes → Bytes → Bool
is_prefix [] text = true
is_prefix (c ∷ cs) [] = false
is_prefix (c ∷ cs) (x ∷ xs) = x == c && is_prefix cs xs

-- `std::string::find`: the offset of the first occurrence, `none` for `npos`.
unfoldable pub find : Bytes → Bytes → Option ℕ
find [] needle = if is_prefix needle [] then some 0 else none
find (x ∷ xs) needle = if is_prefix needle (x ∷ xs) then some 0 else Option.map suc (find xs needle)

-- `strnlen`: up to the first NUL, and at most `len`.
unfoldable pub strnlen : Bytes → ℕ → ℕ
strnlen text zero = 0
strnlen [] (suc len) = 0
strnlen (x ∷ xs) (suc len) = if x == 0 then 0 else suc (strnlen xs len)

-- The while loop of `strnstr`; `off` is how far `_haystack` has moved. The needle is not empty,
-- so the loop ends at once when `_len` is 0.
unfoldable pub strnstr_loop : ℕ → Bytes → Bytes → ℕ → Option ℕ
strnstr_loop zero haystack needle off = none
strnstr_loop (suc len) haystack needle off =
    let rest = strnstr_loop len (drop 1 haystack) needle (off + 1) in
    if leb (length needle) (suc len)
    then (if is_prefix needle haystack then some off else rest)
    else none

unfoldable pub strnstr : Bytes → Bytes → ℕ → Option ℕ
unfolding strnstr_loop strnlen
strnstr haystack [] len = some 0
strnstr haystack (c ∷ cs) len =
    let len1 = strnlen haystack len in
    strnstr_loop (if leb len len1 then len else len1) haystack (c ∷ cs) 0

-- What `split` does behind its loop.
unfoldable pub split_end : Bytes → Bool → List Bytes → List Bytes
split_end [] has res = res
split_end (x ∷ xs) has res = if has then res ++ (x ∷ xs) ∷ [] else res

-- The while loop of `split` on the text from `last` on: `rest` is `_src.substr(last)` and `curr`
-- is counted from `last`. `none` means that the fuel ran out.
unfoldable pub split_loop : ℕ → Bytes → Bytes → Bool → List Bytes → Option (List Bytes)
unfolding split_end
split_loop zero rest separator has res = none
split_loop (suc fuel) rest separator has res = elim (find rest separator) [
  | none ↦ some (split_end rest has res)
  | some curr ↦ elim (curr == 0) [
    | true ↦ split_loop fuel (drop (curr + length separator) rest) separator has res
    | false ↦
        split_loop fuel (drop (curr + length separator) rest) separator true
          (res ++ take curr rest ∷ [])
  ]
]

-- Each round takes a separator off, so `length src + 1` rounds are enough when it is not empty;
-- the source does not end on an empty separator.
unfoldable pub split : Bytes → Bytes → List Bytes
unfolding split_loop
split [] separator = []
split (x ∷ xs) separator =
    Option.get_or (split_loop (suc (length (x ∷ xs))) (x ∷ xs) separator false []) []

-- `_s.erase(0, _s.find_first_not_of(' '))`, and the same from the end.
unfoldable pub trim_front : Bytes → Bytes
trim_front [] = []
trim_front (x ∷ xs) = if x == b' ' then trim_front xs else x ∷ xs

unfoldable pub trim : Bytes → Bytes
unfolding trim_front
trim s = reverse (trim_front (reverse (trim_front s)))

unfoldable pub is_among : ℕ → Bytes → Bool
is_among x [] = false
is_among x (y ∷ ys) = if x == y then true else is_among x ys

-- `delafter` with a single character.
unfoldable pub delafter : Bytes → ℕ → Bytes
delafter [] whence = []
delafter (x ∷ xs) whence = if x == whence then [] else x ∷ delafter xs whence

-- `delafter` with a string: from the first character on that stands in it.
unfoldable pub delafter_any : Bytes → Bytes → Bytes
unfolding is_among
delafter_any [] whence = []
delafter_any (x ∷ xs) whence = if is_among x whence then [] else x ∷ delafter_any xs whence
