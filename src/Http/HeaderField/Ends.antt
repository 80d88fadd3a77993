-- ===== src/Http/HeaderField/Ends.antt =====
-- Where a header block ends: `strnstr` for the blank line.
use unixtar.Prelude.{
  ℕ, suc, ◌+◌, List, [], ◌∷◌, ◌++◌, Option, none, some, Bytes, codes, length, arith, ◌≡◌, ◌≢◌, refl,
  sym, ap, ◌∙◌, All, append_assoc, length-append,
}
use unixtar.Utils.StrUtil.{is_prefix, find, strnstr}
use unixtar.Utils.StrUtil.Find.{searched, searched-append, strnstr-find, find-cons_miss}
use unixtar.Utils.StrUtil.Words.{IsWord, joined, find-append-Free, find-word}
use mathlib.Core.Option

abbrev pub blank_line : Bytes
blank_line = codes "\r\n\r\n"

map_two : (o : Option ℕ) → Option.map suc (Option.map suc o) ≡ Option.map (λ k. 2 + k) o
map_two none = refl
map_two (some k) = ap some (omega arith)

-- A single CRLF in front of another line is no blank line.
find-crlf :
    (y : ℕ) (t : Bytes)
    → y ≢ b'\r'
    → find (codes "\r\n" ++ (y ∷ t)) blank_line ≡ Option.map (λ k. 2 + k) (find (y ∷ t) blank_line)
find-crlf y t h =
    find-cons_miss b'\r' (b'\n' ∷ y ∷ t) blank_line (unfold is_prefix in ground arith)
    ∙ ap (Option.map suc)
        (find-cons_miss b'\n' (y ∷ t) blank_line (unfold is_prefix in ground arith))
    ∙ map_two _

find-crlf_word :
    (w s : Bytes)
    → IsWord b'\r' w
    → find (codes "\r\n" ++ (w ++ s)) blank_line
      ≡ Option.map (λ k. 2 + k) (find (w ++ s) blank_line)
find-crlf_word [] s h = absurd (h.1 refl)
find-crlf_word (y ∷ w) s h = find-crlf y (w ++ s) h.0.0

find-crlf_block :
    (ws : List Bytes) (last r : Bytes)
    → All (IsWord b'\r') ws
    → IsWord b'\r' last
    → find (codes "\r\n" ++ (joined (codes "\r\n") ws last ++ r)) blank_line
      ≡ Option.map (λ k. 2 + k) (find (joined (codes "\r\n") ws last ++ r) blank_line)
find-crlf_block [] last r h l = find-crlf_word last r l
find-crlf_block (w ∷ ws) last r h l =
    rw (append_assoc w (codes "\r\n" ++ joined (codes "\r\n") ws last) r) (find-crlf_word w _ h.0)

-- The first blank line behind a block of lines is the one that ends it.
find_block :
    (ws : List Bytes) (last rest : Bytes)
    → All (IsWord b'\r') ws
    → IsWord b'\r' last
    → find (joined (codes "\r\n") ws last ++ (blank_line ++ rest)) blank_line
      ≡ some (length (joined (codes "\r\n") ws last))
find_block [] last rest h l = find-word b'\r' (codes "\n\r\n") last rest l.0
find_block (w ∷ ws) last rest h l =
    let block : Bytes = joined (codes "\r\n") ws last in
    ap (λ t. find t blank_line) (append_assoc w (codes "\r\n" ++ block) (blank_line ++ rest))
    ∙ find-append-Free b'\r' (codes "\n\r\n") w _ h.0.0
    ∙ ap (Option.map (λ k. length w + k)) (
        find-crlf_block ws last (blank_line ++ rest) h.1 l
        ∙ ap (Option.map (λ k. 2 + k)) (find_block ws last rest h.1 l))
    ∙ ap some (omega (arith, length-append w (codes "\r\n" ++ block)))

-- `strnstr` finds the end of a header block in a buffer, whatever follows the blank line.
pub strnstr_block :
    (ws : List Bytes) (last rest : Bytes) (n : ℕ)
    → All (IsWord b'\r') ws
    → IsWord b'\r' last
    → All (λ x. x ≢ 0) (joined (codes "\r\n") ws last ++ blank_line)
    → n ≡ length (joined (codes "\r\n") ws last ++ (blank_line ++ rest))
    → strnstr (joined (codes "\r\n") ws last ++ (blank_line ++ rest)) blank_line n
      ≡ some (length (joined (codes "\r\n") ws last))
strnstr_block ws last rest n h l text len =
    let block : Bytes = joined (codes "\r\n") ws last in
    strnstr-find _ blank_line n (λ e. cc)
    ∙ ap (λ t. find (searched t n) blank_line) (sym (append_assoc block blank_line rest))
    ∙ ap (λ t. find t blank_line)
        (searched-append (block ++ blank_line) rest n (length rest) text (
            omega (arith, length-append block (blank_line ++ rest), length-append block blank_line))
          ∙ append_assoc block blank_line _)
    ∙ find_block ws last (searched rest (length rest)) h l
