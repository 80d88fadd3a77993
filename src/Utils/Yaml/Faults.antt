-- ===== src/Utils/Yaml/Faults.antt =====
-- Files that the reader does not take: texts in an array, and a section right under a section.
use unixtar.Prelude.{
  Outcome, asserted, undefined, ok, ◌>>=◌, ℕ, ◌+◌, false, List, [], ◌∷◌, Bytes, codes, equal,
  equal_iff, arith, ◌≡◌, ◌≢◌, refl, ap, ◌∙◌,
}
use unixtar.Utils.StrUtil.{trim, delafter}
use unixtar.Utils.StrUtil.Words.{Free, find-Free, split-none}
use unixtar.Utils.Yaml.{
  null, object, Nodes, Value, push_node, insert, State, bare_line, split_line, open_line,
  parse_lines,
}
use unixtar.Utils.Yaml.Lines.{IsText, open_text, open_text-line, bare_line_ne, delafter-Free}
use unixtar.Utils.Yaml.Levels.{at, Closes}
use unixtar.Utils.Yaml.Steps.{open_text-Closes, settle-deeper}

split_line-text :
    (line : Bytes) (s : State)
    → equal (trim line) (codes "-") ≡ false
    → split_line [] line s ≡ asserted
unfolding split_line
split_line-text line s h = rw (h) refl

parse_lines-first :
    (line : Bytes) (lines : List Bytes) (s : State) (o : Outcome State)
    → bare_line (delafter line b'#') s ≡ o
    → parse_lines (line ∷ lines) s ≡ (o >>= parse_lines lines)
unfolding parse_lines
parse_lines-first line lines s o h = ap (λ p. p >>= parse_lines lines) h

-- A line that is not empty and has no ':' and no '#' makes an assertion fail, unless it is "-" up to
-- spaces: a text alone is not taken in any state, though there is a branch for it in an array.
parse_lines-text :
    (line : Bytes) (lines : List Bytes) (s : State)
    → line ≢ []
    → Free b':' line
    → Free b'#' line
    → trim line ≢ codes "-"
    → parse_lines (line ∷ lines) s ≡ asserted
parse_lines-text line lines s ne colon hash dash =
    let no_dash : equal (trim line) (codes "-") ≡ false =
      let same = equal_iff (trim line) (codes "-") in ground (arith) in
    parse_lines-first line lines s asserted (
      ap (λ t. bare_line t s) (delafter-Free line b'#' hash)
      ∙ bare_line_ne line s ne
      ∙ ap (λ ps. split_line ps line s) (split-none line (codes ":") (find-Free b':' [] line colon))
      ∙ split_line-text line s no_dash)

open_line-null :
    (n m : ℕ) (key : Bytes) (st : List Value) → open_line (n + m) key (at n null st) ≡ undefined
unfolding open_line insert
open_line-null n m key st = rw (settle-deeper n m null st) refl

-- A line "key:" right under a line "key:" that is not more indented is undefined behaviour: the
-- value of the first key is still a null pointer when the second key is inserted in it.
parse_lines-nested :
    (n m : ℕ) (key inner : Bytes) (lines : List Bytes) (s : State) (ns : Nodes) (st : List Value)
    → IsText key
    → IsText inner
    → Closes n s (object ns) st
    → parse_lines (open_text n key ∷ open_text (n + m) inner ∷ lines) s ≡ undefined
parse_lines-nested n m key inner lines s ns st k i c =
    let top = object (push_node key null ns) ∷ st in
    parse_lines-first (open_text n key) (open_text (n + m) inner ∷ lines) s (ok (at n null top))
      (open_text-Closes n key s ns st k c)
    ∙ parse_lines-first (open_text (n + m) inner) lines (at n null top) undefined
        (open_text-line (n + m) inner (at n null top) i ∙ open_line-null n m inner top)
