-- ===== src/Http/HeaderField/RoundTrip.antt =====
-- The header block that `ToString` prints, and what `ParseFromString` makes of it.
use unixtar.Prelude.{
  true, List, [], ◌∷◌, ◌++◌, map, none, Bytes, codes, arith, ◌≡◌, ◌≢◌, refl, sym, ap, ◌∙◌, All,
  All-append, append_assoc, append-nil,
}
use unixtar.Utils.StrUtil.{find, split}
use unixtar.Utils.StrUtil.Words.{Free, IsWord, joined, split-joined, split-none, find-Free}
use unixtar.Http.HeaderField.{
  HeaderField, bytes_lt, header_to_string, insert_pair, insert_lines, parse_header,
}
use unixtar.Http.HeaderField.Map.{Above, IsSorted, Below, insert_last}

-- A field that one line can carry: the key holds no colon, the value no ": ", and neither holds a
-- carriage return or is empty.
pub record IsField (p : Bytes × Bytes) : Type 0 where
  pub key_word : IsWord b':' p.0
  pub key_line : Free b'\r' p.0
  pub value_line : Free b'\r' p.1
  pub value_some : p.1 ≢ []
  pub value_one : find p.1 (codes ": ") ≡ none

abbrev pub header_line : Bytes × Bytes → Bytes
header_line p = joined (codes ": ") (p.0 ∷ []) p.1

abbrev pub lines_before : Bytes × Bytes → HeaderField → List Bytes
lines_before p [] = []
lines_before p (q ∷ fields) = header_line p ∷ lines_before q fields

abbrev pub last_line : Bytes × Bytes → HeaderField → Bytes
last_line p [] = header_line p
last_line p (q ∷ fields) = last_line q fields

-- The header block without the two CRLFs that end it.
abbrev pub header_text : Bytes × Bytes → HeaderField → Bytes
header_text p fields = joined (codes "\r\n") (lines_before p fields) (last_line p fields)

-- What `ToString` prints is the block and the two CRLFs.
pub header_to_string-text :
    (p : Bytes × Bytes) (fields : HeaderField)
    → header_to_string (p ∷ fields) ≡ header_text p fields ++ codes "\r\n\r\n"
unfolding header_to_string
header_to_string-text (k, v) [] = simp append_assoc
header_to_string-text (k, v) (q ∷ fields) = simp (← header_to_string-text q fields, append_assoc)

lines_all :
    (p : Bytes × Bytes) (fields : HeaderField)
    → lines_before p fields ++ last_line p fields ∷ [] ≡ map header_line (p ∷ fields)
lines_all p [] = refl
lines_all p (q ∷ fields) = ap (◌∷◌ (header_line p)) (lines_all q fields)

word-ne-nil : (w rest : Bytes) → w ≢ [] → w ++ rest ≢ []
word-ne-nil [] rest h = absurd (h refl)
word-ne-nil (x ∷ w) rest h = λ e. cc

header_line-IsWord : (p : Bytes × Bytes) → IsField p → IsWord b'\r' (header_line p)
header_line-IsWord p f = (
  All-append (λ x. x ≢ b'\r') p.0 _ f.key_line
      ((λ e. omega arith), ((λ e. omega arith), f.value_line)),
  word-ne-nil p.0 _ f.key_word.1,
)

pub lines_before-IsWord :
    (p : Bytes × Bytes) (fields : HeaderField)
    → All IsField (p ∷ fields)
    → All (IsWord b'\r') (lines_before p fields) × IsWord b'\r' (last_line p fields)
lines_before-IsWord p [] h = (tt, header_line-IsWord p h.0)
lines_before-IsWord p (q ∷ fields) h =
    let (a, b) = lines_before-IsWord q fields h.1 in ((header_line-IsWord p h.0, a), b)

split-header_line :
    (p : Bytes × Bytes) → IsField p → split (header_line p) (codes ": ") ≡ p.0 ∷ p.1 ∷ []
split-header_line p f =
    split-joined b':' (codes " ") p.0 [] p.1 (f.key_word, tt) f.value_some f.value_one

sorted-Below :
    (acc : HeaderField) (p : Bytes × Bytes) (fields : HeaderField)
    → IsSorted (acc ++ p ∷ fields)
    → Below p.0 acc
sorted-Below [] p fields s = tt
sorted-Below ((k, v) ∷ acc) p fields s = (hit acc s.0, sorted-Below acc p fields s.1)
  where
    hit : (a : HeaderField) → Above k (a ++ p ∷ fields) → bytes_lt k p.0 ≡ true
    hit [] h = h.0
    hit (q ∷ a) h = hit a h.1

insert_lines_step :
    (p : Bytes × Bytes) (lines : List Bytes) (acc : HeaderField)
    → IsField p
    → Below p.0 acc
    → insert_lines (header_line p ∷ lines) acc ≡ insert_lines lines (acc ++ p ∷ [])
unfolding insert_lines
insert_lines_step p lines acc f b =
    rw (split-header_line p f, insert_lines)
      (unfold insert_pair in rw (insert_last p.0 p.1 acc b) refl)

insert_lines-fields :
    (fields acc : HeaderField)
    → All IsField fields
    → IsSorted (acc ++ fields)
    → insert_lines (map header_line fields) acc ≡ (acc ++ fields, true)
unfolding insert_lines
insert_lines-fields [] acc f s = ap (λ a. (a, true)) (sym (append-nil acc))
insert_lines-fields (p ∷ fields) acc f s =
    insert_lines_step p (map header_line fields) acc f.0 (sorted-Below acc p fields s)
    ∙ insert_lines-fields fields (acc ++ p ∷ []) f.1 (rw (append_assoc acc (p ∷ []) fields) s)
    ∙ ap (λ a. (a, true)) (append_assoc acc (p ∷ []) fields)

-- Two fields or more, each fit for a line and sorted by key, read back as they were printed.
pub parse_header-header_to_string :
    (p q : Bytes × Bytes) (fields : HeaderField)
    → All IsField (p ∷ q ∷ fields)
    → IsSorted (p ∷ q ∷ fields)
    → (header_to_string (p ∷ q ∷ fields) ≡ header_text p (q ∷ fields) ++ codes "\r\n\r\n")
      × (parse_header [] (header_text p (q ∷ fields)) ≡ (p ∷ q ∷ fields, true))
unfolding parse_header
parse_header-header_to_string p q fields f s =
    let (before, last) = lines_before-IsWord p (q ∷ fields) f in
    (
      header_to_string-text p (q ∷ fields),
      ap (λ ls. insert_lines ls [])
            (split-joined b'\r' (codes "\n") (header_line p) (lines_before q fields)
                (last_line q fields) before last.1 (find-Free b'\r' (codes "\n") _ last.0)
              ∙ lines_all p (q ∷ fields))
          ∙ insert_lines-fields (p ∷ q ∷ fields) [] f s,
    )

-- A header block of one line, with no carriage return in it, is dropped, whatever the line
-- holds: `split` finds no separator in it and returns no piece. The parser reports success.
pub parse_header_one_line :
    (line : Bytes) (fields : HeaderField)
    → Free b'\r' line
    → parse_header fields line ≡ (fields, true)
unfolding parse_header insert_lines
parse_header_one_line line fields h =
    ap (λ ls. insert_lines ls fields)
      (split-none line (codes "\r\n") (find-Free b'\r' (codes "\n") line h))
