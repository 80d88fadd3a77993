-- ===== src/Utils/Yaml/Lines.antt =====
-- What the reader makes of one line that a printer of configuration files writes.
use unixtar.Prelude.{
  ℕ, zero, suc, ◌-◌, true, [], ◌∷◌, ◌++◌, Bytes, codes, length, replicate, equal, equal_iff,
  All-append, length-append, length-replicate, append_assoc, append-nil, arith, ◌≡◌, ◌≢◌, refl, sym,
  ap, ◌∙◌,
}
use mathlib.Core.List.{reverse}
use mathlib.Core.List
use unixtar.Utils.StrUtil.{split, trim, trim_front, delafter, is_among}
use unixtar.Utils.StrUtil.Words.{Free, find-Free, split-joined, split-none, split-one_word, IsWord}
use mathlib.Core.Path.{transport}
use unixtar.Utils.Yaml.{State, indents_of, bare_line, split_line, leaf_line, open_line, dash_line}

-- A key or value: not empty, with no space, ':' or '#'.
abbrev pub IsText : Bytes → Type 0
IsText t = (t ≢ []) × Free b' ' t × Free b':' t × Free b'#' t

abbrev pub spaces : ℕ → Bytes
spaces n = replicate n b' '

spaces-Free : (n c : ℕ) → c ≢ b' ' → Free c (spaces n)
spaces-Free zero c h = tt
spaces-Free (suc n) c h = ((λ e. h (sym e)), spaces-Free n c h)

trim_front-spaces : (n : ℕ) (t : Bytes) → trim_front (spaces n ++ t) ≡ trim_front t
unfolding trim_front
trim_front-spaces zero t = refl
trim_front-spaces (suc n) t = trim_front-spaces n t

trim_front-Free : (t : Bytes) → Free b' ' t → trim_front t ≡ t
unfolding trim_front
trim_front-Free [] h = refl
trim_front-Free (x ∷ t) h = ground (arith, h.0)

trim_front-ne : (x : ℕ) (t : Bytes) → x ≢ b' ' → trim_front (x ∷ t) ≡ x ∷ t
unfolding trim_front
trim_front-ne x t h = ground arith

reverse-Free : (c : ℕ) (t : Bytes) → Free c t → Free c (reverse t)
reverse-Free c [] h = tt
reverse-Free c (x ∷ t) h =
    transport (ap (Free c) (sym (List.reverse-cons x t)))
      (All-append (λ y. y ≢ c) (reverse t) (x ∷ []) (reverse-Free c t h.1) (h.0, tt))

-- `trim` takes the spaces before a text off.
pub trim-spaces : (n : ℕ) (t : Bytes) → Free b' ' t → trim (spaces n ++ t) ≡ t
unfolding trim
trim-spaces n t h =
    ap (λ u. reverse (trim_front (reverse u))) (trim_front-spaces n t ∙ trim_front-Free t h)
    ∙ ap reverse (trim_front-Free (reverse t) (reverse-Free b' ' t h))
    ∙ List.reverse-reverse t

pub delafter-Free : (t : Bytes) (c : ℕ) → Free c t → delafter t c ≡ t
unfolding delafter
delafter-Free [] c h = refl
delafter-Free (x ∷ t) c h = ground (arith, h.0, delafter-Free t c h.1)

is_among-append : (c : ℕ) (t : Bytes) → is_among c (t ++ c ∷ []) ≡ true
unfolding is_among
is_among-append c [] = ground arith
is_among-append c (x ∷ t) = ground (arith, is_among-append c t)

pub indents_of-spaces :
    (n : ℕ) (k t : Bytes) → k ≢ [] → Free b' ' k → indents_of (spaces n ++ (k ++ t)) ≡ n
unfolding indents_of
indents_of-spaces n [] t h f = absurd (h refl)
indents_of-spaces n (x ∷ k) t h f =
    let front : trim_front (spaces n ++ ((x ∷ k) ++ t)) ≡ (x ∷ k) ++ t =
      trim_front-spaces n ((x ∷ k) ++ t) ∙ trim_front-ne x (k ++ t) f.0 in
    ap (λ u. length (spaces n ++ ((x ∷ k) ++ t)) - length u) front
    ∙ omega (arith, length-append (spaces n) ((x ∷ k) ++ t), length-replicate {A = ℕ} n b' ')

pub bare_line_ne :
    (line : Bytes) (s : State)
    → line ≢ []
    → bare_line line s ≡ split_line (split line (codes ":")) line s
unfolding bare_line
bare_line_ne [] s h = absurd (h refl)
bare_line_ne (c ∷ line) s h = refl

append_ne : (s k t : Bytes) → k ≢ [] → (s ++ k) ++ t ≢ []
append_ne [] [] t h = absurd (h refl)
append_ne [] (x ∷ k) t h = λ e. cc
append_ne (y ∷ s) k t h = λ e. cc

word_ne : (s k : Bytes) → k ≢ [] → s ++ k ≢ []
word_ne [] k h = h
word_ne (y ∷ s) k h = λ e. cc

-- The three kinds of line.
abbrev pub leaf_text : ℕ → Bytes → Bytes → Bytes
leaf_text n key value = (spaces n ++ key) ++ (codes ": " ++ value)

abbrev pub open_text : ℕ → Bytes → Bytes
open_text n key = (spaces n ++ key) ++ codes ":"

abbrev pub dash_text : ℕ → Bytes
dash_text n = spaces n ++ codes "-"

word-Free : (n c : ℕ) (key : Bytes) → c ≢ b' ' → Free c key → Free c (spaces n ++ key)
word-Free n c key h f = All-append (λ y. y ≢ c) (spaces n) key (spaces-Free n c h) f

leaf_line-trim :
    (n : ℕ) (a a' b b' : Bytes) (s : State)
    → trim a ≡ trim a'
    → trim b ≡ trim b'
    → leaf_line n a b s ≡ leaf_line n a' b' s
unfolding leaf_line
leaf_line-trim n a a' b b' s e f = rw (e, f) refl

open_line-trim :
    (n : ℕ) (a a' : Bytes) (s : State) → trim a ≡ trim a' → open_line n a s ≡ open_line n a' s
unfolding open_line
open_line-trim n a a' s e = rw (e) refl

split_line-two :
    (a b line : Bytes) (s : State)
    → split_line (a ∷ b ∷ []) line s ≡ leaf_line (indents_of line) a b s
unfolding split_line
split_line-two a b line s = refl

split_line-one :
    (a line : Bytes) (s : State)
    → is_among b':' line ≡ true
    → split_line (a ∷ []) line s ≡ open_line (indents_of line) a s
unfolding split_line
split_line-one a line s h = rw (h) refl

split_line-none :
    (line : Bytes) (s : State)
    → equal (trim line) (codes "-") ≡ true
    → split_line [] line s ≡ dash_line (indents_of line) s
unfolding split_line
split_line-none line s h = rw (h) refl

trim-word : (n : ℕ) (t : Bytes) → Free b' ' t → trim (spaces n ++ t) ≡ trim t
trim-word n t h = trim-spaces n t h ∙ sym (trim-spaces 0 t h)

indents_of-word : (n : ℕ) (k t : Bytes) → IsText k → indents_of ((spaces n ++ k) ++ t) ≡ n
indents_of-word n k t h =
    ap indents_of (append_assoc (spaces n) k t) ∙ indents_of-spaces n k t h.0 h.1

pub leaf_text-line :
    (n : ℕ) (key value : Bytes) (s : State)
    → IsText key
    → IsText value
    → bare_line (delafter (leaf_text n key value) b'#') s ≡ leaf_line n key value s
leaf_text-line n key value s k v =
    let line = leaf_text n key value in
    let colon : IsWord b':' (spaces n ++ key) =
      (word-Free n b':' key (omega arith) k.2, word_ne (spaces n) key k.0) in
    let pieces : split line (codes ":") ≡ (spaces n ++ key) ∷ (b' ' ∷ value) ∷ [] =
      split-joined b':' [] (spaces n ++ key) [] (b' ' ∷ value) (colon, tt) (λ e. cc)
        (find-Free b':' [] (b' ' ∷ value) (omega arith, v.2)) in
    let hash : Free b'#' line =
      All-append (λ y. y ≢ b'#') (spaces n ++ key) (codes ": " ++ value)
        (word-Free n b'#' key (omega arith) k.3) (omega arith, (omega arith, v.3)) in
    ap (λ t. bare_line t s) (delafter-Free line b'#' hash)
    ∙ bare_line_ne line s (append_ne (spaces n) key (codes ": " ++ value) k.0)
    ∙ ap (λ ps. split_line ps line s) pieces
    ∙ split_line-two (spaces n ++ key) (b' ' ∷ value) line s
    ∙ ap (λ m. leaf_line m (spaces n ++ key) (b' ' ∷ value) s)
        (indents_of-word n key (codes ": " ++ value) k)
    ∙ leaf_line-trim n (spaces n ++ key) key (b' ' ∷ value) value s (trim-word n key k.1)
        (trim-word 1 value v.1)

pub open_text-line :
    (n : ℕ) (key : Bytes) (s : State)
    → IsText key
    → bare_line (delafter (open_text n key) b'#') s ≡ open_line n key s
open_text-line n key s k =
    let line = open_text n key in
    let colon : IsWord b':' (spaces n ++ key) =
      (word-Free n b':' key (omega arith) k.2, word_ne (spaces n) key k.0) in
    let hash : Free b'#' line =
      All-append (λ y. y ≢ b'#') (spaces n ++ key) (codes ":")
        (word-Free n b'#' key (omega arith) k.3) (omega arith, tt) in
    ap (λ t. bare_line t s) (delafter-Free line b'#' hash)
    ∙ bare_line_ne line s (append_ne (spaces n) key (codes ":") k.0)
    ∙ ap (λ ps. split_line ps line s) (split-one_word b':' (spaces n ++ key) colon)
    ∙ split_line-one (spaces n ++ key) line s (is_among-append b':' (spaces n ++ key))
    ∙ ap (λ m. open_line m (spaces n ++ key) s) (indents_of-word n key (codes ":") k)
    ∙ open_line-trim n (spaces n ++ key) key s (trim-word n key k.1)

pub dash_text-line : (n : ℕ) (s : State) → bare_line (delafter (dash_text n) b'#') s ≡ dash_line n s
dash_text-line n s =
    let line = dash_text n in
    let plain : (c : ℕ) → c ≢ b' ' → c ≢ b'-' → Free c line =
      λ c h d. word-Free n c (codes "-") h ((λ e. d (sym e)), tt) in
    let dash : trim line ≡ codes "-" = trim-spaces n (codes "-") (omega arith, tt) in
    ap (λ t. bare_line t s) (delafter-Free line b'#' (plain b'#' (omega arith) (omega arith)))
    ∙ bare_line_ne line s (word_ne (spaces n) (codes "-") (λ e. cc))
    ∙ ap (λ ps. split_line ps line s)
        (split-none line (codes ":")
          (find-Free b':' [] line (plain b':' (omega arith) (omega arith))))
    ∙ split_line-none line s ((equal_iff _ _).1 dash)
    ∙ ap (λ m. dash_line m s)
        (ap indents_of (sym (append-nil line))
          ∙ ap indents_of (append_assoc (spaces n) (codes "-") [])
          ∙ indents_of-spaces n (codes "-") [] (λ e. cc) (omega arith, tt))
