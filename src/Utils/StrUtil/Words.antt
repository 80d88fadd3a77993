-- ===== src/Utils/StrUtil/Words.antt =====
-- `find` and `split` on text that is put together from words which do not hold the first byte of
-- the separator.
use unixtar.Prelude.{
  ℕ, zero, suc, ◌+◌, ◌<◌, Bool, true, false, List, [], ◌∷◌, ◌++◌, Option, none, some, Bytes, length,
  take, drop, arith, ◌≡◌, ◌≢◌, refl, sym, ap, ◌∙◌, ap₂, All, length-append, take-append_self,
  drop-append_self, append_assoc, append-nil,
}
use unixtar.Utils.StrUtil.{is_prefix, find, split_loop, split_end, split, strnstr}
use unixtar.Utils.StrUtil.Find.{is_prefix-append, searched, searched-append, strnstr-find}
use mathlib.Core.Option

-- No byte of the text is `c`.
abbrev pub Free : ℕ → Bytes → Type 0
Free c = All (λ x. x ≢ c)

drop-word :
    (c : ℕ) (cs w rest : Bytes) → drop (length w + length (c ∷ cs)) (w ++ (c ∷ (cs ++ rest))) ≡ rest
drop-word c cs w rest =
    ap (drop (length w + length (c ∷ cs))) (sym (append_assoc w (c ∷ cs) rest))
    ∙ drop-append_self (w ++ (c ∷ cs)) rest _ (omega (arith, length-append w (c ∷ cs)))

length_cons-add :
    (o : Option ℕ) (n : ℕ)
    → Option.map suc (Option.map (λ k. n + k) o) ≡ Option.map (λ k. suc n + k) o
length_cons-add none n = refl
length_cons-add (some k) n = ap some (omega arith)

zero_add_map : (o : Option ℕ) → o ≡ Option.map (λ k. 0 + k) o
zero_add_map none = refl
zero_add_map (some k) = ap some (omega arith)

find-cons_ne :
    (c : ℕ) (cs : Bytes) (x : ℕ) (t : Bytes)
    → x ≢ c
    → find (x ∷ t) (c ∷ cs) ≡ Option.map suc (find t (c ∷ cs))
unfolding find is_prefix
find-cons_ne c cs x t h = ground arith

-- No occurrence begins inside a word that is free of the separator's first byte.
pub find-append-Free :
    (c : ℕ) (cs w rest : Bytes)
    → Free c w
    → find (w ++ rest) (c ∷ cs) ≡ Option.map (λ k. length w + k) (find rest (c ∷ cs))
find-append-Free c cs [] rest h = zero_add_map _
find-append-Free c cs (x ∷ w) rest h =
    find-cons_ne c cs x (w ++ rest) h.0
    ∙ ap (Option.map suc) (find-append-Free c cs w rest h.1)
    ∙ length_cons-add (find rest (c ∷ cs)) (length w)

pub find-here : (c : ℕ) (cs rest : Bytes) → find (c ∷ (cs ++ rest)) (c ∷ cs) ≡ some 0
unfolding find
find-here c cs rest = rw (is_prefix-append (c ∷ cs) rest)

pub find-word :
    (c : ℕ) (cs w rest : Bytes)
    → Free c w
    → find (w ++ (c ∷ (cs ++ rest))) (c ∷ cs) ≡ some (length w)
find-word c cs w rest h =
    rw (find-append-Free c cs w (c ∷ (cs ++ rest)) h, find-here c cs rest) (ap some (omega arith))

pub find-Free : (c : ℕ) (cs w : Bytes) → Free c w → find w (c ∷ cs) ≡ none
find-Free c cs [] h = unfold find is_prefix in refl
find-Free c cs (x ∷ w) h = find-cons_ne c cs x w h.0 ∙ ap (Option.map suc) (find-Free c cs w h.1)

split_loop_at :
    (fuel k : ℕ) (t sep : Bytes) (has : Bool) (res : List Bytes)
    → find t sep ≡ some (suc k)
    → split_loop (suc fuel) t sep has res
      ≡ split_loop fuel (drop (suc k + length sep) t) sep true (res ++ take (suc k) t ∷ [])
unfolding split_loop
split_loop_at fuel k t sep has res h = ground arith

split_loop-none :
    (fuel : ℕ) (t sep : Bytes) (has : Bool) (res : List Bytes)
    → find t sep ≡ none
    → split_loop (suc fuel) t sep has res ≡ some (split_end t has res)
unfolding split_loop
split_loop-none fuel t sep has res h = rw (h, split_loop) refl

split_loop-word :
    (c : ℕ) (cs : Bytes) (fuel x : ℕ) (w rest : Bytes) (has : Bool) (res : List Bytes)
    → Free c (x ∷ w)
    → split_loop (suc fuel) ((x ∷ w) ++ (c ∷ (cs ++ rest))) (c ∷ cs) has res
      ≡ split_loop fuel rest (c ∷ cs) true (res ++ (x ∷ w) ∷ [])
split_loop-word c cs fuel x w rest has res h =
    split_loop_at fuel (length w) _ (c ∷ cs) has res (find-word c cs (x ∷ w) rest h)
    ∙ ap₂ (λ t v. split_loop fuel t (c ∷ cs) true (res ++ v ∷ [])) (drop-word c cs (x ∷ w) rest)
        (take-append_self (x ∷ w) _ _ refl)

-- Words, each behind a separator that follows it, and a last word.
abbrev pub joined : Bytes → List Bytes → Bytes → Bytes
joined sep [] last = last
joined sep (w ∷ ws) last = w ++ (sep ++ joined sep ws last)

abbrev pub IsWord : ℕ → Bytes → Type 0
IsWord c w = Free c w × (w ≢ [])

split_loop-joined :
    (c : ℕ) (cs : Bytes) (ws : List Bytes) (last : Bytes) (fuel : ℕ) (res : List Bytes)
    → All (IsWord c) ws
    → find last (c ∷ cs) ≡ none
    → length (joined (c ∷ cs) ws last) < fuel
    → split_loop fuel (joined (c ∷ cs) ws last) (c ∷ cs) true res
      ≡ some (split_end last true (res ++ ws))
split_loop-joined c cs ws last zero res h l f = absurd (omega arith)
split_loop-joined c cs [] last (suc fuel) res h l f =
    split_loop-none fuel last (c ∷ cs) true res l
    ∙ ap (λ r. some (split_end last true r)) (sym (append-nil res))
split_loop-joined c cs ([] ∷ ws) last (suc fuel) res h l f = absurd (h.0.1 refl)
split_loop-joined c cs ((x ∷ w) ∷ ws) last (suc fuel) res h l f =
    split_loop-word c cs fuel x w (joined (c ∷ cs) ws last) true res h.0.0
    ∙ split_loop-joined c cs ws last fuel (res ++ (x ∷ w) ∷ []) h.1 l (
        omega (
          arith,
          length-append w (c ∷ (cs ++ joined (c ∷ cs) ws last)),
          length-append cs (joined (c ∷ cs) ws last),
        ))
    ∙ ap (λ r. some (split_end last true r)) (append_assoc res ((x ∷ w) ∷ []) ws)

split_end_word : (t : Bytes) (res : List Bytes) → t ≢ [] → split_end t true res ≡ res ++ t ∷ []
unfolding split_end
split_end_word [] res h = absurd (h refl)
split_end_word (x ∷ t) res h = refl

-- Words joined by a separator that is not empty are what `split` returns, if there are two or more,
-- none is empty, the last one does not hold the separator, and the others not its first character.
pub split-joined :
    (c : ℕ) (cs w : Bytes) (ws : List Bytes) (last : Bytes)
    → All (IsWord c) (w ∷ ws)
    → last ≢ []
    → find last (c ∷ cs) ≡ none
    → split (joined (c ∷ cs) (w ∷ ws) last) (c ∷ cs) ≡ (w ∷ ws) ++ last ∷ []
unfolding split
split-joined c cs [] ws last h ne l = absurd (h.0.1 refl)
split-joined c cs (x ∷ w) ws last h ne l =
    ap (λ o. Option.get_or o [])
      (split_loop-word c cs (length (joined (c ∷ cs) ((x ∷ w) ∷ ws) last)) x w
          (joined (c ∷ cs) ws last) false [] h.0.0
        ∙ split_loop-joined c cs ws last (length (joined (c ∷ cs) ((x ∷ w) ∷ ws) last))
            ((x ∷ w) ∷ []) h.1 l
            (omega (
              arith,
              length-append w (c ∷ (cs ++ joined (c ∷ cs) ws last)),
              length-append cs (joined (c ∷ cs) ws last),
            ))
        ∙ ap some (split_end_word last _ ne))

split_end_no : (t : Bytes) → split_end t false [] ≡ []
unfolding split_end
split_end_no [] = refl
split_end_no (x ∷ t) = refl

-- A text in which the separator does not occur is not one piece: nothing is returned.
pub split-none : (t sep : Bytes) → find t sep ≡ none → split t sep ≡ []
unfolding split
split-none [] sep h = refl
split-none (x ∷ t) sep h =
    ap (λ o. Option.get_or o [])
      (split_loop-none (length (x ∷ t)) (x ∷ t) sep false [] h ∙ ap some (split_end_no (x ∷ t)))

-- `strnstr` over a buffer finds the separator behind a word, if neither holds a NUL.
pub strnstr-word :
    (c : ℕ) (cs w rest : Bytes) (n : ℕ)
    → Free c w
    → All (λ x. x ≢ 0) (w ++ (c ∷ cs))
    → n ≡ length (w ++ (c ∷ (cs ++ rest)))
    → strnstr (w ++ (c ∷ (cs ++ rest))) (c ∷ cs) n ≡ some (length w)
strnstr-word c cs w rest n free text len =
    strnstr-find _ (c ∷ cs) n (λ e. cc)
    ∙ ap (λ t. find (searched t n) (c ∷ cs)) (sym (append_assoc w (c ∷ cs) rest))
    ∙ ap (λ t. find t (c ∷ cs))
        (searched-append (w ++ (c ∷ cs)) rest n (length rest) text (
            omega (
              arith,
              length-append w (c ∷ (cs ++ rest)),
              length-append cs rest,
              length-append w (c ∷ cs),
            ))
          ∙ append_assoc w (c ∷ cs) _)
    ∙ find-word c cs w (searched rest (length rest)) free

split_end_all : (res : List Bytes) → split_end [] true res ≡ res
unfolding split_end
split_end_all res = refl

pub split-one_word : (c : ℕ) (w : Bytes) → IsWord c w → split (w ++ c ∷ []) (c ∷ []) ≡ w ∷ []
unfolding split
split-one_word c [] h = absurd (h.1 refl)
split-one_word c (x ∷ w) h =
    ap (λ o. Option.get_or o [])
      (split_loop-word c [] (length ((x ∷ w) ++ c ∷ [])) x w [] false [] h.0
        ∙ split_loop-joined c [] [] [] (length ((x ∷ w) ++ c ∷ [])) ((x ∷ w) ∷ []) tt
            (find-Free c [] [] tt) (omega (arith, length-append w (c ∷ [])))
        ∙ ap some (split_end_all _))
