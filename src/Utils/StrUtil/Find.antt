-- ===== src/Utils/StrUtil/Find.antt =====
-- What `find` and `strnstr` return: the offset of the first occurrence.
use unixtar.Prelude.{
  ℕ, zero, suc, ◌+◌, ◌≤◌, ◌<◌, true, false, [], ◌∷◌, ◌++◌, Option, none, some, Bytes, length, take,
  drop, leb, if◌then◌else◌, arith, ◌≡◌, ◌≢◌, refl, ap, ◌∙◌, All, Bool-cases, inl, inr, length-take,
}
use unixtar.Utils.StrUtil.{is_prefix, find, strnlen, strnstr_loop, strnstr}
use mathlib.Core.Option

pub is_prefix-append : (s t : Bytes) → is_prefix s (s ++ t) ≡ true
unfolding is_prefix
is_prefix-append [] t = refl
is_prefix-append (x ∷ s) t = ground (arith, is_prefix-append s t)

is_prefix_eq : (s t : Bytes) → is_prefix s t ≡ true → s ++ drop (length s) t ≡ t
unfolding is_prefix
is_prefix_eq [] t h = refl
is_prefix_eq (x ∷ s) [] h = cc
is_prefix_eq (x ∷ s) (y ∷ t) h = ground (arith, is_prefix_eq s t)

is_prefix-take : (n : ℕ) (s t : Bytes) → length s ≤ n → is_prefix s (take n t) ≡ is_prefix s t
unfolding is_prefix
is_prefix-take n [] t h = refl
is_prefix-take zero (x ∷ s) t h = absurd (omega arith)
is_prefix-take (suc n) (x ∷ s) [] h = refl
is_prefix-take (suc n) (x ∷ s) (y ∷ t) h = ground (arith, is_prefix-take n s t)

is_prefix_short : (s t : Bytes) → length t < length s → is_prefix s t ≡ false
unfolding is_prefix
is_prefix_short [] t h = absurd (omega arith)
is_prefix_short (x ∷ s) [] h = refl
is_prefix_short (x ∷ s) (y ∷ t) h = ground (arith, is_prefix_short s t)

find_short : (t s : Bytes) → length t < length s → find t s ≡ none
unfolding find
find_short [] s h = rw (is_prefix_short s [] h)
find_short (x ∷ t) s h = rw (is_prefix_short s (x ∷ t) h, find_short t s (omega arith))

-- `k` is the offset of the first occurrence of `s` in `t`.
pub record IsFirst (t s : Bytes) (k : ℕ) : Type 0 where
  pub occurs : is_prefix s (drop k t) ≡ true
  pub earliest : (j : ℕ) → j < k → is_prefix s (drop j t) ≡ false

pub find-cons_miss :
    (x : ℕ) (t s : Bytes) → is_prefix s (x ∷ t) ≡ false → find (x ∷ t) s ≡ Option.map suc (find t s)
unfolding find
find-cons_miss x t s h = rw h

find-cons_hit : (x : ℕ) (t s : Bytes) → is_prefix s (x ∷ t) ≡ true → find (x ∷ t) s ≡ some 0
unfolding find
find-cons_hit x t s h = rw h

IsFirst-cons :
    {t s : Bytes} {k : ℕ} (x : ℕ)
    → is_prefix s (x ∷ t) ≡ false
    → IsFirst t s k
    → IsFirst (x ∷ t) s (suc k)
IsFirst-cons {t} {s} {k} x miss f = record { occurs = f.occurs; earliest = before }
  where
    before : (j : ℕ) → j < suc k → is_prefix s (drop j (x ∷ t)) ≡ false
    before zero h = miss
    before (suc j) h = f.earliest j (omega arith)

map-suc-eq_some :
    (o : Option ℕ) {k : ℕ} → Option.map suc o ≡ some k → (j : ℕ) × (o ≡ some j) × (k ≡ suc j)
map-suc-eq_some none h = cc
map-suc-eq_some (some j) h = (j, refl, cc)

find-IsFirst : (t s : Bytes) (k : ℕ) → find t s ≡ some k → IsFirst t s k
find-IsFirst [] [] k h =
    unfold find is_prefix in record { occurs = refl; earliest = λ j p. absurd (ground arith) }
find-IsFirst [] (c ∷ cs) k h = unfold find is_prefix in cc
find-IsFirst (x ∷ t) s k h = elim (Bool-cases (is_prefix s (x ∷ t))) [
  | inl e ↦
      let z : 0 ≡ k = cc (find-cons_hit x t s e) in
      rw (← z) (record { occurs = e; earliest = λ j p. absurd (omega arith) })
  | inr e ↦
      let (j, found, next) = map-suc-eq_some (find t s) (rw (find-cons_miss x t s e) at h) in
      rw next (IsFirst-cons x e (find-IsFirst t s j found))
]

strnstr_loop-find :
    (n : ℕ) (hay : Bytes) (c : ℕ) (cs : Bytes) (off : ℕ)
    → n ≤ length hay
    → strnstr_loop n hay (c ∷ cs) off ≡ Option.map (λ k. k + off) (find (take n hay) (c ∷ cs))
unfolding strnstr_loop find is_prefix
strnstr_loop-find zero hay c cs off h = refl
strnstr_loop-find (suc n) [] c cs off h = absurd (omega arith)
strnstr_loop-find (suc n) (x ∷ hay) c cs off h = ground (
  arith,
  strnstr_loop-find n hay c cs (off + 1),
  is_prefix-take n cs hay,
  length-take n hay,
  find_short (take n hay) (c ∷ cs),
  is_prefix_short cs (take n hay),
)

strnlen-le : (t : Bytes) (n : ℕ) → (strnlen t n ≤ n) × (strnlen t n ≤ length t)
unfolding strnlen
strnlen-le t zero = omega arith
strnlen-le [] (suc n) = omega arith
strnlen-le (x ∷ t) (suc n) = ground (arith, strnlen-le t n)

-- The part of the buffer that `strnstr` searches: up to the first NUL, `len` bytes at most.
abbrev pub searched : Bytes → ℕ → Bytes
searched haystack len = take (strnlen haystack len) haystack

map_id : (o : Option ℕ) → Option.map (λ k. k + 0) o ≡ o
map_id none = refl
map_id (some k) = ap some (omega arith)

least : (len l : ℕ) → l ≤ len → (if leb len l then len else l) ≡ l
least len l h = ground arith

-- `strnstr` with a needle that is not empty finds its first occurrence in the part searched.
pub strnstr-find :
    (haystack needle : Bytes) (len : ℕ)
    → needle ≢ []
    → strnstr haystack needle len ≡ find (searched haystack len) needle
unfolding strnstr
strnstr-find haystack [] len h = absurd (h refl)
strnstr-find haystack (c ∷ cs) len h =
    rw (least len _ (strnlen-le haystack len).0)
      (strnstr_loop-find _ haystack c cs 0 (strnlen-le haystack len).1 ∙ map_id _)

is_prefix-le : (s t : Bytes) → is_prefix s t ≡ true → length s ≤ length t
unfolding is_prefix
is_prefix-le [] t h = omega arith
is_prefix-le (x ∷ s) [] h = cc
is_prefix-le (x ∷ s) (y ∷ t) h = ground (arith, is_prefix-le s t)

is_prefix-take_miss : (n : ℕ) (s t : Bytes) → is_prefix s t ≡ false → is_prefix s (take n t) ≡ false
unfolding is_prefix
is_prefix-take_miss n [] t h = cc
is_prefix-take_miss zero (x ∷ s) t h = refl
is_prefix-take_miss (suc n) (x ∷ s) [] h = refl
is_prefix-take_miss (suc n) (x ∷ s) (y ∷ t) h = ground (arith, is_prefix-take_miss n s t)

-- An occurrence lies inside the text.
pub find_fits : (t s : Bytes) (k : ℕ) → find t s ≡ some k → k + length s ≤ length t
unfolding find is_prefix
find_fits [] [] k h = ground arith
find_fits [] (c ∷ cs) k h = cc
find_fits (x ∷ t) s k h = elim (Bool-cases (is_prefix s (x ∷ t))) [
  | inl e ↦ let z : 0 ≡ k = cc (find-cons_hit x t s e) in omega (arith, is_prefix-le s (x ∷ t) e)
  | inr e ↦
      let (j, found, next) = map-suc-eq_some (find t s) (rw (find-cons_miss x t s e) at h) in
      omega (arith, find_fits t s j found)
]

-- Before its first occurrence the needle does not occur.
pub find-take :
    (c : ℕ) (cs t : Bytes) (k : ℕ) → find t (c ∷ cs) ≡ some k → find (take k t) (c ∷ cs) ≡ none
find-take c cs [] zero h = unfold find is_prefix in refl
find-take c cs [] (suc k) h = unfold find is_prefix in refl
find-take c cs (x ∷ t) k h = elim (Bool-cases (is_prefix (c ∷ cs) (x ∷ t))) [
  | inl e ↦
      let z : 0 ≡ k = cc (find-cons_hit x t (c ∷ cs) e) in rw (← z) (unfold find is_prefix in refl)
  | inr e ↦
      let (j, found, next) =
        map-suc-eq_some (find t (c ∷ cs)) (rw (find-cons_miss x t (c ∷ cs) e) at h) in
      rw next (
        find-cons_miss x (take j t) (c ∷ cs) (is_prefix-take_miss (suc j) (c ∷ cs) (x ∷ t) e)
        ∙ ap (Option.map suc) (find-take c cs t j found))
]

-- What is free of NUL is searched whole.
pub searched-append :
    (a b : Bytes) (n m : ℕ)
    → All (λ x. x ≢ 0) a
    → n ≡ length a + m
    → searched (a ++ b) n ≡ a ++ searched b m
unfolding strnlen
searched-append [] b n m h e = ap (searched b) (omega arith)
searched-append (x ∷ a) b zero m h e = absurd (omega arith)
searched-append (x ∷ a) b (suc n) m h e = ground (arith, searched-append a b n m h.1)
