-- ===== src/Utils/StrUtil/Split.antt =====
-- `split` ends on every separator that is not empty, and what its pieces look like.
use unixtar.Prelude.{
  ℕ, zero, suc, ◌+◌, ◌≤◌, ◌<◌, Bool, true, false, List, [], ◌∷◌, ◌++◌, none, some, Bytes, length,
  take, drop, arith, ◌≡◌, ◌≢◌, ◌⊎◌, refl, ◌∙◌, All, All-append, Option-cases, inl, inr, length-drop,
}
use unixtar.Utils.StrUtil.{find, split_loop, split_end, split}
use unixtar.Utils.StrUtil.Find.{find_fits, find-take}

-- A piece is not empty, and the separator does not occur in it.
abbrev pub IsPiece : Bytes → Bytes → Type 0
IsPiece sep w = (w ≢ []) × (find w sep ≡ none)

split_end-IsPiece :
    (sep t : Bytes) (has : Bool) (res : List Bytes)
    → find t sep ≡ none
    → All (IsPiece sep) res
    → All (IsPiece sep) (split_end t has res)
unfolding split_end
split_end-IsPiece sep [] has res h a = a
split_end-IsPiece sep (x ∷ t) true res h a =
    All-append (IsPiece sep) res ((x ∷ t) ∷ []) a (((λ e. cc), h), tt)
split_end-IsPiece sep (x ∷ t) false res h a = a

-- The loop returns with enough fuel, and every piece that it returns is one.
-- `take` of a positive length from a text that is long enough is not empty.
take-ne-nil : (k : ℕ) (t : Bytes) → k ≢ 0 → k ≤ length t → take k t ≢ []
take-ne-nil zero t n h = absurd (n refl)
take-ne-nil (suc k) [] n h = absurd (omega arith)
take-ne-nil (suc k) (x ∷ t) n h = λ e. cc

split_loop_step :
    (fuel curr : ℕ) (t sep : Bytes) (has : Bool) (res : List Bytes)
    → find t sep ≡ some curr
    → (split_loop (suc fuel) t sep has res
        ≡ split_loop fuel (drop (curr + length sep) t) sep has res)
      ⊎ ((curr ≢ 0)
          × (split_loop (suc fuel) t sep has res
              ≡ split_loop fuel (drop (curr + length sep) t) sep true (res ++ take curr t ∷ [])))
unfolding split_loop
split_loop_step fuel zero t sep has res h = inl (ground arith)
split_loop_step fuel (suc k) t sep has res h = inr ((λ e. cc), ground arith)

split_loop_pieces :
    (c : ℕ) (cs : Bytes) (fuel : ℕ) (t : Bytes) (has : Bool) (res : List Bytes)
    → length t < fuel
    → All (IsPiece (c ∷ cs)) res
    → (r : List Bytes) × (split_loop fuel t (c ∷ cs) has res ≡ some r) × All (IsPiece (c ∷ cs)) r
unfolding split_loop
split_loop_pieces c cs zero t has res h a = absurd (omega arith)
split_loop_pieces c cs (suc fuel) t has res h a = elim (Option-cases (find t (c ∷ cs))) [
  | inl e ↦ (split_end t has res, rw (e, split_loop) refl, split_end-IsPiece (c ∷ cs) t has res e a)
  | inr (curr, e) ↦
      let rest : Bytes = drop (curr + length (c ∷ cs)) t in
      let shorter : length rest < fuel =
        omega (arith, length-drop (curr + length (c ∷ cs)) t, find_fits t (c ∷ cs) curr e) in
      elim (split_loop_step fuel curr t (c ∷ cs) has res e) [
        | inl p ↦
            let (r, q, b) = split_loop_pieces c cs fuel rest has res shorter a in (r, p ∙ q, b)
        | inr (ne, p) ↦
            let (r, q, b) =
              split_loop_pieces c cs fuel rest true (res ++ take curr t ∷ []) shorter (
                All-append (IsPiece (c ∷ cs)) res _ a (
                  (
                    take-ne-nil curr t ne (omega (arith, find_fits t (c ∷ cs) curr e)),
                    find-take c cs t curr e,
                  ),
                  tt,
                )) in
            (r, p ∙ q, b)
      ]
]

-- With a separator that is not empty the loop of `split` ends on every text that is not empty, and
-- no piece is empty or holds the separator.
pub split_pieces :
    (c : ℕ) (cs t : Bytes)
    → ((t ≡ []) ⊎ (split_loop (suc (length t)) t (c ∷ cs) false [] ≡ some (split t (c ∷ cs))))
      × All (IsPiece (c ∷ cs)) (split t (c ∷ cs))
unfolding split
split_pieces c cs [] = (inl refl, tt)
split_pieces c cs (x ∷ t) =
    let (r, e, b) =
      split_loop_pieces c cs (suc (length (x ∷ t))) (x ∷ t) false [] (omega arith) tt in
    rw e (inr refl, b)
