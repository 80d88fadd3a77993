-- ===== src/Utils/MessageDigest/Schedule.antt =====
-- `Sha1Transform` against the message schedule of the standard, which is a list of eighty words.
use unixtar.Prelude.{
  ℕ, zero, suc, ◌+◌, ◌*◌, ◌%◌, ◌<◌, true, false, List, [], ◌∷◌, ◌++◌, map, length, get_or, set,
  take, drop, length-set, length-append, append_assoc, append-nil, ltb, arith, ◌≡◌, refl, sym, ap,
  ap₂, ◌∙◌, bit_and, bit_or, bit_xor, if◌then◌else◌, Bytes,
}
use unixtar.Prelude.Bits.{bit_and_15}
use unixtar.Utils.MessageDigest.{
  rol, words, blk0, blk, Regs, choose, parity, majority, mixed, sha_round, sha_rounds, add_regs,
  transform,
}

-- The word behind sixteen words: the standard's `ROTL^1(W[t-3] ^ W[t-8] ^ W[t-14] ^ W[t-16])`.
unfoldable pub next_word : List ℕ → ℕ
next_word window =
    rol
      (bit_xor (bit_xor (bit_xor (get_or window 13 0) (get_or window 8 0)) (get_or window 2 0))
        (get_or window 0 0))
      1

unfoldable pub slide : List ℕ → List ℕ
slide window = drop 1 window ++ next_word window ∷ []

-- `n` words behind the sixteen of the window.
unfoldable pub generated : ℕ → List ℕ → List ℕ
generated zero window = []
generated (suc n) window = next_word window ∷ generated n (slide window)

-- The message schedule: the sixteen words of the block, and sixty-four generated ones.
unfoldable pub schedule : List ℕ → List ℕ
schedule block = block ++ generated 64 block

-- The function and the constant of round `i`.
unfoldable pub standard_round : ℕ → ℕ → Regs → Regs
standard_round i word r =
    if ltb i 20
    then mixed (choose r) 0x5a827999 word r
    else if ltb i 40
    then mixed (parity r) 0x6ed9eba1 word r
    else if ltb i 60
    then mixed (majority r) 0x8f1bbcdc word r
    else mixed (parity r) 0xca62c1d6 word r

-- The rounds from the `i`-th on over the words of a schedule.
unfoldable pub compress : ℕ → List ℕ → Regs → Regs
compress i [] r = r
compress i (word ∷ ws) r = compress (suc i) ws (standard_round i word r)

-- A word with its bytes in the other order, as `blk0` computes it.
unfoldable pub swapped : ℕ → ℕ
swapped l = bit_or (bit_and (rol l 24) 0xff00ff00) (bit_and (rol l 8) 0x00ff00ff)

compress-append :
    (i : ℕ) (ws vs : List ℕ) (r : Regs)
    → compress i (ws ++ vs) r ≡ compress (i + length ws) vs (compress i ws r)
unfolding compress
compress-append i [] vs r = ap (λ n. compress n vs r) (omega arith)
compress-append i (w ∷ ws) vs r =
    compress-append (suc i) ws vs (standard_round i w r)
    ∙ ap (λ n. compress n vs (compress (suc i) ws (standard_round i w r))) (omega arith)

-- The first rounds.
get-here : (done raw : List ℕ) (x i : ℕ) → length done ≡ i → get_or (done ++ x ∷ raw) i 0 ≡ x
get-here [] raw x zero e = refl
get-here [] raw x (suc i) e = absurd (omega (arith, e))
get-here (d ∷ done) raw x zero e = absurd (omega (arith, e))
get-here (d ∷ done) raw x (suc i) e = get-here done raw x i (omega (arith, e))

set-here :
    (done raw : List ℕ) (x y i : ℕ) → length done ≡ i → set (done ++ x ∷ raw) i y ≡ done ++ y ∷ raw
set-here [] raw x y zero e = refl
set-here [] raw x y (suc i) e = absurd (omega (arith, e))
set-here (d ∷ done) raw x y zero e = absurd (omega (arith, e))
set-here (d ∷ done) raw x y (suc i) e = ap (λ t. d ∷ t) (set-here done raw x y i (omega (arith, e)))

early_round :
    (i x : ℕ) (r : Regs) (done raw : List ℕ)
    → length done ≡ i
    → i < 16
    → sha_round i (r, done ++ x ∷ raw) ≡ (standard_round i (swapped x) r, done ++ swapped x ∷ raw)
unfolding sha_round blk0 standard_round swapped
early_round i x r done raw e h =
    let early : ltb i 16 ≡ true = ground (arith, h) in
    let first : ltb i 20 ≡ true = ground (arith, h) in
    rw (early, first)
      (ap₂ (λ l b. (mixed (choose r) 0x5a827999 (swapped l) r, b)) (get-here done raw x i e)
        (ap (λ l. set (done ++ x ∷ raw) i (swapped l)) (get-here done raw x i e)
          ∙ set-here done raw x (swapped x) i e))

early_rounds :
    (n i : ℕ) (r : Regs) (done raw : List ℕ)
    → length done ≡ i
    → i + length raw ≡ 16
    → sha_rounds (length raw + n) i (r, done ++ raw)
      ≡ sha_rounds n 16 (compress i (map swapped raw) r, done ++ map swapped raw)
unfolding sha_rounds compress
early_rounds n i r done [] e h =
    let none_left : 0 + n ≡ n = omega arith in
    let at_16 : i ≡ 16 = omega (arith, h) in
    ap₂ (λ k j. sha_rounds k j (r, done ++ [])) none_left at_16
early_rounds n i r done (x ∷ raw) e h =
    let next : suc (length raw) + n ≡ suc (length raw + n) = omega arith in
    let grown : length (done ++ swapped x ∷ []) ≡ suc i =
      omega (arith, e, length-append done (swapped x ∷ [])) in
    ap (λ k. sha_rounds k i (r, done ++ x ∷ raw)) next
    ∙ ap (sha_rounds (length raw + n) (suc i)) (early_round i x r done raw e (omega (arith, h)))
    ∙ ap (λ b. sha_rounds (length raw + n) (suc i) (standard_round i (swapped x) r, b))
        (sym (append_assoc done (swapped x ∷ []) raw))
    ∙ early_rounds n (suc i) (standard_round i (swapped x) r) (done ++ swapped x ∷ []) raw grown
        (omega (arith, h))
    ∙ ap
        (λ b.
          sha_rounds n 16 (compress (suc i) (map swapped raw) (standard_round i (swapped x) r), b))
        (append_assoc done (swapped x ∷ []) (map swapped raw))

-- The later rounds: the block is a ring, and turned to its oldest word it is the window.
unfoldable turned : ℕ → List ℕ → List ℕ
turned p block = drop p block ++ take p block

-- `blk` at the place `p` of the ring.
unfoldable blk_at : ℕ → List ℕ → List ℕ × ℕ
blk_at p block =
    let word =
      rol
        (bit_xor
          (bit_xor (bit_xor (get_or block ((p + 13) % 16) 0) (get_or block ((p + 8) % 16) 0))
            (get_or block ((p + 2) % 16) 0))
          (get_or block p 0))
        1 in
    (set block p word, word)

blk-at : (i : ℕ) (block : List ℕ) → blk i block ≡ blk_at (i % 16) block
unfolding blk blk_at
blk-at i block =
    let far : bit_and (i + 13) 15 ≡ (i % 16 + 13) % 16 = omega (arith, bit_and_15 (i + 13)) in
    let mid : bit_and (i + 8) 15 ≡ (i % 16 + 8) % 16 = omega (arith, bit_and_15 (i + 8)) in
    let near : bit_and (i + 2) 15 ≡ (i % 16 + 2) % 16 = omega (arith, bit_and_15 (i + 2)) in
    rw (far, mid, near, bit_and_15 i) refl

module _ (x0 x1 x2 x3 x4 x5 x6 x7 x8 x9 x10 x11 x12 x13 x14 x15 : ℕ) where
  abbrev ring : List ℕ
  ring = x0 ∷ x1 ∷ x2 ∷ x3 ∷ x4 ∷ x5 ∷ x6 ∷ x7 ∷ x8 ∷ x9 ∷ x10 ∷ x11 ∷ x12 ∷ x13 ∷ x14 ∷ x15 ∷ []

  blk_at_window :
      (p : ℕ)
      → p < 16
      → ((blk_at p ring).1 ≡ next_word (turned p ring))
        × (turned ((p + 1) % 16) ((blk_at p ring).0) ≡ slide (turned p ring))
  unfolding blk_at turned next_word slide
  blk_at_window zero h = (refl, refl)
  blk_at_window (suc zero) h = (refl, refl)
  blk_at_window (suc (suc zero)) h = (refl, refl)
  blk_at_window (suc (suc (suc zero))) h = (refl, refl)
  blk_at_window (suc (suc (suc (suc zero)))) h = (refl, refl)
  blk_at_window (suc (suc (suc (suc (suc zero))))) h = (refl, refl)
  blk_at_window (suc (suc (suc (suc (suc (suc zero)))))) h = (refl, refl)
  blk_at_window (suc (suc (suc (suc (suc (suc (suc zero))))))) h = (refl, refl)
  blk_at_window (suc (suc (suc (suc (suc (suc (suc (suc zero)))))))) h = (refl, refl)
  blk_at_window (suc (suc (suc (suc (suc (suc (suc (suc (suc zero))))))))) h = (refl, refl)
  blk_at_window (suc (suc (suc (suc (suc (suc (suc (suc (suc (suc zero)))))))))) h = (refl, refl)
  blk_at_window (suc (suc (suc (suc (suc (suc (suc (suc (suc (suc (suc zero))))))))))) h =
      (refl, refl)
  blk_at_window (suc (suc (suc (suc (suc (suc (suc (suc (suc (suc (suc (suc zero)))))))))))) h =
      (refl, refl)
  blk_at_window (suc (suc (suc (suc (suc (suc (suc (suc (suc (suc (suc (suc (suc zero)))))))))))))
        h =
      (refl, refl)
  blk_at_window
        (suc (suc (suc (suc (suc (suc (suc (suc (suc (suc (suc (suc (suc (suc zero)))))))))))))) h =
      (refl, refl)
  blk_at_window
        (suc
          (suc (suc (suc (suc (suc (suc (suc (suc (suc (suc (suc (suc (suc (suc zero)))))))))))))))
        h =
      (refl, refl)
  blk_at_window
        (suc (
          suc
            (suc (suc (suc (suc (suc (suc (suc (suc (suc (suc (suc (suc (suc (suc p))))))))))))))))
        h =
      absurd (omega (arith, h))

blk_window :
    (p : ℕ) (block : List ℕ)
    → length block ≡ 16
    → p < 16
    → ((blk_at p block).1 ≡ next_word (turned p block))
      × (turned ((p + 1) % 16) ((blk_at p block).0) ≡ slide (turned p block))
blk_window p [] e h = absurd (omega (arith, e))
blk_window p (x0 ∷ []) e h = absurd (omega (arith, e))
blk_window p (x0 ∷ x1 ∷ []) e h = absurd (omega (arith, e))
blk_window p (x0 ∷ x1 ∷ x2 ∷ []) e h = absurd (omega (arith, e))
blk_window p (x0 ∷ x1 ∷ x2 ∷ x3 ∷ []) e h = absurd (omega (arith, e))
blk_window p (x0 ∷ x1 ∷ x2 ∷ x3 ∷ x4 ∷ []) e h = absurd (omega (arith, e))
blk_window p (x0 ∷ x1 ∷ x2 ∷ x3 ∷ x4 ∷ x5 ∷ []) e h = absurd (omega (arith, e))
blk_window p (x0 ∷ x1 ∷ x2 ∷ x3 ∷ x4 ∷ x5 ∷ x6 ∷ []) e h = absurd (omega (arith, e))
blk_window p (x0 ∷ x1 ∷ x2 ∷ x3 ∷ x4 ∷ x5 ∷ x6 ∷ x7 ∷ []) e h = absurd (omega (arith, e))
blk_window p (x0 ∷ x1 ∷ x2 ∷ x3 ∷ x4 ∷ x5 ∷ x6 ∷ x7 ∷ x8 ∷ []) e h = absurd (omega (arith, e))
blk_window p (x0 ∷ x1 ∷ x2 ∷ x3 ∷ x4 ∷ x5 ∷ x6 ∷ x7 ∷ x8 ∷ x9 ∷ []) e h = absurd (omega (arith, e))
blk_window p (x0 ∷ x1 ∷ x2 ∷ x3 ∷ x4 ∷ x5 ∷ x6 ∷ x7 ∷ x8 ∷ x9 ∷ x10 ∷ []) e h =
    absurd (omega (arith, e))
blk_window p (x0 ∷ x1 ∷ x2 ∷ x3 ∷ x4 ∷ x5 ∷ x6 ∷ x7 ∷ x8 ∷ x9 ∷ x10 ∷ x11 ∷ []) e h =
    absurd (omega (arith, e))
blk_window p (x0 ∷ x1 ∷ x2 ∷ x3 ∷ x4 ∷ x5 ∷ x6 ∷ x7 ∷ x8 ∷ x9 ∷ x10 ∷ x11 ∷ x12 ∷ []) e h =
    absurd (omega (arith, e))
blk_window p (x0 ∷ x1 ∷ x2 ∷ x3 ∷ x4 ∷ x5 ∷ x6 ∷ x7 ∷ x8 ∷ x9 ∷ x10 ∷ x11 ∷ x12 ∷ x13 ∷ []) e h =
    absurd (omega (arith, e))
blk_window p (x0 ∷ x1 ∷ x2 ∷ x3 ∷ x4 ∷ x5 ∷ x6 ∷ x7 ∷ x8 ∷ x9 ∷ x10 ∷ x11 ∷ x12 ∷ x13 ∷ x14 ∷ []) e
      h =
    absurd (omega (arith, e))
blk_window p
      (x0 ∷ x1 ∷ x2 ∷ x3 ∷ x4 ∷ x5 ∷ x6 ∷ x7 ∷ x8 ∷ x9 ∷ x10 ∷ x11 ∷ x12 ∷ x13 ∷ x14 ∷ x15 ∷ []) e
      h =
    blk_at_window x0 x1 x2 x3 x4 x5 x6 x7 x8 x9 x10 x11 x12 x13 x14 x15 p h
blk_window p
      (x0 ∷ x1 ∷ x2 ∷ x3 ∷ x4 ∷ x5 ∷ x6 ∷ x7 ∷ x8 ∷ x9 ∷ x10 ∷ x11 ∷ x12 ∷ x13 ∷ x14 ∷ x15 ∷ x16
        ∷ rest)
      e h =
    absurd (omega (arith, e))

length-blk_at : (p : ℕ) (block : List ℕ) → length ((blk_at p block).0) ≡ length block
unfolding blk_at
length-blk_at p block = length-set block p _

late_round :
    (i : ℕ) (r : Regs) (block : List ℕ)
    → 15 < i
    → sha_round i (r, block)
      ≡ (standard_round i ((blk_at (i % 16) block).1) r, (blk_at (i % 16) block).0)
unfolding sha_round standard_round
late_round i r block h =
    let late : ltb i 16 ≡ false = ground (arith, h) in
    rw late (ap (λ b. (standard_round i b.1 r, b.0)) (blk-at i block))

late_rounds :
    (n i : ℕ) (r : Regs) (block window : List ℕ)
    → 15 < i
    → length block ≡ 16
    → turned (i % 16) block ≡ window
    → (sha_rounds n i (r, block)).0 ≡ compress i (generated n window) r
unfolding sha_rounds compress generated
late_rounds zero i r block window h len e = refl
late_rounds (suc n) i r block window h len e =
    let (word, ring) = blk_window (i % 16) block len (omega arith) in
    let block' : List ℕ = (blk_at (i % 16) block).0 in
    let word_is : (blk_at (i % 16) block).1 ≡ next_word window = word ∙ ap next_word e in
    let place : suc i % 16 ≡ (i % 16 + 1) % 16 = omega arith in
    ap (λ s. (sha_rounds n (suc i) s).0) (late_round i r block h)
    ∙ late_rounds n (suc i) (standard_round i ((blk_at (i % 16) block).1) r) block' (slide window)
        (omega (arith, h)) (length-blk_at (i % 16) block ∙ len)
        (ap (λ p. turned p block') place ∙ ring ∙ ap slide e)
    ∙ ap (λ w. compress (suc i) (generated n (slide window)) (standard_round i w r)) word_is

length-words : (buf : Bytes) (k : ℕ) → length buf ≡ 4 * k → length (words buf) ≡ k
unfolding words
length-words [] k e = omega (arith, e)
length-words (a ∷ []) k e = absurd (omega (arith, e))
length-words (a ∷ b ∷ []) k e = absurd (omega (arith, e))
length-words (a ∷ b ∷ c ∷ []) k e = absurd (omega (arith, e))
length-words (a ∷ b ∷ c ∷ d ∷ buf) zero e = absurd (omega (arith, e))
length-words (a ∷ b ∷ c ∷ d ∷ buf) (suc k) e = ap suc (length-words buf k (omega (arith, e)))

length-map-swapped : (ws : List ℕ) → length (map swapped ws) ≡ length ws
length-map-swapped [] = refl
length-map-swapped (w ∷ ws) = ap suc (length-map-swapped ws)

-- On a block of 64 bytes `Sha1Transform`, which keeps sixteen words in a ring and writes them over
-- the block, adds to the states what the standard's eighty rounds make of them over the
-- message schedule.
pub transform-schedule :
    (states : Regs) (buf : Bytes)
    → length buf ≡ 64
    → (transform states buf).0
      ≡ add_regs states (compress 0 (schedule (map swapped (words buf))) states)
unfolding transform schedule
transform-schedule states buf e =
    let raw : List ℕ = words buf in
    let block : List ℕ = map swapped raw in
    let sixteen : length raw ≡ 16 = length-words buf 16 e in
    let whole : length block ≡ 16 = length-map-swapped raw ∙ sixteen in
    let all : length raw + 64 ≡ 80 = omega (arith, sixteen) in
    ap (add_regs states) (
      ap (λ n. (sha_rounds n 0 (states, raw)).0) (sym all)
      ∙ ap (λ s. s.0) (early_rounds 64 0 states [] raw refl (omega (arith, sixteen)))
      ∙ late_rounds 64 16 (compress 0 block states) block block (omega arith) whole
          (unfold turned in append-nil block)
      ∙ ap (λ n. compress n (generated 64 block) (compress 0 block states)) (omega (arith, whole))
      ∙ sym (compress-append 0 block (generated 64 block) states))
