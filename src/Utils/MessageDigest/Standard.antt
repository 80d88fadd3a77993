-- ===== src/Utils/MessageDigest/Standard.antt =====
-- `Sha1::Digest` against the standard's SHA-1: the blocks of the padded message, one after another.
use unixtar.Prelude.{
  ℕ, zero, suc, ◌*◌, ◌/◌, true, Bytes, length, take, drop, leb, length-take, length-drop, arith,
  ◌≡◌, refl, ap, ap₂, ◌∙◌, IsByte, All,
}
use unixtar.Utils.MessageDigest.{Regs, initial_states, whole_blocks, state_bytes, digest}
use unixtar.Utils.MessageDigest.Blocks.{padded}
use unixtar.Utils.MessageDigest.Padding.{digest-padded, length-digest}
use unixtar.Utils.MessageDigest.Schedule.{transform-schedule}
use unixtar.Utils.MessageDigest.Fips.{
  hash_block, initial_hash, hash_bytes, padded_message, compress-hash_block,
  initial_states-initial_hash, state_bytes-hash_bytes, padded-padded_message,
}

unfoldable pub hash_blocks : ℕ → Regs → Bytes → Regs
hash_blocks zero h msg = h
hash_blocks (suc n) h msg = hash_blocks n (hash_block h (take 64 msg)) (drop 64 msg)

whole_blocks-hash_blocks :
    (n : ℕ) (states : Regs) (msg : Bytes)
    → length msg ≡ 64 * n
    → whole_blocks n states msg ≡ hash_blocks n states msg
unfolding whole_blocks hash_blocks
whole_blocks-hash_blocks zero states msg e = refl
whole_blocks-hash_blocks (suc n) states msg e =
    let enough : leb 64 (length msg) ≡ true = ground (arith, e) in
    let block : length (take 64 msg) ≡ 64 = omega (arith, length-take 64 msg, e) in
    let left : length (drop 64 msg) ≡ 64 * n = omega (arith, length-drop 64 msg, e) in
    rw enough (
      ap (λ r. whole_blocks n r (drop 64 msg))
        (transform-schedule states (take 64 msg) block ∙ compress-hash_block states (take 64 msg))
      ∙ whole_blocks-hash_blocks n (hash_block states (take 64 msg)) (drop 64 msg) left)

-- SHA-1 as the standard has it.
unfoldable pub sha1 : Bytes → Bytes
sha1 msg =
    hash_bytes (hash_blocks (length (padded_message msg) / 64) initial_hash (padded_message msg))

-- The digest of a message is its SHA-1, which is written without the functions of the code: the
-- message is padded by the bit 1, fewer than 64 zero bytes, and the number of its bits (modulo
-- 2 ^ 64) in eight bytes, to whole blocks of 64 bytes, and each block in turn is hashed by the
-- standard's eighty rounds over its message schedule. It is twenty bytes.
pub digest-sha1 :
    (msg : Bytes) → (digest msg ≡ sha1 msg) × (length (digest msg) ≡ 20) × All IsByte (digest msg)
unfolding sha1
digest-sha1 msg =
    let (whole, same) = digest-padded msg in
    (
      same
          ∙ ap state_bytes (
              whole_blocks-hash_blocks (length (padded msg) / 64) initial_states (padded msg)
                (omega (arith, whole)))
          ∙ state_bytes-hash_bytes _
          ∙ ap₂ (λ h m. hash_bytes (hash_blocks (length m / 64) h m)) initial_states-initial_hash
              (padded-padded_message msg),
      (length-digest msg).0,
      (length-digest msg).1,
    )
