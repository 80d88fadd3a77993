-- ===== src/Utils/Examples.antt =====
-- Runs of the utilities at concrete inputs, and their theorems there.
use unixtar.Prelude.{
  ℕ, ◌+◌, ◌*◌, ◌/◌, ◌≤◌, true, false, [], ◌∷◌, ◌++◌, some, codes, length, All, arith, ◌≡◌, ◌⊎◌, inr,
  refl,
}
use unixtar.Utils.StrUtil.{
  split_end, delafter, trim, trim_front, is_among, is_prefix, find, strnstr, split, split_loop,
}
use unixtar.Utils.StrUtil.Find.{searched, strnstr-find}
use unixtar.Utils.StrUtil.Words.{IsWord, joined, split-joined}
use unixtar.Utils.StrUtil.Split.{IsPiece, split_pieces}
use unixtar.Utils.Base64.{encode, encode_byte, encode_end, decode, decoded, out_of_table}
use unixtar.Utils.Base64.RoundTrip.{length-encode, decode-encode, decode_high_byte}
use unixtar.Utils.AutoBuffer.{AutoBuffer, new_auto_buffer, write, contents}
use unixtar.Utils.AutoBuffer.Contents.{IsValid, write_lem}
use unixtar.Utils.MessageQueue.{ThreadSafeDeque, wait_size_greater_than, take_front, pop_front_to}
use unixtar.Utils.MessageQueue.Fifo.{Call, pops, done, then, fifo}
use unixtar.Prelude.{none, equal, IsByte, ok, Bytes}
use unixtar.Utils.MessageDigest.{
  digest, final_states, state_bytes, whole_blocks, transform, last_block, new_block, message_tail,
  big_endian, sha_rounds, sha_round, words, add_regs, blk0, blk, choose, parity, majority, mixed,
  rol,
}
use unixtar.Utils.MessageDigest.Standard.{sha1, digest-sha1}
use unixtar.Utils.Yaml.{
  no_nodes, object, parse_yaml, parse_lines, leaf, array, node, obj_elem, no_elems, bare_line,
  split_line, leaf_line, open_line, dash_line, check_indents, settle, back_by, insert,
  insert_in_array, push_in_back, push_node, push_obj, mark_arr_start, same_count, next_count,
  or_new, indents_of, fill, fill_elem, fill_node, close, object, parse_yaml,
}
use unixtar.Utils.Yaml.Document.{
  Config, Item, finished, pair, section, items, render, tree, IsConfig,
}
use unixtar.Utils.Yaml.RoundTrip.{parse_yaml-render}

strnstr-find_example :
    strnstr (codes "a\r\nb") (codes "\r\n") 4 ≡ find (searched (codes "a\r\nb") 4) (codes "\r\n")
strnstr-find_example = strnstr-find (codes "a\r\nb") (codes "\r\n") 4 (λ e. cc)

two_words : All (IsWord b',') (codes "ab" ∷ codes "c" ∷ [])
two_words = ground arith

split-joined_example :
    split (joined (codes ", ") (codes "ab" ∷ codes "c" ∷ []) (codes "d")) (codes ", ")
    ≡ (codes "ab" ∷ codes "c" ∷ []) ++ codes "d" ∷ []
unfolding find is_prefix
split-joined_example =
    split-joined b',' (codes " ") (codes "ab") (codes "c" ∷ []) (codes "d") two_words (λ e. cc) refl

split_pieces_example :
    ((codes "a,,b" ≡ [])
      ⊎ (split_loop 5 (codes "a,,b") (b',' ∷ []) false []
          ≡ some (split (codes "a,,b") (b',' ∷ []))))
    × All (IsPiece (b',' ∷ [])) (split (codes "a,,b") (b',' ∷ []))
split_pieces_example = split_pieces b',' [] (codes "a,,b")

length-encode_example : length (encode (codes "fooba")) ≡ 4 * ((length (codes "fooba") + 2) / 3)
length-encode_example = length-encode (codes "fooba") (omega arith)

decode-encode_example : decode (encode (codes "fooba")) ≡ decoded (codes "fooba")
decode-encode_example = decode-encode (codes "fooba") (omega arith)

decode_high_byte_example : decode (encode (codes "foo") ++ 0xe4 ∷ codes "abc") ≡ out_of_table
unfolding encode encode_byte encode_end
decode_high_byte_example =
    decode_high_byte (codes "foo") (codes "abc") 0xe4 (omega arith) (omega arith) (omega arith) refl

empty_buffer : IsValid (new_auto_buffer 128)
empty_buffer = record {
  owner = refl;
  pointer = inr (refl, refl);
  filled = omega arith;
  sized = refl;
  unit = omega arith;
  bounded = omega arith;
}

write_lem_example :
    (b' : AutoBuffer) × (write (codes "abc") (new_auto_buffer 128) ≡ some b')
    × IsValid b'
    × (contents b' ≡ contents (new_auto_buffer 128) ++ codes "abc")
    × (b'.pos ≡ 0)
write_lem_example = write_lem (codes "abc") (new_auto_buffer 128) empty_buffer (omega arith)

abbrev two : ThreadSafeDeque ℕ
two = record { max_size = 4; container = 1 ∷ 2 ∷ []; terminated = false }

abbrev one : ThreadSafeDeque ℕ
one = record { max_size = 4; container = 2 ∷ []; terminated = false }

one_taken : Call two [] (1 ∷ []) one
unfolding pop_front_to wait_size_greater_than take_front
one_taken = pops true false 1 refl

fifo_example :
    (two.container ++ [] ≡ (1 ∷ []) ++ one.container)
    × (one.max_size ≡ two.max_size)
    × (length two.container ≤ two.max_size + 1 → length one.container ≤ one.max_size + 1)
fifo_example = fifo {q = two} {r = one} {ins = []} {outs = 1 ∷ []} (then one_taken done)

digest-sha1_example :
    (digest (codes "abc") ≡ sha1 (codes "abc"))
    × (length (digest (codes "abc")) ≡ 20)
    × All IsByte (digest (codes "abc"))
digest-sha1_example = digest-sha1 (codes "abc")

-- A configuration of the reverse proxy.
abbrev server : Bytes → Bytes → Item
server port weight = record {
  first_key = codes "ip";
  first_value = codes "127.0.0.1";
  more = (codes "port", port) ∷ (codes "weight", weight) ∷ [];
}

abbrev proxy_conf : Config
proxy_conf = pair (codes "port") (codes "80") (
    section (codes "log") (codes "level") (codes "info") (pair (codes "size") (codes "10") finished)
      (items (codes "webservers") (server (codes "5002") (codes "1"))
        (server (codes "5003") (codes "0") ∷ [])
        (pair (codes "max_connections") (codes "10000") finished)))

proxy_conf-IsConfig : IsConfig proxy_conf
proxy_conf-IsConfig = ground arith

parse_yaml-render_example : parse_yaml (render 0 proxy_conf) ≡ ok (object (tree proxy_conf))
parse_yaml-render_example = parse_yaml-render proxy_conf proxy_conf-IsConfig

-- The digest of "abc" in the standard.
digest_test :
    digest (codes "abc")
    ≡ 0xa9 ∷ 0x99 ∷ 0x3e ∷ 0x36 ∷ 0x47 ∷ 0x06 ∷ 0x81 ∷ 0x6a ∷ 0xba ∷ 0x3e ∷ 0x25 ∷ 0x71 ∷ 0x78
      ∷ 0x50 ∷ 0xc2 ∷ 0x6c ∷ 0x9c ∷ 0xd0 ∷ 0xd8 ∷ 0x9d ∷ []
unfolding digest final_states state_bytes whole_blocks transform last_block new_block message_tail
    big_endian sha_rounds sha_round words add_regs blk0 blk choose parity majority mixed rol
digest_test = refl

-- Lines of the reverse proxy's file.
conf_test :
    parse_yaml (
      codes "# The port."
      ∷ codes "port: 80"
      ∷ []
      ∷ codes "webservers:"
      ∷ codes "  -"
      ∷ codes "  ip: 127.0.0.1"
      ∷ codes "  weight: 1     # from 0 to 10"
      ∷ [])
    ≡ ok (
        object (
          node (codes "port") (leaf (codes "80")) (
            node
              (codes "webservers")
              (array (some 2) none (
                obj_elem
                  (node
                    (codes "ip")
                    (leaf (codes "127.0.0.1"))
                    (node (codes "weight") (leaf (codes "1")) no_nodes))
                  no_elems))
              no_nodes)))
unfolding parse_yaml parse_lines bare_line split_line leaf_line open_line dash_line check_indents
    settle back_by insert insert_in_array push_in_back push_node push_obj mark_arr_start same_count
    next_count or_new indents_of fill fill_elem fill_node close delafter split split_loop split_end
    find is_prefix trim trim_front is_among equal
conf_test = refl
