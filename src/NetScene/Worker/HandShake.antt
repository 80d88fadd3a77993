-- ===== src/NetScene/Worker/HandShake.antt =====
-- The answer of a worker to a WebSocket handshake.
use unixtar.Prelude.{
  ℕ, true, false, not, none, some, Bytes, length, codes, ◌++◌, append_assoc, append-nil, equal,
  if◌then◌else◌, ok, ◌≡◌, refl, ap, ◌∙◌,
}
use unixtar.Utils.Base64.{decode, decoded}
use unixtar.Utils.MessageDigest.Standard.{sha1}
use unixtar.Utils.Decimal.{decimal}
use unixtar.Http.FirstLine.{status_line_to_string, version2string, as_unsigned}
use unixtar.Http.HeaderField.{
  get_field, insert_or_update, bytes_lt, header_to_string, fields_to_string,
}
use unixtar.Http.Request.{insert_all}
use unixtar.Http.Response.{pack_response, pack_response_fields}
use unixtar.LongLink.WebSocketPacket.{WebSocketPacket}
use unixtar.LongLink.WebSocketPacket.HandShake.{
  hand_shake_magic_key, sec_web_socket_key, answer, do_hand_shake, do_hand_shake_lem,
}
use unixtar.NetScene.Dispatcher.{status_desc_switch_protocol}
use unixtar.NetScene.Worker.{status_line, hand_shake_answer, handle_web_socket, write_fake_ws_resp}

handle_web_socket_fresh :
    (p : WebSocketPacket) (visit : ℕ)
    → p.is_hand_shaken ≡ false
    → handle_web_socket p visit ≡ hand_shake_answer visit (do_hand_shake p)
unfolding handle_web_socket
handle_web_socket_fresh p visit fresh =
    ap
      (λ b.
        if not b
        then hand_shake_answer visit (do_hand_shake p)
        else let (out, times) = write_fake_ws_resp visit in
          ok record { packet = p; buffer = out; visit = times })
      fresh

hand_shake_answer_success :
    (p : WebSocketPacket) (visit : ℕ)
    → hand_shake_answer visit (some (p, true))
      ≡ ok record {
        packet = p;
        buffer = pack_response (status_line 101 status_desc_switch_protocol) p.handshake_resp none;
        visit = visit;
      }
unfolding hand_shake_answer
hand_shake_answer_success p visit = refl

-- The text of the answer to a handshake, with this accept text.
abbrev pub upgrade_text : Bytes → Bytes
upgrade_text accept =
    codes "HTTP/1.1 101 Switching Protocols\r\nConnection: Upgrade\r\nSec-WebSocket-Accept: "
    ++ (accept ++ codes "\r\nUpgrade: websocket\r\n\r\n")

packed_text :
    (accept : Bytes)
    → pack_response (status_line 101 status_desc_switch_protocol) (answer accept) none
      ≡ upgrade_text accept
unfolding pack_response pack_response_fields insert_all insert_or_update bytes_lt equal
    header_to_string fields_to_string status_line_to_string version2string decimal as_unsigned
packed_text accept =
    ap (λ t. codes "HTTP/1.1 101 Switching Protocols\r\n" ++ t)
      (append-nil (
        codes "Connection: Upgrade\r\nSec-WebSocket-Accept: "
        ++ (accept ++ codes "\r\nUpgrade: websocket\r\n")
        ++ codes "\r\n"))
    ∙ ap
        (λ t.
          codes "HTTP/1.1 101 Switching Protocols\r\nConnection: Upgrade\r\nSec-WebSocket-Accept: "
          ++ t)
        (append_assoc accept (codes "\r\nUpgrade: websocket\r\n") (codes "\r\n"))

-- A worker answers a WebSocket packet that has not shaken hands, and whose request has a
-- `Sec-WebSocket-Key`, by a response of status 101 with the headers of the upgrade and no body, and
-- the packet is marked: the accept text in the headers has 28 characters and decodes to the SHA-1 of
-- the key and the magic text.
pub handle_web_socket-hand_shake :
    (p : WebSocketPacket) (key : Bytes) (visit : ℕ)
    → p.is_hand_shaken ≡ false
    → get_field p.handshake_req sec_web_socket_key ≡ some key
    → (accept : Bytes) × (length accept ≡ 28)
      × (decode accept ≡ decoded (sha1 (key ++ hand_shake_magic_key)))
      × (handle_web_socket p visit
          ≡ ok record {
            packet = record p { handshake_resp = answer accept; is_hand_shaken = true };
            buffer = upgrade_text accept;
            visit = visit;
          })
handle_web_socket-hand_shake p key visit fresh found =
    let (accept, len, digested, shaken) = do_hand_shake_lem p key fresh found in
    (
      accept,
      len,
      digested,
      handle_web_socket_fresh p visit fresh
          ∙ ap (hand_shake_answer visit) shaken
          ∙ hand_shake_answer_success _ visit
          ∙ ap
              (λ t. ok record {
                packet = record p { handshake_resp = answer accept; is_hand_shaken = true };
                buffer = t;
                visit = visit;
              })
              (packed_text accept),
    )
