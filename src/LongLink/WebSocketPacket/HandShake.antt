-- ===== src/LongLink/WebSocketPacket/HandShake.antt =====
-- `WebSocketPacket::DoHandShake` in longlink/websocketpacket.cc.
use unixtar.Prelude.{
  ◌+◌, ◌*◌, ◌/◌, Bool, true, false, [], ◌∷◌, ◌++◌, Option, none, some, Bytes, codes, length, equal,
  ◌≡◌, refl, ap, ◌∙◌, if◌then◌else◌,
}
use unixtar.Utils.Base64.{encode, decode, decoded}
use unixtar.Utils.Base64.RoundTrip.{length-encode, decode-encode}
use unixtar.Utils.MessageDigest.{digest}
use unixtar.Utils.MessageDigest.Standard.{sha1, digest-sha1}
use unixtar.Http.HeaderField.{HeaderField, connection_name, insert_or_update, get_field, bytes_lt}
use unixtar.LongLink.WebSocketPacket.{WebSocketPacket}

abbrev pub hand_shake_magic_key : Bytes
hand_shake_magic_key = codes "258EAFA5-E914-47DA-95CA-C5AB0DC85B11"

abbrev pub upgrade_name : Bytes
upgrade_name = codes "Upgrade"

abbrev pub websocket : Bytes
websocket = codes "websocket"

abbrev pub sec_web_socket_key : Bytes
sec_web_socket_key = codes "Sec-WebSocket-Key"

abbrev pub sec_web_socket_accept : Bytes
sec_web_socket_accept = codes "Sec-WebSocket-Accept"

-- What is behind the test for the key's header. The text that `Encode` writes has no NUL inside.
unfoldable pub shake_with : Option Bytes → WebSocketPacket → WebSocketPacket × Bool
shake_with none p = (record p { handshake_resp = [] }, false)
shake_with (some sec_ws_key) p = (
  record p {
    handshake_resp = insert_or_update upgrade_name websocket (
        insert_or_update connection_name upgrade_name (
          insert_or_update sec_web_socket_accept
            (encode (digest (sec_ws_key ++ hand_shake_magic_key))) []));
    is_hand_shaken = true;
  },
  true,
)

-- `DoHandShake`; `none` is a failed assertion.
unfoldable pub do_hand_shake : WebSocketPacket → Option (WebSocketPacket × Bool)
do_hand_shake p =
    if p.is_hand_shaken
    then none
    else some (shake_with (get_field p.handshake_req sec_web_socket_key) p)

-- The headers of a successful handshake.
abbrev pub answer : Bytes → HeaderField
answer accept =
    (connection_name, upgrade_name)
    ∷ (sec_web_socket_accept, accept)
    ∷ (upgrade_name, websocket)
    ∷ []

do_hand_shake_fresh :
    (p : WebSocketPacket) (found : Option Bytes)
    → p.is_hand_shaken ≡ false
    → get_field p.handshake_req sec_web_socket_key ≡ found
    → do_hand_shake p ≡ some (shake_with found p)
unfolding do_hand_shake
do_hand_shake_fresh p found fresh e =
    ap (λ b. if b then none else some (shake_with (get_field p.handshake_req sec_web_socket_key) p))
      fresh
    ∙ ap (λ o. some (shake_with o p)) e

shake_with-answer :
    (p : WebSocketPacket) (key : Bytes)
    → shake_with (some key) p ≡ (
      record p {
        handshake_resp = answer (encode (digest (key ++ hand_shake_magic_key)));
        is_hand_shaken = true;
      },
      true,
    )
unfolding shake_with insert_or_update bytes_lt equal
shake_with-answer p key = refl

-- The handshake of a request with a key, on a packet that has not shaken hands, succeeds: the
-- answer is the upgrade with an accept text of 28 characters that decodes to the SHA-1 of the key and
-- the magic text.
pub do_hand_shake_lem :
    (p : WebSocketPacket) (key : Bytes)
    → p.is_hand_shaken ≡ false
    → get_field p.handshake_req sec_web_socket_key ≡ some key
    → (accept : Bytes) × (length accept ≡ 28)
      × (decode accept ≡ decoded (sha1 (key ++ hand_shake_magic_key)))
      × (do_hand_shake p
          ≡ some (record p { handshake_resp = answer accept; is_hand_shaken = true }, true))
do_hand_shake_lem p key fresh found =
    let (same, len, bytes) = digest-sha1 (key ++ hand_shake_magic_key) in
    (
      encode (digest (key ++ hand_shake_magic_key)),
      length-encode (digest (key ++ hand_shake_magic_key)) bytes
          ∙ ap (λ n. 4 * ((n + 2) / 3)) len
          ∙ refl,
      decode-encode (digest (key ++ hand_shake_magic_key)) bytes ∙ ap decoded same,
      do_hand_shake_fresh p (some key) fresh found ∙ ap some (shake_with-answer p key),
    )
