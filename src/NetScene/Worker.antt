-- ===== src/NetScene/Worker.antt =====
-- `NetSceneDispatcher::NetSceneWorker` in netscene/netscenedispatcher.cc: what a worker writes to the
-- buffer of the return packet for a packet, and for one that comes when the server is overloaded.
pub mod Answers
pub mod HandShake
use unixtar.Prelude.{
  ℕ, suc, ◌+◌, ◌%◌, ◌^◌, ℤ, pos, Bool, true, false, not, List, [], ◌∷◌, ◌++◌, Option, none, some,
  Bytes, codes, equal, if◌then◌else◌, Outcome, ok, asserted, ◌>>=◌, ◌==◌, length,
}
use mathlib.Core.Option
use unixtar.Utils.Decimal.{decimal}
use unixtar.Http.FirstLine.{StatusLine, http_1_1}
use unixtar.Http.HeaderField.{HeaderField, connection_name, connection_close, insert_or_update}
use unixtar.Http.Response.{pack_response}
use unixtar.LongLink.WebSocketPacket.{WebSocketPacket, pack}
use unixtar.LongLink.WebSocketPacket.HandShake.{do_hand_shake}
use unixtar.NetScene.Dispatcher.{
  NetScene, NetSceneDispatcher, content_type_name, octet_stream, text_plain, status_desc_ok,
  status_desc_switch_protocol, net_scene_type_404_not_found, make_net_scene,
  get_net_scene_type_by_route,
}

-- The two fields of a `BaseNetSceneReq`, each of which may be absent.
pub record BaseNetSceneReq : Type 0 where
  pub net_scene_type : Option ℤ
  pub net_scene_req_buff : Option Bytes

-- What a worker reads of an `HttpRequest`.
pub record HttpRequest : Type 0 where
  pub is_method_post : Bool
  pub url : Bytes
  pub body : Bytes

pub data ApplicationPacket : Type 0 where
  http_packet : HttpRequest → ApplicationPacket
  web_socket_packet : WebSocketPacket → ApplicationPacket
  other_packet : ApplicationPacket

-- A status line of HTTP/1.1.
abbrev pub status_line : ℕ → Bytes → StatusLine
status_line code desc = record { version = http_1_1; status_code = pos code; status_desc = desc }

-- `WriteFakeWsResp`: the buffer, and the number of visits that it leaves; the text has its end in
-- the 256 characters of the array.
unfoldable pub write_fake_ws_resp : ℕ → Bytes × ℕ
write_fake_ws_resp visit =
    let times = suc visit % 2 ^ 64 in
    (
      pack (codes "{\"msg\":\"This is " ++ (decimal times ++ codes " visits to Unixtar\"}")) [],
      times,
    )

-- What `HandleWebSocket` leaves: the packet, the return packet's buffer and the number of visits.
pub record WebSocketAnswer : Type 0 where
  pub packet : WebSocketPacket
  pub buffer : Bytes
  pub visit : ℕ

unfoldable pub hand_shake_answer : ℕ → Option (WebSocketPacket × Bool) → Outcome WebSocketAnswer
hand_shake_answer visit none = asserted
hand_shake_answer visit (some (p, success)) = ok record {
  packet = p;
  buffer =
      pack_response (status_line (if success then 101 else 404) status_desc_switch_protocol)
        p.handshake_resp none;
  visit = visit;
}

-- `HandleWebSocket`
unfoldable pub handle_web_socket : WebSocketPacket → ℕ → Outcome WebSocketAnswer
handle_web_socket p visit =
    if not p.is_hand_shaken
    then hand_shake_answer visit (do_hand_shake p)
    else let (out, times) = write_fake_ws_resp visit in
      ok record { packet = p; buffer = out; visit = times }

-- `HandleNetSceneException`
unfoldable pub handle_net_scene_exception : Bytes
handle_net_scene_exception =
    pack_response (status_line 500 status_desc_ok)
      (insert_or_update connection_name connection_close [])
      (some (codes "Unixtar encounters an exception during handling net scene."))

-- `HandleOverload`: what is written, with the serialized `BaseNetSceneResp` as a parameter.
unfoldable pub handle_overload : Bytes → ApplicationPacket → Bytes
handle_overload resp (http_packet request) =
    pack_response (status_line 200 status_desc_ok)
      (insert_or_update content_type_name
        (if request.is_method_post then octet_stream else text_plain) [])
      (some (if request.is_method_post then resp else codes "Unixtar is busy now"))
handle_overload resp (web_socket_packet p) = pack resp []
handle_overload resp other_packet = []

-- The type and the buffer that a request in the body asks for.
unfoldable pub asked_by : BaseNetSceneReq → ℤ × Bytes
asked_by req = elim req.net_scene_type [
  | none ↦ (net_scene_type_404_not_found, [])
  | some type ↦ (type, Option.get_or req.net_scene_req_buff [])
]

unfoldable pub is_404 : ℤ → Bool
is_404 (pos n) = n == 2
is_404 _ = false

module _ {W : Type 0} where
  -- `PackHttpRespPacket`
  unfoldable pub pack_http_resp_packet : NetScene W → Bytes → Bytes
  pack_http_resp_packet net_scene resp_buffer =
      pack_response (status_line 200 status_desc_ok)
        (insert_or_update connection_name connection_close (
          insert_or_update content_type_name
            (if net_scene.is_use_protobuf then octet_stream else net_scene.content_type)
            (net_scene.custom_http_headers [])))
        (some resp_buffer)

  -- The try block of `HandleHttp` and its handlers.
  unfoldable pub run_net_scene : NetScene W → Bytes → W → Bytes × W
  run_net_scene net_scene input w =
      let (resp, w') = net_scene.do_scene input w in
      elim resp [
        | some resp_buffer ↦ (pack_http_resp_packet net_scene resp_buffer, w')
        | none ↦ (handle_net_scene_exception, w')
      ]

  module _ (parse_from_array : Bytes → BaseNetSceneReq) where
    -- The `do { ... } while (false)` of `HandleHttp`: the type and `req_buffer`.
    unfoldable pub choose_type : NetSceneDispatcher W → HttpRequest → ℤ × Bytes
    choose_type d request =
        let type = get_net_scene_type_by_route d request.url in
        if not request.is_method_post
        then (type, [])
        else if not (is_404 type)
        then (type, request.body)
        else if length request.body == 0
        then (type, [])
        else asked_by (parse_from_array request.body)

    -- `HandleHttp`
    unfoldable pub handle_http : NetSceneDispatcher W → HttpRequest → W → Outcome (Bytes × W)
    handle_http d request w = do
      let (type, req_buffer) = choose_type d request
      net_scene ← make_net_scene d type
      ok (run_net_scene net_scene (if request.is_method_post then req_buffer else request.url) w)

    -- `HandleImpl`: the return packet's buffer, the packet, what the scenes share, and the visits.
    unfoldable pub handle_impl :
        NetSceneDispatcher W
        → ApplicationPacket
        → W
        → ℕ
        → Outcome (Bytes × ApplicationPacket × W × ℕ)
    handle_impl d (http_packet request) w visit = do
      (out, w') ← handle_http d request w
      ok (out, http_packet request, w', visit)
    handle_impl d (web_socket_packet p) w visit = do
      answer ← handle_web_socket p visit
      ok (answer.buffer, web_socket_packet answer.packet, w, answer.visit)
    handle_impl d other_packet w visit = ok ([], other_packet, w, visit)
