-- ===== src/NetScene/Examples.antt =====
-- Runs of the dispatch at concrete inputs, and its theorems there.
use unixtar.Prelude.{
  ℕ, pos, true, Option, none, some, Bytes, [], ◌∷◌, codes, arith, ok, undefined, ◌≡◌, refl, equal,
  c_str, length, ◌++◌,
}
use unixtar.Http.HeaderField.{bytes_lt}
use unixtar.NetScene.Dispatcher.{
  NetScene, NetSceneDispatcher, net_scene_custom, text_plain, register_net_scene, new_dispatcher,
  route_of, register_all, add_route, is_size, find_route, insert_route, pad,
  get_net_scene_type_by_route, first_dynamic, dynamic_route_match, same_front,
}
use unixtar.NetScene.Dispatcher.Registry.{Registered, constructed, registered}
use unixtar.NetScene.Worker.{BaseNetSceneReq, handle_http}
use unixtar.NetScene.Worker.Answers.{handle_http-undefined}
use unixtar.NetScene.Worker.{handle_web_socket}
use unixtar.NetScene.Worker.HandShake.{upgrade_text, handle_web_socket-hand_shake}
use unixtar.Utils.Base64.{decode, decoded}
use unixtar.Utils.MessageDigest.Standard.{sha1}
use unixtar.Http.HeaderField.{get_field}
use unixtar.LongLink.WebSocketPacket.{WebSocketPacket, new_packet}
use unixtar.LongLink.WebSocketPacket.HandShake.{hand_shake_magic_key, sec_web_socket_key, answer}
use mathlib.Core.Option

-- Scenes that count their runs.
abbrev counting : ℕ → Bytes → ℕ → Option Bytes × ℕ
counting i input w = (some input, w)

abbrev files : NetScene ℕ
files = net_scene_custom (pos 11) (some (codes "/files/*")) text_plain (counting 11)

abbrev framework : NetSceneDispatcher ℕ
framework = Option.get_or (new_dispatcher counting) record { selectors = []; route_map = [] }

abbrev with_files : NetSceneDispatcher ℕ
with_files = Option.get_or (register_net_scene files framework) framework

abbrev no_protobuf : Bytes → BaseNetSceneReq
no_protobuf body = record { net_scene_type = some (pos 7); net_scene_req_buff = none }

with_files-Registered : Registered with_files
unfolding new_dispatcher register_all register_net_scene add_route is_size find_route insert_route
    pad equal bytes_lt
with_files-Registered =
    registered files framework with_files (constructed counting framework refl) refl

dynamic_test : get_net_scene_type_by_route with_files (codes "/files/a?b=c") ≡ pos 11
unfolding new_dispatcher register_all register_net_scene add_route is_size find_route insert_route
    pad equal bytes_lt get_net_scene_type_by_route first_dynamic dynamic_route_match same_front
    route_of
dynamic_test = refl

unrouted : get_net_scene_type_by_route with_files (codes "/file") ≡ pos 2
unfolding new_dispatcher register_all register_net_scene add_route is_size find_route insert_route
    pad equal bytes_lt get_net_scene_type_by_route first_dynamic dynamic_route_match same_front
    route_of
unrouted = refl

handle_http-undefined_example :
    handle_http no_protobuf with_files
      (record { is_method_post = true; url = codes "/file"; body = codes "x" })
      5
    ≡ undefined
handle_http-undefined_example =
    handle_http-undefined no_protobuf with_files (codes "/file") (codes "x") 7 5
      with_files-Registered unrouted (λ e. cc) refl (omega arith) (omega arith)

-- The key of the protocol's specification.
abbrev sample_key : Bytes
sample_key = codes "dGhlIHNhbXBsZSBub25jZQ=="

abbrev asking : WebSocketPacket
asking = record new_packet { handshake_req = (sec_web_socket_key, sample_key) ∷ [] }

key_found : get_field asking.handshake_req sec_web_socket_key ≡ some sample_key
unfolding get_field c_str equal
key_found = refl

handle_web_socket-hand_shake_example :
    (accept : Bytes) × (length accept ≡ 28)
    × (decode accept ≡ decoded (sha1 (sample_key ++ hand_shake_magic_key)))
    × (handle_web_socket asking 0
        ≡ ok record {
          packet = record asking { handshake_resp = answer accept; is_hand_shaken = true };
          buffer = upgrade_text accept;
          visit = 0;
        })
handle_web_socket-hand_shake_example =
    handle_web_socket-hand_shake asking sample_key 0 refl key_found
