-- ===== src/NetScene/Dispatcher.antt =====
-- netscene/netscenedispatcher.h and netscene/netscenedispatcher.cc: the registration of net scenes,
-- the routes, and what a worker answers to a packet. `W` is what the scenes share with each other and
-- keep from one request to the next. What the generated protobuf code makes of a body is a parameter.
-- The buffer of the return packet is empty when a worker gets it.
pub mod Registry
pub mod Routing
use unixtar.Prelude.{
  ℕ, zero, suc, ◌+◌, ◌-◌, ◌%◌, ◌^◌, ℤ, pos, negsuc, Bool, true, false, not, ◌&&◌, ◌||◌, List, [],
  ◌∷◌, ◌++◌, Option, none, some, Bytes, codes, length, get_elem?, get_or, replicate, equal, ltb,
  leb, ◌==◌, if◌then◌else◌, Outcome, ok, asserted, undefined, ◌>>=◌,
}
use unixtar.Utils.Decimal.{decimal}
use unixtar.Http.FirstLine.{StatusLine, http_1_1}
use unixtar.Http.HeaderField.{
  HeaderField, connection_name, connection_close, insert_or_update, bytes_lt,
}
use unixtar.Http.Response.{pack_response}
use unixtar.LongLink.WebSocketPacket.{WebSocketPacket, pack}
use unixtar.LongLink.WebSocketPacket.HandShake.{do_hand_shake}

abbrev pub content_type_name : Bytes
content_type_name = codes "Content-Type"

abbrev pub octet_stream : Bytes
octet_stream = codes "application/octet-stream"

abbrev pub text_plain : Bytes
text_plain = codes "text/plain"

abbrev pub text_html : Bytes
text_html = codes "text/html"

abbrev pub image_png : Bytes
image_png = codes "image/png"

abbrev pub status_desc_ok : Bytes
status_desc_ok = codes "OK"

abbrev pub status_desc_switch_protocol : Bytes
status_desc_switch_protocol = codes "Switching Protocols"

-- A subclass of `NetSceneBase`, of which `NewInstance` makes one more. `do_scene` is what `DoScene`
-- leaves in `resp_buffer_`; `none` is an exception.
pub record NetScene (W : Type 0) : Type 0 where
  pub get_type : ℤ
  pub is_use_protobuf : Bool
  pub route : Option Bytes
  pub content_type : Bytes
  pub custom_http_headers : HeaderField → HeaderField
  pub do_scene : Bytes → W → Option Bytes × W

-- `NetSceneProtobuf` and `NetSceneCustom`.
abbrev pub net_scene_protobuf : {W : Type 0} → ℤ → (Bytes → W → Option Bytes × W) → NetScene W
net_scene_protobuf type run = record {
  get_type = type;
  is_use_protobuf = true;
  route = none;
  content_type = octet_stream;
  custom_http_headers = λ headers. headers;
  do_scene = run;
}

abbrev pub net_scene_custom :
    {W : Type 0} → ℤ → Option Bytes → Bytes → (Bytes → W → Option Bytes × W) → NetScene W
net_scene_custom type url_route content run = record {
  get_type = type;
  is_use_protobuf = false;
  route = url_route;
  content_type = content;
  custom_http_headers = λ headers. headers;
  do_scene = run;
}

abbrev pub reserved_type_offset : ℕ
reserved_type_offset = 10

abbrev pub net_scene_type_404_not_found : ℤ
net_scene_type_404_not_found = pos 2

-- `selectors_` and `route_map_`, which is in the order of its keys.
pub record NetSceneDispatcher (W : Type 0) : Type 0 where
  pub selectors : List (Option (NetScene W))
  pub route_map : List (Bytes × ℤ)

abbrev pub empty_dispatcher : {W : Type 0} → NetSceneDispatcher W
empty_dispatcher = record { selectors = []; route_map = [] }

-- `find` and `operator[]` of the map.
unfoldable pub find_route : Bytes → List (Bytes × ℤ) → Option ℤ
find_route route [] = none
find_route route ((r, type) ∷ routes) = if equal r route then some type else find_route route routes

unfoldable pub insert_route : Bytes → ℤ → List (Bytes × ℤ) → List (Bytes × ℤ)
insert_route route type [] = (route, type) ∷ []
insert_route route type ((r, t) ∷ routes) =
    if bytes_lt route r
    then (route, type) ∷ (r, t) ∷ routes
    else (r, t) ∷ insert_route route type routes

-- `selectors_.size() == type`
unfoldable pub is_size : ℕ → ℤ → Bool
is_size n (pos k) = n == k
is_size n (negsuc k) = false

module _ {W : Type 0} where
  unfoldable pub add_route :
      Bool → Option Bytes → ℤ → NetSceneDispatcher W → Option (NetSceneDispatcher W)
  add_route true route type d = some d
  add_route false none type d = some d
  add_route false (some route) type d = elim (find_route route d.route_map) [
    | none ↦ some (record d { route_map = insert_route route type d.route_map })
    | some t ↦ none
  ]

  -- `RegisterNetScene`; `none` is a failed assertion.
  unfoldable pub register_net_scene :
      NetScene W → NetSceneDispatcher W → Option (NetSceneDispatcher W)
  register_net_scene net_scene d =
      if is_size (length d.selectors) net_scene.get_type
      then add_route net_scene.is_use_protobuf net_scene.route net_scene.get_type
          (record d { selectors = d.selectors ++ some net_scene ∷ [] })
      else none

  unfoldable pub register_all :
      List (NetScene W) → NetSceneDispatcher W → Option (NetSceneDispatcher W)
  register_all [] d = some d
  register_all (net_scene ∷ rest) d = elim (register_net_scene net_scene d) [
    | none ↦ none
    | some d' ↦ register_all rest d'
  ]

  -- The four scenes of the framework; what they do is a parameter.
  abbrev pub reserved_scenes : (ℕ → Bytes → W → Option Bytes × W) → List (NetScene W)
  reserved_scenes run =
      net_scene_custom (pos 0) (some (codes "/")) text_plain (run 0)
      ∷ net_scene_protobuf (pos 1) (run 1)
      ∷ net_scene_custom (pos 2) none text_html (run 2)
      ∷ net_scene_custom (pos 3) (some (codes "/favicon.ico")) image_png (run 3)
      ∷ []

  -- The loop that pads with null pointers.
  unfoldable pub pad : NetSceneDispatcher W → NetSceneDispatcher W
  pad d = record d {
    selectors = d.selectors ++ replicate (suc reserved_type_offset - length d.selectors) none;
  }

  -- `NetSceneDispatcher()`
  unfoldable pub new_dispatcher : (ℕ → Bytes → W → Option Bytes × W) → Option (NetSceneDispatcher W)
  new_dispatcher run = elim (register_all (reserved_scenes run) empty_dispatcher) [
    | none ↦ none
    | some d ↦ some (pad d)
  ]

  -- `selectors_[0]->NewInstance()`
  unfoldable pub first_net_scene : List (Option (NetScene W)) → Outcome (NetScene W)
  first_net_scene (some net_scene ∷ rest) = ok net_scene
  first_net_scene _ = undefined

  unfoldable pub checked_net_scene : ℕ → Option (Option (NetScene W)) → Outcome (NetScene W)
  checked_net_scene type (some (some net_scene)) =
      if is_size type net_scene.get_type then ok net_scene else asserted
  checked_net_scene type _ = undefined

  -- `__MakeNetScene`; a negative `int` is compared as a large `size_t`.
  unfoldable pub make_net_scene : NetSceneDispatcher W → ℤ → Outcome (NetScene W)
  make_net_scene d (negsuc n) = first_net_scene d.selectors
  make_net_scene d (pos n) =
      if leb (length d.selectors) n
      then first_net_scene d.selectors
      else checked_net_scene n (get_elem? d.selectors n)

-- The loop of `__DynamicRouteMatch` over the first characters.
unfoldable pub same_front : ℕ → Bytes → Bytes → Bool
same_front zero dynamic route = true
same_front (suc n) (x ∷ dynamic) (y ∷ route) = if x == y then same_front n dynamic route else false
same_front (suc n) _ _ = false

-- `__DynamicRouteMatch`
unfoldable pub dynamic_route_match : Bytes → Bytes → Bool
dynamic_route_match [] route = false
dynamic_route_match (c ∷ dynamic) route =
    if not (get_or (c ∷ dynamic) (length dynamic) 0 == b'*')
    then false
    else if ltb (length route) (length (c ∷ dynamic))
    then false
    else same_front (length dynamic) (c ∷ dynamic) route

-- The URL up to its first '?'.
unfoldable pub route_of : Bytes → Bytes
route_of [] = []
route_of (c ∷ url) = if c == b'?' then [] else c ∷ route_of url

unfoldable pub first_dynamic : List (Bytes × ℤ) → Bytes → ℤ
first_dynamic [] route = net_scene_type_404_not_found
first_dynamic ((dynamic, type) ∷ routes) route =
    if dynamic_route_match dynamic route then type else first_dynamic routes route

-- `__GetNetSceneTypeByRoute`
unfoldable pub get_net_scene_type_by_route : {W : Type 0} → NetSceneDispatcher W → Bytes → ℤ
get_net_scene_type_by_route d full_url = elim (find_route (route_of full_url) d.route_map) [
  | some type ↦ type
  | none ↦ first_dynamic d.route_map (route_of full_url)
]
