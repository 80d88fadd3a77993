-- ===== src/NetScene/Worker/Answers.antt =====
-- What a worker makes of HTTP requests.
use unixtar.Prelude.{
  ℕ, ◌<◌, ℤ, pos, true, false, some, Bytes, length, [], ◌∷◌, ◌==◌, arith, ok, undefined, ◌>>=◌, ◌≡◌,
  ◌≢◌, refl, ap, ◌∙◌,
}
use unixtar.NetScene.Dispatcher.{
  NetScene, NetSceneDispatcher, make_net_scene, get_net_scene_type_by_route,
}
use unixtar.NetScene.Dispatcher.Registry.{Registered}
use unixtar.NetScene.Dispatcher.Routing.{make_net_scene-padding}
use unixtar.NetScene.Worker.{
  BaseNetSceneReq, asked_by, is_404, choose_type, run_net_scene, handle_http,
}

is_404_two : is_404 (pos 2) ≡ true
unfolding is_404
is_404_two = refl

length_ne : (t : Bytes) → t ≢ [] → 0 < length t
length_ne [] h = absurd (h refl)
length_ne (x ∷ t) h = omega arith

asked_by_type :
    (req : BaseNetSceneReq) (type : ℤ) → req.net_scene_type ≡ some type → (asked_by req).0 ≡ type
unfolding asked_by
asked_by_type req type h = rw (h, asked_by) refl

module _ {W : Type 0} (parse_from_array : Bytes → BaseNetSceneReq) where
  choose_type-asked :
      (d : NetSceneDispatcher W) (url body : Bytes) (type : ℤ)
      → get_net_scene_type_by_route d url ≡ pos 2
      → body ≢ []
      → (parse_from_array body).net_scene_type ≡ some type
      → (choose_type parse_from_array d
          (record { is_method_post = true; url = url; body = body })).0
        ≡ type
  unfolding choose_type
  choose_type-asked d url body type routed some_body asked =
      let routed_404 : is_404 (get_net_scene_type_by_route d url) ≡ true =
        ap is_404 routed ∙ is_404_two in
      let not_empty : (length body == 0) ≡ false = ground (arith, length_ne body some_body) in
      rw (routed_404, not_empty) (asked_by_type (parse_from_array body) type asked)

  -- A POST to a URL that has no route, whose body asks for one of the types 4 to 10, is undefined
  -- behaviour, in each dispatcher that a server can come to: the place of the type holds a null
  -- pointer, and the worker calls through it.
  pub handle_http-undefined :
      (d : NetSceneDispatcher W) (url body : Bytes) (n : ℕ) (w : W)
      → Registered d
      → get_net_scene_type_by_route d url ≡ pos 2
      → body ≢ []
      → (parse_from_array body).net_scene_type ≡ some (pos n)
      → 3 < n
      → n < 11
      → handle_http parse_from_array d (record { is_method_post = true; url = url; body = body }) w
        ≡ undefined
  unfolding handle_http
  handle_http-undefined d url body n w r routed some_body asked low high =
      ap
        (λ o. o >>= (λ s. ok (
          run_net_scene s
            (choose_type parse_from_array d
              (record { is_method_post = true; url = url; body = body })).1
            w)))
        (ap (make_net_scene d) (choose_type-asked d url body (pos n) routed some_body asked)
          ∙ make_net_scene-padding d n r low high)
