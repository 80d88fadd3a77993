-- ===== src/NetScene/Dispatcher/Routing.antt =====
-- The net scene that is made for a type or for a URL.
use unixtar.Prelude.{
  ℕ, zero, suc, ◌<◌, ℤ, pos, true, false, List, [], ◌∷◌, Option, none, some, Bytes, length,
  get_elem?, equal, equal_iff, leb, if◌then◌else◌, All, arith, ok, undefined, inl, inr, ◌⊎◌,
  Option-cases, Bool-cases, ◌≡◌, refl, sym, ap, ◌∙◌,
}
use mathlib.Core.Path.{transport}
use unixtar.NetScene.Dispatcher.{
  NetScene, NetSceneDispatcher, find_route, is_size, checked_net_scene, make_net_scene,
  dynamic_route_match, route_of, first_dynamic, get_net_scene_type_by_route,
}
use unixtar.NetScene.Dispatcher.Registry.{
  Registered, IsRegistry, IsPlace, IsRouted, Registered-IsRegistry,
}

is_size_self : (n : ℕ) → is_size n (pos n) ≡ true
unfolding is_size
is_size_self n = ground arith

first_dynamic_yes :
    (r path : Bytes) (type : ℤ) (routes : List (Bytes × ℤ))
    → dynamic_route_match r path ≡ true
    → first_dynamic ((r, type) ∷ routes) path ≡ type
unfolding first_dynamic
first_dynamic_yes r path type routes h = rw (h) refl

first_dynamic_no :
    (r path : Bytes) (type : ℤ) (routes : List (Bytes × ℤ))
    → dynamic_route_match r path ≡ false
    → first_dynamic ((r, type) ∷ routes) path ≡ first_dynamic routes path
unfolding first_dynamic
first_dynamic_no r path type routes h = rw (h) refl

find_route_yes :
    (path r : Bytes) (t : ℤ) (routes : List (Bytes × ℤ))
    → equal r path ≡ true
    → find_route path ((r, t) ∷ routes) ≡ some t
unfolding find_route
find_route_yes path r t routes h = ap (λ b. if b then some t else find_route path routes) h

find_route_no :
    (path r : Bytes) (t : ℤ) (routes : List (Bytes × ℤ))
    → equal r path ≡ false
    → find_route path ((r, t) ∷ routes) ≡ find_route path routes
unfolding find_route
find_route_no path r t routes h = ap (λ b. if b then some t else find_route path routes) h

find_route_empty : (path : Bytes) → find_route path [] ≡ none
unfolding find_route
find_route_empty path = refl

module _ {W : Type 0} where
  get_elem?-lt :
      (xs : List (Option (NetScene W))) (n : ℕ) (a : Option (NetScene W))
      → get_elem? xs n ≡ some a
      → n < length xs
  get_elem?-lt [] n a h = absurd cc
  get_elem?-lt (x ∷ xs) zero a h = omega arith
  get_elem?-lt (x ∷ xs) (suc n) a h = omega (arith, get_elem?-lt xs n a h)

  get_elem?-some :
      (xs : List (Option (NetScene W))) (n : ℕ)
      → n < length xs
      → (a : Option (NetScene W)) × (get_elem? xs n ≡ some a)
  get_elem?-some [] n h = absurd (omega arith)
  get_elem?-some (x ∷ xs) zero h = (x, refl)
  get_elem?-some (x ∷ xs) (suc n) h = get_elem?-some xs n (omega (arith, h))

  checked_net_scene_ok :
      (n : ℕ) (net_scene : NetScene W)
      → net_scene.get_type ≡ pos n
      → checked_net_scene n (some (some net_scene)) ≡ ok net_scene
  unfolding checked_net_scene
  checked_net_scene_ok n net_scene e =
      let same : is_size n net_scene.get_type ≡ true = ap (is_size n) e ∙ is_size_self n in
      rw (same) refl

  make_net_scene_at :
      (d : NetSceneDispatcher W) (n : ℕ) (place : Option (NetScene W))
      → get_elem? d.selectors n ≡ some place
      → make_net_scene d (pos n) ≡ checked_net_scene n (some place)
  unfolding make_net_scene
  make_net_scene_at d n place h =
      let inside : leb (length d.selectors) n ≡ false =
        ground (arith, get_elem?-lt d.selectors n place h) in
      rw inside (ap (checked_net_scene n) h)

  -- A place that is not null is made to its scene.
  make_net_scene-place :
      (d : NetSceneDispatcher W) (n : ℕ) (net_scene : NetScene W)
      → IsRegistry d
      → get_elem? d.selectors n ≡ some (some net_scene)
      → make_net_scene d (pos n) ≡ ok net_scene
  make_net_scene-place d n net_scene i h =
      make_net_scene_at d n (some net_scene) h
      ∙ checked_net_scene_ok n net_scene ((i.places n (some net_scene) h).0)

  checked_net_scene-padding :
      (n : ℕ) (place : Option (NetScene W))
      → IsPlace n place
      → 3 < n
      → n < 11
      → checked_net_scene n (some place) ≡ undefined
  unfolding checked_net_scene
  checked_net_scene-padding n none h low high = refl
  checked_net_scene-padding n (some net_scene) h low high = elim (h.1) [
    | inl below ↦ absurd (omega (arith, below, low))
    | inr above ↦ absurd (omega (arith, above, high))
  ]

  -- The types that are kept for the framework, and are not used, have null pointers.
  pub make_net_scene-padding :
      (d : NetSceneDispatcher W) (n : ℕ)
      → Registered d
      → 3 < n
      → n < 11
      → make_net_scene d (pos n) ≡ undefined
  make_net_scene-padding d n r low high =
      let i : IsRegistry d = Registered-IsRegistry d r in
      let (place, h) = get_elem?-some d.selectors n (omega (arith, i.enough, high)) in
      make_net_scene_at d n place h
      ∙ checked_net_scene-padding n place (i.places n place h) low high

  scene_of :
      (xs : List (Option (NetScene W))) (n : ℕ) (place : Option (NetScene W))
      → IsPlace n place
      → n < 4
      → get_elem? xs n ≡ some place
      → (net_scene : NetScene W) × (get_elem? xs n ≡ some (some net_scene))
  scene_of xs n none h least e = absurd (omega (arith, h.0, least))
  scene_of xs n (some net_scene) h least e = (net_scene, e)

  -- The scene of type 2 is there.
  not_found_place :
      (d : NetSceneDispatcher W)
      → IsRegistry d
      → (net_scene : NetScene W) × (get_elem? d.selectors 2 ≡ some (some net_scene))
  not_found_place d i =
      let (place, h) = get_elem?-some d.selectors 2 (omega (arith, i.enough)) in
      scene_of d.selectors 2 place (i.places 2 place h) (omega arith) h

  -- How a scene comes to serve a path: it is registered at a place of the selectors, and the path is
  -- its route and the route map has that place for it; or the path is no route, and fits the
  -- scene's own dynamic route; or the path fits no dynamic route either, and the scene is the
  -- one at the place 2.
  pub data IsServedBy (d : NetSceneDispatcher W) (path : Bytes) : NetScene W → Type 0 where
    by_route :
        (n : ℕ) (net_scene : NetScene W)
        → get_elem? d.selectors n ≡ some (some net_scene)
        → find_route path d.route_map ≡ some (pos n)
        → net_scene.route ≡ some path
        → IsServedBy d path net_scene
    by_dynamic_route :
        (n : ℕ) (net_scene : NetScene W) (r : Bytes)
        → get_elem? d.selectors n ≡ some (some net_scene)
        → find_route path d.route_map ≡ none
        → net_scene.route ≡ some r
        → dynamic_route_match r path ≡ true
        → IsServedBy d path net_scene
    not_found :
        (net_scene : NetScene W)
        → find_route path d.route_map ≡ none
        → All (λ route. dynamic_route_match route.0 path ≡ false) d.route_map
        → get_elem? d.selectors 2 ≡ some (some net_scene)
        → IsServedBy d path net_scene

  first_dynamic-IsRouted :
      (selectors : List (Option (NetScene W))) (routes : List (Bytes × ℤ)) (path : Bytes)
      → All (IsRouted selectors) routes
      → ((first_dynamic routes path ≡ pos 2)
          × All (λ route. dynamic_route_match route.0 path ≡ false) routes)
        ⊎ ((r : Bytes) × IsRouted selectors (r, first_dynamic routes path)
            × (dynamic_route_match r path ≡ true))
  first_dynamic-IsRouted selectors [] path h = inl (unfold first_dynamic in refl, tt)
  first_dynamic-IsRouted selectors ((r, type) ∷ routes) path h =
      elim (Bool-cases (dynamic_route_match r path)) [
        | inl fits ↦ inr (
          r,
          transport
              (ap (λ t. IsRouted selectors (r, t))
                (sym (first_dynamic_yes r path type routes fits)))
              h.0,
          fits,
        )
        | inr less ↦ elim (first_dynamic-IsRouted selectors routes path h.1) [
          | inl (e, none_fits) ↦
              inl (first_dynamic_no r path type routes less ∙ e, (less, none_fits))
          | inr (q, routed, fits) ↦ inr (
            q,
            transport
                (ap (λ t. IsRouted selectors (q, t))
                  (sym (first_dynamic_no r path type routes less)))
                routed,
            fits,
          )
        ]
      ]

  find_route-IsRouted :
      (selectors : List (Option (NetScene W))) (routes : List (Bytes × ℤ)) (path : Bytes) (type : ℤ)
      → All (IsRouted selectors) routes
      → find_route path routes ≡ some type
      → IsRouted selectors (path, type)
  find_route-IsRouted selectors [] path type h e = absurd (let shut = find_route_empty path in cc)
  find_route-IsRouted selectors ((r, t) ∷ routes) path type h e = elim (Bool-cases (equal r path)) [
    | inl same ↦
        let key : path ≡ r = sym ((equal_iff r path).0 same) in
        let kind : t ≡ type = let found = find_route_yes path r t routes same in cc in
        transport (ap (λ p. IsRouted selectors (p, type)) (sym key))
          (transport (ap (λ u. IsRouted selectors (r, u)) kind) h.0)
    | inr other ↦
        find_route-IsRouted selectors routes path type h.1
          (sym (find_route_no path r t routes other) ∙ e)
  ]

  -- The scene that a routed type makes.
  routed_scene :
      (d : NetSceneDispatcher W) (r : Bytes) (type : ℤ)
      → IsRegistry d
      → IsRouted d.selectors (r, type)
      → (net_scene : NetScene W) × (make_net_scene d type ≡ ok net_scene)
        × (net_scene.route ≡ some r)
        × (n : ℕ) × (type ≡ pos n)
        × (get_elem? d.selectors n ≡ some (some net_scene))
  routed_scene d r type i (n, net_scene, e, at, named) = (
    net_scene,
    ap (make_net_scene d) e ∙ make_net_scene-place d n net_scene i at,
    named,
    n,
    e,
    at,
  )

  type_found :
      (d : NetSceneDispatcher W) (url : Bytes) (type : ℤ)
      → find_route (route_of url) d.route_map ≡ some type
      → get_net_scene_type_by_route d url ≡ type
  unfolding get_net_scene_type_by_route
  type_found d url type h = rw (h, get_net_scene_type_by_route) refl

  type_dynamic :
      (d : NetSceneDispatcher W) (url : Bytes)
      → find_route (route_of url) d.route_map ≡ none
      → get_net_scene_type_by_route d url ≡ first_dynamic d.route_map (route_of url)
  unfolding get_net_scene_type_by_route
  type_dynamic d url h = rw (h, get_net_scene_type_by_route) refl

  -- Each URL has a scene, which is registered and serves its path.
  pub get_net_scene_type_by_route-IsServedBy :
      (d : NetSceneDispatcher W) (url : Bytes)
      → Registered d
      → (net_scene : NetScene W) × (make_net_scene d (get_net_scene_type_by_route d url)
          ≡ ok net_scene)
        × IsServedBy d (route_of url) net_scene
  get_net_scene_type_by_route-IsServedBy d url r =
      let i : IsRegistry d = Registered-IsRegistry d r in
      let path = route_of url in
      elim (Option-cases (find_route path d.route_map)) [
        | inr (type, found) ↦
            let (net_scene, made, named, n, kind, at) =
              routed_scene d path type i
                (find_route-IsRouted d.selectors d.route_map path type i.routes found) in
            (
              net_scene,
              ap (make_net_scene d) (type_found d url type found) ∙ made,
              by_route n net_scene at (found ∙ ap some kind) named,
            )
        | inl missed ↦ elim (first_dynamic-IsRouted d.selectors d.route_map path i.routes) [
          | inr (q, routed, fits) ↦
              let (net_scene, made, named, n, _, at) = routed_scene d q _ i routed in
              (
                net_scene,
                ap (make_net_scene d) (type_dynamic d url missed) ∙ made,
                by_dynamic_route n net_scene q at missed named fits,
              )
          | inl (e, none_fits) ↦
              let (net_scene, at) = not_found_place d i in
              (
                net_scene,
                ap (make_net_scene d) (type_dynamic d url missed ∙ e)
                    ∙ make_net_scene-place d 2 net_scene i at,
                not_found net_scene missed none_fits at,
              )
        ]
      ]
