-- ===== src/NetScene/Dispatcher/Registry.antt =====
-- What holds of a dispatcher however many net scenes an application registers.
use unixtar.Prelude.{
  ℕ, zero, suc, ◌<◌, ℤ, pos, negsuc, Bool, true, false, List, [], ◌∷◌, ◌++◌, Option, none, some,
  Bytes, codes, length, get_elem?, replicate, equal, if◌then◌else◌, All, length-append, arith, inl,
  inr, ◌⊎◌, map, Option-cases, Bool-cases, ◌≡◌, refl, sym, ap, ◌∙◌,
}
use mathlib.Core.Path.{transport}
use unixtar.Http.HeaderField.{bytes_lt}
use unixtar.NetScene.Dispatcher.{
  NetScene, NetSceneDispatcher, find_route, insert_route, is_size, add_route, register_net_scene,
  register_all, reserved_scenes, pad, new_dispatcher,
}

All-if :
    {A : Type 0} (P : A → Type 0) (b : Bool) (xs ys : List A)
    → All P xs
    → All P ys
    → All P (if b then xs else ys)
All-if P true xs ys h k = h
All-if P false xs ys h k = k

is_size-pos : (n : ℕ) (type : ℤ) → is_size n type ≡ true → type ≡ pos n
unfolding is_size
is_size-pos n (pos k) h = ap pos (ground (arith, h))
is_size-pos n (negsuc k) h = absurd cc

-- What the routes become when a net scene is registered.
abbrev IsGrown : Option Bytes → ℤ → List (Bytes × ℤ) → List (Bytes × ℤ) → Type 0
IsGrown route type before after =
    (after ≡ before) ⊎ ((r : Bytes) × (route ≡ some r) × (after ≡ insert_route r type before))

module _ {W : Type 0} where
  -- The dispatchers that a server can come to: the constructor's, and those after it in which net
  -- scenes of the application are registered.
  pub data Registered : NetSceneDispatcher W → Type 0 where
    constructed :
        (run : ℕ → Bytes → W → Option Bytes × W) (d : NetSceneDispatcher W)
        → new_dispatcher run ≡ some d
        → Registered d
    registered :
        (net_scene : NetScene W) (d d' : NetSceneDispatcher W)
        → Registered d
        → register_net_scene net_scene d ≡ some d'
        → Registered d'

  -- A place among the selectors: a null pointer, or a scene of the type of the place.
  abbrev pub IsPlace : ℕ → Option (NetScene W) → Type 0
  IsPlace n none = (3 < n) × (n < 11)
  IsPlace n (some net_scene) = (net_scene.get_type ≡ pos n) × ((n < 4) ⊎ (10 < n))

  -- The routes stand for scenes that are registered with them.
  abbrev pub IsRouted : List (Option (NetScene W)) → Bytes × ℤ → Type 0
  IsRouted selectors (r, type) =
      (n : ℕ) × (net_scene : NetScene W) × (type ≡ pos n)
      × (get_elem? selectors n ≡ some (some net_scene))
      × (net_scene.route ≡ some r)

  pub record IsRegistry (d : NetSceneDispatcher W) : Type 0 where
    pub enough : 10 < length d.selectors
    pub places :
        (n : ℕ) (place : Option (NetScene W))
        → get_elem? d.selectors n ≡ some place
        → IsPlace n place
    pub routes : All (IsRouted d.selectors) d.route_map

  get_elem?-append :
      (xs ys : List (Option (NetScene W))) (n : ℕ) (a : Option (NetScene W))
      → get_elem? xs n ≡ some a
      → get_elem? (xs ++ ys) n ≡ some a
  get_elem?-append [] ys n a h = absurd cc
  get_elem?-append (x ∷ xs) ys zero a h = h
  get_elem?-append (x ∷ xs) ys (suc n) a h = get_elem?-append xs ys n a h

  -- What is behind the selectors, if a net scene is put at their end.
  get_elem?-last :
      (xs : List (Option (NetScene W))) (y : Option (NetScene W)) (n : ℕ) (a : Option (NetScene W))
      → get_elem? (xs ++ y ∷ []) n ≡ some a
      → (get_elem? xs n ≡ some a) ⊎ ((n ≡ length xs) × (a ≡ y))
  get_elem?-last [] y zero a h = inr (refl, cc)
  get_elem?-last [] y (suc n) a h = absurd cc
  get_elem?-last (x ∷ xs) y zero a h = inl h
  get_elem?-last (x ∷ xs) y (suc n) a h = elim (get_elem?-last xs y n a h) [
    | inl before ↦ inl before
    | inr (e, same) ↦ inr (ap suc e, same)
  ]

  get_elem?-here :
      (xs : List (Option (NetScene W))) (y : Option (NetScene W))
      → get_elem? (xs ++ y ∷ []) (length xs) ≡ some y
  get_elem?-here [] y = refl
  get_elem?-here (x ∷ xs) y = get_elem?-here xs y

  IsRouted-append :
      (xs ys : List (Option (NetScene W))) (routes : List (Bytes × ℤ))
      → All (IsRouted xs) routes
      → All (IsRouted (xs ++ ys)) routes
  IsRouted-append xs ys [] h = tt
  IsRouted-append xs ys ((r, type) ∷ routes) ((n, s, e, at, named), hs) =
      ((n, s, e, get_elem?-append xs ys n (some s) at, named), IsRouted-append xs ys routes hs)

  IsRouted-insert_route :
      (xs : List (Option (NetScene W))) (route : Bytes) (type : ℤ) (routes : List (Bytes × ℤ))
      → IsRouted xs (route, type)
      → All (IsRouted xs) routes
      → All (IsRouted xs) (insert_route route type routes)
  unfolding insert_route
  IsRouted-insert_route xs route type [] h hs = (h, tt)
  IsRouted-insert_route xs route type ((r, t) ∷ routes) h hs =
      All-if (IsRouted xs) (bytes_lt route r) _ _ (h, hs)
        (hs.0, IsRouted-insert_route xs route type routes h hs.1)

  -- The constructor's dispatcher.
  abbrev fresh : (ℕ → Bytes → W → Option Bytes × W) → NetSceneDispatcher W
  fresh run = record {
    selectors = map some (reserved_scenes run) ++ replicate 7 none;
    route_map = (codes "/", pos 0) ∷ (codes "/favicon.ico", pos 3) ∷ [];
  }

  new_dispatcher-fresh :
      (run : ℕ → Bytes → W → Option Bytes × W) → new_dispatcher run ≡ some (fresh run)
  unfolding new_dispatcher register_all register_net_scene add_route is_size find_route insert_route
      pad equal bytes_lt
  new_dispatcher-fresh run = refl

  get_elem?-replicate :
      (k n : ℕ) (y a : Option (NetScene W))
      → get_elem? (replicate k y) n ≡ some a
      → (n < k) × (a ≡ y)
  get_elem?-replicate zero n y a h = absurd cc
  get_elem?-replicate (suc k) zero y a h = (omega arith, cc)
  get_elem?-replicate (suc k) (suc n) y a h =
      let (least, same) = get_elem?-replicate k n y a h in (omega (arith, least), same)

  IsPlace-at :
      (n : ℕ) (known place : Option (NetScene W))
      → IsPlace n known
      → some known ≡ some place
      → IsPlace n place
  IsPlace-at n known place h e = let same : known ≡ place = cc in transport (ap (IsPlace n) same) h

  places_of_fresh :
      (run : ℕ → Bytes → W → Option Bytes × W) (n : ℕ) (place : Option (NetScene W))
      → get_elem? (fresh run).selectors n ≡ some place
      → IsPlace n place
  places_of_fresh run zero place h = IsPlace-at 0 _ place (refl, inl (omega arith)) h
  places_of_fresh run (suc zero) place h = IsPlace-at 1 _ place (refl, inl (omega arith)) h
  places_of_fresh run (suc (suc zero)) place h = IsPlace-at 2 _ place (refl, inl (omega arith)) h
  places_of_fresh run (suc (suc (suc zero))) place h =
      IsPlace-at 3 _ place (refl, inl (omega arith)) h
  places_of_fresh run (suc (suc (suc (suc n)))) place h =
      let (least, same) = get_elem?-replicate 7 n none place h in
      transport (ap (IsPlace (suc (suc (suc (suc n))))) (sym same))
        (omega arith, omega (arith, least))

  fresh-IsRegistry : (run : ℕ → Bytes → W → Option Bytes × W) → IsRegistry (fresh run)
  fresh-IsRegistry run = record {
    enough = omega arith;
    places = places_of_fresh run;
    routes = ((0, _, refl, refl, refl), ((3, _, refl, refl, refl), tt));
  }

  new_dispatcher-IsRegistry :
      (run : ℕ → Bytes → W → Option Bytes × W) (d : NetSceneDispatcher W)
      → new_dispatcher run ≡ some d
      → IsRegistry d
  new_dispatcher-IsRegistry run d h =
      let same : fresh run ≡ d = let made = new_dispatcher-fresh run in cc in
      transport (ap IsRegistry same) (fresh-IsRegistry run)

  add_route_free :
      (r : Bytes) (type : ℤ) (d : NetSceneDispatcher W)
      → find_route r d.route_map ≡ none
      → add_route false (some r) type d
        ≡ some (record d { route_map = insert_route r type d.route_map })
  unfolding add_route
  add_route_free r type d h = rw (h, add_route) refl

  add_route_taken :
      (r : Bytes) (type : ℤ) (d : NetSceneDispatcher W) (t : ℤ)
      → find_route r d.route_map ≡ some t
      → add_route false (some r) type d ≡ none
  unfolding add_route
  add_route_taken r type d t h = rw (h, add_route) refl

  add_route-IsGrown :
      (is_use_protobuf : Bool) (route : Option Bytes) (type : ℤ) (d d' : NetSceneDispatcher W)
      → add_route is_use_protobuf route type d ≡ some d'
      → (d'.selectors ≡ d.selectors) × IsGrown route type d.route_map d'.route_map
  unfolding add_route
  add_route-IsGrown true route type d d' h =
      let same : d' ≡ d = cc in (ap (λ e. e.selectors) same, inl (ap (λ e. e.route_map) same))
  add_route-IsGrown false none type d d' h =
      let same : d' ≡ d = cc in (ap (λ e. e.selectors) same, inl (ap (λ e. e.route_map) same))
  add_route-IsGrown false (some r) type d d' h = elim (Option-cases (find_route r d.route_map)) [
    | inl free ↦
        let same : record d { route_map = insert_route r type d.route_map } ≡ d' =
          let found = add_route_free r type d free in cc in
        (ap (λ e. e.selectors) (sym same), inr (r, refl, ap (λ e. e.route_map) (sym same)))
    | inr (t, taken) ↦ absurd (let found = add_route_taken r type d t taken in cc)
  ]

  abbrev added : NetScene W → NetSceneDispatcher W → Option (NetSceneDispatcher W)
  added net_scene d =
      add_route net_scene.is_use_protobuf net_scene.route net_scene.get_type
        (record d { selectors = d.selectors ++ some net_scene ∷ [] })

  register_net_scene-add_route :
      (net_scene : NetScene W) (d d' : NetSceneDispatcher W)
      → register_net_scene net_scene d ≡ some d'
      → (is_size (length d.selectors) net_scene.get_type ≡ true) × (added net_scene d ≡ some d')
  unfolding register_net_scene
  register_net_scene-add_route net_scene d d' h =
      elim (Bool-cases (is_size (length d.selectors) net_scene.get_type)) [
        | inl fits ↦ (fits, sym (ap (λ b. if b then added net_scene d else none) fits) ∙ h)
        | inr less ↦ absurd (
            let refused : none ≡ some d' =
              sym (ap (λ b. if b then added net_scene d else none) less) ∙ h in
            cc)
      ]

  IsPlace-last :
      (net_scene : NetScene W) (d : NetSceneDispatcher W)
      → IsRegistry d
      → net_scene.get_type ≡ pos (length d.selectors)
      → (n : ℕ) (place : Option (NetScene W))
      → get_elem? (d.selectors ++ some net_scene ∷ []) n ≡ some place
      → IsPlace n place
  IsPlace-last net_scene d i e n place h =
      elim (get_elem?-last d.selectors (some net_scene) n place h) [
        | inl before ↦ i.places n place before
        | inr (at, same) ↦
            transport (ap (IsPlace n) (sym same))
              (e ∙ ap pos (sym at), inr (omega (arith, at, i.enough)))
      ]

  grown-IsRegistry :
      (net_scene : NetScene W) (d d' : NetSceneDispatcher W)
      → IsRegistry d
      → net_scene.get_type ≡ pos (length d.selectors)
      → (d'.selectors ≡ d.selectors ++ some net_scene ∷ [])
        × IsGrown net_scene.route net_scene.get_type d.route_map d'.route_map
      → IsRegistry d'
  grown-IsRegistry net_scene d d' i e (same, grown) =
      let more = d.selectors ++ some net_scene ∷ [] in
      let before : All (IsRouted more) d.route_map =
        IsRouted-append d.selectors (some net_scene ∷ []) d.route_map i.routes in
      record {
        enough =
            omega
              (arith, ap length same, length-append d.selectors (some net_scene ∷ []), i.enough);
        places = λ n place h.
            IsPlace-last net_scene d i e n place (ap (λ xs. get_elem? xs n) (sym same) ∙ h);
        routes = transport (ap (λ xs. All (IsRouted xs) d'.route_map) (sym same)) (elim grown [
          | inl kept ↦ transport (ap (All (IsRouted more)) (sym kept)) before
          | inr (r, named, put) ↦ transport (ap (All (IsRouted more)) (sym put)) (
              IsRouted-insert_route more r net_scene.get_type d.route_map
                (
                  length d.selectors,
                  net_scene,
                  e,
                  get_elem?-here d.selectors (some net_scene),
                  named,
                )
                before)
        ]);
      }

  register_net_scene-IsRegistry :
      (net_scene : NetScene W) (d d' : NetSceneDispatcher W)
      → IsRegistry d
      → register_net_scene net_scene d ≡ some d'
      → IsRegistry d'
  register_net_scene-IsRegistry net_scene d d' i h =
      let (sized, added) = register_net_scene-add_route net_scene d d' h in
      grown-IsRegistry net_scene d d' i (is_size-pos _ net_scene.get_type sized)
        (add_route-IsGrown net_scene.is_use_protobuf net_scene.route net_scene.get_type _ d' added)

  pub Registered-IsRegistry : (d : NetSceneDispatcher W) → Registered d → IsRegistry d
  Registered-IsRegistry d (constructed run _ h) = new_dispatcher-IsRegistry run d h
  Registered-IsRegistry d (registered net_scene d' _ r h) =
      register_net_scene-IsRegistry net_scene d' d (Registered-IsRegistry d' r) h
