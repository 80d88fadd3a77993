-- ===== src/Utils/Yaml/RoundTrip.antt =====
-- The tree that the reader of the configuration files makes of a configuration that was written
-- for it.
use unixtar.Prelude.{ok, ◌>>=◌, ℕ, ◌+◌, List, [], ◌∷◌, ◌++◌, some, Bytes, ◌≡◌, sym, ap, ◌∙◌}
use mathlib.Core.Path.{transport}
use unixtar.Utils.StrUtil.{delafter}
use unixtar.Utils.Yaml.{
  bare_line, Value, null, leaf, object, array, Nodes, no_nodes, node, obj_elem, push_node, fill,
  State, new_state, close, parse_yaml,
}
use unixtar.Utils.Yaml.Lines.{leaf_text, open_text}
use unixtar.Utils.Yaml.Levels.{
  at, Closes, Closes-here, Closes-up, close-Closes, Reaches, Reaches-nil, Reaches-cons,
  Reaches-append,
}
use unixtar.Utils.Yaml.Trees.{
  append_nodes, append_nodes-push_node, append_nodes-nil, fill_node-push_node,
}
use unixtar.Utils.Yaml.Steps.{leaf_text-Closes, leaf_text-first, open_text-Closes}
use unixtar.Utils.Yaml.Items.{Reaches-items}
use unixtar.Utils.Yaml.Document.{
  Config, finished, pair, section, items, item_lines, all_item_lines, item_nodes, item_elems,
  known_size, item_size, render, tree, IsConfig,
}

-- The lines bring the level from the one object to the other.
abbrev Extends : ℕ → List Bytes → State → Nodes → List Value → Type 0
Extends n lines s ns st = (t : State) × Reaches lines s t × Closes n t (object ns) st

-- What stands under a key goes into the object above when its level is left.
Closes-key :
    (n : ℕ) (s : State) (key : Bytes) (v : Value) (ns : Nodes) (st : List Value)
    → Closes (n + 2) s v (object (push_node key null ns) ∷ st)
    → Closes n s (object (push_node key v ns)) st
unfolding fill
Closes-key n s key v ns st c =
    transport (ap (λ ms. Closes n s (object ms) st) (fill_node-push_node ns key v null))
      (Closes-up n s v (object (push_node key null ns)) st c)

Extends-nodes :
    (n : ℕ) (lines : List Bytes) (s : State) (ns ms : Nodes) (st : List Value)
    → ns ≡ ms
    → Extends n lines s ns st
    → Extends n lines s ms st
Extends-nodes n lines s ns ms st e x = transport (ap (λ ls. Extends n lines s ls st) e) x

Extends-cons :
    (n : ℕ) (line : Bytes) (lines : List Bytes) (s t : State) (ns : Nodes) (st : List Value)
    → bare_line (delafter line b'#') s ≡ ok t
    → Extends n lines t ns st
    → Extends n (line ∷ lines) s ns st
Extends-cons n line lines s t ns st r (u, q, c) = (u, Reaches-cons line lines s t u r q, c)

Extends-append :
    (n : ℕ) (front back : List Bytes) (s t : State) (ns : Nodes) (st : List Value)
    → Reaches front s t
    → Extends n back t ns st
    → Extends n (front ++ back) s ns st
Extends-append n front back s t ns st r (u, q, c) = (u, Reaches-append front back s t u r q, c)

render-Extends :
    (c : Config) (n : ℕ) (s : State) (ns : Nodes) (st : List Value)
    → IsConfig c
    → Closes n s (object ns) st
    → Extends n (render n c) s (append_nodes ns (tree c)) st
unfolding render tree
render-Extends finished n s ns st h c =
    Extends-nodes n [] s ns _ st (sym (append_nodes-nil ns)) (s, Reaches-nil s, c)
render-Extends (pair key value rest) n s ns st h c =
    let below = push_node key (leaf value) ns in
    Extends-nodes n (leaf_text n key value ∷ render n rest) s _ _ st
      (append_nodes-push_node ns key (leaf value) (tree rest))
      (Extends-cons n (leaf_text n key value) (render n rest) s _ _ st
        (leaf_text-Closes n key value s ns st h.0 h.1 c)
        (render-Extends rest n (at n (object below) st) below st h.2
          (Closes-here n (object below) st)))
render-Extends (section key first_key first_value inner rest) n s ns st h c =
    let top = object (push_node key null ns) in
    let first = node first_key (leaf first_value) no_nodes in
    let inside = node first_key (leaf first_value) (tree inner) in
    let (t, r, d) =
      render-Extends inner (n + 2) (at (n + 2) (object first) (top ∷ st)) first (top ∷ st) h.3
        (Closes-here (n + 2) (object first) (top ∷ st)) in
    Extends-nodes n (render n (section key first_key first_value inner rest)) s _ _ st
      (append_nodes-push_node ns key (object inside) (tree rest))
      (Extends-cons n (open_text n key) _ s _ _ st (open_text-Closes n key s ns st h.0 c) (
        Extends-cons n (leaf_text (n + 2) first_key first_value) _ _ _ _ st
          (leaf_text-first n first_key first_value (top ∷ st) h.1 h.2)
          (Extends-append n (render (n + 2) inner) (render n rest) _ t _ st r (
            render-Extends rest n t (push_node key (object inside) ns) st h.4
              (Closes-key n t key (object inside) ns st d)))))
render-Extends (items key item more rest) n s ns st h c =
    let top = object (push_node key null ns) in
    let found =
      array (some (item_size item)) (known_size (item_size item) more)
        (obj_elem (item_nodes item) (item_elems more)) in
    let lines = item_lines (n + 2) item ++ all_item_lines (n + 2) more in
    let t = at (n + 2) found (top ∷ st) in
    Extends-nodes n (render n (items key item more rest)) s _ _ st
      (append_nodes-push_node ns key found (tree rest))
      (Extends-cons n (open_text n key) _ s _ _ st (open_text-Closes n key s ns st h.0 c) (
        Extends-append n lines (render n rest) _ t _ st
          (Reaches-items n (n + 2) (top ∷ st) item more h.1 h.2)
          (render-Extends rest n t (push_node key found ns) st h.3
            (Closes-key n t key found ns st (Closes-here (n + 2) found (top ∷ st))))))

-- Sections, pairs and lists of objects, written by `render` in lines that are indented by two more
-- at each level, are read without a fault, and what is read is their tree: the keys and texts, in
-- their order, with the sections and the objects of the lists in place, and with the number of pairs
-- of an object, known from the second object on. Keys and texts are not empty and hold no space,
-- ':' or '#', a section begins with a pair, and the objects of a list are of one size that is not 0.
pub parse_yaml-render : (c : Config) → IsConfig c → parse_yaml (render 0 c) ≡ ok (object (tree c))
unfolding parse_yaml
parse_yaml-render c h =
    let (t, r, done) =
      render-Extends c 0 new_state no_nodes [] h (Closes-here 0 (object no_nodes) []) in
    ap (λ o. o >>= (λ s. ok (close s.parent s.stack))) r
    ∙ ap ok (close-Closes 0 t (object (tree c)) done)
