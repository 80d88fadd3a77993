-- ===== src/Utils/Yaml/Document.antt =====
-- Configuration files as they are written for the reader: pairs, sections, and lists of objects,
-- with the lines and the tree that each stands for.
use unixtar.Prelude.{ℕ, suc, ◌+◌, List, [], ◌∷◌, ◌++◌, Option, none, some, Bytes, length, All, ◌≡◌}
use unixtar.Utils.Yaml.{leaf, object, array, Nodes, no_nodes, node, Elems, no_elems, obj_elem}
use unixtar.Utils.Yaml.Lines.{IsText, leaf_text, open_text, dash_text}

-- The pairs of an object: the first one and the others.
pub record Item : Type 0 where
  pub first_key : Bytes
  pub first_value : Bytes
  pub more : List (Bytes × Bytes)

-- A section has a pair before anything else.
pub data Config : Type 0 where
  finished : Config
  pair : Bytes → Bytes → Config → Config
  section : Bytes → Bytes → Bytes → Config → Config → Config
  items : Bytes → Item → List Item → Config → Config

-- The lines.
abbrev pub pair_lines : ℕ → List (Bytes × Bytes) → List Bytes
pair_lines n [] = []
pair_lines n ((key, value) ∷ pairs) = leaf_text n key value ∷ pair_lines n pairs

abbrev pub item_lines : ℕ → Item → List Bytes
item_lines n item =
    dash_text n ∷ leaf_text n item.first_key item.first_value ∷ pair_lines n item.more

abbrev pub all_item_lines : ℕ → List Item → List Bytes
all_item_lines n [] = []
all_item_lines n (item ∷ rest) = item_lines n item ++ all_item_lines n rest

unfoldable pub render : ℕ → Config → List Bytes
render n finished = []
render n (pair key value rest) = leaf_text n key value ∷ render n rest
render n (section key first_key first_value inner rest) =
    open_text n key
    ∷ leaf_text (n + 2) first_key first_value
    ∷ (render (n + 2) inner ++ render n rest)
render n (items key item more rest) =
    open_text n key ∷ ((item_lines (n + 2) item ++ all_item_lines (n + 2) more) ++ render n rest)

-- The tree.
abbrev pub pair_nodes : List (Bytes × Bytes) → Nodes
pair_nodes [] = no_nodes
pair_nodes ((key, value) ∷ pairs) = node key (leaf value) (pair_nodes pairs)

abbrev pub item_nodes : Item → Nodes
item_nodes item = node item.first_key (leaf item.first_value) (pair_nodes item.more)

abbrev pub item_elems : List Item → Elems
item_elems [] = no_elems
item_elems (item ∷ rest) = obj_elem (item_nodes item) (item_elems rest)

-- The number of pairs of each object is known from the second one on.
abbrev pub known_size : ℕ → List Item → Option ℕ
known_size size [] = none
known_size size (item ∷ rest) = some size

abbrev pub item_size : Item → ℕ
item_size item = suc (length item.more)

unfoldable pub tree : Config → Nodes
tree finished = no_nodes
tree (pair key value rest) = node key (leaf value) (tree rest)
tree (section key first_key first_value inner rest) =
    node key (object (node first_key (leaf first_value) (tree inner))) (tree rest)
tree (items key item more rest) =
    node key
      (array (some (item_size item)) (known_size (item_size item) more)
        (obj_elem (item_nodes item) (item_elems more)))
      (tree rest)

-- Keys and values are texts, and the objects of a list have the same number of pairs.
abbrev pub IsPair : Bytes × Bytes → Type 0
IsPair p = IsText p.0 × IsText p.1

abbrev pub IsItem : Item → Type 0
IsItem item = IsText item.first_key × IsText item.first_value × All IsPair item.more

abbrev pub IsConfig : Config → Type 0
IsConfig finished = Unit
IsConfig (pair key value rest) = IsText key × IsText value × IsConfig rest
IsConfig (section key first_key first_value inner rest) =
    IsText key × IsText first_key × IsText first_value × IsConfig inner × IsConfig rest
IsConfig (items key item more rest) =
    IsText key
    × IsItem item
    × All (λ i. IsItem i × (item_size i ≡ item_size item)) more
    × IsConfig rest
