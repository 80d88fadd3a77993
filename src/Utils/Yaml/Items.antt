-- ===== src/Utils/Yaml/Items.antt =====
-- The reader over a list of objects.
use unixtar.Prelude.{
  ok, ℕ, suc, ◌+◌, List, [], ◌∷◌, ◌++◌, Option, none, some, Bytes, length, All, ◌==◌, true, arith,
  ◌≡◌, refl, sym, ap, ap₂,
}
use unixtar.Utils.Yaml.{
  Value, null, leaf, array, Nodes, no_nodes, node, Elems, no_elems, obj_elem, push_node, push_obj,
  State, mark_arr_start, same_count,
}
use unixtar.Utils.Yaml.Lines.{leaf_text, dash_text}
use unixtar.Utils.Yaml.Levels.{at, Reaches, Reaches-nil, Reaches-cons, Reaches-append, Reaches-end}
use unixtar.Utils.Yaml.Trees.{
  append_nodes, append_elems, append_nodes-push_node, append_nodes-nil, append_elems-push_obj,
  append_elems-nil,
}
use unixtar.Utils.Yaml.Steps.{
  leaf_text-new_item, leaf_text-same_item, dash_text-first, dash_text-next,
}
use unixtar.Utils.Yaml.Document.{
  Item, pair_lines, item_lines, all_item_lines, pair_nodes, item_nodes, item_elems, known_size,
  item_size, IsPair, IsItem,
}

-- The state in a list, whose level has the array, and how many pairs its last object has.
abbrev list_at : ℕ → ℕ → Option ℕ → Elems → List Value → State
list_at n count len es st = at n (array (some count) len es) st

-- The pairs after the first one of an object.
Reaches-pair_lines :
    (n c : ℕ) (len : Option ℕ) (ns : Nodes) (es : Elems) (st : List Value)
    (pairs : List (Bytes × Bytes))
    → All IsPair pairs
    → Reaches (pair_lines n pairs) (list_at n (suc c) len (push_obj ns es) st) (
        list_at n
          (suc (length pairs + c))
          len
          (push_obj (append_nodes ns (pair_nodes pairs)) es)
          st)
Reaches-pair_lines n c len ns es st [] h =
    let count : suc c ≡ suc (0 + c) = omega arith in
    Reaches-end [] _ (list_at n (suc c) len (push_obj ns es) st) _ (Reaches-nil _)
      (ap₂ (λ a ms. list_at n a len (push_obj ms es) st) count (sym (append_nodes-nil ns)))
Reaches-pair_lines n c len ns es st ((key, value) ∷ pairs) h =
    let count : suc (length pairs + suc c) ≡ suc (suc (length pairs) + c) = omega arith in
    Reaches-cons (leaf_text n key value) (pair_lines n pairs) _ _ _
      (leaf_text-same_item n key value c len ns es st h.0.0 h.0.1)
      (Reaches-end (pair_lines n pairs) _ _ _
        (Reaches-pair_lines n (suc c) len (push_node key (leaf value) ns) es st pairs h.1)
        (ap₂ (λ a ms. list_at n a len (push_obj ms es) st) count
          (append_nodes-push_node ns key (leaf value) (pair_nodes pairs))))

-- The pairs of an object, after its dash.
Reaches-item :
    (n : ℕ) (len : Option ℕ) (es : Elems) (st : List Value) (item : Item)
    → IsItem item
    → Reaches
        (leaf_text n item.first_key item.first_value ∷ pair_lines n item.more)
        (list_at n 0 len es st)
        (list_at n (item_size item) len (push_obj (item_nodes item) es) st)
Reaches-item n len es st item h =
    let fresh = node item.first_key (leaf item.first_value) no_nodes in
    let count : suc (length item.more + 0) ≡ item_size item = omega arith in
    Reaches-cons (leaf_text n item.first_key item.first_value) (pair_lines n item.more) _ _ _
      (leaf_text-new_item n item.first_key item.first_value len es st h.0 h.1)
      (Reaches-end (pair_lines n item.more) _ _ _
        (Reaches-pair_lines n 0 len fresh es st item.more h.2)
        (ap (λ a. list_at n a len (push_obj (item_nodes item) es) st) count))

-- A later object, whose dash makes the size of the one before it known.
Reaches-later :
    (n c : ℕ) (len : Option ℕ) (es : Elems) (st : List Value) (item : Item)
    → IsItem item
    → item_size item ≡ suc c
    → mark_arr_start (some (suc c)) len es ≡ ok (array (some 0) (some (suc c)) es)
    → Reaches
        (item_lines n item)
        (list_at n (suc c) len es st)
        (list_at n (suc c) (some (suc c)) (push_obj (item_nodes item) es) st)
Reaches-later n c len es st item h e m =
    Reaches-cons (dash_text n)
      (leaf_text n item.first_key item.first_value ∷ pair_lines n item.more) _ _ _
      (dash_text-next n n c len es st _ m)
      (Reaches-end (leaf_text n item.first_key item.first_value ∷ pair_lines n item.more) _ _ _
        (Reaches-item n (some (suc c)) es st item h)
        (ap (λ a. list_at n a (some (suc c)) (push_obj (item_nodes item) es) st) e))

mark_arr_start-unknown :
    (c : ℕ) (es : Elems)
    → mark_arr_start (some (suc c)) none es ≡ ok (array (some 0) (some (suc c)) es)
unfolding mark_arr_start
mark_arr_start-unknown c es = refl

mark_arr_start-known :
    (c : ℕ) (es : Elems)
    → mark_arr_start (some (suc c)) (some (suc c)) es ≡ ok (array (some 0) (some (suc c)) es)
unfolding mark_arr_start same_count
mark_arr_start-known c es = let same : (suc c == suc c) ≡ true = ground arith in rw (same) refl

Reaches-later_items :
    (n c : ℕ) (es : Elems) (st : List Value) (rest : List Item)
    → All (λ i. IsItem i × (item_size i ≡ suc c)) rest
    → Reaches
        (all_item_lines n rest)
        (list_at n (suc c) (some (suc c)) es st)
        (list_at n (suc c) (some (suc c)) (append_elems es (item_elems rest)) st)
Reaches-later_items n c es st [] h =
    Reaches-end [] _ _ _ (Reaches-nil _)
      (ap (λ fs. list_at n (suc c) (some (suc c)) fs st) (sym (append_elems-nil es)))
Reaches-later_items n c es st (item ∷ rest) h =
    Reaches-append (item_lines n item) (all_item_lines n rest) _ _ _
      (Reaches-later n c (some (suc c)) es st item h.0.0 h.0.1 (mark_arr_start-known c es))
      (Reaches-end (all_item_lines n rest) _ _ _
        (Reaches-later_items n c (push_obj (item_nodes item) es) st rest h.1)
        (ap (λ fs. list_at n (suc c) (some (suc c)) fs st)
          (append_elems-push_obj es (item_nodes item) (item_elems rest))))

-- The objects after the first one.
Reaches-more :
    (n c : ℕ) (es : Elems) (st : List Value) (more : List Item)
    → All (λ i. IsItem i × (item_size i ≡ suc c)) more
    → Reaches
        (all_item_lines n more)
        (list_at n (suc c) none es st)
        (list_at n (suc c) (known_size (suc c) more) (append_elems es (item_elems more)) st)
Reaches-more n c es st [] h =
    Reaches-end [] _ _ _ (Reaches-nil _)
      (ap (λ fs. list_at n (suc c) none fs st) (sym (append_elems-nil es)))
Reaches-more n c es st (item ∷ rest) h =
    Reaches-append (item_lines n item) (all_item_lines n rest) _ _ _
      (Reaches-later n c none es st item h.0.0 h.0.1 (mark_arr_start-unknown c es))
      (Reaches-end (all_item_lines n rest) _ _ _
        (Reaches-later_items n c (push_obj (item_nodes item) es) st rest h.1)
        (ap (λ fs. list_at n (suc c) (some (suc c)) fs st)
          (append_elems-push_obj es (item_nodes item) (item_elems rest))))

-- A list, from its first dash on.
pub Reaches-items :
    (n m : ℕ) (st : List Value) (item : Item) (more : List Item)
    → IsItem item
    → All (λ i. IsItem i × (item_size i ≡ item_size item)) more
    → Reaches (item_lines m item ++ all_item_lines m more) (at n null st) (
        at m
          (array
            (some (item_size item))
            (known_size (item_size item) more)
            (obj_elem (item_nodes item) (item_elems more)))
          st)
Reaches-items n m st item more h hs =
    Reaches-append (item_lines m item) (all_item_lines m more) _ _ _
      (Reaches-cons (dash_text m)
        (leaf_text m item.first_key item.first_value ∷ pair_lines m item.more) _ _ _
        (dash_text-first n m st) (Reaches-item m none no_elems st item h))
      (Reaches-end (all_item_lines m more) _ _ _
        (Reaches-more m (length item.more) (push_obj (item_nodes item) no_elems) st more hs)
        (ap (λ fs. list_at m (item_size item) (known_size (item_size item) more) fs st)
          (append_elems-push_obj no_elems (item_nodes item) (item_elems more))))
