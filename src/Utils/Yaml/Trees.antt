-- ===== src/Utils/Yaml/Trees.antt =====
-- Adding to the end of the nodes of an object and of the elements of an array.
use unixtar.Prelude.{ok, ◌>>=◌, Bytes, ◌≡◌, refl, ap}
use unixtar.Utils.Yaml.{
  Value, Nodes, no_nodes, node, Elems, no_elems, obj_elem, leaf_elem, push_node, push_obj,
  push_in_back, fill_node,
}

abbrev pub append_nodes : Nodes → Nodes → Nodes
append_nodes no_nodes ms = ms
append_nodes (node key v ns) ms = node key v (append_nodes ns ms)

abbrev pub append_elems : Elems → Elems → Elems
append_elems no_elems fs = fs
append_elems (obj_elem ns es) fs = obj_elem ns (append_elems es fs)
append_elems (leaf_elem text es) fs = leaf_elem text (append_elems es fs)

pub append_nodes-push_node :
    (ns : Nodes) (key : Bytes) (v : Value) (ms : Nodes)
    → append_nodes (push_node key v ns) ms ≡ append_nodes ns (node key v ms)
unfolding push_node
append_nodes-push_node no_nodes key v ms = refl
append_nodes-push_node (node k w ns) key v ms = ap (node k w) (append_nodes-push_node ns key v ms)

pub append_nodes-nil : (ns : Nodes) → append_nodes ns no_nodes ≡ ns
append_nodes-nil no_nodes = refl
append_nodes-nil (node k w ns) = ap (node k w) (append_nodes-nil ns)

pub append_elems-push_obj :
    (es : Elems) (ns : Nodes) (fs : Elems)
    → append_elems (push_obj ns es) fs ≡ append_elems es (obj_elem ns fs)
unfolding push_obj
append_elems-push_obj no_elems ns fs = refl
append_elems-push_obj (obj_elem ms es) ns fs = ap (obj_elem ms) (append_elems-push_obj es ns fs)
append_elems-push_obj (leaf_elem t es) ns fs = ap (leaf_elem t) (append_elems-push_obj es ns fs)

pub append_elems-nil : (es : Elems) → append_elems es no_elems ≡ es
append_elems-nil no_elems = refl
append_elems-nil (obj_elem ms es) = ap (obj_elem ms) (append_elems-nil es)
append_elems-nil (leaf_elem t es) = ap (leaf_elem t) (append_elems-nil es)

-- The last node gets the value it was pushed without.
pub fill_node-push_node :
    (ns : Nodes) (key : Bytes) (v old : Value)
    → fill_node v (push_node key old ns) ≡ push_node key v ns
unfolding fill_node push_node
fill_node-push_node no_nodes key v old = refl
fill_node-push_node (node k w no_nodes) key v old = refl
fill_node-push_node (node k w (node l u ns)) key v old =
    ap (node k w) (fill_node-push_node (node l u ns) key v old)

pub push_in_back-push_obj :
    (es : Elems) (ns : Nodes) (key : Bytes) (v : Value)
    → push_in_back key v (push_obj ns es) ≡ ok (push_obj (push_node key v ns) es)
unfolding push_in_back push_obj
push_in_back-push_obj no_elems ns key v = refl
push_in_back-push_obj (obj_elem ms no_elems) ns key v = refl
push_in_back-push_obj (obj_elem ms (obj_elem l es)) ns key v =
    ap (λ o. o >>= (λ es'. ok (obj_elem ms es'))) (push_in_back-push_obj (obj_elem l es) ns key v)
push_in_back-push_obj (obj_elem ms (leaf_elem t es)) ns key v =
    ap (λ o. o >>= (λ es'. ok (obj_elem ms es'))) (push_in_back-push_obj (leaf_elem t es) ns key v)
push_in_back-push_obj (leaf_elem u no_elems) ns key v = refl
push_in_back-push_obj (leaf_elem u (obj_elem l es)) ns key v =
    ap (λ o. o >>= (λ es'. ok (leaf_elem u es'))) (push_in_back-push_obj (obj_elem l es) ns key v)
push_in_back-push_obj (leaf_elem u (leaf_elem t es)) ns key v =
    ap (λ o. o >>= (λ es'. ok (leaf_elem u es'))) (push_in_back-push_obj (leaf_elem t es) ns key v)
