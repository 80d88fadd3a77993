-- ===== src/Utils/Yaml.antt =====
-- utils/yamlutil.h and utils/yamlutil.cc: the reader of the configuration files. The tree is built
-- in place under a pointer `parent`, and a stack holds the ancestors of `parent`. A node under
-- construction is the last one of its parent, so the state here is the value of `parent` and the
-- values of its ancestors, in each of which the last node still stands without its value; it gets
-- it when the parser goes back to that ancestor.
pub mod Lines
pub mod Document
pub mod Levels
pub mod Trees
pub mod Steps
pub mod Items
pub mod RoundTrip
pub mod Faults
use unixtar.Prelude.{
  ℕ, zero, suc, ◌+◌, ◌-◌, ◌%◌, Bool, true, false, not, ◌&&◌, List, [], ◌∷◌, ◌++◌, Option, none,
  some, Bytes, codes, length, equal, ltb, ◌==◌, if◌then◌else◌, Outcome, ok, asserted, undefined,
  ◌>>=◌,
}
use unixtar.Utils.StrUtil.{split, trim, trim_front, delafter, is_among}

-- `null` is the null pointer. Of an array, `curr` and `len_of_obj_in_arr` come first; `none` is -1.
mutual
  pub data Value : Type 0 where
    null : Value
    leaf : Bytes → Value
    object : Nodes → Value
    array : Option ℕ → Option ℕ → Elems → Value

  pub data Nodes : Type 0 where
    no_nodes : Nodes
    node : Bytes → Value → Nodes → Nodes

  pub data Elems : Type 0 where
    no_elems : Elems
    obj_elem : Nodes → Elems → Elems
    leaf_elem : Bytes → Elems → Elems

-- `push_back`
unfoldable pub push_node : Bytes → Value → Nodes → Nodes
push_node key v no_nodes = node key v no_nodes
push_node key v (node k w ns) = node k w (push_node key v ns)

unfoldable pub push_obj : Nodes → Elems → Elems
push_obj ns no_elems = obj_elem ns no_elems
push_obj ns (obj_elem ms es) = obj_elem ms (push_obj ns es)
push_obj ns (leaf_elem text es) = leaf_elem text (push_obj ns es)

unfoldable pub push_leaf : Bytes → Elems → Elems
push_leaf t no_elems = leaf_elem t no_elems
push_leaf t (obj_elem ms es) = obj_elem ms (push_leaf t es)
push_leaf t (leaf_elem text es) = leaf_elem text (push_leaf t es)

-- `++curr` from -1 on.
unfoldable pub next_count : Option ℕ → Option ℕ
next_count none = some 0
next_count (some n) = some (suc n)

unfoldable pub same_count : Option ℕ → Option ℕ → Bool
same_count none none = true
same_count (some m) (some n) = m == n
same_count _ _ = false

-- `((ValueObj *) arr.back())->nodes.push_back(_node)`
unfoldable pub push_in_back : Bytes → Value → Elems → Outcome Elems
push_in_back key v no_elems = undefined
push_in_back key v (leaf_elem text no_elems) = undefined
push_in_back key v (obj_elem ns no_elems) = ok (obj_elem (push_node key v ns) no_elems)
push_in_back key v (leaf_elem text es) = do es' ← push_in_back key v es; ok (leaf_elem text es')
push_in_back key v (obj_elem ns es) = do es' ← push_in_back key v es; ok (obj_elem ns es')

-- `ValueArray::Insert`
unfoldable pub insert_in_array : Bytes → Value → Option ℕ → Option ℕ → Elems → Outcome Value
insert_in_array key v curr len es =
    if same_count curr (some 0)
    then ok (array (next_count curr) len (push_obj (node key v no_nodes) es))
    else do es' ← push_in_back key v es; ok (array (next_count curr) len es')

-- `AbsValue::Insert`, which is virtual.
unfoldable pub insert : Bytes → Value → Value → Outcome Value
insert key v null = undefined
insert key v (leaf text) = asserted
insert key v (object ns) = ok (object (push_node key v ns))
insert key v (array curr len es) = insert_in_array key v curr len es

-- `ValueArray::MarkArrStart`
unfoldable pub mark_arr_start : Option ℕ → Option ℕ → Elems → Outcome Value
mark_arr_start curr none es = elim curr [
  | some (suc n) ↦ ok (array (some 0) (some (suc n)) es)
  | some zero ↦ asserted
  | none ↦ ok (array (some 0) none es)
]
mark_arr_start curr (some len) es =
    if same_count (some len) curr then ok (array (some 0) (some len) es) else asserted

-- The last node gets its value.
unfoldable pub fill_node : Value → Nodes → Nodes
fill_node v no_nodes = no_nodes
fill_node v (node key old no_nodes) = node key v no_nodes
fill_node v (node key old (node k w ns)) = node key old (fill_node v (node k w ns))

unfoldable pub fill_elem : Value → Elems → Elems
fill_elem v no_elems = no_elems
fill_elem v (leaf_elem text es) = leaf_elem text (fill_elem v es)
fill_elem v (obj_elem ns no_elems) = obj_elem (fill_node v ns) no_elems
fill_elem v (obj_elem ns es) = obj_elem ns (fill_elem v es)

unfoldable pub fill : Value → Value → Value
fill v (object ns) = object (fill_node v ns)
fill v (array curr len es) = array curr len (fill_elem v es)
fill v other = other

pub record State : Type 0 where
  pub parent : Value
  pub stack : List Value
  pub last_indents : ℕ

abbrev pub new_state : State
new_state = record { parent = object no_nodes; stack = []; last_indents = 0 }

-- The while loop of `GetParentNodeByIndentDiff` for an indentation that is smaller by the number.
unfoldable pub back_by : ℕ → State → Outcome State
back_by zero s = ok s
back_by (suc zero) s = asserted
back_by (suc (suc n)) s = elim s.stack [
  | [] ↦ asserted
  | top ∷ rest ↦ back_by n (record s { parent = fill s.parent top; stack = rest })
]

-- `GetParentNodeByIndentDiff`, where `indent_diff` is negative.
unfoldable pub settle : ℕ → State → Outcome State
settle indents s = if ltb indents s.last_indents then back_by (s.last_indents - indents) s else ok s

-- `(int) line.find_first_not_of(' ')`; a line of spaces fails an assertion whatever this is.
unfoldable pub indents_of : Bytes → ℕ
indents_of line = length line - length (trim_front line)

-- `parent->value ? parent->value : new ...`
unfoldable pub or_new : Value → Value → Value
or_new fresh null = fresh
or_new fresh v = v

-- A line "key: value".
unfoldable pub leaf_line : ℕ → Bytes → Bytes → State → Outcome State
leaf_line indents key text s = do
  s' ← settle indents s
  v ← insert (trim key) (leaf (trim text)) (or_new (object no_nodes) s'.parent)
  ok (record s' { parent = v; last_indents = indents })

-- A deeper line must be deeper by two.
unfoldable pub check_indents : ℕ → ℕ → State → Outcome State
check_indents last_indents indents s =
    if ltb last_indents indents && not (indents == last_indents + 2) then asserted else ok s

-- A line "key:".
unfoldable pub open_line : ℕ → Bytes → State → Outcome State
open_line indents key s = do
  s' ← settle indents s
  v ← insert (trim key) null s'.parent
  check_indents s.last_indents indents
      (record { parent = null; stack = v ∷ s'.stack; last_indents = indents })

-- `InsertValueLeaf` of a line that is a text alone.
unfoldable pub text_line : ℕ → Bytes → State → Outcome State
text_line indents text s = elim s.parent [
  | array curr len es ↦
      if same_count curr (some 0)
      then ok
          (record s { parent = array curr len (push_leaf (trim text) es); last_indents = indents })
      else asserted
  | null ↦ undefined
  | leaf t ↦ asserted
  | object ns ↦ asserted
]

-- A line "-".
unfoldable pub dash_line : ℕ → State → Outcome State
dash_line indents s = elim (or_new (array none none no_elems) s.parent) [
  | array curr len es ↦ do
    v ← mark_arr_start curr len es
    ok (record s { parent = v; last_indents = indents })
  | null ↦ asserted
  | leaf t ↦ asserted
  | object ns ↦ asserted
]

-- The branches on what `split` makes of a line.
unfoldable pub split_line : List Bytes → Bytes → State → Outcome State
split_line (key ∷ text ∷ []) line s = leaf_line (indents_of line) key text s
split_line (key ∷ []) line s =
    if is_among b':' line
    then open_line (indents_of line) key s
    else text_line (indents_of line) key s
split_line _ line s =
    if equal (trim line) (codes "-") then dash_line (indents_of line) s else asserted

-- A line without its comment.
unfoldable pub bare_line : Bytes → State → Outcome State
bare_line [] s = ok s
bare_line (c ∷ line) s = split_line (split (c ∷ line) (codes ":")) (c ∷ line) s

-- The loop of `ParseYaml` over the lines of the file.
unfoldable pub parse_lines : List Bytes → State → Outcome State
parse_lines [] s = ok s
parse_lines (line ∷ lines) s = do s' ← bare_line (delafter line b'#') s; parse_lines lines s'

-- The tree under the descriptor, which the source's pointers make up by themselves.
unfoldable pub close : Value → List Value → Value
close v [] = v
close v (top ∷ rest) = close (fill v top) rest

-- `ParseYaml`: the value of the descriptor.
unfoldable pub parse_yaml : List Bytes → Outcome Value
parse_yaml lines = do s ← parse_lines lines new_state; ok (close s.parent s.stack)

-- What a getter does: it returns a value or the null pointer, throws, or meets undefined behaviour.
pub data Got : Type 0 where
  got : Value → Got
  got_null no_such_field wrong_type got_asserted got_undefined : Got

-- `ValueObj::__Get`
unfoldable pub get : Bytes → Nodes → Option Value
get key no_nodes = none
get key (node k v ns) = if equal k key then some v else get key ns

-- `ValueObj::GetLeaf`, `GetYmlObj` and `GetArr`.
unfoldable pub get_leaf : Bytes → Nodes → Got
get_leaf key ns = elim (get key ns) [
  | none ↦ no_such_field
  | some null ↦ got_null
  | some (leaf text) ↦ got (leaf text)
  | some (object ms) ↦ wrong_type
  | some (array curr len es) ↦ wrong_type
]

unfoldable pub get_yml_obj : Bytes → Nodes → Got
get_yml_obj key ns = elim (get key ns) [
  | none ↦ no_such_field
  | some null ↦ got_null
  | some (leaf text) ↦ wrong_type
  | some (object ms) ↦ got (object ms)
  | some (array curr len es) ↦ wrong_type
]

unfoldable pub get_arr : Bytes → Nodes → Got
get_arr key ns = elim (get key ns) [
  | none ↦ no_such_field
  | some null ↦ got_null
  | some (leaf text) ↦ wrong_type
  | some (object ms) ↦ wrong_type
  | some (array curr len es) ↦ got (array curr len es)
]

-- The getters of `YamlDescriptor` do not test for the null pointer.
unfoldable pub no_null : Got → Got
no_null got_null = got_undefined
no_null g = g

unfoldable pub get_from_root : (Bytes → Nodes → Got) → Bytes → Value → Got
get_from_root getter key (object ns) = no_null (getter key ns)
get_from_root getter key null = got_undefined
get_from_root getter key _ = got_asserted

-- `AsYmlObjects` and `AsYmlLeaves`; `none` is a failed assertion.
unfoldable pub as_yml_objects : Option ℕ → Elems → Option Elems
as_yml_objects none es = none
as_yml_objects (some len) es = if ltb 1 len then some es else none

unfoldable pub as_yml_leaves : Option ℕ → Elems → Option Elems
as_yml_leaves none es = none
as_yml_leaves (some len) es = if len == 1 then some es else none

-- `ValueLeaf::To(bool &)`: the value written, and what is returned, where false is -1.
unfoldable pub to_bool : Bytes → Bool × Bool
to_bool text =
    if equal text (codes "true") then (true, true) else (false, equal text (codes "false"))
