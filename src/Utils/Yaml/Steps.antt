-- ===== src/Utils/Yaml/Steps.antt =====
-- What the lines of a configuration do to the state of the reader.
use unixtar.Prelude.{
  ok, ◌>>=◌, ℕ, suc, ◌+◌, false, List, ◌∷◌, Option, none, some, Bytes, ltb, ◌==◌, arith, ◌≡◌, refl,
  ap, ◌∙◌,
}
use unixtar.Utils.StrUtil.{trim, delafter}
use unixtar.Utils.Yaml.{
  Value, null, leaf, object, array, Nodes, no_nodes, node, Elems, no_elems, push_node, push_obj,
  insert, insert_in_array, next_count, same_count, mark_arr_start, State, settle, or_new, bare_line,
  leaf_line, open_line, dash_line, check_indents,
}
use unixtar.Utils.Yaml.Lines.{
  IsText, leaf_text, open_text, dash_text, leaf_text-line, open_text-line, dash_text-line,
  trim-spaces,
}
use unixtar.Utils.Yaml.Levels.{at, Closes, settle-Closes}
use unixtar.Utils.Yaml.Trees.{push_in_back-push_obj}

trim-text : (t : Bytes) → IsText t → trim t ≡ t
trim-text t h = trim-spaces 0 t h.1

-- A pair goes into the value of the level that it stands on.
leaf_line-insert :
    (n : ℕ) (key value : Bytes) (s t : State) (v : Value)
    → IsText key
    → IsText value
    → settle n s ≡ ok t
    → insert key (leaf value) (or_new (object no_nodes) t.parent) ≡ ok v
    → leaf_line n key value s ≡ ok (at n v t.stack)
unfolding leaf_line
leaf_line-insert n key value s t v k w e f = rw (e, trim-text key k, trim-text value w, f) refl

pub leaf_text-insert :
    (n : ℕ) (key value : Bytes) (s t : State) (v : Value)
    → IsText key
    → IsText value
    → settle n s ≡ ok t
    → insert key (leaf value) (or_new (object no_nodes) t.parent) ≡ ok v
    → bare_line (delafter (leaf_text n key value) b'#') s ≡ ok (at n v t.stack)
leaf_text-insert n key value s t v k w e f =
    leaf_text-line n key value s k w ∙ leaf_line-insert n key value s t v k w e f

-- The level is not left by a line that is not less indented.
pub settle-deeper :
    (n m : ℕ) (v : Value) (st : List Value) → settle (n + m) (at n v st) ≡ ok (at n v st)
unfolding settle
settle-deeper n m v st = let deeper : ltb (n + m) n ≡ false = ground arith in rw (deeper) refl

pub settle-same : (n : ℕ) (v : Value) (st : List Value) → settle n (at n v st) ≡ ok (at n v st)
unfolding settle
settle-same n v st = let same : ltb n n ≡ false = ground arith in rw (same) refl

insert_object :
    (key : Bytes) (v : Value) (ns : Nodes)
    → insert key v (or_new (object no_nodes) (object ns)) ≡ ok (object (push_node key v ns))
unfolding insert or_new
insert_object key v ns = refl

pub leaf_text-Closes :
    (n : ℕ) (key value : Bytes) (s : State) (ns : Nodes) (st : List Value)
    → IsText key
    → IsText value
    → Closes n s (object ns) st
    → bare_line (delafter (leaf_text n key value) b'#') s
      ≡ ok (at n (object (push_node key (leaf value) ns)) st)
leaf_text-Closes n key value s ns st k w c =
    leaf_text-insert n key value s (at s.last_indents (object ns) st) _ k w
      (settle-Closes n s (object ns) st c) (insert_object key (leaf value) ns)

-- The first pair of a section makes its object.
insert_fresh :
    (key : Bytes) (v : Value)
    → insert key v (or_new (object no_nodes) null) ≡ ok (object (node key v no_nodes))
unfolding insert or_new push_node
insert_fresh key v = refl

pub leaf_text-first :
    (n : ℕ) (key value : Bytes) (st : List Value)
    → IsText key
    → IsText value
    → bare_line (delafter (leaf_text (n + 2) key value) b'#') (at n null st)
      ≡ ok (at (n + 2) (object (node key (leaf value) no_nodes)) st)
leaf_text-first n key value st k w =
    leaf_text-insert (n + 2) key value (at n null st) (at n null st) _ k w
      (settle-deeper n 2 null st) (insert_fresh key (leaf value))

-- A line that opens a section or a list.
check_indents_ok : (last n : ℕ) (s : State) → ltb last n ≡ false → check_indents last n s ≡ ok s
unfolding check_indents
check_indents_ok last n s h = rw (h) refl

insert_section :
    (key : Bytes) (ns : Nodes) → insert key null (object ns) ≡ ok (object (push_node key null ns))
unfolding insert
insert_section key ns = refl

open_line-Closes :
    (n : ℕ) (key : Bytes) (s : State) (ns : Nodes) (st : List Value)
    → IsText key
    → Closes n s (object ns) st
    → open_line n key s ≡ ok (at n null (object (push_node key null ns) ∷ st))
unfolding open_line
open_line-Closes n key s ns st k c =
    let not_deeper : ltb s.last_indents n ≡ false = let below = c.1 in ground arith in
    rw
      (
        settle-Closes n s (object ns) st c,
        trim-text key k,
        insert_section key ns,
        check_indents_ok s.last_indents n (at n null (object (push_node key null ns) ∷ st))
            not_deeper,
      )
      refl

pub open_text-Closes :
    (n : ℕ) (key : Bytes) (s : State) (ns : Nodes) (st : List Value)
    → IsText key
    → Closes n s (object ns) st
    → bare_line (delafter (open_text n key) b'#') s
      ≡ ok (at n null (object (push_node key null ns) ∷ st))
open_text-Closes n key s ns st k c = open_text-line n key s k ∙ open_line-Closes n key s ns st k c

-- A pair in a list goes into a new object, or into the last one.
insert_new_item :
    (key : Bytes) (v : Value) (len : Option ℕ) (es : Elems)
    → insert key v (or_new (object no_nodes) (array (some 0) len es))
      ≡ ok (array (some 1) len (push_obj (node key v no_nodes) es))
unfolding insert or_new insert_in_array same_count next_count
insert_new_item key v len es = refl

insert_same_item :
    (key : Bytes) (v : Value) (c : ℕ) (len : Option ℕ) (ns : Nodes) (es : Elems)
    → insert key v (or_new (object no_nodes) (array (some (suc c)) len (push_obj ns es)))
      ≡ ok (array (some (suc (suc c))) len (push_obj (push_node key v ns) es))
unfolding insert or_new insert_in_array same_count next_count
insert_same_item key v c len ns es =
    let later : (suc c == 0) ≡ false = ground arith in
    rw (later, push_in_back-push_obj es ns key v) refl

pub leaf_text-new_item :
    (n : ℕ) (key value : Bytes) (len : Option ℕ) (es : Elems) (st : List Value)
    → IsText key
    → IsText value
    → bare_line (delafter (leaf_text n key value) b'#') (at n (array (some 0) len es) st)
      ≡ ok (at n (array (some 1) len (push_obj (node key (leaf value) no_nodes) es)) st)
leaf_text-new_item n key value len es st k w =
    leaf_text-insert n key value _ (at n (array (some 0) len es) st) _ k w
      (settle-same n (array (some 0) len es) st) (insert_new_item key (leaf value) len es)

pub leaf_text-same_item :
    (n : ℕ) (key value : Bytes) (c : ℕ) (len : Option ℕ) (ns : Nodes) (es : Elems) (st : List Value)
    → IsText key
    → IsText value
    → bare_line
        (delafter (leaf_text n key value) b'#')
        (at n (array (some (suc c)) len (push_obj ns es)) st)
      ≡ ok (at n (array (some (suc (suc c))) len (push_obj (push_node key (leaf value) ns) es)) st)
leaf_text-same_item n key value c len ns es st k w =
    let s = at n (array (some (suc c)) len (push_obj ns es)) st in
    leaf_text-insert n key value s s _ k w
      (settle-same n (array (some (suc c)) len (push_obj ns es)) st)
      (insert_same_item key (leaf value) c len ns es)

-- The dash before the first object, and before a later one.
dash_line-first :
    (n m : ℕ) (st : List Value)
    → dash_line m (at n null st) ≡ ok (at m (array (some 0) none no_elems) st)
unfolding dash_line or_new mark_arr_start
dash_line-first n m st = refl

dash_line-next :
    (n m c : ℕ) (len : Option ℕ) (es : Elems) (st : List Value) (w : Value)
    → mark_arr_start (some (suc c)) len es ≡ ok w
    → dash_line m (at n (array (some (suc c)) len es) st) ≡ ok (at m w st)
unfolding dash_line or_new
dash_line-next n m c len es st w h = ap (λ o. o >>= (λ v. ok (at m v st))) h

pub dash_text-first :
    (n m : ℕ) (st : List Value)
    → bare_line (delafter (dash_text m) b'#') (at n null st)
      ≡ ok (at m (array (some 0) none no_elems) st)
dash_text-first n m st = dash_text-line m (at n null st) ∙ dash_line-first n m st

pub dash_text-next :
    (n m c : ℕ) (len : Option ℕ) (es : Elems) (st : List Value) (w : Value)
    → mark_arr_start (some (suc c)) len es ≡ ok w
    → bare_line (delafter (dash_text m) b'#') (at n (array (some (suc c)) len es) st)
      ≡ ok (at m w st)
dash_text-next n m c len es st w h =
    dash_text-line m (at n (array (some (suc c)) len es) st) ∙ dash_line-next n m c len es st w h
