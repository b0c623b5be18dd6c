-- ===== src/Sema/Gotos.antt =====
-- passes/sema.c: the pass that gives gotos and labels their identifiers. The nodes of a function
-- stand in the order in which sema_walk enters them; at nodes other than functions, gotos and
-- labels both handlers of the pass do nothing. A function at block scope is a declaration, which
-- has no nodes of its own, so that sema_walk leaves it as soon as it has entered it.
pub mod State
pub mod Marks
pub mod Resolve
pub mod Program
pub mod Names
pub mod Accept
pub mod Total
use enqcc.Base.{
  ℕ, ◌+◌, Bool, true, false, not, ◌&&◌, Option, none, some, List, [], ◌∷◌, ltb, ◌==◌, if◌then◌else◌,
  length, Result, ok, err, ◌>>=◌, ◌>>◌, assert, guard, null_dereference, sema_label_duplicate,
  sema_goto_nonexistent_label,
}
use enqcc.Lang.Symbol.{Name, name_eq}

-- A goto with its target, a label with its identifier, a NODE_FUNCTION at block scope, and any
-- other node.
pub data Node : Type 0 where
  goto_ : Name → (target_unique : ℕ) → Node
  label : Name → (unique : ℕ) → Node
  function_declaration : Node
  other : Node

-- The two bits of `flags` are two Booleans.
pub record Label : Type 0 where
  pub name : Name
  pub id : ℕ
  pub used_as_label : Bool
  pub used_as_goto_target : Bool

pub record GotosState : Type 0 where
  pub generator : ℕ
  pub labels : List Label

unfoldable pub labels_get : List Label → Name → Option Label
labels_get [] name = none
labels_get (i ∷ rest) name =
    let next = labels_get rest name in if name_eq name i.name then some i else next

abbrev pub new_label : Name → ℕ → Label
new_label name id = record {
  name = name;
  id = id;
  used_as_label = false;
  used_as_goto_target = false;
}

-- The label that is there, or a new one at the head; and the state.
unfoldable pub find_or_add : GotosState → Name → Option Label → Label × GotosState
find_or_add state name (some match) = (match, state)
find_or_add state name none =
    let node = new_label name (state.generator + 1) in
    (node, record { generator = state.generator + 1; labels = node ∷ state.labels })

unfoldable pub labels_prepend : GotosState → Name → Result (Label × GotosState)
labels_prepend state name = do
  assert (ltb 0 (length name))
  ok (find_or_add state name (labels_get state.labels name))

-- `match->flags |= ...`: the label that labels_prepend found is the first of its name.
unfoldable pub set_flags : (Label → Label) → Name → List Label → List Label
set_flags flag name [] = []
set_flags flag name (i ∷ rest) =
    let next = set_flags flag name rest in if name_eq name i.name then flag i ∷ rest else i ∷ next

abbrev pub as_goto_target : Label → Label
as_goto_target l = record l { used_as_goto_target = true }

abbrev pub as_label : Label → Label
as_label l = record l { used_as_label = true }

abbrev pub is_empty : List Label → Bool
is_empty [] = true
is_empty (i ∷ rest) = false

-- sema_enter_goto_id at the nodes in a function; the node comes back with its identifier.
unfoldable pub sema_enter_goto_id : Node → GotosState → Result (Node × GotosState)
sema_enter_goto_id (goto_ name target_unique) state = do
  (match, state') ← labels_prepend state name
  ok (goto_ name match.id, record state' { labels = set_flags as_goto_target name state'.labels })
sema_enter_goto_id (label name unique) state = do
  (match, state') ← labels_prepend state name
  guard (not match.used_as_label) sema_label_duplicate
  ok (label name match.id, record state' { labels = set_flags as_label name state'.labels })
sema_enter_goto_id function_declaration state = do
  assert (is_empty state.labels)
  ok (function_declaration, state)
sema_enter_goto_id other state = ok (other, state)

-- Every target of a goto is a label.
unfoldable pub all_exist : List Label → Bool
all_exist [] = true
all_exist (i ∷ rest) = not (i.used_as_goto_target && not i.used_as_label) && all_exist rest

-- sema_exit_goto_id at a function
unfoldable pub sema_exit_goto_id : GotosState → Result GotosState
sema_exit_goto_id state = do
  guard (all_exist state.labels) sema_goto_nonexistent_label
  ok (record state { labels = [] })

-- What sema_walk does at a node: at a declaration of a function, both handlers in turn.
unfoldable pub walk_node : Node → GotosState → Result (Node × GotosState)
walk_node function_declaration state = do
  (node', state') ← sema_enter_goto_id function_declaration state
  state'' ← sema_exit_goto_id state'
  ok (node', state'')
walk_node node state = sema_enter_goto_id node state

-- The walk over the nodes in a function.
unfoldable pub enter_nodes : List Node → GotosState → Result (List Node × GotosState)
enter_nodes [] state = ok ([], state)
enter_nodes (node ∷ nodes) state = do
  (node', state') ← walk_node node state
  (nodes', state'') ← enter_nodes nodes state'
  ok (node' ∷ nodes', state'')

-- What sema_walk does for a function: both handlers around the walk over its nodes.
unfoldable pub label_function : List Node → GotosState → Result (List Node × GotosState)
label_function nodes state = do
  assert (is_empty state.labels)
  (nodes', state') ← enter_nodes nodes state
  state'' ← sema_exit_goto_id state'
  ok (nodes', state'')

-- The functions of the program in turn.
unfoldable pub label_functions :
    List (List Node) → GotosState → Result (List (List Node) × GotosState)
label_functions [] state = ok ([], state)
label_functions (f ∷ fs) state = do
  (f', state') ← label_function f state
  (fs', state'') ← label_functions fs state'
  ok (f' ∷ fs', state'')

unfoldable pub sema_label_gotos : List (List Node) → ℕ → Result (List (List Node) × ℕ)
sema_label_gotos program generator = do
  (program', state) ← label_functions program (record { generator = generator; labels = [] })
  ok (program', state.generator)
