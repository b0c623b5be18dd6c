-- ===== src/Tests/Gotos.antt =====
-- The gotos and labels of passes/sema.c in a small program.
use enqcc.Base.{
  ℕ, ◌≡◌, refl, List, [], ◌∷◌, err, sema_label_duplicate, sema_goto_nonexistent_label,
  assertion_failed,
}
use enqcc.Lang.Symbol.{name_eq}
use enqcc.Sema.Gotos.{
  Node, goto_, label, function_declaration, other, sema_label_gotos, label_functions,
  label_function, enter_nodes, walk_node, sema_enter_goto_id, sema_exit_goto_id, all_exist,
  labels_prepend, find_or_add, labels_get, set_flags,
}

-- A declaration of a function, a goto forwards and one backwards, and the same label in a second function.
abbrev program : List (List Node)
program =
    (function_declaration
      ∷ goto_ (b'x' ∷ []) 0
      ∷ label (b'y' ∷ []) 0
      ∷ other
      ∷ label (b'x' ∷ []) 0
      ∷ goto_ (b'y' ∷ []) 0
      ∷ [])
    ∷ (label (b'x' ∷ []) 0 ∷ goto_ (b'x' ∷ []) 0 ∷ [])
    ∷ []

abbrev labelled : List (List Node)
labelled =
    (function_declaration
      ∷ goto_ (b'x' ∷ []) 6
      ∷ label (b'y' ∷ []) 7
      ∷ other
      ∷ label (b'x' ∷ []) 6
      ∷ goto_ (b'y' ∷ []) 7
      ∷ [])
    ∷ (label (b'x' ∷ []) 8 ∷ goto_ (b'x' ∷ []) 8 ∷ [])
    ∷ []

label_twice :
    sema_label_gotos ((label (b'x' ∷ []) 0 ∷ label (b'x' ∷ []) 0 ∷ []) ∷ []) 0
    ≡ err sema_label_duplicate
unfolding sema_label_gotos label_functions label_function enter_nodes walk_node sema_enter_goto_id
    sema_exit_goto_id all_exist labels_prepend find_or_add labels_get set_flags name_eq
label_twice = refl

goto_nowhere :
    sema_label_gotos ((goto_ (b'x' ∷ []) 0 ∷ []) ∷ []) 0 ≡ err sema_goto_nonexistent_label
unfolding sema_label_gotos label_functions label_function enter_nodes walk_node sema_enter_goto_id
    sema_exit_goto_id all_exist labels_prepend find_or_add labels_get set_flags name_eq
goto_nowhere = refl

-- `goto x; int f(void); x:` fails an assertion, although its labels are in order.
declaration_behind_goto :
    sema_label_gotos
      ((goto_ (b'x' ∷ []) 0 ∷ function_declaration ∷ label (b'x' ∷ []) 0 ∷ []) ∷ [])
      0
    ≡ err assertion_failed
unfolding sema_label_gotos label_functions label_function enter_nodes walk_node sema_enter_goto_id
    sema_exit_goto_id all_exist labels_prepend find_or_add labels_get set_flags name_eq
declaration_behind_goto = refl

first_byte : List ℕ → ℕ
first_byte [] = 0
first_byte (c ∷ cs) = c
