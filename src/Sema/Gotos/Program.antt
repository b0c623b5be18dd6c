-- ===== src/Sema/Gotos/Program.antt =====
-- sema_label_gotos of passes/sema.c on whole programs.
use enqcc.Base.{ℕ, ◌≤◌, List, All, Pairwise}
use enqcc.Sema.Gotos.{Node, goto_, label, GotosState}
use enqcc.Sema.Gotos.State.{OtherLabel}
use enqcc.Sema.Gotos.Resolve.{GoesToLabel, InBounds}

-- A node without its identifier.
unfoldable pub erased : Node → Node
erased (goto_ name t) = goto_ name 0
erased (label name u) = label name 0
erased node = node

-- No label of the one function has the identifier of a label of the other.
abbrev pub Disjoint : List Node → List Node → Type 0
Disjoint f g = All (λ x. All (OtherLabel x) g) f

-- In every function each goto has the identifier of a label of its name, and all labels of the
-- program have identifiers of their own, above `start` and up to `stop`.
pub record IsResolvedProgram (start stop : ℕ) (program : List (List Node)) : Type 0 where
  pub targets : All (λ nodes. All (GoesToLabel nodes) nodes) program
  pub unique : All (Pairwise OtherLabel) program
  pub disjoint : Pairwise Disjoint program
  pub bounds : All (All (InBounds start stop)) program

-- The functions are resolved, and the table is empty behind them.
abbrev AllDone : ℕ → List (List Node) × GotosState → Type 0
AllDone start r = IsResolvedProgram start r.1.generator r.0 × (start ≤ r.1.generator)
