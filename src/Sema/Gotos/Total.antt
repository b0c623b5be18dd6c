-- ===== src/Sema/Gotos/Total.antt =====
-- sema_label_gotos of passes/sema.c on programs whose labels are in order.
use enqcc.Base.{ℕ, ◌≡◌, List, [], map}
use enqcc.Sema.Gotos.{Node, GotosState}
use enqcc.Sema.Gotos.Program.{erased, IsResolvedProgram}

abbrev Emptied : List Node × GotosState → Type 0
Emptied r = r.1.labels ≡ []

-- What sema_label_gotos gives for a program.
abbrev pub IsLabelled : ℕ → List (List Node) → List (List Node) × ℕ → Type 0
IsLabelled start program r =
    IsResolvedProgram start r.1 r.0 × (map (map erased) r.0 ≡ map (map erased) program)
