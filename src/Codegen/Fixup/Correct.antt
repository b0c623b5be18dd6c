-- ===== src/Codegen/Fixup/Correct.antt =====
-- codegen_fixup_instructions of passes/codegen.c: the operand forms behind all passes.
use enqcc.Base.{
  ℕ, suc, ◌+◌, ◌≤◌, subst, ◌≡◌, refl, true, Option, none, some, List, [], ◌∷◌, length, All,
  All-append, All-map, Result, ok, err, Returns, Returns-bind, Returns-map, arith, leb,
}
use enqcc.Codegen.Asm.{Op, AsmFunction}
use enqcc.Codegen.Round.{llong_max}
use enqcc.Codegen.Fixup.Fixers.{Fixer}
use enqcc.Codegen.Fixup.Splice.{
  splice, codegen_fixup_apply, fixup_loop, codegen_fixup_function, fixers, apply_fixers,
}
use enqcc.Codegen.Fixup.Encodable.{is_encodable, is_selected}
use enqcc.Codegen.Fixup.Stages.{Stage, stage-is_encodable, is_selected-stage}
use enqcc.Codegen.Fixup.Steps.{
  Meets, fix_s2s-Meets, fix_imm_big-Meets, fix_cmp-Meets, fix_div-Meets, fix_mul-Meets,
  fix_shift-Meets, fix_movsx_and_movzx-Meets, fix_movzx_32bit-Meets, fix_cvt_double_to_int-Meets,
  fix_cvt_int_to_double-Meets, fix_arithmetic_on_double-Meets, fix_lea-Meets,
}

-- Instruction selection made the operation.
abbrev pub IsSelected : Op → Type 0
IsSelected o = is_selected o.opcode o.arg0 o.arg1 ≡ true

-- The operands of the operation are of a form that x86-64 has.
abbrev pub IsEncodable : Op → Type 0
IsEncodable o = is_encodable o.opcode o.arg0 o.arg1 ≡ true

-- A fixer takes the operations from one stage to the next.
abbrev Advances : ℕ → ℕ → Fixer → Type 0
Advances j k f = (o : Op) → Stage j o → Meets k o (f o)

Meets-Returns :
    (k : ℕ) (cur : Op) (r : Result (Option (List Op)))
    → Meets k cur r
    → Returns (λ fixed. Meets k cur (ok fixed)) r
Meets-Returns k cur (ok fixed) h = h
Meets-Returns k cur (err e) h = h

leb_one : (n : ℕ) → leb 2 n ≡ true → leb 1 n ≡ true
leb_one n h = ground arith

splice-Stage :
    (k : ℕ) (before : List Op) (cur : Op) (fixed : Option (List Op))
    → All (Stage k) before
    → Meets k cur (ok fixed)
    → Returns (All (Stage k)) (splice before cur fixed)
unfolding splice
splice-Stage k before cur none hb m = All-append (Stage k) before (cur ∷ []) hb (m, tt)
splice-Stage k before cur (some t) hb m =
    rw (leb_one (length t) m.0, m.0) (All-append (Stage k) before t hb m.1)

apply-Stage :
    (k : ℕ) (before : List Op) (cur : Op) (f : Fixer)
    → All (Stage k) before
    → Meets k cur (f cur)
    → Returns (All (Stage k)) (codegen_fixup_apply before cur f)
unfolding codegen_fixup_apply
apply-Stage k before cur f hb m =
    Returns-bind (λ fixed. Meets k cur (ok fixed)) (All (Stage k)) (f cur) _
      (Meets-Returns k cur (f cur) m) λ fixed h. splice-Stage k before cur fixed hb h

loop-Stage :
    (j k : ℕ) (f : Fixer) (before ops : List Op)
    → Advances j k f
    → All (Stage k) before
    → All (Stage j) ops
    → Returns (All (Stage k)) (fixup_loop f before ops)
unfolding fixup_loop
loop-Stage j k f before [] adv hb ho = hb
loop-Stage j k f before (cur ∷ rest) adv hb ho =
    Returns-bind (All (Stage k)) (All (Stage k)) (codegen_fixup_apply before cur f) _
      (apply-Stage k before cur f hb (adv cur ho.0))
      λ before' hb'. loop-Stage j k f before' rest adv hb' ho.1

pass-Stage :
    (j k : ℕ) (f : Fixer) (ops : List Op)
    → Advances j k f
    → All (Stage j) ops
    → Returns (All (Stage k)) (codegen_fixup_function f ops)
unfolding codegen_fixup_function
pass-Stage j k f ops adv h = loop-Stage j k f [] ops adv tt h

-- The fixers take the operations from stage `k` to the last stage, one stage each.
abbrev AllAdvance : ℕ → List Fixer → Type 0
AllAdvance k [] = k ≡ 12
AllAdvance k (f ∷ fs) = Advances k (suc k) f × AllAdvance (suc k) fs

passes-Stage :
    (k : ℕ) (fs : List Fixer) (ops : List Op)
    → AllAdvance k fs
    → All (Stage k) ops
    → Returns (All (Stage 12)) (apply_fixers fs ops)
unfolding apply_fixers
passes-Stage k [] ops e h = subst (λ n. All (Stage n) ops) e h
passes-Stage k (f ∷ fs) ops adv h =
    Returns-bind (All (Stage (suc k))) (All (Stage 12)) (codegen_fixup_function f ops) _
      (pass-Stage k (suc k) f ops adv.0 h) λ ops' h'. passes-Stage (suc k) fs ops' adv.1 h'

fixers-AllAdvance : AllAdvance 0 fixers
fixers-AllAdvance = (
  λ o. fix_s2s-Meets o.opcode o.arg0 o.arg1,
  (
    λ o. fix_imm_big-Meets o.opcode o.arg0 o.arg1,
    (
      λ o. fix_cmp-Meets o.opcode o.arg0 o.arg1,
      (
        λ o. fix_div-Meets o.opcode o.arg0 o.arg1,
        (
          λ o. fix_mul-Meets o.opcode o.arg0 o.arg1,
          (
            λ o. fix_shift-Meets o.opcode o.arg0 o.arg1,
            (
              λ o. fix_movsx_and_movzx-Meets o.opcode o.arg0 o.arg1,
              (
                λ o. fix_movzx_32bit-Meets o.opcode o.arg0 o.arg1,
                (
                  λ o. fix_cvt_double_to_int-Meets o.opcode o.arg0 o.arg1,
                  (
                    λ o. fix_cvt_int_to_double-Meets o.opcode o.arg0 o.arg1,
                    (
                      λ o. fix_arithmetic_on_double-Meets o.opcode o.arg0 o.arg1,
                      (λ o. fix_lea-Meets o.opcode o.arg0 o.arg1, refl),
                    ),
                  ),
                ),
              ),
            ),
          ),
        ),
      ),
    ),
  ),
)

pub apply_fixers-IsEncodable :
    (ops : List Op) → All IsSelected ops → Returns (All IsEncodable) (apply_fixers fixers ops)
apply_fixers-IsEncodable ops h =
    Returns-map (All (Stage 12)) (All IsEncodable) (apply_fixers fixers ops)
      (λ ops' h'.
        All-map (Stage 12) IsEncodable ops' (λ o. stage-is_encodable o.opcode o.arg0 o.arg1) h')
      (passes-Stage 0 fixers ops fixers-AllAdvance
        (All-map IsSelected (Stage 0) ops (λ o. is_selected-stage o.opcode o.arg0 o.arg1) h))

-- What instruction selection gives for each function.
abbrev pub SelectedFunction : AsmFunction → Type 0
SelectedFunction f = All IsSelected f.ops × (f.stack_usage + 16 ≤ llong_max)

abbrev pub AllSelected : List AsmFunction → Type 0
AllSelected = All SelectedFunction

abbrev pub AllEncodable : List AsmFunction → Type 0
AllEncodable = All (λ f. All IsEncodable f.ops)
