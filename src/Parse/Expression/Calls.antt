-- ===== src/Parse/Expression/Calls.antt =====
-- passes/parse/expression.c: the calls with some fuel, and what is left of the tokens.
use enqcc.Base.{ℕ, suc, ◌+◌, ◌*◌, ◌≤◌, ◌≡◌, Bool, false, List, ◌∷◌, Option, Result, Ends}
use enqcc.Lang.Types.{Ctype}
use enqcc.Lang.Symbol.{Name}
use enqcc.Lex.Tokens.{Token}
use enqcc.Parse.Constant.{ConstantNode}
use enqcc.Parse.Tree.{Infix, Expr, Args}
use enqcc.Parse.Expression.{
  is_token_type, is_comma, FactorStart, factor_start, parse_expr, climb, climb_round, parse_factor,
  parse_primary, primary_by, sizeof_by, symbol_by, call_by, parse_args, args_by, subscripts,
  subscripts_by,
}
use enqcc.Parse.Expression.Total.{AreLeft, Left}

-- What is relied on of parse_type, in passes/parse/declaration.c: it ends, with no more tokens.
abbrev pub IsTotalType : (List Token → Result (Ctype × List Token)) → Type 0
IsTotalType parse_type =
    (n : ℕ) (pos : List Token) → AreLeft n pos → Ends false (Left n) (parse_type pos)

abbrev pub LeftConstant : ℕ → ConstantNode × List Token → Type 0
LeftConstant n r = Left n r

abbrev pub LeftType : ℕ → Ctype × List Token → Type 0
LeftType n r = Left n r

abbrev pub LeftArgs : ℕ → Args × List Token → Type 0
LeftArgs n r = Left n r

abbrev pub LeftExpr : ℕ → Expr × List Token → Type 0
LeftExpr n r = Left n r

module _ (parse_type : List Token → Result (Ctype × List Token))
    (strtoull strtod : List ℕ → Option ℕ) where
  -- The calls with the fuel `f`, on at most `n` tokens.
  pub record AllEnd (f : ℕ) : Type 0 where
    pub expr :
        (n m : ℕ) (pos : List Token)
        → 8 * n + 8 ≤ f
        → AreLeft n pos
        → Ends false (Left n) (parse_expr parse_type strtoull strtod f m pos)
    pub loop :
        (n m : ℕ) (left : Expr) (pos : List Token)
        → 8 * n + 2 ≤ f
        → AreLeft n pos
        → Ends false (Left n) (climb parse_type strtoull strtod f m left pos)
    pub round :
        (n m : ℕ) (left : Expr) (tok : Token) (toks : List Token) (op : Option Infix)
        → 8 * n + 9 ≤ f
        → AreLeft (suc n) (tok ∷ toks)
        → Ends false
            (Left (suc n))
            (climb_round parse_type strtoull strtod f m left (tok ∷ toks) op)
    pub factor :
        (n : ℕ) (pos : List Token)
        → 8 * n + 7 ≤ f
        → AreLeft n pos
        → Ends false (Left n) (parse_factor parse_type strtoull strtod f pos)
    pub primary :
        (n : ℕ) (pos : List Token)
        → 8 * n + 6 ≤ f
        → AreLeft n pos
        → Ends false (Left n) (parse_primary parse_type strtoull strtod f pos)
    pub by :
        (n : ℕ) (tok : Token) (toks : List Token) (start : FactorStart)
        → 8 * n + 13 ≤ f
        → AreLeft (suc n) (tok ∷ toks)
        → factor_start (tok ∷ toks) ≡ start
        → Ends false (Left n) (primary_by parse_type strtoull strtod f (tok ∷ toks) start)
    pub sizeof_ :
        (n : ℕ) (pos : List Token) (r : Result (Ctype × List Token))
        → 8 * n + 9 ≤ f
        → AreLeft n pos
        → Ends false (Left n) r
        → Ends false (Left n) (sizeof_by parse_type strtoull strtod f pos r)
    pub symbol :
        (n : ℕ) (name : Name) (toks : List Token) (b : Bool)
        → 8 * n + 12 ≤ f
        → AreLeft n toks
        → Ends false (Left n) (symbol_by parse_type strtoull strtod f name toks b)
    pub call :
        (n : ℕ) (name : Name) (toks : List Token) (b : Bool)
        → 8 * n + 11 ≤ f
        → AreLeft n toks
        → Ends false (Left n) (call_by parse_type strtoull strtod f name toks b)
    pub args :
        (n : ℕ) (pos : List Token)
        → 8 * n + 10 ≤ f
        → AreLeft n pos
        → Ends false (Left n) (parse_args parse_type strtoull strtod f pos)
    pub more_args :
        (n : ℕ) (e : Expr) (toks : List Token) (b : Bool)
        → 8 * n + 9 ≤ f
        → AreLeft n toks
        → b ≡ is_token_type toks is_comma
        → Ends false (Left n) (args_by parse_type strtoull strtod f e toks b)
    pub subs :
        (n : ℕ) (lhs : Expr) (pos : List Token)
        → 8 * n + 2 ≤ f
        → AreLeft n pos
        → Ends false (Left n) (subscripts parse_type strtoull strtod f lhs pos)
    pub subs_round :
        (n : ℕ) (lhs : Expr) (tok : Token) (toks : List Token) (b : Bool)
        → 8 * n + 9 ≤ f
        → AreLeft (suc n) (tok ∷ toks)
        → Ends false (Left (suc n)) (subscripts_by parse_type strtoull strtod f lhs (tok ∷ toks) b)
