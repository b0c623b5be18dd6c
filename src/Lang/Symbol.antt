-- ===== src/Lang/Symbol.antt =====
-- lang/symbol.h and lang/symbol.c: the symbol table, a linked list with the newest symbol first. A
-- pointer to a symbol of the list is the number of symbols from it to the end.
pub mod Unique
pub mod Scope
pub mod Mangle
use enqcc.Base.{
  ℕ, suc, ◌+◌, max, Bool, true, false, ◌&&◌, ◌||◌, Option, none, some, List, [], ◌∷◌, leb, ◌==◌,
  if◌then◌else◌, length,
}
use enqcc.Lang.Types.{Ctype}

pub data SymbolType : Type 0 where
  variable function_declaration function_definition string_literal : SymbolType

pub data SymbolLinkage : Type 0 where
  linkage_none linkage_internal linkage_external : SymbolLinkage

abbrev pub is_internal : SymbolLinkage → Bool
is_internal linkage_internal = true
is_internal _ = false

abbrev pub is_external : SymbolLinkage → Bool
is_external linkage_external = true
is_external _ = false

abbrev pub some_linkage : SymbolLinkage → Bool
some_linkage l = is_external l || is_internal l

-- A name: the bytes of a `string_view`.
abbrev pub Name : Type 0
Name = List ℕ

-- The fields that the operations of this file use; what semantic analysis hangs on a symbol
-- (its initializer and its auxiliary data) is left out.
pub record Symbol : Type 0 where
  pub name : Name
  pub stype : SymbolType
  pub c89type : Ctype
  pub unique : ℕ
  pub cookie : ℕ
  pub level_delimiter : Bool
  pub linkage : SymbolLinkage

-- The unique identifier and the cookie of a new symbol: zero in an empty list, which zalloc leaves,
-- and one above all that the head knows of otherwise.
abbrev pub next_unique : List Symbol → ℕ
next_unique [] = 0
next_unique (head ∷ rest) = max head.unique head.cookie + 1

abbrev pub next_cookie : List Symbol → ℕ
next_cookie [] = 0
next_cookie (head ∷ rest) = max (next_unique (head ∷ rest)) head.cookie

unfoldable pub symbols_prepend : Name → SymbolType → Ctype → List Symbol → List Symbol
symbols_prepend name stype c89type symbols =
    record {
      name = name;
      stype = stype;
      c89type = c89type;
      unique = next_unique symbols;
      cookie = next_cookie symbols;
      level_delimiter = false;
      linkage = linkage_none;
    }
    ∷ symbols

-- Equal sizes and strncmp() == 0.
unfoldable pub name_eq : Name → Name → Bool
name_eq [] [] = true
name_eq (a ∷ as') (b ∷ bs) = a == b && name_eq as' bs
name_eq _ _ = false

unfoldable pub symbols_get_impl : List Symbol → Name → Bool → Option Symbol
symbols_get_impl [] name stop_at_delimiter = none
symbols_get_impl (head ∷ rest) name stop_at_delimiter =
    let next = symbols_get_impl rest name stop_at_delimiter in
    if stop_at_delimiter && head.level_delimiter
    then none
    else if name_eq head.name name
    then some head
    else next

unfoldable pub symbols_get_limited : List Symbol → Name → Option Symbol
symbols_get_limited symbols name = symbols_get_impl symbols name true

unfoldable pub symbols_get_anywhere : List Symbol → Name → Option Symbol
symbols_get_anywhere symbols name = symbols_get_impl symbols name false

unfoldable pub symbols_get_unique : List Symbol → ℕ → Option Symbol
symbols_get_unique [] unique = none
symbols_get_unique (head ∷ rest) unique =
    let next = symbols_get_unique rest unique in if head.unique == unique then some head else next

-- The list from the symbol that has `k` symbols from it to the end.
abbrev pub suffix : ℕ → List Symbol → List Symbol
suffix k [] = []
suffix k (s ∷ rest) =
    let inner = suffix k rest in if leb (length (s ∷ rest)) k then s ∷ rest else inner

-- reset_point->cookie = cookie, unless it is NULL
abbrev pub set_cookie : ℕ → List Symbol → List Symbol
set_cookie cookie [] = []
set_cookie cookie (s ∷ rest) = record s { cookie = cookie } ∷ rest

abbrev pub head_cookie : List Symbol → ℕ
head_cookie [] = 0
head_cookie (head ∷ rest) = head.cookie

unfoldable pub symbols_reset_scope : List Symbol → ℕ → List Symbol
symbols_reset_scope symbols reset_point =
    set_cookie (head_cookie symbols) (suffix reset_point symbols)
