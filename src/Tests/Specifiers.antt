-- ===== src/Tests/Specifiers.antt =====
-- Specifiers of passes/parse/declaration.c in front of a declaration.
use enqcc.Base.{◌≡◌, refl, arith, List, [], ◌∷◌, ◌++◌, ok, err, parse_decl_type_duplicate}
use enqcc.Lang.Types.{unsigned_long}
use enqcc.Lex.Tokens.{
  TokenType, Token, identifier, keyword_long, keyword_int, keyword_unsigned, keyword_signed,
}
use enqcc.Parse.Specifiers.{
  specifier_none, parse_specifiers, scan_specifiers, scan_token, conclude,
  parse_basic_type_accumulate, parse_basic_type_finalize,
}
use enqcc.Parse.Specifiers.Order.{occurrences, parse_specifiers-Spells}

abbrev token : TokenType → Token
token t = record { token_type = t; val = [] }

-- int long unsigned
abbrev specifiers : List Token
specifiers = token keyword_int ∷ token keyword_long ∷ token keyword_unsigned ∷ []

signed_unsigned :
    parse_specifiers (token keyword_signed ∷ token keyword_unsigned ∷ []) specifier_none
    ≡ err parse_decl_type_duplicate
unfolding parse_specifiers scan_specifiers scan_token conclude parse_basic_type_accumulate
    parse_basic_type_finalize
signed_unsigned = refl

parse_specifiers-Spells_example :
    parse_specifiers (specifiers ++ token identifier ∷ []) specifier_none
    ≡ ok (specifier_none, unsigned_long, token identifier ∷ [])
unfolding occurrences
parse_specifiers-Spells_example =
    parse_specifiers-Spells specifiers (token identifier ∷ []) specifier_none unsigned_long
      (refl, (refl, (refl, tt))) refl ((refl, refl, refl), (refl, refl, omega arith, omega arith))
