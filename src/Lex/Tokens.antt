-- ===== src/Lex/Tokens.antt =====
-- passes/lex.h: the tokens.
use enqcc.Base.{ℕ, List}

pub data TokenType : Type 0 where
  identifier constant constant_char constant_str : TokenType
  less_than_less_than_equal_sign more_than_more_than_equal_sign : TokenType
  keyword_return keyword_sizeof keyword_void keyword_char : TokenType
  keyword_int keyword_long keyword_signed keyword_unsigned : TokenType
  keyword_double keyword_if keyword_else keyword_do : TokenType
  keyword_while keyword_for keyword_break keyword_continue : TokenType
  keyword_static keyword_extern keyword_goto keyword_switch : TokenType
  keyword_case keyword_default : TokenType
  paren_open paren_close brace_open brace_close : TokenType
  square_bracket_open square_bracket_close semicolon tilde : TokenType
  hyphen plus_sign asterisk forward_slash : TokenType
  percent_sign exclamation ampersand vert_bar : TokenType
  equal_sign less_than more_than question : TokenType
  colon comma caret : TokenType
  hyphen_hyphen plus_sign_plus_sign ampersand_ampersand vert_bar_vert_bar : TokenType
  equal_sign_equal_sign less_than_less_than more_than_more_than : TokenType
  hyphen_equal_sign plus_sign_equal_sign asterisk_equal_sign forward_slash_equal_sign : TokenType
  percent_sign_equal_sign exclamation_equal_sign ampersand_equal_sign vert_bar_equal_sign :
      TokenType
  less_than_equal_sign more_than_equal_sign caret_equal_sign : TokenType

-- A token with its text: a `string_view`, empty for punctuation.
pub record Token : Type 0 where
  pub token_type : TokenType
  pub val : List ℕ
