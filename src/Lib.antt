-- ===== src/Lib.antt =====
-- enqcc, a compiler from a subset of C to x86-64 assembly.
--
-- The driver (main.c) reads a file and calls the passes in turn: the lexer (src/passes/lex.c), the
-- parser (src/passes/parse.c and src/passes/parse/), semantic analysis (src/passes/sema.c), lowering
-- to three-address code (src/passes/ir.c), code generation (src/passes/codegen.c) and printing
-- (src/passes/emit.c). All of them share the types (src/lang/types.c) and the symbol table
-- (src/lang/symbol.c), and return a result_t (include/result.h).
--
-- The files and the code that they model:
--   Base                the shared names, Boolean tests on numbers, lists, signed numbers, and results
--                       (include/result.h)
--   Lang/Types          src/lang/types.h and types.c: sizes and tests; Compare: ctype_is_equal,
--                       get_common_ctype and the decay of arrays
--   Lang/Symbol         src/lang/symbol.c: the table, with the newest symbol at the head of a list,
--                       and the pointer to a symbol as the length of the list that starts at it;
--                       Mangle: mangle_name
--   Lang/Constant       src/lang/symbol.c: zero initializers
--   Lex                 src/passes/lex.c: lex_one_token and lex_init on the bytes of a file; Tokens:
--                       src/passes/lex.h; Operators, Words, Numeric, Strlike: the parts of a token;
--                       Spelling: the tokens as they are written, against which Munch and RoundTrip
--                       state what is read; Total: that every call ends; EndOfFile
--   Parse/Specifiers    src/passes/parse/token.c and declaration.c: parse_specifiers
--   Parse/Constant      src/passes/parse/constant.c: parse_constant; Fit has the lists of types of the
--                       C standard
--   Parse/Tree          src/passes/parse.h: the nodes of expressions
--   Parse/Operators     src/passes/parse.h and parse/expression.c: operators and their precedence
--   Parse/Expression    src/passes/parse/expression.c: parse_expr; Total, Calls, Steps and Induction:
--                       that it ends; Lexed: on the tokens of the lexer; Grammar: the expressions that
--                       it is meant to read, without casts and sizeof; Facts, Starts, Parts,
--                       Statements, Operands, Factors, Atoms and RoundTrip: that it reads them; Casts
--   Sema/Gotos          src/passes/sema.c: sema_label_gotos; a function is the list of its nodes in the
--                       order in which sema_walk enters them, of which gotos, labels and
--                       declarations of functions count
--   Sema/Numeric        src/passes/sema.c: map_numeric_type_scalar
--   Codegen/Asm         src/passes/codegen.h: registers, operands, operations, functions
--   Codegen/Round       src/passes/codegen.c: round_up_to_multiple_of
--   Codegen/Pseudo      src/passes/codegen.c: codegen_replace_pseudo; Slots has the definitions
--   Codegen/Fixup       src/passes/codegen.c: codegen_fixup_instructions; Fixers has the twelve
--                       fixers, Splice their application along a list, Encodable the operands
--                       that x86-64 takes, Stages the forms that each pass adds
--   Tests               runs of the definitions, and the theorems at small programs
--
-- How the code is translated. A linked list is a list, a loop over it recursion on the list, and a
-- change of a node in place a new list. A pointer that may be NULL is an option, or a constructor of
-- its own (the referent of a type). A failing assert is the error `assertion_failed`, a use of NULL
-- `null_dereference`, an overflow of a signed sum or product `signed_overflow`, and a read behind the end of
-- the file `out_of_bounds_read`, all values like the compiler's own errors. Loops go along a list or
-- down a number. Two loops of the lexer, over tokens and over the bytes of a literal, go on behind
-- what a call has taken; they have fuel, one more than there are bytes, which is enough since each
-- round takes a byte. The calls of the parser of expressions that go back to each other have eight
-- times as much fuel as there are tokens, and eight, which is enough since each eight calls take a
-- token. `out_of_fuel` is the error that is shown not to come up. The byte classes of
-- <ctype.h> are those of the C locale; the bytes from 128 on, which are negative as a char, are in none.
-- Unsigned sums and products of 64 bits are taken modulo 2 ^ 64. Sums of stack offsets, which are of type
-- long long int, are `signed_overflow` beyond LLONG_MAX. Identifiers, which the source keeps in signed
-- numbers of 64 or 128 bits, are natural numbers; the limits of these types are not modelled for them.
--
-- What is not modelled. Allocation from the arena, which always succeeds here, and the data that an
-- error carries for its message. asprintf's decimal digits are a parameter of mangle_name, of which
-- only is assumed that different numbers have different digits; the conversions between integers and
-- doubles are parameters of map_numeric_type_scalar, of which nothing is assumed. There is no
-- semantics of x86-64: the theorems on the fixups speak of the forms of operands, not of the values
-- that operations compute. strtoull and strtod are parameters of parse_constant. The parser of
-- expressions has parse_type of parse/declaration.c as a parameter, of which is relied on that it ends
-- and adds no tokens; declarators are not modelled. The files that the lexer reads are given as
-- their bytes; open, fstat and mmap are not modelled. Statements, declarations and resolution of names,
-- most of semantic analysis, lowering, instruction selection and printing are not modelled.
pub mod Base
pub mod Lang
pub mod Lex
pub mod Parse
pub mod Sema
pub mod Codegen
pub mod Tests
