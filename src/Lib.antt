-- ===== src/Lib.antt =====
-- kdevops is configured by kconfig: the programs under scripts/kconfig read Kconfig files, hold a
-- value for every symbol, and write .config. This library models their core, the dependency
-- expressions, the symbols that the expressions are about, the configuration files, the macro
-- language, the menu tree and the helpers in util.c.
--
-- Files:
-- - Tristate: `enum tristate` and its operators (scripts/kconfig/expr.h); Tristate/Laws their laws.
-- - Expr: `struct expr` and its allocation (scripts/kconfig/expr.h, expr.c). Its children follow
--   expr.c: Expr/YesNo is expr_eliminate_yn, Expr/Equal is expr_eq and expr_eliminate_eq, Expr/Dups
--   is expr_eliminate_dups, Expr/Transform is expr_transform, Expr/Join is expr_join_or and
--   expr_join_and, Expr/Rewrite is expr_trans_bool, expr_trans_compare, expr_contains_symbol and
--   expr_depends_symbol, Expr/Print is expr_print and its callers, Expr/Print/Grammar is the rules of
--   lexer.l and parser.y for expressions of words that are not quoted, Expr/Value is the value that
--   expr_calc_value computes once the symbols are calculated. Expr/Outcome holds the chaining of
--   results that may be missing. Expr/Equal/Common says what an elimination takes from both sides,
--   and Expr/Equal/Removal, Expr/Print/Lexing and Expr/Print/Reads hold proofs.
-- - Symbol: `struct symbol`, `struct property` and the table (scripts/kconfig/expr.h, symbol.c).
--   Symbol/Compare is the text of a value and the comparison of two symbols (symbol.c, expr.c);
--   Symbol/Consistent says what holds of calculated symbols. The rest of symbol.c is a state monad,
--   Symbol/State, which also holds sym_set_changed. Symbol/Properties is what is read of a symbol and
--   its properties (sym_get_type, sym_tristate_within_range), Symbol/Evaluate is expr_calc_value
--   (expr.c), sym_get_default_prop and sym_get_range_prop, Symbol/Visibility is sym_calc_visibility,
--   sym_choice_default and sym_calc_choice, Symbol/Range is sym_validate_range, Symbol/NewValue and
--   Symbol/Calculate are sym_calc_value, sym_clear_all_valid and set_all_choice_values (confdata.c),
--   Symbol/Assign is sym_set_tristate_value and sym_toggle_tristate_value, Symbol/TextValid is
--   sym_string_valid, Symbol/AssignText is sym_string_within_range, sym_set_string_value and
--   sym_get_string_default, Symbol/CheckDeps is sym_check_deps, and Symbol/Table is strhash,
--   sym_lookup and sym_find. Symbol/Properties/InRange, Symbol/Evaluate/Settled,
--   Symbol/Calculate/Valid, Symbol/Assign/Toggle, Symbol/TextValid/Printed, Symbol/Table/Lookup,
--   Symbol/Table/Find, the children of Symbol/CheckDeps and Symbol/Fuel hold proofs; the children of
--   Symbol/Fuel follow the functions of symbol.c and expr.c, with two calculations that agree
--   wherever little is left to calculate.
-- - Config: confdata.c. Config/Escape is escape_string_value and the loop of conf_set_sym_val that
--   undoes it, Config/Value is conf_set_sym_val, Config/Line is compat_getline and what
--   conf_read_simple makes of a line, Config/Names is sym_find and sym_lookup on the store,
--   Config/Read is the loop of conf_read_simple, Config/Load is the rest of it and conf_read,
--   Config/Print is __print_symbol, print_symbol_for_c and print_symbol_for_rustccfg, and
--   Config/Write is conf_write and conf_write_defconfig. Proofs are in Config/Escape/RoundTrip,
--   Config/Value/Laws, Config/Line/Laws, Config/Read/Laws, Config/Print/Plain, Config/Print/RoundTrip,
--   Config/Write/Same and Config/Write/Laws.
-- - Macro: preprocess.c. Macro/Split is the loop of eval_clause that splits a clause, Macro/Builtin
--   is env_expand and function_expand, Macro/Variables is variable_expand and variable_add, and
--   Macro/Expand is eval_clause, expand_dollar, __expand_string and its callers. Their children,
--   Macro/Laws and Macro/Keeps hold proofs.
-- - Menu: the nodes of menu.c, linked by pointers, and the calls by which the parser builds them.
--   Menu/Tree says what it means that nodes stand for a tree, Menu/Build follows the calls, with
--   proofs in Menu/Build/Links, Menu/Visible is menu_is_visible and the accessors, and Menu/Walk is the walk of conf_write and
--   conf_write_defconfig (confdata.c) through the nodes; Menu/Walk/Order and Menu/Walk/Built hold
--   proofs.
-- - Util: the growable strings and file_lookup of util.c; Util/Laws holds proofs.
-- - Conf: conf_set_all_new_symbols and conf_rewrite_tristates of conf.c, the modes that ask nothing.
--   What rand returns is a parameter. Conf/Chosen holds proofs.
-- - Libc: strcmp, strtoll and strtoull as the code uses them, in the C locale; Libc/Laws holds a law
--   of strcmp.
-- - Tests and its children Symbols, CheckDeps, Config, Macros, Util, Dups, Print, Conf and Menus:
--   runs on a small configuration, and the theorems at concrete inputs.
--
-- A symbol is a number that stands for its address; `n`, `m` and `y` are 0, 1 and 2. Trees that the
-- code rewrites in place are values; a pointer that may be null is an `Option`, and an `E_LIST` or
-- `E_RANGE` stands in `PropExpr`, since no condition holds one. `long long` is a 64-bit pattern. The
-- recursions of expr_eq and expr_transform take fuel: the height of the first expression, plus one,
-- and the weight of the expression, by which a negation counts three times its operand. That of
-- expr_eliminate_dups is the number of its operands, plus one: every round but the last removes one.
-- The theorems say that a result is returned. A store is consistent if the three constants have their
-- initial state, no boolean symbol has the value `m`, and no tristate symbol has it while the symbol
-- that enables modules is `n`.
--
-- What the code asks of the system is a parameter: the Store says where the allocator hands out the
-- address of a text again (`kept_text`, on which SYMBOL_CHANGED depends, since sym_calc_value compares
-- pointers), and conf_write takes the answers of the file system, and the files .config and
-- .config.old before it to those after it.
--
-- A computation of the monad takes the table to a result and a table; it has no result where the code
-- would follow a null pointer, or where the fuel of sym_calc_value is spent. What calls
-- sym_calc_value takes it as an argument, `calc`, and Symbol/Calculate closes the recursion, whose
-- fuel is the depth of nested calls: a call for a symbol that is valid returns at once, and any other
-- makes its symbol valid first, so the number of symbols that are not valid bounds the depth. The
-- fuel of sym_check_deps is the depth of nested calls too. In the macro language a computation ends
-- with a result, an error that ends the program, an access to memory that is not there, or without
-- fuel, which is the depth of nested expansions.
--
-- Not modelled: the printing of values and ranges of properties, the warning about unmet
-- dependencies, the message about a recursive dependency and its stack, the search by pattern
-- (sym_re_search), the callback of conf_set_changed, menu_finalize and the help texts of menu.c,
-- conf_write_autoconf, the creation of directories, the questions of conf.c, and the other
-- front ends, which are terminal input and output.
pub mod Prelude
pub mod Tristate
pub mod Expr
pub mod Symbol
pub mod Libc
pub mod Config
pub mod Macro
pub mod Util
pub mod Menu
pub mod Conf
mod Tests
