-- ===== src/Symbol.antt =====
-- scripts/kconfig/expr.h: `struct symbol`, `struct property` and the symbol table.
pub mod Compare
pub mod Consistent
pub mod State
pub mod Table
pub mod Properties
pub mod Evaluate
pub mod Visibility
pub mod Range
pub mod NewValue
pub mod Calculate
pub mod CheckDeps
pub mod Fuel
pub mod Assign
pub mod TextValid
pub mod AssignText
use kdevops.Prelude.{ℕ, Bool, Option, List, Bytes}
use kdevops.Tristate.{Tristate}
use kdevops.Expr.{SymId, Expr, PropExpr}

pub data SymbolType : Type 0 where
  s_unknown s_boolean s_tristate s_int s_hex s_string : SymbolType

-- What a `void *val` of `struct symbol_value` points to.
pub data Payload : Type 0 where
  null : Payload
  text : Bytes → Payload
  chosen : SymId → Payload

pub record SymbolValue : Type 0 where
  pub val : Payload
  pub tri : Tristate

-- `struct expr_value`
pub record ExprValue : Type 0 where
  pub expr : Option Expr
  pub tri : Tristate

pub data PropType : Type 0 where
  p_unknown p_prompt p_comment p_menu p_default p_choice p_select p_imply p_range p_symbol :
      PropType

-- `menu` is the number of the menu node.
pub record Property : Type 0 where
  pub type : PropType
  pub text : Option Bytes
  pub visible : ExprValue
  pub expr : Option PropExpr
  pub menu : Option ℕ

-- The `SYMBOL_*` bits of `flags`.
pub record Flags : Type 0 where
  pub const : Bool
  pub choice : Bool
  pub choiceval : Bool
  pub valid : Bool
  pub optional : Bool
  pub write : Bool
  pub changed : Bool
  pub no_write : Bool
  pub def_user : Bool
  pub def_auto : Bool
  pub written : Bool
  pub check : Bool
  pub checked : Bool
  pub need_set_choice_values : Bool

-- `def_value` is `def[S_DEF_USER]`, and `auto_value` is `def[S_DEF_AUTO]`.
pub record Symbol : Type 0 where
  pub name : Option Bytes
  pub type : SymbolType
  pub curr : SymbolValue
  pub def_value : SymbolValue
  pub auto_value : SymbolValue
  pub visible : Tristate
  pub flags : Flags
  pub prop : List Property
  pub dir_dep : ExprValue
  pub rev_dep : ExprValue
  pub implied : ExprValue

-- The symbols by their addresses; those in `symbol_hash`, in its order; the globals `modules_sym`,
-- `modules_val` and `conf_changed`; the menu nodes that have the flag MENU_CHANGED; the address of
-- the next symbol; the global `conf_warnings`; the names whose dependency files were touched; and, since
-- addresses of texts are left to the allocator, whether the next text that a calculation gives to a symbol
-- stands where the same text stood before, if it is the same.
pub record Store : Type 0 where
  pub sym : SymId → Symbol
  pub hashed : List SymId
  pub modules_sym : SymId
  pub modules_val : Tristate
  pub conf_changed : Bool
  pub menu_changed : ℕ → Bool
  pub fresh : SymId
  pub conf_warnings : ℕ
  pub touched : List Bytes
  pub kept_text : SymId → Bool

abbrev pub symbol_type : Store → SymId → SymbolType
symbol_type st s = (st.sym s).type

abbrev pub sym_get_tristate_value : Store → SymId → Tristate
sym_get_tristate_value st s = (st.sym s).curr.tri
