-- ===== src/Menu.antt =====
-- scripts/kconfig/menu.c: the menu tree, linked by pointers, and how the parser's calls build it. The
-- places in files, which serve messages, are left out, and so are the messages.
pub mod Tree
pub mod Build
pub mod Walk
pub mod Visible
use kdevops.Prelude.{
  ℕ, zero, suc, Bool, true, false, Option, none, some, List, [], ◌∷◌, ◌++◌, ◌==◌, length,
  if◌then◌else◌, Bytes,
}
use kdevops.Tristate.{tri_no}
use kdevops.Libc.{isspace}
use kdevops.Expr.{
  SymId, symbol_mod, Expr, symbol, not_expr, and_expr, or_expr, comp, PropExpr, condition,
  expr_alloc_and,
}
use kdevops.Symbol.{SymbolType, s_unknown, Symbol, PropType, p_prompt, p_symbol, Property, Store}
use kdevops.Symbol.State.{update}

-- A pointer to a property: the property of that number of the node's symbol, or one that no symbol has.
pub data Prompt : Type 0 where
  of_symbol : ℕ → Prompt
  own : Property → Prompt

-- `struct menu`. A node is a number that stands for its address; the root menu is 0.
pub record Menu : Type 0 where
  pub next : Option ℕ
  pub parent : Option ℕ
  pub list : Option ℕ
  pub sym : Option SymId
  pub prompt : Option Prompt
  pub visibility : Option Expr
  pub dep : Option Expr
  pub help : Option Bytes

-- What `last_entry_ptr` points to: the field `next` or `list` of a node.
pub data Slot : Type 0 where
  next_of list_of : ℕ → Slot

-- The nodes, the address of the next one, `current_menu`, `current_entry` and `last_entry_ptr`.
pub record Menus : Type 0 where
  pub node : ℕ → Menu
  pub fresh : ℕ
  pub current_menu : Option ℕ
  pub current_entry : ℕ
  pub last_entry : Slot

pub record World : Type 0 where
  pub store : Store
  pub menus : Menus

-- The memory that `memset` clears.
abbrev pub blank : Menu
blank = record {
  next = none;
  parent = none;
  list = none;
  sym = none;
  prompt = none;
  visibility = none;
  dep = none;
  help = none;
}

abbrev pub update_node : ℕ → (Menu → Menu) → (ℕ → Menu) → ℕ → Menu
update_node m f node k = if k == m then f (node k) else node k

-- `*last_entry_ptr = menu`
abbrev pub set_slot : Slot → Option ℕ → (ℕ → Menu) → ℕ → Menu
set_slot (next_of m) v node = update_node m (λ x. record x { next = v }) node
set_slot (list_of m) v node = update_node m (λ x. record x { list = v }) node

-- `_menu_init`
unfoldable pub menu_init : Menus
menu_init = record {
  node = λ k. blank;
  fresh = 1;
  current_menu = some 0;
  current_entry = 0;
  last_entry = list_of 0;
}

-- The entry that is being read.
abbrev pub change_entry : (Menu → Menu) → Menus → Menus
change_entry f ms = record ms { node = update_node ms.current_entry f ms.node }

abbrev append_to : Property → Symbol → Symbol
append_to p y = record y { prop = y.prop ++ p ∷ [] }

add_to_symbol : Option SymId → Property → Store → Store
add_to_symbol none p st = st
add_to_symbol (some s) p st = update s (append_to p) st

-- The part of `menu_add_prop` that stores a property: of an entry without a symbol nothing keeps it.
unfoldable pub menu_add_prop : Property → World → World
unfolding add_to_symbol
menu_add_prop p w = record w {
  store = add_to_symbol (w.menus.node w.menus.current_entry).sym p w.store;
}

abbrev new_prop : PropType → Option PropExpr → Option Expr → ℕ → Property
new_prop type e dep entry = record {
  type = type;
  text = none;
  visible = record { expr = dep; tri = tri_no };
  expr = e;
  menu = some entry;
}

unfoldable pub menu_add_expr : PropType → Option PropExpr → Option Expr → World → World
unfolding menu_add_prop
menu_add_expr type e dep w = menu_add_prop (new_prop type e dep w.menus.current_entry) w

unfoldable pub menu_add_symbol : PropType → SymId → Option Expr → World → World
unfolding menu_add_expr
menu_add_symbol type s dep = menu_add_expr type (some (condition (symbol s))) dep

-- A new node behind the last one.
abbrev pub add_node : Option SymId → Menus → Menus
add_node s ms = record ms {
  node =
      set_slot ms.last_entry (some ms.fresh)
        (update_node ms.fresh (λ x. record blank { sym = s; parent = ms.current_menu }) ms.node);
  fresh = suc ms.fresh;
  last_entry = next_of ms.fresh;
  current_entry = ms.fresh;
}

-- Its symbol gets a property that says where it is defined.
pub add_place : Option SymId → World → World
unfolding menu_add_symbol
add_place none w = w
add_place (some s) w = menu_add_symbol p_symbol s none w

unfoldable pub menu_add_entry : Option SymId → World → World
unfolding add_place
menu_add_entry s w = add_place s (record w { menus = add_node s w.menus })

-- What follows goes into the last entry.
unfoldable pub menu_add_menu : World → World
menu_add_menu w = record w {
  menus = record w.menus {
    last_entry = list_of w.menus.current_entry;
    current_menu = some w.menus.current_entry;
  };
}

-- There is no result where `current_menu` is null.
unfoldable pub menu_end_menu : World → Option World
menu_end_menu w = elim w.menus.current_menu [
  | none ↦ none
  | some m ↦ some (record w {
    menus = record w.menus { last_entry = next_of m; current_menu = (w.menus.node m).parent };
  })
]

-- `m` becomes `m && MODULES`.
unfoldable pub rewrite_m : SymId → Expr → Expr
rewrite_m modules (symbol s) =
    if s == symbol_mod then and_expr (symbol s) (symbol modules) else symbol s
rewrite_m modules (not_expr e) = not_expr (rewrite_m modules e)
rewrite_m modules (and_expr l r) = and_expr (rewrite_m modules l) (rewrite_m modules r)
rewrite_m modules (or_expr l r) = or_expr (rewrite_m modules l) (rewrite_m modules r)
rewrite_m modules (comp rel a b) = comp rel a b

unfoldable pub menu_add_dep : Option Expr → World → World
unfolding expr_alloc_and
menu_add_dep dep w = record w {
  menus = change_entry (λ x. record x { dep = expr_alloc_and x.dep dep }) w.menus;
}

unfoldable pub menu_add_visibility : Option Expr → World → World
unfolding expr_alloc_and
menu_add_visibility e w = record w {
  menus = change_entry (λ x. record x { visibility = expr_alloc_and x.visibility e }) w.menus;
}

typed : SymbolType → Symbol → Symbol
typed type y = elim y.type [ s_unknown ↦ record y { type = type } | _ ↦ y ]

-- A type that is set already stays, with a warning if the new one differs.
unfoldable pub menu_set_type : SymbolType → World → Option World
unfolding typed
menu_set_type type w = elim (w.menus.node w.menus.current_entry).sym [
  | none ↦ none
  | some s ↦ some (record w { store = update s (typed type) w.store })
]

skip_space : Bytes → Bytes
unfolding isspace
skip_space [] = []
skip_space (c ∷ cs) = let rest = skip_space cs in if isspace c then rest else c ∷ cs

-- The `visible if` of all the menus above a node. A node is made after its parent, so as many steps as
-- there are nodes are enough.
unfoldable pub upper_visibility : ℕ → (ℕ → Menu) → ℕ → Option Expr → Option Expr
unfolding expr_alloc_and
upper_visibility zero node m e = e
upper_visibility (suc steps) node m e = elim (node m).parent [
  | none ↦ e
  | some p ↦ upper_visibility steps node p (expr_alloc_and e (node p).visibility)
]

prompt_visibility : PropType → Menus → Option Expr → Option Expr
unfolding upper_visibility
prompt_visibility p_prompt ms dep = upper_visibility ms.fresh ms.node ms.current_entry dep
prompt_visibility _ ms dep = dep

-- The pointer to the property that is added next.
prompt_place : Option SymId → Property → Store → Prompt
prompt_place none p st = own p
prompt_place (some s) p st = of_symbol (length (st.sym s).prop)

unfoldable pub menu_add_prompt : PropType → Bytes → Option Expr → World → World
unfolding menu_add_prop skip_space prompt_visibility prompt_place
menu_add_prompt type prompt dep w =
    let p : Property =
      record (new_prop type none (prompt_visibility type w.menus dep) w.menus.current_entry) {
        text = some (skip_space prompt);
      } in
    let place = prompt_place (w.menus.node w.menus.current_entry).sym p w.store in
    let w' = menu_add_prop p w in
    record w' { menus = change_entry (λ x. record x { prompt = some place }) w'.menus }
