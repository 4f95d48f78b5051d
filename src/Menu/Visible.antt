-- ===== src/Menu/Visible.antt =====
-- scripts/kconfig/menu.c: `menu_is_visible`, `menu_is_empty` and what is read of a menu node. The nodes
-- are those of a tree that is built. `visible.tri` of a prompt without a symbol is calculated before
-- each read, so the result stands for it.
use kdevops.Prelude.{
  ℕ, zero, suc, Bool, true, false, not, Option, none, some, List, [], ◌∷◌, ◌==◌, if◌then◌else◌,
  Bytes,
}
use kdevops.Tristate.{Tristate, tri_no, rank, tri_eq}
use kdevops.Expr.{SymId, Expr}
use kdevops.Symbol.{Property, PropType, p_menu, Store}
use kdevops.Symbol.Evaluate.{expr_calc_value?}
use kdevops.Symbol.State.{M, ◌>>=◌, ◌>>◌, pure, fault, deref, get_symbol, modify_flags}
use kdevops.Menu.{Menu, Prompt, of_symbol, own}

get_prop : List Property → ℕ → Option Property
get_prop [] i = none
get_prop (p ∷ ps) zero = some p
get_prop (p ∷ ps) (suc i) = get_prop ps i

props_of : Option SymId → Store → List Property
props_of none st = []
props_of (some s) st = (st.sym s).prop

-- What a prompt points to.
unfoldable pub prompt_prop : Option SymId → Prompt → Store → Option Property
unfolding get_prop props_of
prompt_prop sym (own p) st = some p
prompt_prop sym (of_symbol i) st = get_prop (props_of sym st) i

abbrev pub menu_has_prompt : Menu → Bool
menu_has_prompt x = elim x.prompt [ none ↦ false | some p ↦ true ]

-- The name of a symbol, for a node without a prompt.
name_of : Option SymId → Store → Option Bytes
name_of none st = none
name_of (some s) st = (st.sym s).name

unfoldable pub menu_get_prompt : Menu → M (Option Bytes)
unfolding prompt_prop name_of
menu_get_prompt x = elim x.prompt [
  | none ↦ λ st. some (name_of x.sym st, st)
  | some p ↦ (λ st. some (prompt_prop x.sym p st, st)) >>= λ o. deref o >>= λ q. pure q.text
]

abbrev pub menu_get_help : Menu → Bytes
menu_get_help x = elim x.help [ none ↦ [] | some text ↦ text ]

is_menu_type : PropType → Bool
is_menu_type p_menu = true
is_menu_type _ = false

module _ (node : ℕ → Menu) where
  -- The next menu upwards whose prompt is that of a menu, or the root, in at most so many steps. There
  -- is no result where a parent is null before the root is reached.
  unfoldable pub menu_get_parent_menu : ℕ → ℕ → M ℕ
  unfolding prompt_prop is_menu_type
  menu_get_parent_menu zero m = fault
  menu_get_parent_menu (suc steps) m = if m == 0 then pure 0 else (do
    type ← elim (node m).prompt [
      | none ↦ pure false
      | some p ↦ (λ st. some (prompt_prop (node m).sym p st, st)) >>= λ o.
          deref o >>= λ q. pure (is_menu_type q.type)
    ]
    if type then pure m else (deref (node m).parent >>= λ p. menu_get_parent_menu steps p))

  module _ (calc : SymId → M (Unit {0})) where
    -- Whether `visible if` hides a node.
    is_hidden : Option Expr → M Bool
    unfolding expr_calc_value? rank
    is_hidden none = pure false
    is_hidden (some e) = do v ← expr_calc_value? calc (some e); pure (tri_eq v tri_no)

    -- The visibility of the prompt, when its symbol is calculated.
    prompt_visible : Menu → Prompt → M Tristate
    unfolding prompt_prop expr_calc_value?
    prompt_visible x p = elim x.sym [
      | none ↦ (λ st. some (prompt_prop none p st, st)) >>= λ o.
          deref o >>= λ q. expr_calc_value? calc q.visible.expr
      | some s ↦
          calc s
          >> ((λ st. some (prompt_prop (some s) p st, st)) >>= λ o.
              deref o >>= λ q. pure q.visible.tri)
    ]

    -- The loop over the entries below, of which there are at most so many.
    any_visible : (ℕ → M Bool) → ℕ → Option ℕ → M Bool
    any_visible visible zero o = elim o [ none ↦ pure false | some c ↦ fault ]
    any_visible visible (suc count) none = pure false
    any_visible visible (suc count) (some c) = do
      found ← visible c
      elim found [ true ↦ pure true | false ↦ any_visible visible count (node c).next ]

    -- A symbol that is not `n` is shown where something below it is.
    by_entries : Option SymId → M Bool → M Bool
    unfolding rank
    by_entries none below = pure false
    by_entries (some s) below = do
      y ← get_symbol s
      if tri_eq y.curr.tri tri_no then pure false else (do
        found ← below
        if found
            then modify_flags s (λ f. record f { def_user = true }) >> pure true
            else pure false)

    -- The fuel bounds the depth of the tree and the number of entries below a node.
    unfoldable pub menu_is_visible : ℕ → ℕ → M Bool
    unfolding is_hidden prompt_visible any_visible by_entries rank
    menu_is_visible zero m = fault
    menu_is_visible (suc fuel) m = elim (node m).prompt [
      | none ↦ pure false
      | some p ↦ do
        hidden ← is_hidden (node m).visibility
        elim hidden [
          | true ↦ pure false
          | false ↦ do
            v ← prompt_visible (node m) p
            if not (tri_eq v tri_no)
                then pure true
                else by_entries (node m).sym (any_visible (menu_is_visible fuel) fuel (node m).list)
        ]
    ]

    unfoldable pub menu_is_empty : ℕ → ℕ → M Bool
    unfolding any_visible menu_is_visible
    menu_is_empty fuel m = do
      found ← any_visible (menu_is_visible fuel) fuel (node m).list
      pure (not found)
