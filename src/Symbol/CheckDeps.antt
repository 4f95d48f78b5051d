-- ===== src/Symbol/CheckDeps.antt =====
-- scripts/kconfig/symbol.c: `sym_check_deps`, the search for symbols that depend on themselves. The
-- stack of what is being checked serves the message only, and is left out with it.
pub mod Kept
pub mod Keeps
pub mod Recursion
use kdevops.Prelude.{
  ℕ, zero, suc, Bool, true, false, not, ◌&&◌, Option, none, some, List, [], ◌∷◌, ◌==◌,
  if◌then◌else◌,
}
use kdevops.Expr.{
  SymId, Expr, symbol, not_expr, and_expr, or_expr, comp, PropExpr, condition, values, range,
}
use kdevops.Symbol.{PropType, p_choice, p_select, p_imply, Property}
use kdevops.Symbol.Properties.{
  is_default, sym_get_choice_prop, prop_get_symbol, choice_values, choice_of,
}
use kdevops.Symbol.State.{M, ◌>>=◌, ◌>>◌, pure, deref, get_symbol, modify_flags, for_each}

-- `if (sym2) return sym2;`
abbrev pub or_next : M (Option SymId) → M (Option SymId) → M (Option SymId)
or_next m rest = m >>= λ r. elim r [ none ↦ rest | some x ↦ pure (some x) ]

-- SYMBOL_CHECK and SYMBOL_CHECKED are set, and the first is cleared.
abbrev pub mark : SymId → M (Unit {0})
mark s = modify_flags s (λ f. record f { check = true; checked = true })

abbrev pub unmark : SymId → M (Unit {0})
unmark s = modify_flags s (λ f. record f { check = false })

-- The kinds of property that are not looked at.
abbrev pub is_skipped : PropType → Bool
is_skipped p_choice = true
is_skipped p_select = true
is_skipped p_imply = true
is_skipped _ = false

pub is_symbol : SymId → Option SymId → Bool
is_symbol s none = false
is_symbol s (some t) = t == s

-- A value of the choice stands for the choice.
unfoldable pub blame : SymId → Option SymId → M (Option SymId)
unfolding is_symbol prop_get_symbol sym_get_choice_prop
blame s none = pure none
blame s (some d) = do
  y ← get_symbol d
  if y.flags.choiceval
      then (do
        p ← deref (sym_get_choice_prop y)
        pure (if is_symbol s (prop_get_symbol p) then some s else some d))
      else pure (some d)

-- `check` is `sym_check_deps`.
module _ (check : SymId → M (Option SymId)) where
  unfoldable pub sym_check_expr_deps : Expr → M (Option SymId)
  sym_check_expr_deps (symbol s) = check s
  sym_check_expr_deps (not_expr e) = sym_check_expr_deps e
  sym_check_expr_deps (and_expr l r) = or_next (sym_check_expr_deps l) (sym_check_expr_deps r)
  sym_check_expr_deps (or_expr l r) = or_next (sym_check_expr_deps l) (sym_check_expr_deps r)
  sym_check_expr_deps (comp rel a b) = or_next (check a) (check b)

  unfoldable pub check_expr? : Option Expr → M (Option SymId)
  unfolding sym_check_expr_deps
  check_expr? none = pure none
  check_expr? (some e) = sym_check_expr_deps e

  -- The expression of a default; of a list or a range the code only prints that it cannot check it.
  unfoldable pub check_default : Option PropExpr → M (Option SymId)
  unfolding sym_check_expr_deps
  check_default none = pure none
  check_default (some (condition e)) = sym_check_expr_deps e
  check_default (some (values ss)) = pure none
  check_default (some (range lo hi)) = pure none

  -- The loop over the properties of a symbol, which may be a choice.
  unfoldable pub check_props : Bool → List Property → M (Option SymId)
  unfolding check_expr? check_default
  check_props choice [] = pure none
  check_props choice (p ∷ ps) =
      let rest = check_props choice ps in
      if is_skipped p.type
      then rest
      else or_next (check_expr? p.visible.expr)
          (if is_default p.type && not choice then or_next (check_default p.expr) rest else rest)

  unfoldable pub sym_check_sym_deps : SymId → M (Option SymId)
  unfolding check_expr? check_props
  sym_check_sym_deps s = do
    y ← get_symbol s
    or_next (check_expr? y.dir_dep.expr) (
        or_next (check_expr? y.rev_dep.expr)
          (or_next (check_expr? y.implied.expr) (check_props y.flags.choice y.prop)))

  -- The loop over the values of a choice.
  unfoldable pub check_values : List SymId → M (Option SymId)
  unfolding sym_check_sym_deps
  check_values [] = pure none
  check_values (s ∷ ss) = or_next (sym_check_sym_deps s) (check_values ss)

  unfoldable pub sym_check_choice_deps : SymId → M (Option SymId)
  unfolding sym_check_sym_deps check_values blame for_each sym_get_choice_prop choice_values
  sym_check_choice_deps s = do
    y ← get_symbol s
    p ← deref (sym_get_choice_prop y)
    for_each mark (choice_values p)
    mark s
    r ← sym_check_sym_deps s
    unmark s
    d ← or_next (pure r) (check_values (choice_values p))
    for_each unmark (choice_values p)
    blame s d

  unfoldable pub check_body : SymId → M (Option SymId)
  unfolding sym_check_choice_deps sym_check_sym_deps choice_of
  check_body s = do
    y ← get_symbol s
    if y.flags.check
        then pure (some s)
        else if y.flags.checked
        then pure none
        else if y.flags.choiceval
        then (do c ← deref (choice_of y); check c)
        else if y.flags.choice
        then sym_check_choice_deps s
        else (do mark s; r ← sym_check_sym_deps s; unmark s; pure r)

-- `sym_check_deps` with fuel for its recursion.
unfoldable pub sym_check_deps : ℕ → SymId → M (Option SymId)
unfolding check_body
sym_check_deps zero s st = none
sym_check_deps (suc fuel) s st = check_body (sym_check_deps fuel) s st
