-- ===== src/Symbol/Fuel/Range.antt =====
-- scripts/kconfig/symbol.c: `sym_validate_range`, with two calculations of symbols that agree.
use kdevops.Prelude.{ℕ, Option, none, some, if◌then◌else◌, arith}
use kdevops.Libc.{strtoll, compare_signed}
use kdevops.Expr.{SymId}
use kdevops.Symbol.{text}
use kdevops.Symbol.Compare.{payload_text, is_lt, is_gt}
use kdevops.Symbol.Properties.{range_bounds}
use kdevops.Symbol.Range.{
  print_bound, base_of, base_or, sym_get_range_val, bring_below, bring_into, set_bound, validate_in,
  sym_validate_range,
}
use kdevops.Symbol.State.{M}
use kdevops.Symbol.Fuel.Agree.{
  Agree, bind-Agree, if-Agree, option-Agree, pure-Agree, deref-Agree, get_symbol-Agree,
  modify-Agree,
}
use kdevops.Symbol.Fuel.Evaluate.{sym_get_range_prop-Agree}

module _ (n lim : ℕ) (calc calc' : SymId → M (Unit {0}))
    (h : (s : SymId) → Agree n lim (calc s) (calc' s)) where
  sym_get_range_val-Agree :
      (s : SymId) (base : ℕ)
      → Agree n lim (sym_get_range_val calc s base) (sym_get_range_val calc' s base)
  unfolding sym_get_range_val
  sym_get_range_val-Agree s base = bind-Agree (h s) (λ u.
      bind-Agree (get_symbol-Agree s)
        (λ y. pure-Agree (strtoll (base_or base (base_of y.type)) (payload_text y.curr.val)).bits))

  bring_below-Agree :
      (base val : ℕ) (hi : SymId)
      → Agree n lim (bring_below calc base val hi) (bring_below calc' base val hi)
  unfolding bring_below
  bring_below-Agree base val hi =
      bind-Agree (sym_get_range_val-Agree hi base)
        (λ upper. pure-Agree (if is_gt (compare_signed val upper) then some upper else none))

  bring_into-Agree :
      (s : SymId) (base val : ℕ) (bounds : SymId × SymId)
      → Agree n lim (bring_into calc s base val bounds) (bring_into calc' s base val bounds)
  unfolding bring_into
  bring_into-Agree s base val (lo, hi) = bind-Agree (sym_get_range_val-Agree lo base) (λ lower.
      if-Agree (is_lt (compare_signed val lower)) (pure-Agree (some lower))
        (bring_below-Agree base val hi))

  set_bound-Agree :
      (s : SymId) (b : Option ℕ) → Agree n lim (set_bound calc s b) (set_bound calc' s b)
  unfolding set_bound
  set_bound-Agree s none = pure-Agree tt
  set_bound-Agree s (some bits) =
      modify-Agree s
        (λ y. record y { curr = record { val = text (print_bound y.type bits); tri = y.curr.tri } })
        (λ y. omega arith)

  validate_in-Agree :
      (s : SymId) (base : ℕ) → Agree n lim (validate_in calc s base) (validate_in calc' s base)
  unfolding validate_in
  validate_in-Agree s base = bind-Agree (sym_get_range_prop-Agree n lim calc calc' h s) (λ found.
      option-Agree found (pure-Agree tt) (λ f.
        bind-Agree (deref-Agree (range_bounds f.0)) (λ bounds. bind-Agree (get_symbol-Agree s) (λ y.
          bind-Agree (bring_into-Agree s base (strtoll base (payload_text y.curr.val)).bits bounds)
            (set_bound-Agree s)))))

  pub sym_validate_range-Agree :
      (s : SymId) → Agree n lim (sym_validate_range calc s) (sym_validate_range calc' s)
  unfolding sym_validate_range
  sym_validate_range-Agree s =
      bind-Agree (get_symbol-Agree s)
        (λ y. option-Agree (base_of y.type) (pure-Agree tt) (validate_in-Agree s))
