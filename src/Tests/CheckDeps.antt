-- ===== src/Tests/CheckDeps.antt =====
-- `config DRIVER depends on NET` and `config NET depends on DRIVER && MODULES`.
use kdevops.Prelude.{
  zero, suc, Bool, true, false, not, ◌||◌, ◌≡◌, refl, Option, none, some, ◌==◌, if◌then◌else◌,
  arith,
}
use kdevops.Tristate.{tri_no}
use kdevops.Expr.{SymId, Expr, symbol, and_expr}
use kdevops.Symbol.{Symbol, Store}
use kdevops.Symbol.CheckDeps.{sym_check_deps}
use kdevops.Symbol.CheckDeps.Kept.{unchecked}
use kdevops.Symbol.CheckDeps.Keeps.{sym_check_deps-keeps}
use kdevops.Symbol.CheckDeps.Recursion.{
  first_symbol, Chain, here, step, Found, sym_check_deps-cycle,
}
use kdevops.Tests.{sample_symbol, modules, driver, net, sample}

abbrev depending : Symbol → Expr → Symbol
depending y e = record y { dir_dep = record { expr = some e; tri = tri_no } }

abbrev net_depends : Expr
net_depends = and_expr (symbol driver) (symbol modules)

abbrev looping : Store
looping = record sample {
  sym = λ s.
      if s == driver
      then depending (sample_symbol driver) (symbol net)
      else if s == net
      then depending (sample_symbol net) net_depends
      else sample_symbol s;
}

abbrev returned : Option (Option SymId × Store) → Option SymId
returned none = none
returned (some (r, st)) = r

-- Each of the two is found, and a symbol without dependencies is not.
loop_run :
    (returned (sym_check_deps 3 driver looping) ≡ some driver)
    × (returned (sym_check_deps 3 net looping) ≡ some net)
    × (returned (sym_check_deps 3 modules looping) ≡ none)
unfolding sym_check_deps
loop_run = (refl, refl, refl)

by_symbol :
    (s : SymId) (f : Symbol → Bool)
    → ((t : SymId) → f (sample_symbol t) ≡ false)
    → f (depending (sample_symbol driver) (symbol net)) ≡ false
    → f (depending (sample_symbol net) net_depends) ≡ false
    → f (looping.sym s) ≡ false
by_symbol s f h a b = ground (arith, h s, a, b)

clean_symbol :
    (s : SymId)
    → ((sample_symbol s).flags.check ≡ false) × ((sample_symbol s).flags.checked ≡ false)
clean_symbol zero = (refl, refl)
clean_symbol (suc zero) = (refl, refl)
clean_symbol (suc (suc zero)) = (refl, refl)
clean_symbol (suc (suc (suc zero))) = (refl, refl)
clean_symbol (suc (suc (suc (suc zero)))) = (refl, refl)
clean_symbol (suc (suc (suc (suc (suc zero))))) = (refl, refl)
clean_symbol (suc (suc (suc (suc (suc (suc s)))))) = (refl, refl)

looping-Chain : Chain looping (first_symbol (symbol net)) driver 1
unfolding first_symbol
looping-Chain = step net driver 0 net_depends refl refl refl (here driver)

sym_check_deps-cycle_example : Found (sym_check_deps 3 driver looping)
sym_check_deps-cycle_example =
    sym_check_deps-cycle 3 1 driver (symbol net) looping
      (λ t. by_symbol t (λ y. y.flags.check) (λ s. (clean_symbol s).0) refl refl)
      (λ t. by_symbol t (λ y. y.flags.checked) (λ s. (clean_symbol s).1) refl refl) refl refl refl
      looping-Chain (omega arith)

abbrev after : Store
after = elim (sym_check_deps 3 driver looping) [ none ↦ looping | some (r, st) ↦ st ]

after_run : sym_check_deps 3 driver looping ≡ some (some driver, after)
unfolding sym_check_deps
after_run = refl

sym_check_deps-keeps_example :
    (unchecked (after.sym net) ≡ unchecked (looping.sym net))
    × ((not (looping.sym net).flags.checked || (after.sym net).flags.checked) ≡ true)
sym_check_deps-keeps_example =
    sym_check_deps-keeps 3 driver net looping after (some driver) after_run
