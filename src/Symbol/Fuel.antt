-- ===== src/Symbol/Fuel.antt =====
-- scripts/kconfig/symbol.c: what falls with each call of `sym_calc_value`, the number of symbols that
-- are not valid, where a choice that has its values to set counts for two more.
pub mod Agree
pub mod Evaluate
pub mod Visibility
pub mod Range
pub mod Value
pub mod Result
pub mod Lighter
pub mod Enough
use kdevops.Prelude.{
  ℕ, zero, suc, ◌+◌, ◌≤◌, ◌<◌, ◌≡◌, refl, ◌∙◌, Bool, true, false, Option, none, some, ◌==◌, ltb,
  if◌then◌else◌, arith, Bool-cases, inl, inr, ◌⊎◌,
}
use mathlib.Core.Path.{subst}
use kdevops.Expr.{SymId}
use kdevops.Symbol.{Symbol, Store}
use kdevops.Symbol.State.{update}

abbrev pub weight : Symbol → ℕ
weight y = (if y.flags.valid then 0 else 1) + (if y.flags.need_set_choice_values then 2 else 0)

-- The first store has no symbol that weighs more than in the second.
abbrev pub Below : Store → Store → Type 0
Below st' st = (s : SymId) → weight (st'.sym s) ≤ weight (st.sym s)

unfoldable pub total : ℕ → Store → ℕ
total zero st = 0
total (suc n) st = weight (st.sym n) + total n st

-- The symbols of the store have numbers below `n`.
abbrev pub IsClosed : ℕ → Store → Type 0
IsClosed n st = (s : SymId) → n ≤ s → weight (st.sym s) ≡ 0

pub Below-trans : (a b c : Store) → Below a b → Below b c → Below a c
Below-trans a b c h k s = omega (arith, h s, k s)

pub IsClosed-Below : (n : ℕ) (st' st : Store) → Below st' st → IsClosed n st → IsClosed n st'
IsClosed-Below n st' st h k s le = omega (arith, h s, k s le)

pub total-Below : (n : ℕ) (st' st : Store) → Below st' st → total n st' ≤ total n st
unfolding total
total-Below zero st' st h = omega arith
total-Below (suc n) st' st h = omega (arith, h n, total-Below n st' st h)

-- The total falls where the weight of one symbol falls.
pub total-strict :
    (n : ℕ) (st' st : Store) (s : SymId)
    → Below st' st
    → weight (st'.sym s) < weight (st.sym s)
    → s < n
    → total n st' < total n st
unfolding total
total-strict zero st' st s h k le = absurd (omega arith)
total-strict (suc n) st' st s h k le = elim (Bool-cases (s == n)) [
  | inl e ↦ strict_here e
  | inr e ↦ omega (arith, h n, total-strict n st' st s h k (ground (arith, e, le)))
]
  where
    strict_here :
        (s == n) ≡ true → weight (st'.sym n) + total n st' < weight (st.sym n) + total n st
    strict_here e = omega (
      arith,
      subst (λ s. weight (st'.sym s) < weight (st.sym s)) (eq e) k,
      total-Below n st' st h,
    )
      where
        eq : (s == n) ≡ true → s ≡ n
        eq e = ground (arith, e)

-- A symbol that weighs something has a number in the range.
pub weighs-lt : (n : ℕ) (st : Store) (s : SymId) → IsClosed n st → 0 < weight (st.sym s) → s < n
weighs-lt n st s h k = elim (Bool-cases (ltb s n)) [
  | inl e ↦ ground (arith, e)
  | inr e ↦ absurd (omega (arith, k, h s (ground (arith, e))))
]

pub update-Below :
    (s : SymId) (f : Symbol → Symbol) (st : Store)
    → weight (f (st.sym s)) ≤ weight (st.sym s)
    → Below (update s f st) st
update-Below s f st h t = ground (arith, h)
