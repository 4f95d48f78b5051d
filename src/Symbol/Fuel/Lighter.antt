-- ===== src/Symbol/Fuel/Lighter.antt =====
-- scripts/kconfig/symbol.c: the two steps of `sym_calc_value` that leave less to calculate.
use kdevops.Prelude.{ℕ, suc, ◌≤◌, ◌<◌, ◌≡◌, true, false, ◌&&◌, arith}
use kdevops.Expr.{SymId}
use kdevops.Symbol.{Symbol, Store}
use kdevops.Symbol.State.Laws.{update_self}
use kdevops.Symbol.State.{update}
use kdevops.Symbol.Fuel.{
  weight, Below, total, IsClosed, total-strict, weighs-lt, update-Below, Below-trans,
}

-- A symbol that gets lighter brings the total below the limit of the inner calculations.
pub drop_lem :
    (n lim : ℕ) (s : SymId) (st st' : Store)
    → IsClosed n st
    → total n st < suc lim
    → Below st' st
    → weight (st'.sym s) < weight (st.sym s)
    → total n st' < lim
drop_lem n lim s st st' c l b k =
    omega (arith, l, total-strict n st' st s b k (weighs-lt n st s c (omega (arith, k))))

abbrev pub set_valid : Symbol → Symbol
set_valid y = record y { flags = record y.flags { valid = true } }

pub set_valid-Below :
    (s : SymId) (st st' : Store) → Below st' st → Below (update s set_valid st') st
set_valid-Below s st st' b =
    Below-trans (update s set_valid st') st' st (update-Below s set_valid st' (lighter (st'.sym s)))
      b
  where
    lighter : (y : Symbol) → weight (set_valid y) ≤ weight y
    lighter y = omega arith

-- A symbol that was not valid gets lighter, whatever was calculated before.
pub set_valid-lighter :
    (s : SymId) (st st' : Store)
    → (st.sym s).flags.valid ≡ false
    → Below st' st
    → weight ((update s set_valid st').sym s) < weight (st.sym s)
set_valid-lighter s st st' e b =
    rw (update_self s set_valid st') (lighter (st.sym s) (st'.sym s) e (b s))
  where
    lighter :
        (y y' : Symbol)
        → y.flags.valid ≡ false
        → weight y' ≤ weight y
        → weight (set_valid y') < weight y
    lighter y y' e k = ground (arith, e, k)

abbrev pub set_once : Symbol → Symbol
set_once y = record y { flags = record y.flags { need_set_choice_values = false } }

pub set_once-Below : (s : SymId) (st : Store) → Below (update s set_once st) st
set_once-Below s st = update-Below s set_once st (lighter (st.sym s))
  where
    lighter : (y : Symbol) → weight (set_once y) ≤ weight y
    lighter y = omega arith

pub set_once-lighter :
    (s : SymId) (st : Store)
    → ((st.sym s).flags.choiceval && (st.sym s).flags.need_set_choice_values) ≡ true
    → weight ((update s set_once st).sym s) < weight (st.sym s)
set_once-lighter s st e = rw (update_self s set_once st) (lighter (st.sym s) e)
  where
    lighter :
        (y : Symbol)
        → (y.flags.choiceval && y.flags.need_set_choice_values) ≡ true
        → weight (set_once y) < weight y
    lighter y e = ground (arith, e)
