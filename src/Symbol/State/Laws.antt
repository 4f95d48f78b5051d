-- ===== src/Symbol/State/Laws.antt =====
-- scripts/kconfig/symbol.c: the laws of the state monad that proofs follow a computation with.
use kdevops.Prelude.{ℕ, Bool, true, false, ◌≡◌, refl, ap, none, some, ◌==◌, arith}
use kdevops.Expr.{SymId}
use kdevops.Symbol.{Symbol, Store}
use kdevops.Symbol.State.{M, ◌>>=◌, when, update}

-- A step whose result is known.
pub bind-eq :
    {A B : Type 0} (m : M A) (f : A → M B) (st : Store) {st' : Store} {a : A}
    → m st ≡ some (a, st')
    → (m >>= f) st ≡ f a st'
bind-eq m f st h = ap (λ o. elim o [ none ↦ none | some (a, st') ↦ f a st' ]) h

pub when-off : (b : Bool) (m : M (Unit {0})) (st : Store) → b ≡ false → when b m st ≡ some (tt, st)
when-off b m st h = rw h refl

pub update_self :
    (s : SymId) (f : Symbol → Symbol) (st : Store) → (update s f st).sym s ≡ f (st.sym s)
update_self s f st = rw (same s) refl
  where
    same : (s : ℕ) → (s == s) ≡ true
    same s = ground arith
