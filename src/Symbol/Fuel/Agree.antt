-- ===== src/Symbol/Fuel/Agree.antt =====
-- scripts/kconfig/symbol.c: two computations that agree on every store that weighs less than a limit,
-- and leave no symbol heavier than it was. `n` is a bound of the symbols' numbers.
use kdevops.Prelude.{
  ℕ, ◌≤◌, ◌<◌, ◌≡◌, refl, ◌∙◌, ap, Bool, true, false, Option, none, some, List, [], ◌∷◌,
  if◌then◌else◌, arith,
}
use kdevops.Expr.{SymId}
use kdevops.Tristate.{Tristate}
use kdevops.Symbol.{Symbol, Store, Flags}
use kdevops.Symbol.Fuel.{
  weight, Below, total, IsClosed, Below-trans, IsClosed-Below, total-Below, update-Below,
}
use kdevops.Symbol.State.{
  M, ◌>>=◌, pure, deref, when, get_symbol, modify, modify_flags, for_each, set_prop_visible,
  set_visible_at, mark_menus, sym_set_changed, sym_set_all_changed,
}

-- The store of a result, if there is one, is below this one.
unfoldable pub Within : {A : Type 0} → Store → Option (A × Store) → Type 0
Within st none = Unit {0}
Within st (some (a, st')) = Below st' st

pub Within-trans :
    {B : Type 0} (st st' : Store) (o : Option (B × Store))
    → Below st' st
    → Within st' o
    → Within st o
unfolding Within
Within-trans st st' none h k = tt
Within-trans st st' (some (b, st'')) h k = Below-trans st'' st' st k h

-- A step, and what is chained to it on the stores that are below.
pub bind-same :
    {A B : Type 0} (st : Store) (o : Option (A × Store)) (f f' : A → M B)
    → Within st o
    → ((a : A) (st' : Store) → Below st' st → f a st' ≡ f' a st')
    → elim o as (λ o. Option (B × Store)) [ none ↦ none | some (a, st') ↦ f a st' ]
      ≡ elim o as (λ o. Option (B × Store)) [ none ↦ none | some (a, st') ↦ f' a st' ]
unfolding Within
bind-same st none f f' h k = refl
bind-same st (some (a, st')) f f' h k = k a st' h

pub bind-Below :
    {A B : Type 0} (st : Store) (o : Option (A × Store)) (f : A → M B)
    → Within st o
    → ((a : A) (st' : Store) → Below st' st → Within st (f a st'))
    → Within st (elim o as (λ o. Option (B × Store)) [ none ↦ none | some (a, st') ↦ f a st' ])
unfolding Within
bind-Below st none f h k = tt
bind-Below st (some (a, st')) f h k = k a st' h

pub record Agree (n lim : ℕ) {A : Type 0} (m m' : M A) : Type 0 where
  pub same : (st : Store) → IsClosed n st → total n st < lim → m st ≡ m' st
  pub below : (st : Store) → IsClosed n st → total n st < lim → Within st (m st)

module _ {n lim : ℕ} where
  pub bind-Agree :
      {A B : Type 0} {m m' : M A} {f f' : A → M B}
      → Agree n lim m m'
      → ((a : A) → Agree n lim (f a) (f' a))
      → Agree n lim (m >>= f) (m' >>= f')
  bind-Agree {m = m} {m' = m'} {f = f} {f' = f'} h k = record {
    same = λ st c l.
        bind-same st (m st) f f' (h.below st c l) (λ a st' b.
          (k a).same st' (IsClosed-Below n st' st b c) (omega (arith, l, total-Below n st' st b)))
        ∙ ap (λ o. elim o [ none ↦ none | some (a, st') ↦ f' a st' ]) (h.same st c l);
    below = λ st c l. bind-Below st (m st) f (h.below st c l) (λ a st' b.
        Within-trans st st' (f a st') b (
          (k a).below st' (IsClosed-Below n st' st b c)
            (omega (arith, l, total-Below n st' st b))));
  }

  pub if-Agree :
      {A : Type 0} (b : Bool) {x x' y y' : M A}
      → Agree n lim x x'
      → Agree n lim y y'
      → Agree n lim (if b then x else y) (if b then x' else y')
  if-Agree true h k = h
  if-Agree false h k = k

  -- By whether there is something.
  pub option-Agree :
      {X A : Type 0} (o : Option X) {x x' : M A} {f f' : X → M A}
      → Agree n lim x x'
      → ((a : X) → Agree n lim (f a) (f' a))
      → Agree n lim (elim o [ none ↦ x | some a ↦ f a ]) (elim o [ none ↦ x' | some a ↦ f' a ])
  option-Agree none h k = h
  option-Agree (some a) h k = k a

  pub pure-Agree : {A : Type 0} (a : A) → Agree n lim (pure a) (pure a)
  unfolding Within
  pure-Agree a = record { same = λ st c l. refl; below = λ st c l s. omega arith }

  pub when-Agree :
      (b : Bool) {x x' : M (Unit {0})} → Agree n lim x x' → Agree n lim (when b x) (when b x')
  when-Agree true h = h
  when-Agree false h = pure-Agree tt

  pub deref-Agree : {A : Type 0} (o : Option A) → Agree n lim (deref o) (deref o)
  unfolding Within
  deref-Agree none = record { same = λ st c l. refl; below = λ st c l. tt }
  deref-Agree (some a) = pure-Agree a

  pub get_symbol-Agree : (s : SymId) → Agree n lim (get_symbol s) (get_symbol s)
  unfolding Within
  get_symbol-Agree s = record { same = λ st c l. refl; below = λ st c l s. omega arith }

  pub modify-Agree :
      (s : SymId) (f : Symbol → Symbol)
      → ((y : Symbol) → weight (f y) ≤ weight y)
      → Agree n lim (modify s f) (modify s f)
  unfolding Within
  modify-Agree s f h = record {
    same = λ st c l. refl;
    below = λ st c l. update-Below s f st (h (st.sym s));
  }

  pub modify_flags-Agree :
      (s : SymId) (f : Flags → Flags)
      → ((y : Symbol) → weight (record y { flags = f y.flags }) ≤ weight y)
      → Agree n lim (modify_flags s f) (modify_flags s f)
  modify_flags-Agree s f h = modify-Agree s (λ y. record y { flags = f y.flags }) h

  pub for_each-Agree :
      (f f' : SymId → M (Unit {0}))
      → ((s : SymId) → Agree n lim (f s) (f' s))
      → (ss : List SymId) → Agree n lim (for_each f ss) (for_each f' ss)
  unfolding for_each
  for_each-Agree f f' h [] = pure-Agree tt
  for_each-Agree f f' h (s ∷ ss) = bind-Agree (h s) (λ u. for_each-Agree f f' h ss)

  pub gets-Agree :
      {A : Type 0} (f : Store → A) → Agree n lim (λ st. some (f st, st)) (λ st. some (f st, st))
  unfolding Within
  gets-Agree f = record { same = λ st c l. refl; below = λ st c l s. omega arith }

  -- A change of the store without a result.
  pub step-Agree :
      (f : Store → Store)
      → ((st : Store) → Below (f st) st)
      → Agree n lim {A = Unit {0}} (λ st. some (tt, f st)) (λ st. some (tt, f st))
  unfolding Within
  step-Agree f h = record { same = λ st c l. refl; below = λ st c l. h st }

  pub set_prop_visible-Agree :
      (s : SymId) (i : ℕ) (v : Tristate)
      → Agree n lim (set_prop_visible s i v) (set_prop_visible s i v)
  unfolding set_prop_visible set_visible_at
  set_prop_visible-Agree s i v =
      modify-Agree s (λ y. record y { prop = set_visible_at i v y.prop }) (λ y. omega arith)

  pub sym_set_changed-Agree : (s : SymId) → Agree n lim (sym_set_changed s) (sym_set_changed s)
  unfolding sym_set_changed Within
  sym_set_changed-Agree s =
      bind-Agree (modify_flags-Agree s (λ f. record f { changed = true }) (λ y. omega arith)) (λ u.
        bind-Agree (get_symbol-Agree s) (λ y.
          step-Agree (λ st. record st { menu_changed = mark_menus y.prop st.menu_changed })
            (λ st s. omega arith)))

  pub sym_set_all_changed-Agree : Agree n lim sym_set_all_changed sym_set_all_changed
  unfolding sym_set_all_changed
  sym_set_all_changed-Agree = record {
    same = λ st c l. refl;
    below = λ st.
        (for_each-Agree sym_set_changed sym_set_changed sym_set_changed-Agree st.hashed).below st;
  }

  -- A choice of what to do by the store.
  pub at-Agree :
      {A : Type 0} {m m' : Store → M A}
      → ((st : Store) → Agree n lim (m st) (m' st))
      → Agree n lim (λ st. m st st) (λ st. m' st st)
  at-Agree h = record { same = λ st. (h st).same st; below = λ st. (h st).below st }
