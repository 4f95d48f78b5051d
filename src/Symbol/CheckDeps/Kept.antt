-- ===== src/Symbol/CheckDeps/Kept.antt =====
-- scripts/kconfig/symbol.c: what the steps of `sym_check_deps` keep of every symbol.
use kdevops.Prelude.{
  ◌≡◌, refl, ◌∙◌, Bool, true, false, not, ◌||◌, Option, none, some, List, [], ◌∷◌, ◌==◌,
  if◌then◌else◌, arith, Bool-cases, inl, inr,
}
use kdevops.Expr.{SymId}
use kdevops.Symbol.{Symbol, Store}
use kdevops.Symbol.Properties.{sym_get_choice_prop, prop_get_symbol}
use kdevops.Symbol.State.{M, ◌>>=◌, pure, deref, get_symbol, update, for_each}
use kdevops.Symbol.CheckDeps.{or_next, mark, unmark, is_symbol, blame}

-- A symbol without the flags of the check.
abbrev pub unchecked : Symbol → Symbol
unchecked y = record y { flags = record y.flags { check = false; checked = false } }

abbrev pub stays : Bool → Bool → Bool
stays a b = not a || b

pub record Kept (y' y : Symbol) : Type 0 where
  pub rest : unchecked y' ≡ unchecked y
  pub checked : stays y.flags.checked y'.flags.checked ≡ true

stays_trans : (a b c : Bool) → stays a b ≡ true → stays b c ≡ true → stays a c ≡ true
stays_trans true true true h k = refl
stays_trans true true false h k = k
stays_trans true false c h k = absurd (ground (arith, h))
stays_trans false b c h k = refl

stays_self : (a : Bool) → stays a a ≡ true
stays_self true = refl
stays_self false = refl

Kept-self : (y : Symbol) → Kept y y
Kept-self y = record { rest = refl; checked = stays_self y.flags.checked }

unfoldable pub Within : {A : Type 0} → Store → Option (A × Store) → Type 0
Within st none = Unit {0}
Within st (some (a, st')) = (t : SymId) → Kept (st'.sym t) (st.sym t)

Within-trans :
    {B : Type 0} (st st' : Store) (o : Option (B × Store))
    → ((t : SymId) → Kept (st'.sym t) (st.sym t))
    → Within st' o
    → Within st o
unfolding Within
Within-trans st st' none h k = tt
Within-trans st st' (some (b, st'')) h k = λ t. record {
  rest = (k t).rest ∙ (h t).rest;
  checked =
      stays_trans (st.sym t).flags.checked (st'.sym t).flags.checked (st''.sym t).flags.checked
        (h t).checked (k t).checked;
}

pub record Keeps {A : Type 0} (m : M A) : Type 0 where
  pub within : (st : Store) → Within st (m st)

bind-Within :
    {A B : Type 0} (st : Store) (o : Option (A × Store)) (f : A → M B)
    → Within st o
    → ((a : A) → Keeps (f a))
    → Within st (elim o as (λ o. Option (B × Store)) [ none ↦ none | some (a, st') ↦ f a st' ])
unfolding Within
bind-Within st none f h k = tt
bind-Within st (some (a, st')) f h k = Within-trans st st' (f a st') h ((k a).within st')

pub bind-Keeps :
    {A B : Type 0} {m : M A} {f : A → M B} → Keeps m → ((a : A) → Keeps (f a)) → Keeps (m >>= f)
bind-Keeps {m = m} {f = f} h k = record { within = λ st. bind-Within st (m st) f (h.within st) k }

pub if-Keeps : {A : Type 0} (b : Bool) {m n : M A} → Keeps m → Keeps n → Keeps (if b then m else n)
if-Keeps true h k = h
if-Keeps false h k = k

pub pure-Keeps : {A : Type 0} (a : A) → Keeps (pure a)
unfolding Within
pure-Keeps a = record { within = λ st t. Kept-self (st.sym t) }

pub deref-Keeps : {A : Type 0} (o : Option A) → Keeps (deref o)
unfolding Within
deref-Keeps none = record { within = λ st. tt }
deref-Keeps (some a) = pure-Keeps a

pub get_symbol-Keeps : (s : SymId) → Keeps (get_symbol s)
unfolding Within
get_symbol-Keeps s = record { within = λ st t. Kept-self (st.sym t) }

pub or_next-Keeps : {m rest : M (Option SymId)} → Keeps m → Keeps rest → Keeps (or_next m rest)
or_next-Keeps {rest = rest} h k = bind-Keeps h (after k)
  where
    after :
        {rest : M (Option SymId)}
        → Keeps rest
        → (r : Option SymId)
        → Keeps (elim r as (λ r. M (Option SymId)) [ none ↦ rest | some x ↦ pure (some x) ])
    after k none = k
    after k (some x) = pure-Keeps (some x)

update-Kept :
    (s t : SymId) (f : Symbol → Symbol) (st : Store)
    → ((y : Symbol) → Kept (f y) y)
    → Kept ((update s f st).sym t) (st.sym t)
update-Kept s t f st h = elim (Bool-cases (t == s)) [
  | inl e ↦ rw e (h (st.sym t))
  | inr e ↦ rw e (Kept-self (st.sym t))
]

pub mark-Keeps : (s : SymId) → Keeps (mark s)
unfolding Within
mark-Keeps s = record {
  within = λ st t.
      update-Kept s t (λ y. record y { flags = record y.flags { check = true; checked = true } }) st
        (λ y. record { rest = refl; checked = ground arith });
}

pub unmark-Keeps : (s : SymId) → Keeps (unmark s)
unfolding Within
unmark-Keeps s = record {
  within = λ st t.
      update-Kept s t (λ y. record y { flags = record y.flags { check = false } }) st
        (λ y. record { rest = refl; checked = stays_self y.flags.checked });
}

pub for_each-Keeps :
    (f : SymId → M (Unit {0}))
    → ((s : SymId) → Keeps (f s))
    → (ss : List SymId) → Keeps (for_each f ss)
unfolding for_each
for_each-Keeps f h [] = pure-Keeps tt
for_each-Keeps f h (s ∷ ss) = bind-Keeps (h s) (λ u. for_each-Keeps f h ss)

pub blame-Keeps : (s : SymId) (d : Option SymId) → Keeps (blame s d)
unfolding blame
blame-Keeps s none = pure-Keeps none
blame-Keeps s (some d) = bind-Keeps (get_symbol-Keeps d) (λ y.
    if-Keeps y.flags.choiceval
      (bind-Keeps (deref-Keeps (sym_get_choice_prop y))
        (λ p. pure-Keeps (if is_symbol s (prop_get_symbol p) then some s else some d)))
      (pure-Keeps (some d)))
