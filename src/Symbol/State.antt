-- ===== src/Symbol/State.antt =====
-- scripts/kconfig/symbol.c: the code that changes the symbol table, as a state monad. A computation
-- has no result where a null pointer would be followed, or where the fuel of a recursion is spent.
pub mod Laws
use kdevops.Prelude.{
  ℕ, Bool, true, false, Option, none, some, List, [], ◌∷◌, ◌==◌, if◌then◌else◌, zero, suc,
}
use kdevops.Tristate.{Tristate}
use kdevops.Expr.{SymId}
use kdevops.Symbol.{Store, Symbol, SymbolValue, Flags, Property}

abbrev pub M : Type 0 → Type 0
M A = Store → Option (A × Store)

infixl 5 ◌>>=◌ ◌>>◌
abbrev pub ◌>>=◌ : {A B : Type 0} → M A → (A → M B) → M B
◌>>=◌ m f st = elim (m st) [ none ↦ none | some (a, st') ↦ f a st' ]

abbrev pub ◌>>◌ : {B : Type 0} → M (Unit {0}) → M B → M B
m >> k = m >>= λ _. k

abbrev pub pure : {A : Type 0} → A → M A
pure a st = some (a, st)

abbrev pub skip : M (Unit {0})
skip = pure tt

abbrev pub fault : {A : Type 0} → M A
fault st = none

abbrev pub when : Bool → M (Unit {0}) → M (Unit {0})
when true m = m
when false m = skip

-- A pointer that is followed.
abbrev pub deref : {A : Type 0} → Option A → M A
deref none = fault
deref (some a) = pure a

abbrev pub get_symbol : SymId → M Symbol
get_symbol s st = some (st.sym s, st)

abbrev pub get_modules_val : M Tristate
get_modules_val st = some (st.modules_val, st)

abbrev pub get_modules_sym : M SymId
get_modules_sym st = some (st.modules_sym, st)

abbrev pub get_kept_text : SymId → M Bool
get_kept_text s st = some (st.kept_text s, st)

-- The table with one symbol changed.
abbrev pub update : SymId → (Symbol → Symbol) → Store → Store
update s f st = record st { sym = λ t. if t == s then f (st.sym t) else st.sym t }

abbrev pub modify : SymId → (Symbol → Symbol) → M (Unit {0})
modify s f st = some (tt, update s f st)

abbrev pub modify_flags : SymId → (Flags → Flags) → M (Unit {0})
modify_flags s f = modify s (λ y. record y { flags = f y.flags })

abbrev pub set_curr : SymId → SymbolValue → M (Unit {0})
set_curr s v = modify s (λ y. record y { curr = v })

-- `prop->visible.tri = v` of a symbol's property, by its place in the list.
unfoldable pub set_visible_at : ℕ → Tristate → List Property → List Property
set_visible_at i v [] = []
set_visible_at zero v (p ∷ ps) =
    record p { visible = record { expr = p.visible.expr; tri = v } } ∷ ps
set_visible_at (suc i) v (p ∷ ps) = p ∷ set_visible_at i v ps

unfoldable pub set_prop_visible : SymId → ℕ → Tristate → M (Unit {0})
unfolding set_visible_at
set_prop_visible s i v = modify s (λ y. record y { prop = set_visible_at i v y.prop })

pub mark_menus : List Property → (ℕ → Bool) → ℕ → Bool
mark_menus [] marked = marked
mark_menus (p ∷ ps) marked =
    mark_menus ps (elim p.menu [ none ↦ marked | some k ↦ λ i. if i == k then true else marked i ])

unfoldable pub sym_set_changed : SymId → M (Unit {0})
unfolding mark_menus
sym_set_changed s = do
  modify_flags s (λ f. record f { changed = true })
  y ← get_symbol s
  λ st. some (tt, record st { menu_changed = mark_menus y.prop st.menu_changed })

-- Each of a list of symbols in turn.
unfoldable pub for_each : (SymId → M (Unit {0})) → List SymId → M (Unit {0})
for_each f [] = skip
for_each f (s ∷ ss) = f s >> for_each f ss

unfoldable pub sym_set_all_changed : M (Unit {0})
unfolding sym_set_changed for_each
sym_set_all_changed st = for_each sym_set_changed st.hashed st
