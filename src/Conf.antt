-- ===== src/Conf.antt =====
-- scripts/kconfig/conf.c: the values that the modes without questions (allyesconfig, randconfig and
-- their like) give to the symbols that have none.
pub mod Chosen
use kdevops.Prelude.{
  ℕ, zero, suc, ◌+◌, ◌-◌, ◌/◌, ◌%◌, ◌^◌, Bool, true, false, not, ◌&&◌, ◌||◌, Option, none, some,
  List, [], ◌∷◌, ◌==◌, ltb, leb, length, if◌then◌else◌, Bytes,
}
use kdevops.Tristate.{Tristate, tri_no, tri_mod, tri_yes, tri_eq}
use kdevops.Expr.{SymId}
use kdevops.Libc.{strtoll}
use kdevops.Symbol.{SymbolType, s_boolean, s_tristate, Payload, chosen, Symbol, Flags, Store}
use kdevops.Symbol.Calculate.{set_all_choice_values, sym_calc_value, sym_clear_all_valid}
use kdevops.Symbol.Properties.{is_tristate_type, sym_get_choice_prop, choice_values, sym_get_type}
use kdevops.Symbol.State.{
  M, ◌>>=◌, ◌>>◌, pure, fault, when, deref, get_symbol, update, modify, modify_flags, for_each,
}

pub data ConfDefMode : Type 0 where
  def_default def_yes def_mod def_no def_random : ConfDefMode

abbrev pub is_random : ConfDefMode → Bool
is_random def_random = true
is_random _ = false

-- The chances in percent: of `y` for a boolean symbol, and of `y` and `m` for a tristate one.
pub record Probabilities : Type 0 where
  pub pby : ℕ
  pub pty : ℕ
  pub ptm : ℕ

abbrev pub skip_colon : Bytes → Bytes
skip_colon [] = []
skip_colon (c ∷ cs) = if c == 58 then cs else c ∷ cs

-- The loop over `KCONFIG_PROBABILITY`, for at most `left` more numbers. Without a result the program
-- has ended with an error. The `long` of `strtol` is cut to an `int`.
unfoldable pub probability_numbers : ℕ → Bytes → Option (List ℕ)
unfolding strtoll
probability_numbers zero env = some []
probability_numbers (suc left) [] = some []
probability_numbers (suc left) (c ∷ cs) =
    let n = strtoll 10 (c ∷ cs) in
    let tmp = n.bits % 2 ^ 32 in
    let rest = probability_numbers left (skip_colon n.tail) in
    if leb tmp 100 then elim rest [ none ↦ none | some ps ↦ some (tmp ∷ ps) ] else none

-- The `switch` on how many there are.
unfoldable pub spread : List ℕ → Probabilities
spread [] = record { pby = 50; pty = 33; ptm = 33 }
spread (a ∷ []) = record { pby = a; pty = a - a / 2; ptm = a / 2 }
spread (a ∷ b ∷ []) = record { pby = a + b; pty = a; ptm = b }
spread (a ∷ b ∷ c ∷ _) = record { pby = a; pty = b; ptm = c }

-- `env` is the variable `KCONFIG_PROBABILITY`, if it is set.
unfoldable pub probabilities : Option Bytes → Option Probabilities
unfolding probability_numbers spread
probabilities env = elim (probability_numbers 3 (elim env [ none ↦ [] | some text ↦ text ])) [
  | none ↦ none
  | some ps ↦ let p = spread ps in if ltb 100 (p.pty + p.ptm) then none else some p
]

abbrev pub with_user_value : Tristate → Symbol → Symbol
with_user_value t y = record y { def_value = record { val = y.def_value.val; tri = t } }

-- A number below 100 against the chances.
unfoldable pub random_tristate : Probabilities → SymbolType → ℕ → Tristate
random_tristate p type cnt =
    if is_tristate_type type
    then if ltb cnt p.pty then tri_yes else if ltb cnt (p.pty + p.ptm) then tri_mod else tri_no
    else if ltb cnt p.pby
    then tri_yes
    else tri_no

abbrev pub is_logical : SymbolType → Bool
is_logical s_boolean = true
is_logical s_tristate = true
is_logical _ = false

-- The new value of a symbol, if there is one. In random mode that of a choice does not count as set by
-- the user.
unfoldable pub set_user_value : Bool → SymId → Option Tristate → Store → Store
set_user_value unset s none st = st
set_user_value unset s (some t) st =
    let a = update s (with_user_value t) st in
    if unset then a else update s (λ y. record y { flags = record y.flags { def_user = true } }) a

-- One value of a choice: the picked one is `y`, and its choice refers to it.
unfoldable pub set_choice_value : SymId → SymId → Bool → Store → Store
set_choice_value c s picked st =
    let a = update s (with_user_value (if picked then tri_yes else tri_no)) st in
    let b =
      if picked
      then update c (λ y. record y { def_value = record { val = chosen s; tri = y.def_value.tri } })
          a
      else a in
    update s (λ y. record y { flags = record y.flags { def_user = true; valid = false } }) b

-- The values from number `cnt` on.
unfoldable pub set_choice_values : SymId → ℕ → ℕ → List SymId → Store → Store
unfolding set_choice_value
set_choice_values c picked cnt [] st = st
set_choice_values c picked cnt (s ∷ ss) st =
    set_choice_values c picked (cnt + 1) ss (set_choice_value c s (picked == cnt) st)

-- A loop over symbols that hands a value on.
unfoldable pub for_all : {A : Type 0} → (A → SymId → M A) → A → List SymId → M A
for_all f a [] = pure a
for_all f a (s ∷ ss) = do b ← f a s; for_all f b ss

-- `rand k` is what the call number `k` of `rand` returns. Each function takes the number of the next
-- call and whether anything has changed, and returns both.
module _ (rand : ℕ → ℕ) where
  -- The remainder by the number of values traps where the choice has none.
  unfoldable pub randomize_choice_values : SymId → ℕ → M (ℕ × Bool)
  unfolding set_choice_values sym_get_choice_prop choice_values
  randomize_choice_values c calls = do
    y ← get_symbol c
    if not (tri_eq y.curr.tri tri_yes) then pure (calls, false) else (do
      p ← deref (sym_get_choice_prop y)
      let vs = choice_values p
      when (length vs == 0) fault
      (λ st. some (tt, set_choice_values c (rand calls % length vs) 0 vs st))
      modify_flags c (λ f. record f { def_user = true; valid = false })
      pure (suc calls, true))

  -- The value for a new symbol, if the mode has one, and the number of the next call.
  unfoldable pub new_value : ConfDefMode → Probabilities → SymbolType → ℕ → Option Tristate × ℕ
  unfolding random_tristate
  new_value def_yes p type calls = (some tri_yes, calls)
  new_value def_mod p type calls = (some tri_mod, calls)
  new_value def_no p type calls = (some tri_no, calls)
  new_value def_random p type calls = (some (random_tristate p type (rand calls % 100)), suc calls)
  new_value def_default p type calls = (none, calls)

  unfoldable pub set_new_symbol : ConfDefMode → Probabilities → ℕ × Bool → SymId → M (ℕ × Bool)
  unfolding new_value set_user_value sym_get_type
  set_new_symbol mode p (calls, has_changed) s st =
      let y = st.sym s in
      if y.flags.def_user || y.flags.valid || not (is_logical (sym_get_type st s))
      then some ((calls, has_changed), st)
      else (let (v, k) = new_value mode p y.type calls in
          some ((k, true), set_user_value (y.flags.choice && is_random mode) s v st))

  mark_choice : SymId → M (Unit {0})
  mark_choice s = do
    y ← get_symbol s
    when (y.flags.choice && not y.flags.def_user || y.flags.choiceval)
        (modify_flags s (λ f. record f { need_set_choice_values = true }))

  -- `fuel` is that of `sym_calc_value`.
  unfoldable pub set_new_choice : ℕ → ConfDefMode → ℕ × Bool → SymId → M (ℕ × Bool)
  unfolding randomize_choice_values sym_calc_value set_all_choice_values
  set_new_choice fuel mode (calls, has_changed) s = do
    y ← get_symbol s
    if y.flags.def_user || not y.flags.choice then pure (calls, has_changed) else (do
      sym_calc_value fuel s
      if is_random mode
          then (do (k, changed) ← randomize_choice_values s calls; pure (k, has_changed || changed))
          else (do set_all_choice_values (sym_calc_value fuel) s; pure (calls, true)))

  -- `conf_set_all_new_symbols`, given the chances.
  unfoldable pub set_all_new : ℕ → ConfDefMode → Probabilities → ℕ → M (ℕ × Bool)
  unfolding set_new_symbol sym_clear_all_valid mark_choice set_new_choice for_all for_each
  set_all_new fuel mode p calls st =
      (do
        a ← for_all (set_new_symbol mode p) (calls, false) st.hashed
        sym_clear_all_valid fuel
        when (not (is_random mode)) (for_each mark_choice st.hashed)
        for_all (set_new_choice fuel mode) a st.hashed)
        st

  -- `conf_set_all_new_symbols`; the outer `none` is the end of the program with an error.
  unfoldable pub conf_set_all_new_symbols :
      ℕ → ConfDefMode → Option Bytes → ℕ → Option (M (ℕ × Bool))
  unfolding set_all_new probabilities
  conf_set_all_new_symbols fuel def_random env calls = elim (probabilities env) [
    | none ↦ none
    | some p ↦ some (set_all_new fuel def_random p calls)
  ]
  conf_set_all_new_symbols fuel mode env calls = some (set_all_new fuel mode (spread []) calls)

unfoldable pub conf_rewrite_tristates : ℕ → Tristate → Tristate → M (Unit {0})
unfolding sym_clear_all_valid sym_get_type for_each
conf_rewrite_tristates fuel old_val new_val st =
    (do
      for_each
          (λ s st.
            let y = st.sym s in
            some (
              tt,
              if is_tristate_type (sym_get_type st s) && tri_eq y.def_value.tri old_val
                  then update s (with_user_value new_val) st
                  else st,
            ))
          st.hashed
      sym_clear_all_valid fuel)
      st
