-- ===== src/Symbol/Assign/Toggle.antt =====
-- scripts/kconfig/symbol.c: which values `sym_set_tristate_value` takes, and the value that
-- `sym_toggle_tristate_value` ends at.
use kdevops.Prelude.{
  ℕ, suc, ap, ◌∙◌, Bool, true, false, ◌||◌, ◌≡◌, refl, inl, inr, Option, none, some, if◌then◌else◌,
  arith, Bool-cases,
}
use kdevops.Tristate.{Tristate, rank, tri_eq}
use kdevops.Expr.{SymId}
use kdevops.Symbol.{Store, sym_get_tristate_value}
use kdevops.Symbol.Assign.{
  store_tristate, sym_set_tristate_value, next_tristate, toggle_from, sym_toggle_tristate_value,
}
use kdevops.Symbol.Properties.{sym_tristate_within_range}
use kdevops.Symbol.State.{M, ◌>>◌, pure}

-- What `sym_set_tristate_value` takes: the value that the symbol has, or one of its range.
abbrev pub is_accepted : Store → SymId → Tristate → Bool
is_accepted st s t = tri_eq (sym_get_tristate_value st s) t || sym_tristate_within_range st s t

-- The first value behind the current one, in the order n, m, y, n, that is accepted.
unfoldable pub toggle_target : Store → SymId → Tristate
unfolding next_tristate rank
toggle_target st s =
    let old = sym_get_tristate_value st s in
    if is_accepted st s (next_tristate old)
    then next_tristate old
    else if is_accepted st s (next_tristate (next_tristate old))
    then next_tristate (next_tristate old)
    else old

set_refused :
    (fuel : ℕ) (s : SymId) (t : Tristate) (st : Store)
    → is_accepted st s t ≡ false
    → sym_set_tristate_value fuel s t st ≡ some (false, st)
unfolding sym_set_tristate_value rank
set_refused fuel s t st h = ground (arith, h)

set_accepted :
    (fuel : ℕ) (s : SymId) (t : Tristate) (st : Store)
    → is_accepted st s t ≡ true
    → sym_set_tristate_value fuel s t st ≡ (store_tristate fuel s t >> pure true) st
unfolding sym_set_tristate_value rank
set_accepted fuel s t st h = ground (arith, h)

-- What a round does with the answer of `sym_set_tristate_value`.
abbrev after_set : Bool → Tristate → M Tristate → Option (Bool × Store) → Option (Tristate × Store)
after_set back new rest none = none
after_set back new rest (some (done, st)) = if done || back then some (new, st) else rest st

after_set-round :
    (back : Bool) (new : Tristate) (rest : M Tristate) (r : Option (Bool × Store))
    → elim r [ none ↦ none | some (done, st) ↦ (if done || back then pure new else rest) st ]
      ≡ after_set back new rest r
after_set-round back new rest none = refl
after_set-round back new rest (some (true, st)) = refl
after_set-round true new rest (some (false, st)) = refl
after_set-round false new rest (some (false, st)) = refl

toggle_round :
    (rounds fuel : ℕ) (s : SymId) (old new : Tristate) (st : Store)
    → toggle_from (suc rounds) fuel s old new st
      ≡ after_set
          (tri_eq old (next_tristate new))
          (next_tristate new)
          (toggle_from rounds fuel s old (next_tristate new))
          (sym_set_tristate_value fuel s (next_tristate new) st)
unfolding toggle_from
toggle_round rounds fuel s old new st =
    after_set-round (tri_eq old (next_tristate new)) (next_tristate new)
      (toggle_from rounds fuel s old (next_tristate new))
      (sym_set_tristate_value fuel s (next_tristate new) st)

after_set-stored :
    (back : Bool) (new : Tristate) (rest : M Tristate) (r : Option (Unit {0} × Store))
    → after_set back new rest (elim r [ none ↦ none | some (u, st) ↦ some (true, st) ])
      ≡ elim r [ none ↦ none | some (u, st) ↦ some (new, st) ]
after_set-stored back new rest none = refl
after_set-stored back new rest (some (u, st)) = refl

-- A round whose value is accepted ends the loop.
round_accepted :
    (rounds fuel : ℕ) (s : SymId) (old new : Tristate) (st : Store)
    → is_accepted st s (next_tristate new) ≡ true
    → toggle_from (suc rounds) fuel s old new st
      ≡ (store_tristate fuel s (next_tristate new) >> pure (next_tristate new)) st
round_accepted rounds fuel s old new st h =
    toggle_round rounds fuel s old new st
    ∙ ap (after_set _ _ _) (set_accepted fuel s (next_tristate new) st h)
    ∙ after_set-stored _ _ _ (store_tristate fuel s (next_tristate new) st)

or_false : (a b : Bool) → a || b ≡ false → a ≡ false
or_false a b h = ground arith

round_refused :
    (rounds fuel : ℕ) (s : SymId) (new : Tristate) (st : Store)
    → is_accepted st s (next_tristate new) ≡ false
    → toggle_from (suc rounds) fuel s (sym_get_tristate_value st s) new st
      ≡ toggle_from rounds fuel s (sym_get_tristate_value st s) (next_tristate new) st
round_refused rounds fuel s new st h =
    toggle_round rounds fuel s (sym_get_tristate_value st s) new st
    ∙ ap (after_set _ _ _) (set_refused fuel s (next_tristate new) st h)
    ∙ ap
        (λ back.
          after_set back (next_tristate new)
            (toggle_from rounds fuel s (sym_get_tristate_value st s) (next_tristate new))
            (some (false, st)))
        (or_false _ _ h)

own_accepted :
    (st : Store) (s : SymId)
    → is_accepted st s (next_tristate (next_tristate (next_tristate (sym_get_tristate_value st s))))
      ≡ true
unfolding next_tristate rank
own_accepted st s = ground arith

module _ (st : Store) (s : SymId) where
  first_target :
      is_accepted st s (next_tristate (sym_get_tristate_value st s)) ≡ true
      → next_tristate (sym_get_tristate_value st s) ≡ toggle_target st s
  unfolding toggle_target
  first_target h = ground (arith, h)

  second_target :
      is_accepted st s (next_tristate (sym_get_tristate_value st s)) ≡ false
      → is_accepted st s (next_tristate (next_tristate (sym_get_tristate_value st s))) ≡ true
      → next_tristate (next_tristate (sym_get_tristate_value st s)) ≡ toggle_target st s
  unfolding toggle_target
  second_target g h = ground (arith, g, h)

  last_target :
      is_accepted st s (next_tristate (sym_get_tristate_value st s)) ≡ false
      → is_accepted st s (next_tristate (next_tristate (sym_get_tristate_value st s))) ≡ false
      → next_tristate (next_tristate (next_tristate (sym_get_tristate_value st s)))
        ≡ toggle_target st s
  unfolding toggle_target next_tristate
  last_target g h = ground (arith, g, h)

abbrev store_and_return : ℕ → SymId → Store → Tristate → Option (Tristate × Store)
store_and_return fuel s st t = (store_tristate fuel s t >> pure t) st

-- sym_toggle_tristate_value does what storing the first value behind the symbol's own does, in the
-- order n, m, y, n, that sym_set_tristate_value accepts, which is its own where it accepts neither
-- of the others, and returns that value. The values that are refused before it change nothing.
pub toggle_target-stored :
    (fuel : ℕ) (s : SymId) (st : Store)
    → sym_toggle_tristate_value fuel s st
      ≡ (store_tristate fuel s (toggle_target st s) >> pure (toggle_target st s)) st
unfolding sym_toggle_tristate_value
toggle_target-stored fuel s st =
    let old = sym_get_tristate_value st s in
    elim (Bool-cases (is_accepted st s (next_tristate old))) [
      | inl a ↦
          round_accepted 2 fuel s old old st a
          ∙ ap (store_and_return fuel s st) (first_target st s a)
      | inr a ↦
          round_refused 2 fuel s old st a
          ∙ elim (Bool-cases (is_accepted st s (next_tristate (next_tristate old)))) [
            | inl b ↦
                round_accepted 1 fuel s old (next_tristate old) st b
                ∙ ap (store_and_return fuel s st) (second_target st s a b)
            | inr b ↦
                round_refused 1 fuel s (next_tristate old) st b
                ∙ round_accepted 0 fuel s old (next_tristate (next_tristate old)) st
                    (own_accepted st s)
                ∙ ap (store_and_return fuel s st) (last_target st s a b)
          ]
    ]
