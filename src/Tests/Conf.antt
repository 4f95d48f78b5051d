-- ===== src/Tests/Conf.antt =====
-- Runs of the modes of conf.c that ask nothing, and a theorem at a concrete input.
use kdevops.Prelude.{◌≡◌, refl, none, some, [], ◌∷◌, codes, arith, ◌+◌, ◌==◌, if◌then◌else◌}
use kdevops.Conf.{probabilities, randomize_choice_values}
use kdevops.Conf.Chosen.{IsApart, AreDistinct, Randomizes, randomize_choice_values-Randomizes}
use kdevops.Expr.{values}
use kdevops.Symbol.{p_choice, Property, Store}
use kdevops.Symbol.Properties.{sym_get_choice_prop, choice_values}
use kdevops.Tests.{no_expr, sample_symbol, modules, driver, net, sample}

abbrev choice_prop : Property
choice_prop = record {
  type = p_choice;
  text = none;
  visible = no_expr;
  expr = some (values (driver ∷ net ∷ []));
  menu = none;
}

-- A choice that is `y`, among `DRIVER` and `NET`.
abbrev choice_store : Store
choice_store = record sample {
  sym = λ s.
      if s == modules
      then record (sample_symbol modules) { prop = choice_prop ∷ [] }
      else sample_symbol s;
}

-- The chances for one number, for three, and for what is no number or too much.
one_probability : probabilities (some (codes "25")) ≡ some (record { pby = 25; pty = 13; ptm = 12 })
unfolding probabilities
one_probability = refl

three_probabilities :
    probabilities (some (codes "10:20:30:40")) ≡ some (record { pby = 10; pty = 20; ptm = 30 })
unfolding probabilities
three_probabilities = refl

no_number : probabilities (some (codes "x")) ≡ some (record { pby = 0; pty = 0; ptm = 0 })
unfolding probabilities
no_number = refl

too_much : probabilities (some (codes "60:50")) ≡ none
unfolding probabilities
too_much = refl

negative : probabilities (some (codes "-1")) ≡ none
unfolding probabilities
negative = refl

randomize_choice_values-Randomizes_example :
    Randomizes
      (driver ∷ net ∷ [])
      modules
      6
      9
      (randomize_choice_values (λ k. k + 3) modules 6 choice_store)
unfolding sym_get_choice_prop choice_values IsApart AreDistinct
randomize_choice_values-Randomizes_example =
    randomize_choice_values-Randomizes (λ k. k + 3) modules 6 choice_prop choice_store refl refl
      (omega arith) (refl, (refl, tt)) ((refl, tt), (tt, tt))
