-- ===== src/Macro/Expand/Plain.antt =====
-- scripts/kconfig/preprocess.c: a text without `$` is its own expansion.
use kdevops.Prelude.{ℕ, suc, ◌≡◌, refl, ◌∙◌, true, false, Option, List, [], ◌∷◌, ◌==◌, arith, Bytes}
use kdevops.Config.Line.Laws.{lacks}
use kdevops.Macro.{MacroState, done, P, pure}
use kdevops.Macro.Laws.{bind-done}
use kdevops.Macro.Expand.{in_text, in_front, scan, never_ends, expand_string_with_args}

not_dollar :
    (c : ℕ) (s : Bytes) → lacks b'$' (c ∷ s) ≡ true → ((c == b'$') ≡ false) × (lacks b'$' s ≡ true)
not_dollar c s h = (ground (arith, h), ground (arith, h))

scan-text :
    (eval : Bytes → P Bytes) (c d : ℕ) (s : Bytes) (st : MacroState)
    → (c == b'$') ≡ false
    → scan never_ends eval in_text (c ∷ d ∷ s) st
      ≡ in_front (c ∷ []) (scan never_ends eval in_text (d ∷ s)) st
unfolding scan never_ends
scan-text eval c d s st h = rw h refl

scan-plain :
    (eval : Bytes → P Bytes) (s : Bytes) (st : MacroState)
    → lacks b'$' s ≡ true
    → scan never_ends eval in_text s st ≡ done (s, []) st
unfolding scan never_ends
scan-plain eval [] st h = refl
scan-plain eval (c ∷ []) st h = rw ((not_dollar c [] h).0) refl
scan-plain eval (c ∷ d ∷ s) st h =
    scan-text eval c d s st (not_dollar c (d ∷ s) h).0
    ∙ bind-done (scan never_ends eval in_text (d ∷ s)) (λ r. pure (c ∷ r.0, r.1)) st
        (scan-plain eval (d ∷ s) st (not_dollar c (d ∷ s) h).1)

module _ (getenv : Bytes → Option Bytes) (run : Bytes → Bytes) (current_file : Bytes)
    (yylineno : ℕ) where
  -- A text without `$` expands to itself, and nothing else happens.
  pub expand_string-plain :
      (fuel : ℕ) (s : Bytes) (args : List Bytes) (st : MacroState)
      → lacks b'$' s ≡ true
      → expand_string_with_args getenv run current_file yylineno (suc fuel) s args st ≡ done s st
  unfolding expand_string_with_args
  expand_string-plain fuel s args st h =
      bind-done (scan never_ends _ in_text s) (λ r. pure r.0) st (scan-plain _ s st h)
