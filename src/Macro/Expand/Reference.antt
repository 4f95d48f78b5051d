-- ===== src/Macro/Expand/Reference.antt =====
-- scripts/kconfig/preprocess.c: the expansion of a reference `$(NAME)` to a variable.
use kdevops.Prelude.{
  ℕ, zero, suc, ◌-◌, ◌≡◌, refl, ◌∙◌, ap, sym, Bool, true, false, ◌&&◌, Option, none, some, List, [],
  ◌∷◌, ◌++◌, ◌==◌, ltb, if◌then◌else◌, arith, Bytes,
}
use mathlib.Core.List.{append_assoc, append-nil}
use kdevops.Config.Line.Laws.{lacks}
use kdevops.Libc.{Conversion, strtoull}
use kdevops.Macro.{MacroState, Outcome, done, failed, fault, starved, P, ◌>>=◌, pure}
use kdevops.Macro.Laws.{bind-done}
use kdevops.Macro.Split.{nest_after, is_separator, parts, split_from, split_clause}
use kdevops.Macro.Expand.{
  in_clause, in_front, expand_all, is_empty_text, argument, nth, positional, scan, never_ends,
  resolve, call_parts, eval_split, eval_clause, expand_string_with_args,
}
use kdevops.Macro.Expand.Plain.{expand_string-plain}

-- A name that a reference can spell out.
pub record IsName (n : Bytes) : Type 0 where
  pub no_dollar : lacks b'$' n ≡ true
  pub no_open : lacks b'(' n ≡ true
  pub no_close : lacks b')' n ≡ true
  pub no_comma : lacks b',' n ≡ true

-- `$(n)`
abbrev pub reference : Bytes → Bytes
reference n = b'$' ∷ b'(' ∷ (n ++ b')' ∷ [])

lacks-cons :
    (b c : ℕ) (s : Bytes) → lacks b (c ∷ s) ≡ true → ((c == b) ≡ false) × (lacks b s ≡ true)
lacks-cons b c s h = (ground (arith, h), ground (arith, h))

scan-clause :
    (eval : Bytes → P Bytes) (read n : Bytes)
    → lacks b'(' n ≡ true
    → lacks b')' n ≡ true
    → scan never_ends eval (in_clause 0 read) (n ++ b')' ∷ [])
      ≡ (eval (read ++ n) >>= λ s. in_front s (pure ([], [])))
unfolding scan
scan-clause eval read [] h k =
    ap (λ r. eval r >>= λ s. in_front s (pure ([], []))) (sym (append-nil read))
scan-clause eval read (c ∷ n) h k =
    rw ((lacks-cons b'(' c n h).0, (lacks-cons b')' c n k).0)
      (scan-clause eval (read ++ c ∷ []) n (lacks-cons b'(' c n h).1 (lacks-cons b')' c n k).1
        ∙ ap (λ r. eval r >>= λ s. in_front s (pure ([], []))) (append_assoc read (c ∷ []) n))

is_separator-off : (nest c : ℕ) → (c == b',') ≡ false → is_separator nest c ≡ false
is_separator-off nest c h = ground (arith, h)

split_from-name :
    (nest : ℕ) (prev n : Bytes)
    → lacks b',' n ≡ true
    → split_from 0 nest prev n ≡ parts ((prev ++ n) ∷ [])
unfolding split_from
split_from-name nest prev [] h = ap (λ p. parts (p ∷ [])) (sym (append-nil prev))
split_from-name nest prev (c ∷ n) h = rw (is_separator-off nest c (lacks-cons b',' c n h).0) (
    split_from-name (nest_after nest c) (prev ++ c ∷ []) n (lacks-cons b',' c n h).1
    ∙ ap (λ p. parts (p ∷ [])) (append_assoc prev (c ∷ []) n))

nth-empty : (k : ℕ) → nth k [] ≡ none
unfolding nth
nth-empty zero = refl
nth-empty (suc k) = refl

if-same : (b : Bool) (o p : Option Bytes) → o ≡ p → (if b then o else p) ≡ p
if-same true o p h = h
if-same false o p h = refl

argument-none : (n : Conversion) → argument n [] ≡ none
unfolding argument
argument-none n =
    if-same (is_empty_text n.tail && ltb 0 n.bits) (nth (n.bits - 1) []) none
      (nth-empty (n.bits - 1))

positional-none : (s : Bytes) → positional s [] ≡ none
unfolding positional
positional-none s = argument-none (strtoull 10 s)

split_clause-name : (n : Bytes) → lacks b',' n ≡ true → split_clause n ≡ parts (n ∷ [])
unfolding split_clause
split_clause-name n h = split_from-name 0 [] n h

-- What a text is worth that is nothing but a clause.
text_only :
    (m : P Bytes) (st : MacroState) (o : Outcome Bytes)
    → m st ≡ o
    → ((m >>= λ s. in_front s (pure ([], []))) >>= λ r. pure r.0) st ≡ o
text_only m st o h = ap through h ∙ through_same o
  where
    front : Outcome Bytes → Outcome (Bytes × Bytes)
    front o = elim o [
      | done s st' ↦ in_front s (pure ([], [])) st'
      | failed e ↦ failed e
      | fault ↦ fault
      | starved ↦ starved
    ]

    through : Outcome Bytes → Outcome Bytes
    through o = elim (front o) [
      | done r st' ↦ done r.0 st'
      | failed e ↦ failed e
      | fault ↦ fault
      | starved ↦ starved
    ]

    through_same : (o : Outcome Bytes) → through o ≡ o
    through_same (done a st') = ap (λ a. done a st') (append-nil a)
    through_same (failed e) = refl
    through_same fault = refl
    through_same starved = refl

module _ (getenv : Bytes → Option Bytes) (run : Bytes → Bytes) (current_file : Bytes) (yylineno : ℕ)
    (fuel : ℕ) (n : Bytes) (name : IsName n) (st : MacroState) where
  abbrev expand : Bytes → List Bytes → P Bytes
  expand = expand_string_with_args getenv run current_file yylineno (suc fuel)

  abbrev meaning : P Bytes
  meaning = resolve getenv run current_file yylineno expand n []

  call_parts-name : call_parts getenv run current_file yylineno expand [] (n ∷ []) st ≡ meaning st
  unfolding call_parts expand_all
  call_parts-name =
      bind-done (expand n [])
        (λ name. expand_all (λ s. expand s []) [] >>= λ new_args.
          resolve getenv run current_file yylineno expand name new_args)
        st (expand_string-plain getenv run current_file yylineno fuel n [] st name.no_dollar)

  eval_clause-name : eval_clause getenv run current_file yylineno expand n [] st ≡ meaning st
  unfolding eval_clause eval_split
  eval_clause-name =
      ap
        (λ (o : Option Bytes).
          (elim o as (λ o. P Bytes) [
            | some a ↦ pure a
            | none ↦ eval_split getenv run current_file yylineno expand [] (split_clause n)
          ])
            st)
        (positional-none n)
      ∙ ap (λ p. eval_split getenv run current_file yylineno expand [] p st)
          (split_clause-name n name.no_comma)
      ∙ call_parts-name

  -- A reference means what its name resolves to.
  pub expand-reference :
      (o : Outcome Bytes)
      → meaning st ≡ o
      → expand_string_with_args getenv run current_file yylineno
          (suc (suc fuel))
          (reference n)
          []
          st
        ≡ o
  unfolding expand_string_with_args scan
  expand-reference o h =
      let eval = λ (c : Bytes). eval_clause getenv run current_file yylineno expand c [] in
      ap (λ (m : P (Bytes × Bytes)). (m >>= λ r. pure r.0) st)
        (scan-clause eval [] n name.no_open name.no_close)
      ∙ text_only (eval n) st o (eval_clause-name ∙ h)
