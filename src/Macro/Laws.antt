-- ===== src/Macro/Laws.antt =====
-- scripts/kconfig/preprocess.c: following a computation whose first step is known to be done, and
-- what holds of the result if there is one.
use kdevops.Prelude.{◌≡◌, ap}
use kdevops.Macro.{MacroState, MacroError, done, failed, fault, starved, P, ◌>>=◌}

pub bind-done :
    {A B : Type 0} (m : P A) (f : A → P B) (st : MacroState) {st' : MacroState} {a : A}
    → m st ≡ done a st'
    → (m >>= f) st ≡ f a st'
bind-done m f st h =
    ap
      (λ o. elim o [
        | done a st' ↦ f a st'
        | failed e ↦ failed e
        | fault ↦ fault
        | starved ↦ starved
      ])
      h

pub bind-fault :
    {A B : Type 0} (m : P A) (f : A → P B) (st : MacroState) → m st ≡ fault → (m >>= f) st ≡ fault
bind-fault m f st h =
    ap
      (λ o. elim o [
        | done a st' ↦ f a st'
        | failed e ↦ failed e
        | fault ↦ fault
        | starved ↦ starved
      ])
      h

pub bind-failed :
    {A B : Type 0} (m : P A) (f : A → P B) (st : MacroState) {e : MacroError}
    → m st ≡ failed e
    → (m >>= f) st ≡ failed e
bind-failed m f st h =
    ap
      (λ o. elim o [
        | done a st' ↦ f a st'
        | failed e ↦ failed e
        | fault ↦ fault
        | starved ↦ starved
      ])
      h
