-- ===== src/Macro/Keeps.antt =====
-- scripts/kconfig/preprocess.c: computations that leave the list of variables as it is.
use kdevops.Prelude.{◌≡◌, ◌∙◌, Bool, true, false, if◌then◌else◌, List}
use kdevops.Macro.{Variable, MacroState, Outcome, done, failed, fault, starved, P, ◌>>=◌}

-- A result, if there is one, comes with these variables.
abbrev pub With : {A : Type 0} → List Variable → Outcome A → Type 0
With vs (done a st) = st.variables ≡ vs
With vs (failed e) = Unit {0}
With vs fault = Unit {0}
With vs starved = Unit {0}

abbrev pub Keeps : {A : Type 0} → P A → Type 0
Keeps m = (st : MacroState) → With st.variables (m st)

With-same : {B : Type 0} (vs ws : List Variable) (o : Outcome B) → ws ≡ vs → With ws o → With vs o
With-same vs ws (done b st) h k = k ∙ h
With-same vs ws (failed e) h k = tt
With-same vs ws fault h k = tt
With-same vs ws starved h k = tt

pub bind-With :
    {A B : Type 0} (vs : List Variable) (o : Outcome A) (f : A → P B)
    → With vs o
    → ((a : A) → Keeps (f a))
    → With vs
        (elim o [ done a st ↦ f a st | failed e ↦ failed e | fault ↦ fault | starved ↦ starved ])
bind-With vs (done a st) f h k = With-same vs st.variables (f a st) h (k a st)
bind-With vs (failed e) f h k = tt
bind-With vs fault f h k = tt
bind-With vs starved f h k = tt

pub bind-Keeps :
    {A B : Type 0} (m : P A) (f : A → P B) → Keeps m → ((a : A) → Keeps (f a)) → Keeps (m >>= f)
bind-Keeps m f h k st = bind-With st.variables (m st) f (h st) k

pub if-Keeps : {A : Type 0} (b : Bool) (m n : P A) → Keeps m → Keeps n → Keeps (if b then m else n)
if-Keeps true m n h k = h
if-Keeps false m n h k = k
