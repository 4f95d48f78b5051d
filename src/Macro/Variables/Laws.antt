-- ===== src/Macro/Variables/Laws.antt =====
-- scripts/kconfig/preprocess.c: what `variable_add` stores is what `variable_lookup` finds.
use kdevops.Prelude.{◌≡◌, refl, true, none, some, List, [], ◌∷◌, ◌++◌, arith, Bytes}
use kdevops.Libc.Laws.{strcmp_self}
use kdevops.Macro.{Variable}
use kdevops.Macro.Builtin.{bytes_eq}
use kdevops.Macro.Variables.{lookup_in, change_in}

pub bytes_eq_self : (s : Bytes) → bytes_eq s s ≡ true
unfolding bytes_eq
bytes_eq_self s = ground (arith, strcmp_self s)

-- A change of the variable of a name that keeps the name.
pub lookup-change :
    (name : Bytes) (f : Variable → Variable) (vs : List Variable) (v : Variable)
    → ((v : Variable) → (f v).name ≡ v.name)
    → lookup_in name vs ≡ some v
    → lookup_in name (change_in name f vs) ≡ some (f v)
unfolding lookup_in change_in
lookup-change name f [] v k h = cc
lookup-change name f (w ∷ vs) v k h = ground (arith, h, k w, lookup-change name f vs v k)

pub lookup-insert :
    (name : Bytes) (w : Variable) (vs : List Variable)
    → w.name ≡ name
    → lookup_in name vs ≡ none
    → lookup_in name (vs ++ w ∷ []) ≡ some w
unfolding lookup_in
lookup-insert name w [] n h = ground (arith, n, bytes_eq_self name)
lookup-insert name w (v ∷ vs) n h = ground (arith, h, lookup-insert name w vs n)

-- Two changes of the variable of a name, one after the other.
pub change-change :
    (name : Bytes) (f g : Variable → Variable) (vs : List Variable)
    → ((v : Variable) → (f v).name ≡ v.name)
    → ((v : Variable) → g (f v) ≡ v)
    → change_in name g (change_in name f vs) ≡ vs
unfolding change_in
change-change name f g [] k h = refl
change-change name f g (v ∷ vs) k h = ground (arith, k v, h v, change-change name f g vs k h)
