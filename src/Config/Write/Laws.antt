-- ===== src/Config/Write/Laws.antt =====
-- scripts/kconfig/confdata.c: what `conf_write` leaves, on each way out of it.
use mathlib.Core.Path.{subst}
use kdevops.Prelude.{
  Bool-cases, inl, inr, ◌⊎◌, ℕ, Bool, true, false, ◌≡◌, refl, sym, Option, none, some, List, [],
  ◌∷◌, if◌then◌else◌, Bytes, arith,
}
use kdevops.Expr.{SymId}
use kdevops.Symbol.{Symbol, Store}
use kdevops.Symbol.State.{update, modify_flags, for_each}
use kdevops.Menu.{Menu}
use kdevops.Config.Write.Same.{Differs, is_same-eq, is_same-Differs}
use kdevops.Config.Write.{
  Output, FileSystem, Files, Exit, refused, not_opened, not_renamed, unchanged, written, is_same,
  move_old, close_config, is_refused, begin_config, write_entries, clear_written, write_config,
  conf_write,
}

abbrev clear : Symbol → Symbol
clear y = record y { flags = record y.flags { written = false } }

clear_all : List SymId → Store → Store
clear_all [] st = st
clear_all (s ∷ ss) st = clear_all ss (update s clear st)

for_each-clear :
    (ss : List SymId) (st : Store)
    → for_each (λ s. modify_flags s (λ f. record f { written = false })) ss st
      ≡ some (tt, clear_all ss st)
unfolding for_each clear_all
for_each-clear [] st = refl
for_each-clear (s ∷ ss) st = for_each-clear ss (update s clear st)

clear_all-hashed : (ss : List SymId) (st : Store) → (clear_all ss st).hashed ≡ st.hashed
unfolding clear_all
clear_all-hashed [] st = refl
clear_all-hashed (s ∷ ss) st = clear_all-hashed ss (update s clear st)

-- A flag that is clear stays so.
clear_all-keeps :
    (ss : List SymId) (t : SymId) (st : Store)
    → (st.sym t).flags.written ≡ false
    → ((clear_all ss st).sym t).flags.written ≡ false
unfolding clear_all
clear_all-keeps [] t st h = h
clear_all-keeps (s ∷ ss) t st h = clear_all-keeps ss t (update s clear st) (ground (arith, h))

-- None of these symbols has SYMBOL_WRITTEN.
abbrev pub NoneWritten : (SymId → Symbol) → List SymId → Type 0
NoneWritten table [] = Unit {0}
NoneWritten table (s ∷ ss) = ((table s).flags.written ≡ false) × NoneWritten table ss

clear_all-NoneWritten : (ss : List SymId) (st : Store) → NoneWritten (clear_all ss st).sym ss
unfolding clear_all
clear_all-NoneWritten [] st = tt
clear_all-NoneWritten (s ∷ ss) st = (
  clear_all-keeps ss s (update s clear st) (cleared s),
  clear_all-NoneWritten ss (update s clear st),
)
  where
    cleared : (s : SymId) → ((update s clear st).sym s).flags.written ≡ false
    cleared s = ground arith

-- A result has a property, if there is one.
abbrev Post : {A : Type 0} → (A → Type 0) → Option A → Type 0
Post P none = Unit {0}
Post P (some a) = P a

Post-bind :
    {A B : Type 0} (P : B → Type 0) (o : Option A) (k : A → Option B)
    → ((a : A) → Post P (k a))
    → Post P (elim o as (λ o. Option B) [ none ↦ none | some a ↦ k a ])
Post-bind P none k h = tt
Post-bind P (some a) k h = h a

if_both : {A : Type 0} (P : A → Type 0) (b : Bool) (x y : A) → P x → P y → P (if b then x else y)
if_both P true x y h k = h
if_both P false x y h k = k

-- The symbols of the table.
abbrev AllClear : Store → Type 0
AllClear st = NoneWritten st.sym st.hashed

clear_all-AllClear : (st : Store) → AllClear (clear_all st.hashed st)
clear_all-AllClear st =
    subst (NoneWritten (clear_all st.hashed st).sym) (sym (clear_all-hashed st.hashed st))
      (clear_all-NoneWritten st.hashed st)

-- The table behind a file that holds `text`: no symbol has SYMBOL_WRITTEN, and nothing has changed.
abbrev IsSaved : Store → Type 0
IsSaved st = AllClear st × (st.conf_changed ≡ false)

-- How the files and the table stand on each way out, and when the code takes it. `name` is to hold `text`,
-- and `files` and `st` are as before the call.
unfoldable pub Outcome : FileSystem → Files → Bytes → Bytes → Store → Exit × Files × Store → Type 0
Outcome fs files name text st (refused, files', st') =
    (is_refused fs name ≡ true) × (files' ≡ files) × (st' ≡ st)
Outcome fs files name text st (not_opened, files', st') =
    (is_refused fs name ≡ false) × (fs.opens ≡ false) × (files' ≡ files) × (st' ≡ st)
Outcome fs files name text st (not_renamed, files', st') =
    (is_refused fs name ≡ false)
    × (fs.opens ≡ true)
    × (fs.overwrite ≡ false)
    × (fs.renames ≡ false)
    × Differs fs files.config text
    × (files' ≡ move_old fs files)
    × AllClear st'
Outcome fs files name text st (unchanged, files', st') =
    (is_refused fs name ≡ false)
    × (fs.opens ≡ true)
    × (fs.overwrite ≡ false)
    × ((files.config ≡ some text) ⊎ (fs.stat_fails ≡ true))
    × (files' ≡ files)
    × IsSaved st'
Outcome fs files name text st (written, files', st') =
    (is_refused fs name ≡ false)
    × (fs.opens ≡ true)
    × ((fs.overwrite ≡ true) × (files'.old ≡ files.old)
        ⊎ (fs.overwrite ≡ false)
          × (fs.renames ≡ true)
          × Differs fs files.config text
          × (files'.old ≡ (move_old fs files).old))
    × (files'.config ≡ some text)
    × IsSaved st'

module _ (fs : FileSystem) (files : Files) (name : Bytes) (st : Store) (o : Output)
    (accepted : is_refused fs name ≡ false) (opened : fs.opens ≡ true) (h : AllClear o.store) where
  abbrev clean : Store
  clean = record o.store { conf_changed = false }

  abbrev moved : Files
  moved = move_old fs files

  abbrev Good : Exit × Files × Store → Type 0
  Good r = Outcome fs files name o.text st r

  closed-Outcome :
      (a b c : Bool)
      → fs.overwrite ≡ a
      → is_same fs files.config o.text ≡ b
      → fs.renames ≡ c
      → Outcome fs files name o.text st (
          if a
          then (written, record files { config = some o.text }, clean)
          else if b
          then (unchanged, files, clean)
          else if c
          then (written, record moved { config = some o.text }, clean)
          else (not_renamed, moved, o.store))
  unfolding Outcome
  closed-Outcome true b c ea eb ec = (accepted, opened, inl (ea, refl), refl, (h, refl))
  closed-Outcome false true c ea eb ec =
      (accepted, opened, ea, is_same-eq fs files.config o.text eb, refl, (h, refl))
  closed-Outcome false false true ea eb ec = (
    accepted,
    opened,
    inr (ea, ec, is_same-Differs fs files.config o.text eb, refl),
    refl,
    (h, refl),
  )
  closed-Outcome false false false ea eb ec =
      (accepted, opened, ea, ec, is_same-Differs fs files.config o.text eb, refl, h)

  close_config-Outcome : Outcome fs files name o.text st (close_config fs files o)
  unfolding close_config
  close_config-Outcome = closed-Outcome _ _ _ refl refl refl

clear_written-AllClear :
    (fuel : ℕ) (node : ℕ → Menu) (o : Output)
    → Post (λ (o : Output). AllClear o.store) (clear_written fuel node o)
unfolding clear_written
clear_written-AllClear fuel node o =
    subst
      (λ r.
        Post (λ (o : Output). AllClear o.store)
          (elim r as (λ r. Option Output) [
            | none ↦ none
            | some (u, st) ↦ some (record o { store = st })
          ]))
      (sym (for_each-clear o.store.hashed o.store)) (clear_all-AllClear o.store)

write_config-AllClear :
    (fuel : ℕ) (node : ℕ → Menu) (steps : ℕ) (st : Store)
    → Post (λ o. AllClear o.store) (write_config fuel node steps st)
unfolding write_config
write_config-AllClear fuel node steps st =
    Post-bind (λ (o : Output). AllClear o.store) (begin_config fuel node st)
      (λ o. elim (write_entries fuel node steps o) [
        | none ↦ none
        | some o' ↦ clear_written fuel node o'
      ])
      (λ o.
        Post-bind (λ (o : Output). AllClear o.store) (write_entries fuel node steps o)
          (clear_written fuel node) (clear_written-AllClear fuel node))

-- A result, and what holds of it.
abbrev Returns : {A : Type 0} → (A → Type 0) → Option A → Type 0
Returns {A} P o = (a : A) × (o ≡ some a) × P a

-- Where the text can be produced, conf_write returns, and takes each way out exactly for its reason. It
-- refuses an empty name, a directory, and a name whose directory cannot be made; then, and where the
-- file cannot be opened, files and table are as before. In all other cases no symbol of the table has
-- SYMBOL_WRITTEN. The old file is left as it is only where it holds the text already, or the sizes
-- cannot be asked. It is written where KCONFIG_OVERWRITECONFIG is set, and then `.old` stays as it is,
-- or where the old file does not hold the text, or cannot be read, and the renaming works, and then
-- `.old` is the file before, if that could be moved: the file holds the text. In these cases, and where
-- the old file is left, the configuration does not count as changed. Where the renaming fails, the
-- old file may only be moved.
pub conf_write-Outcome :
    (fs : FileSystem) (files : Files) (fuel : ℕ) (node : ℕ → Menu) (steps : ℕ) (name : Bytes)
    (st : Store) (o : Output)
    → write_config fuel node steps st ≡ some o
    → (r : Exit × Files × Store) × (conf_write fs files fuel node steps name st ≡ some r)
      × Outcome fs files name o.text st r
unfolding conf_write Outcome
conf_write-Outcome fs files fuel node steps name st o e = elim (Bool-cases (is_refused fs name)) [
  | inl r ↦
      let run : conf_write fs files fuel node steps name st ≡ some (refused, files, st) =
        rw r refl in
      ((refused, files, st), run, (r, refl, refl))
  | inr r ↦ elim (Bool-cases fs.opens) [
    | inr c ↦
        let run : conf_write fs files fuel node steps name st ≡ some (not_opened, files, st) =
          rw r (rw c refl) in
        ((not_opened, files, st), run, (r, c, refl, refl))
    | inl c ↦
        let clear : AllClear o.store =
          subst (Post (λ (o : Output). AllClear o.store)) e
            (write_config-AllClear fuel node steps st) in
        let run : conf_write fs files fuel node steps name st ≡ some (close_config fs files o) =
          rw r (rw c (rw e refl)) in
        (close_config fs files o, run, close_config-Outcome fs files name st o r c clear)
  ]
]
