-- ===== src/Config/Write.antt =====
-- scripts/kconfig/confdata.c: `conf_write` and `conf_write_defconfig`, on a menu tree that is built. The
-- file system and the environment are parameters.
pub mod Laws
pub mod Same
use Prim.Native.Nat.{Ordering}
use kdevops.Prelude.{
  ℕ, suc, Bool, true, false, not, ◌&&◌, ◌||◌, Option, none, some, List, [], ◌∷◌, ◌++◌, ◌==◌,
  if◌then◌else◌, Bytes, codes, length,
}
use kdevops.Libc.{strcmp}
use kdevops.Tristate.{Tristate, tri_yes, rank, tri_eq}
use kdevops.Expr.{SymId}
use kdevops.Symbol.{SymbolType, s_boolean, Symbol, Store}
use kdevops.Symbol.AssignText.{sym_get_string_default}
use kdevops.Symbol.Calculate.{sym_calc_value, sym_clear_all_valid}
use kdevops.Symbol.Compare.{payload_text}
use kdevops.Symbol.Evaluate.{read_string}
use kdevops.Symbol.Properties.{choice_of, sym_is_changeable, is_boolean_type}
use kdevops.Symbol.State.{
  M, ◌>>=◌, ◌>>◌, pure, skip, deref, when, get_symbol, modify_flags, for_each,
}
use kdevops.Symbol.Visibility.{sym_choice_default}
use kdevops.Menu.{Menu}
use kdevops.Menu.Visible.{menu_is_visible, menu_get_prompt, prompt_prop}
use kdevops.Menu.Walk.{walk}
use kdevops.Config.Print.{print_symbol_for_dotconfig}

-- The table, what is written so far, and the local variable `need_newline`.
pub record Output : Type 0 where
  pub store : Store
  pub text : Bytes
  pub need_newline : Bool

unfoldable pub append : Bytes → Output → Output
append t o = record o { text = o.text ++ t }

-- A computation on the table with what is written beside it.
abbrev pub on_store : {A : Type 0} → M A → (A → Output → Option Output) → Output → Option Output
on_store m k o = elim (m o.store) [ none ↦ none | some (a, st) ↦ k a (record o { store = st }) ]

-- `# end of` and the heading of a menu.
abbrev pub menu_heading : Bytes → Bytes
menu_heading title = codes "\n#\n# " ++ (title ++ codes "\n#\n")

abbrev pub menu_end : Bytes → Bytes
menu_end title = codes "# end of " ++ (title ++ codes "\n")

write_heading : Option Bytes → Output → Option Output
unfolding append
write_heading none o = none
write_heading (some title) o =
    some (record (append (menu_heading title) o) { need_newline = false })

write_end : Option Bytes → Output → Option Output
unfolding append
write_end none o = none
write_end (some title) o = some (record (append (menu_end title) o) { need_newline = true })

-- The empty line behind the end of a menu.
newline_if : Bool → Bytes
newline_if true = b'\n' ∷ []
newline_if false = []

write_line : Bytes → Output → Option Output
unfolding append newline_if
write_line line o =
    some (record (append (newline_if o.need_newline ++ line) o) { need_newline = false })

module _ (fuel : ℕ) (node : ℕ → Menu) where
  abbrev visible : ℕ → M Bool
  visible m = menu_is_visible node (sym_calc_value fuel) fuel m

  -- A symbol that is not written yet, if it is calculated to be written.
  write_symbol : SymId → Output → Option Output
  unfolding sym_calc_value print_symbol_for_dotconfig write_line
  write_symbol s = on_store (get_symbol s) (λ y.
      if y.flags.choice || y.flags.written
      then some
      else on_store (sym_calc_value fuel s >> get_symbol s) (λ z.
        if not z.flags.write
        then some
        else on_store
            (modify_flags s (λ f. record f { written = true })
              >> print_symbol_for_dotconfig (sym_calc_value fuel) s)
            write_line))

  -- The body of the loop of `conf_write`.
  unfoldable pub write_entry : ℕ → Output → Option Output
  unfolding write_symbol write_heading menu_is_visible menu_get_prompt
  write_entry m = elim (node m).sym [
    | some s ↦ write_symbol s
    | none ↦
        on_store (visible m)
          (λ shown. if not shown then some else on_store (menu_get_prompt (node m)) write_heading)
  ]

  -- What it does at each menu that it leaves.
  unfoldable pub leave_entry : ℕ → Output → Option Output
  unfolding write_end menu_is_visible menu_get_prompt
  leave_entry m = elim (node m).sym [
    | some s ↦ some
    | none ↦ on_store (visible m) (λ shown.
        if shown && not (m == 0) then on_store (menu_get_prompt (node m)) write_end else some)
  ]

  -- `conf_write_heading`, with the title of the root menu.
  root_heading : Option Bytes → Output → Option Output
  unfolding append
  root_heading none o = none
  root_heading (some title) o = some (
      append
        (codes "#\n# Automatically generated file; DO NOT EDIT.\n# " ++ (title ++ codes "\n#\n")) o)

  pub begin_config : Store → Option Output
  unfolding root_heading menu_get_prompt
  begin_config st =
      on_store (menu_get_prompt (node 0)) root_heading
        (record { store = st; text = []; need_newline = false })

  -- The loop over the menus. `steps` is the number of nodes.
  pub write_entries : ℕ → Output → Option Output
  unfolding write_entry leave_entry walk sym_clear_all_valid
  write_entries steps o =
      on_store (when (not o.store.conf_changed) (sym_clear_all_valid fuel))
        (λ u. walk node write_entry leave_entry steps steps (node 0).list) o

  unfoldable pub clear_written : Output → Option Output
  unfolding for_each
  clear_written o =
      on_store (for_each (λ s. modify_flags s (λ f. record f { written = false })) o.store.hashed)
        (λ u. some) o

  -- The file, from the heading on, and the flags SYMBOL_WRITTEN cleared behind it.
  unfoldable pub write_config : ℕ → Store → Option Output
  unfolding begin_config write_entries clear_written
  write_config steps st = elim (begin_config st) [
    | none ↦ none
    | some o ↦ elim (write_entries steps o) [ none ↦ none | some o' ↦ clear_written o' ]
  ]

  -- Whether a choice value is what the choice would have anyway.
  is_choice_default : SymId → Symbol → Symbol → Option SymId → Bool
  unfolding rank
  is_choice_default s y cs ds =
      not cs.flags.optional
      && elim ds [ none ↦ false | some d ↦ d == s ]
      && is_boolean_type y.type
      && tri_eq y.curr.tri tri_yes

  by_choice : SymId → Symbol → M Bool
  unfolding is_choice_default sym_choice_default choice_of sym_calc_value
  by_choice s y =
      if y.flags.choiceval
      then (do
        c ← deref (choice_of y)
        ds ← sym_choice_default (sym_calc_value fuel) c
        cs ← get_symbol c
        z ← get_symbol s
        pure (is_choice_default s z cs ds))
      else pure false

  is_default_text : Bytes → Bytes → Bool
  unfolding strcmp
  is_default_text a b = elim (strcmp a b) [ Ordering.eq ↦ true | _ ↦ false ]

  -- The text of a symbol that differs from its default; none for a symbol that is left out.
  defconfig_line : SymId → M Bytes
  unfolding read_string sym_get_string_default payload_text is_default_text by_choice
      print_symbol_for_dotconfig sym_calc_value
  defconfig_line s = do
    val ← read_string (sym_calc_value fuel) s
    def ← sym_get_string_default fuel s
    if is_default_text val (payload_text def) then pure [] else (do
      y ← get_symbol s
      skipped ← by_choice s y
      if skipped then pure [] else print_symbol_for_dotconfig (sym_calc_value fuel) s)

  defconfig_symbol : SymId → M Bytes
  unfolding sym_calc_value sym_is_changeable defconfig_line
  defconfig_symbol s = do
    y ← get_symbol s
    if y.flags.choice then pure [] else (do
      sym_calc_value fuel s
      z ← get_symbol s
      if not z.flags.write then pure [] else (do
        modify_flags s (λ f. record f { write = false })
        x ← get_symbol s
        if sym_is_changeable x then defconfig_line s else pure []))

  -- The body of the loop of `conf_write_defconfig`.
  unfoldable pub defconfig_entry : ℕ → Output → Option Output
  unfolding defconfig_symbol append menu_is_visible
  defconfig_entry m = elim (node m).sym [
    | none ↦ on_store (visible m) (λ shown. some)
    | some s ↦ on_store (defconfig_symbol s) (λ line o. some (append line o))
  ]

  -- The text that `conf_write_defconfig` writes; at the menus that are left nothing is done.
  unfoldable pub write_defconfig : ℕ → Store → Option Output
  unfolding defconfig_entry walk sym_clear_all_valid
  write_defconfig steps st =
      on_store (sym_clear_all_valid fuel)
        (λ u. walk node defconfig_entry (λ m. some) steps steps (node 0).list)
        (record { store = st; text = []; need_newline = false })

-- What the file system and the environment answer: whether the name is a directory, its directory
-- cannot be made, KCONFIG_OVERWRITECONFIG is set, the file can be opened for writing, the two files can
-- be read, their sizes cannot be asked, they can be mapped, the old file can be moved away, and the new
-- one can get the name.
pub record FileSystem : Type 0 where
  pub is_dir : Bool
  pub no_parent_dir : Bool
  pub overwrite : Bool
  pub opens : Bool
  pub reads : Bool
  pub stat_fails : Bool
  pub maps : Bool
  pub moves_old : Bool
  pub renames : Bool

-- What the file of the configuration and its `.old` hold, if they are there.
pub record Files : Type 0 where
  pub config : Option Bytes
  pub old : Option Bytes

-- The ways out of `conf_write`: it returns -1, returns 1 without a file or without the last renaming, or
-- returns 0 with the old file left as it is, or with a new one.
pub data Exit : Type 0 where
  refused not_opened not_renamed unchanged written : Exit

-- Whether `bcmp` finds no difference, on texts of one length.
unfoldable pub bytes_same : Bytes → Bytes → Bool
bytes_same [] [] = true
bytes_same (x ∷ xs) (y ∷ ys) = x == y && bytes_same xs ys
bytes_same _ _ = false

-- `is_same` of the configuration and the temporary file, which holds `text`.
unfoldable pub is_same : FileSystem → Option Bytes → Bytes → Bool
unfolding bytes_same
is_same fs none text = false
is_same fs (some old) text =
    if not fs.reads
    then false
    else if fs.stat_fails
    then true
    else length old == length text && fs.maps && bytes_same old text

-- `rename(name, oldname)`, whose result the code does not look at.
unfoldable pub move_old : FileSystem → Files → Files
move_old fs files = elim files.config [
  | none ↦ files
  | some t ↦ if fs.moves_old then record { config = none; old = some t } else files
]

-- What is behind the loop that clears SYMBOL_WRITTEN; the flag of `conf_set_changed`.
unfoldable pub close_config : FileSystem → Files → Output → Exit × Files × Store
unfolding is_same move_old
close_config fs files o =
    let clean : Store = record o.store { conf_changed = false } in
    let moved : Files = move_old fs files in
    if fs.overwrite
    then (written, record files { config = some o.text }, clean)
    else if is_same fs files.config o.text
    then (unchanged, files, clean)
    else if fs.renames
    then (written, record moved { config = some o.text }, clean)
    else (not_renamed, moved, o.store)

unfoldable pub is_refused : FileSystem → Bytes → Bool
is_refused fs name = elim name [ [] ↦ true | c ∷ cs ↦ false ] || fs.is_dir || fs.no_parent_dir

unfoldable pub conf_write :
    FileSystem → Files → ℕ → (ℕ → Menu) → ℕ → Bytes → Store → Option (Exit × Files × Store)
unfolding is_refused write_config close_config
conf_write fs files fuel node steps name st =
    if is_refused fs name
    then some (refused, files, st)
    else if not fs.opens
    then some (not_opened, files, st)
    else elim (write_config fuel node steps st) [
      | none ↦ none
      | some o ↦ some (close_config fs files o)
    ]

unfoldable pub conf_write_defconfig :
    Bool → Files → ℕ → (ℕ → Menu) → ℕ → Store → Option (Exit × Files × Store)
unfolding write_defconfig
conf_write_defconfig opens files fuel node steps st =
    if not opens then some (not_opened, files, st) else elim (write_defconfig fuel node steps st) [
      | none ↦ none
      | some o ↦ some (written, record files { config = some o.text }, o.store)
    ]
