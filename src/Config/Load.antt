-- ===== src/Config/Load.antt =====
-- scripts/kconfig/confdata.c: `conf_read_simple` and `conf_read`. The file system and the environment
-- are parameters.
use Prim.Native.Nat.{Ordering}
use kdevops.Prelude.{
  ℕ, suc, Bool, true, false, not, ◌&&◌, ◌||◌, Option, none, some, List, [], ◌∷◌, ◌==◌,
  if◌then◌else◌, Bytes,
}
use kdevops.Libc.{isspace, strcmp}
use kdevops.Tristate.{tri_no, rank, tri_eq}
use kdevops.Expr.{SymId}
use kdevops.Symbol.{s_unknown, null, Symbol}
use kdevops.Symbol.AssignText.{sym_string_within_range}
use kdevops.Symbol.Calculate.{sym_calc_value}
use kdevops.Symbol.Compare.{payload_text}
use kdevops.Symbol.NewValue.{is_logical}
use kdevops.Symbol.State.{M, ◌>>=◌, ◌>>◌, pure, when, get_symbol, modify, modify_flags, for_each}
use kdevops.Config.Value.{DefSlot, s_def_user, set_def, set_def_flag}
use kdevops.Config.Line.{file_lines}
use kdevops.Config.Read.{conf_set_changed, read_lines}

-- What loading a file begins with, for each symbol.
forget : DefSlot → Symbol → Symbol
forget slot y = set_def_flag slot y.flags.choice (
    set_def slot (λ v. record { val = null; tri = tri_no })
      (record y { flags = record y.flags { changed = true; valid = false } }))

unfoldable pub load : DefSlot → Bytes → M (Unit {0})
unfolding forget for_each read_lines file_lines
load slot content = do
  (λ st. some (tt, record st { conf_warnings = 0 }))
  (λ st. for_each (λ s. modify s (forget slot)) st.hashed st)
  read_lines slot (file_lines content)

abbrev onto_word : ℕ → Bool → List Bytes → List Bytes
onto_word c true ws = (c ∷ []) ∷ ws
onto_word c false [] = (c ∷ []) ∷ []
onto_word c false (w ∷ ws) = (c ∷ w) ∷ ws

starts_word : Bytes → Bool
unfolding isspace
starts_word [] = true
starts_word (c ∷ cs) = isspace c

-- The file names in KCONFIG_DEFCONFIG_LIST.
unfoldable pub words : Bytes → List Bytes
unfolding isspace starts_word
words [] = []
words (c ∷ cs) =
    let rest = words cs in if isspace c then rest else onto_word c (starts_word cs) rest

module _ (zconf_fopen : Bytes → Option Bytes) (conf_get_configname : Bytes)
    (defconfig_list : Option Bytes) where
  unfoldable pub first_file : List Bytes → Option Bytes
  first_file [] = none
  first_file (n ∷ ns) = elim (zconf_fopen n) [ some content ↦ some content | none ↦ first_file ns ]

  default_file : Option Bytes → Option Bytes
  unfolding first_file words
  default_file none = none
  default_file (some names) = first_file (words names)

  -- The file to load. Where the default one is not there, the configuration counts as changed.
  choose_file : Option Bytes → M (Option Bytes)
  unfolding default_file
  choose_file (some name) = pure (zconf_fopen name)
  choose_file none = elim (zconf_fopen conf_get_configname) [
    | some content ↦ pure (some content)
    | none ↦ conf_set_changed true >> pure (default_file defconfig_list)
  ]

  -- Whether there was nothing to load.
  unfoldable pub conf_read_simple : Option Bytes → DefSlot → M Bool
  unfolding choose_file load
  conf_read_simple name slot = do
    file ← choose_file name
    elim file [ none ↦ pure true | some content ↦ load slot content >> pure false ]

  -- Whether the value that is saved is the one that was calculated.
  is_saved_value : Symbol → Bool
  unfolding rank strcmp payload_text
  is_saved_value y =
      if is_logical y.type
      then tri_eq y.def_value.tri y.curr.tri
      else elim (strcmp (payload_text y.curr.val) (payload_text y.def_value.val)) [
        | Ordering.eq ↦ true
        | _ ↦ false
      ]

  is_as_saved : Symbol → Bool
  unfolding is_saved_value
  is_as_saved y =
      y.flags.choice
      || y.flags.no_write
      || (if y.flags.def_user && y.flags.write
          then is_saved_value y
          else not y.flags.def_user && not y.flags.write)

  count_unsaved : ℕ → List SymId → ℕ → M ℕ
  unfolding is_as_saved sym_calc_value
  count_unsaved fuel [] unsaved = pure unsaved
  count_unsaved fuel (s ∷ ss) unsaved = do
    sym_calc_value fuel s
    y ← get_symbol s
    count_unsaved fuel ss (if is_as_saved y then unsaved else suc unsaved)

  -- A text or number out of range is reset; whether it was.
  reset_text : ℕ → SymId → Symbol → M Bool
  unfolding sym_string_within_range payload_text
  reset_text fuel s y = if is_logical y.type then pure false else elim y.type [
    | s_unknown ↦ pure false
    | _ ↦ do
      ok ← sym_string_within_range fuel s (payload_text y.def_value.val)
      when (not ok) (modify_flags s (λ f. record f { valid = false; def_user = false }))
      pure (not ok)
  ]

  reset_values : ℕ → List SymId → ℕ → M ℕ
  unfolding reset_text rank
  reset_values fuel [] unsaved = pure unsaved
  reset_values fuel (s ∷ ss) unsaved = do
    y ← get_symbol s
    reset ←
        (if y.flags.def_user && not y.flags.choiceval
          then (when (tri_eq y.visible tri_no && unsaved == 0)
                (modify_flags s (λ f. record f { def_user = false }))
              >> reset_text fuel s y)
          else pure false)
    reset_values fuel ss (if reset then suc unsaved else unsaved)

  check_values : ℕ → M (Unit {0})
  unfolding count_unsaved reset_values
  check_values fuel st =
      (do
        unsaved ← count_unsaved fuel st.hashed 0
        (λ st.
            (reset_values fuel st.hashed unsaved >>= λ n st. some (
              tt,
              record st {
                conf_changed = if st.conf_warnings == 0 && n == 0 then st.conf_changed else true;
              },
            ))
              st))
        st

  unfoldable pub conf_read : ℕ → Option Bytes → M Bool
  unfolding conf_read_simple sym_calc_value check_values
  conf_read fuel name = do
    conf_set_changed false
    missing ← conf_read_simple name s_def_user
    (λ st. sym_calc_value fuel st.modules_sym st)
    if missing then pure true else (check_values fuel >> pure false)
