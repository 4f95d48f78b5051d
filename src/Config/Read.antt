-- ===== src/Config/Read.antt =====
-- scripts/kconfig/confdata.c: the loop of `conf_read_simple`. A dependency file that is touched is one
-- of the store's `touched`.
pub mod Laws
use Prim.Native.Nat.{Ordering}
use kdevops.Prelude.{
  ℕ, zero, suc, ◌+◌, Bool, true, false, not, ◌&&◌, ◌||◌, Option, none, some, List, [], ◌∷◌, ◌++◌,
  ◌==◌, ltb, leb, length, if◌then◌else◌, Bytes,
}
use kdevops.Libc.{isspace, strcmp}
use kdevops.Tristate.{Tristate, tri_no, tri_mod, tri_yes, rank, tri_eq, expr_or}
use kdevops.Expr.{SymId}
use kdevops.Symbol.{
  SymbolType, s_unknown, s_boolean, s_tristate, s_int, s_hex, s_string, Payload, null, chosen, text,
  SymbolValue, Flags, Symbol, Store,
}
use kdevops.Symbol.AssignText.{sym_string_within_range}
use kdevops.Symbol.Calculate.{sym_calc_value}
use kdevops.Symbol.Compare.{payload_text}
use kdevops.Symbol.NewValue.{is_logical}
use kdevops.Symbol.Properties.{choice_of}
use kdevops.Symbol.State.{
  M, ◌>>=◌, ◌>>◌, pure, skip, deref, when, get_symbol, modify, modify_flags, for_each,
}
use kdevops.Symbol.Table.{Table, LookupFlags, no_flag, hash_index, sym_find, sym_lookup}
use kdevops.Config.Value.{
  DefSlot, s_def_user, s_def_auto, is_auto, def_of, set_def, def_flag, set_def_flag, conf_warning,
  give_tri, conf_set_sym_val,
}
use kdevops.Config.Line.{Line, unset, assign, ignored, unexpected, file_lines, parse_line}
use kdevops.Config.Names.{find, lookup}

abbrev pub conf_set_changed : Bool → M (Unit {0})
conf_set_changed b st = some (tt, record st { conf_changed = b })

-- The path, behind the prefix `include/config/`, has to fit into PATH_MAX bytes.
unfoldable pub conf_touch_dep : Bytes → M Bool
conf_touch_dep name st =
    if ltb 4096 (15 + length name + 1)
    then some (true, st)
    else some (false, record st { touched = name ∷ st.touched })

unfoldable pub override_warning : SymId → DefSlot → M (Unit {0})
override_warning s slot = do y ← get_symbol s; when (def_flag slot y) conf_warning

make_boolean : Symbol → Symbol
make_boolean y = elim y.type [ s_unknown ↦ record y { type = s_boolean } | _ ↦ y ]

-- The symbol that a line about `name` is for; none where the line is passed over.
unfoldable pub found_to_unset : Option SymId → M (Option SymId)
found_to_unset none = conf_set_changed true >> pure none
found_to_unset (some s) = pure (some s)

unfoldable pub symbol_to_unset : DefSlot → Bytes → M (Option SymId)
unfolding find found_to_unset lookup make_boolean
symbol_to_unset s_def_user name = find name >>= found_to_unset
symbol_to_unset s_def_auto name = do s ← lookup name; modify s make_boolean; pure (some s)

unfoldable pub unset_symbol : DefSlot → SymId → M (Unit {0})
unfolding override_warning
unset_symbol slot s = do
  override_warning s slot
  y ← get_symbol s
  when (is_logical y.type) (modify s (give_tri slot tri_no))

unfoldable pub unset_found : DefSlot → Option SymId → M (Option SymId)
unfolding unset_symbol
unset_found slot none = pure none
unset_found slot (some s) = unset_symbol slot s >> pure (some s)

unfoldable pub read_unset : DefSlot → Bytes → M (Option SymId)
unfolding symbol_to_unset unset_found
read_unset slot name = symbol_to_unset slot name >>= unset_found slot

note_missing : DefSlot → Bytes → M (Unit {0})
unfolding conf_touch_dep
note_missing s_def_user name = conf_set_changed true
note_missing s_def_auto name = conf_touch_dep name >>= λ failed. skip

-- The part of an assignment behind the search for the name.
unfoldable pub found_assign : DefSlot → Bytes → Bytes → Option SymId → M (Option SymId)
unfolding note_missing override_warning conf_set_sym_val
found_assign slot name p none = note_missing slot name >> pure none
found_assign slot name p (some s) = do
  override_warning s slot
  failed ← conf_set_sym_val s slot p
  pure (if failed then none else some s)

unfoldable pub read_assign : DefSlot → Bytes → Bytes → M (Option SymId)
unfolding find found_assign
read_assign slot name p = find name >>= found_assign slot name p

unfoldable pub read_symbol : DefSlot → Line → M (Option SymId)
unfolding read_unset read_assign
read_symbol slot (unset name) = read_unset slot name
read_symbol slot (assign name p) = read_assign slot name p
read_symbol slot ignored = pure none
read_symbol slot unexpected = conf_warning >> pure none

-- What the value of a choice value makes of its choice.
tell_choice : DefSlot → SymId → SymId → Tristate → M (Unit {0})
unfolding rank
tell_choice slot s c tri_no = skip
tell_choice slot s c tri_mod = do
  z ← get_symbol c
  when (tri_eq (def_of slot z).tri tri_yes) (conf_warning >> modify c (set_def_flag slot false))
tell_choice slot s c tri_yes = do
  z ← get_symbol c
  when (not (tri_eq (def_of slot z).tri tri_no)) conf_warning
  modify c (set_def slot (λ v. record v { val = chosen s }))

unfoldable pub read_choice : DefSlot → Option SymId → M (Unit {0})
unfolding choice_of tell_choice expr_or
read_choice slot none = skip
read_choice slot (some s) = do
  y ← get_symbol s
  when y.flags.choiceval (do
    c ← deref (choice_of y)
    tell_choice slot s c (def_of slot y).tri
    modify c (set_def slot (λ v. record v { tri = expr_or v.tri (def_of slot y).tri })))

-- The body of the loop.
unfoldable pub read_line : DefSlot → Bytes → M (Unit {0})
unfolding read_symbol read_choice parse_line
read_line slot line = read_symbol slot (parse_line line) >>= read_choice slot

unfoldable pub read_lines : DefSlot → List Bytes → M (Unit {0})
unfolding read_line
read_lines slot [] = skip
read_lines slot (l ∷ ls) = read_line slot l >> read_lines slot ls
