-- ===== src/Config/Read/Laws.antt =====
-- scripts/kconfig/confdata.c: `read_line` of an assignment and of an unset symbol, for a symbol of the
-- table that has no value from the file yet.
use kdevops.Prelude.{true, false, ◌≡◌, ◌∙◌, ap, none, some, Bytes, if◌then◌else◌}
use kdevops.Tristate.{tri_no}
use kdevops.Expr.{SymId}
use kdevops.Symbol.{Symbol, Store}
use kdevops.Symbol.NewValue.{is_logical}
use kdevops.Symbol.State.{◌>>=◌, pure, when, modify, update}
use kdevops.Symbol.State.Laws.{bind-eq, when-off, update_self}
use kdevops.Symbol.Table.{sym_find}
use kdevops.Config.Value.{s_def_user, give_tri, conf_warning, conf_set_sym_val}
use kdevops.Config.Line.{assign, unset, parse_line}
use kdevops.Config.Names.{table_of, find}
use kdevops.Config.Read.{
  read_assign, found_assign, override_warning, found_to_unset, symbol_to_unset, unset_symbol,
  unset_found, read_unset, read_symbol, read_choice, read_line,
}

module _ (name : Bytes) (s : SymId) (st : Store)
    (found : sym_find (some name) (table_of st) ≡ some s) (new : (st.sym s).flags.def_user ≡ false)
    (alone : (st.sym s).flags.choiceval ≡ false) where
  find-eq : find name st ≡ some (some s, st)
  unfolding find
  find-eq = ap (λ o. some (o, st)) found

  override_warning-new : override_warning s s_def_user st ≡ some (tt, st)
  unfolding override_warning
  override_warning-new = when-off _ conf_warning st new

  read_assign-set :
      (p : Bytes) (f : Symbol → Symbol)
      → conf_set_sym_val s s_def_user p st ≡ some (false, update s f st)
      → read_assign s_def_user name p st ≡ some (some s, update s f st)
  unfolding read_assign
  read_assign-set p f h =
      bind-eq (find name) (found_assign s_def_user name p) st find-eq
      ∙ bind-eq (override_warning s s_def_user)
          (λ u.
            conf_set_sym_val s s_def_user p >>= λ failed. pure (if failed then none else some s))
          st override_warning-new
      ∙ bind-eq (conf_set_sym_val s s_def_user p) (λ failed. pure (if failed then none else some s))
          st h

  unset_symbol-new :
      is_logical (st.sym s).type ≡ true
      → unset_symbol s_def_user s st ≡ some (tt, update s (give_tri s_def_user tri_no) st)
  unfolding unset_symbol
  unset_symbol-new h =
      bind-eq (override_warning s s_def_user)
        (λ u st'. when (is_logical (st'.sym s).type) (modify s (give_tri s_def_user tri_no)) st') st
        override_warning-new
      ∙ ap (λ b. when b (modify s (give_tri s_def_user tri_no)) st) h

  read_unset-set :
      is_logical (st.sym s).type ≡ true
      → read_unset s_def_user name st ≡ some (some s, update s (give_tri s_def_user tri_no) st)
  unfolding read_unset
  read_unset-set h =
      bind-eq (symbol_to_unset s_def_user name) (unset_found s_def_user) st
        (bind-eq (find name) found_to_unset st find-eq)
      ∙ bind-eq (unset_symbol s_def_user s) (λ u. pure (some s)) st (unset_symbol-new h)

  read_choice-alone :
      (f : Symbol → Symbol)
      → (f (st.sym s)).flags.choiceval ≡ false
      → read_choice s_def_user (some s) (update s f st) ≡ some (tt, update s f st)
  unfolding read_choice
  read_choice-alone f h =
      when-off _ _ (update s f st) (ap (λ y. y.flags.choiceval) (update_self s f st) ∙ h)

  -- A line that assigns the symbol, and one that leaves it unset.
  pub read_line-assign :
      (line p : Bytes) (f : Symbol → Symbol)
      → parse_line line ≡ assign name p
      → conf_set_sym_val s s_def_user p st ≡ some (false, update s f st)
      → (f (st.sym s)).flags.choiceval ≡ false
      → read_line s_def_user line st ≡ some (tt, update s f st)
  unfolding read_line read_symbol
  read_line-assign line p f e h k =
      ap (λ l. (read_symbol s_def_user l >>= read_choice s_def_user) st) e
      ∙ bind-eq (read_assign s_def_user name p) (read_choice s_def_user) st (read_assign-set p f h)
      ∙ read_choice-alone f k

  pub read_line-unset :
      (line : Bytes)
      → parse_line line ≡ unset name
      → is_logical (st.sym s).type ≡ true
      → read_line s_def_user line st ≡ some (tt, update s (give_tri s_def_user tri_no) st)
  unfolding read_line read_symbol
  read_line-unset line e h =
      ap (λ l. (read_symbol s_def_user l >>= read_choice s_def_user) st) e
      ∙ bind-eq (read_unset s_def_user name) (read_choice s_def_user) st (read_unset-set h)
      ∙ read_choice-alone (give_tri s_def_user tri_no) alone
