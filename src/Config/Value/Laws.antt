-- ===== src/Config/Value/Laws.antt =====
-- scripts/kconfig/confdata.c: what `conf_set_sym_val` makes of the text of a value.
use kdevops.Prelude.{true, false, ◌≡◌, refl, ◌⊎◌, some, [], arith, Bytes}
use kdevops.Tristate.{Tristate, tri_no, tri_mod, tri_yes}
use kdevops.Expr.{SymId}
use kdevops.Symbol.{s_boolean, s_tristate, s_int, s_hex, s_string, Store}
use kdevops.Symbol.Consistent.{tri_text}
use kdevops.Symbol.State.{update}
use kdevops.Symbol.TextValid.{sym_string_valid}
use kdevops.Config.Escape.{escape_string_value}
use kdevops.Config.Escape.RoundTrip.{unescape-escape_bytes}
use kdevops.Config.Value.{DefSlot, s_def_user, give_tri, give_text, conf_set_sym_val}

module _ (s : SymId) (slot : DefSlot) (st : Store) where
  pub set_boolean :
      (t : Tristate)
      → (st.sym s).type ≡ s_boolean
      → (t ≡ tri_no) ⊎ (t ≡ tri_yes)
      → conf_set_sym_val s slot (tri_text t) st ≡ some (false, update s (give_tri slot t) st)
  unfolding conf_set_sym_val
  set_boolean tri_no h k = rw h refl
  set_boolean tri_mod h k = ground (arith, k)
  set_boolean tri_yes h k = rw h refl

  pub set_tristate :
      (t : Tristate)
      → (st.sym s).type ≡ s_tristate
      → conf_set_sym_val s slot (tri_text t) st ≡ some (false, update s (give_tri slot t) st)
  unfolding conf_set_sym_val
  set_tristate tri_no h = rw h refl
  set_tristate tri_mod h = rw h refl
  set_tristate tri_yes h = rw h refl

  pub set_int :
      (v : Bytes)
      → (st.sym s).type ≡ s_int
      → sym_string_valid s_int v ≡ true
      → conf_set_sym_val s slot v st ≡ some (false, update s (give_text slot v) st)
  unfolding conf_set_sym_val
  set_int v h k = rw (h, k) refl

  pub set_hex :
      (v : Bytes)
      → (st.sym s).type ≡ s_hex
      → sym_string_valid s_hex v ≡ true
      → conf_set_sym_val s slot v st ≡ some (false, update s (give_text slot v) st)
  unfolding conf_set_sym_val
  set_hex v h k = rw (h, k) refl

pub set_string :
    (s : SymId) (v : Bytes) (st : Store)
    → (st.sym s).type ≡ s_string
    → conf_set_sym_val s s_def_user (escape_string_value v) st
      ≡ some (false, update s (give_text s_def_user v) st)
unfolding conf_set_sym_val escape_string_value
set_string s v st h = rw (h, unescape-escape_bytes v []) refl
