-- ===== src/Symbol/Consistent.antt =====
-- scripts/kconfig/symbol.c: what holds of the constant symbols and of boolean and tristate symbols
-- once they are calculated, and what it says of their texts and their comparison with a constant.
use kdevops.Prelude.{true, ◌≡◌, refl, sym, ◌≢◌, ◌⊎◌, inl, inr, ◌∙◌, arith, Bytes, codes}
use mathlib.Core.Path.{subst}
use kdevops.Tristate.{Tristate, tri_no, tri_mod, tri_yes, rank, tri_eq}
use kdevops.Expr.{SymId, symbol_no, symbol_mod, symbol_yes}
use kdevops.Symbol.{
  SymbolType, s_unknown, s_boolean, s_tristate, text, Store, symbol_type, sym_get_tristate_value,
}
use kdevops.Symbol.Compare.{
  sym_get_string_value, compare_symbols, compare_values, is_eq, tristate_text,
}

abbrev pub tri_text : Tristate → Bytes
tri_text tri_no = codes "n"
tri_text tri_mod = codes "m"
tri_text tri_yes = codes "y"

abbrev pub constant : Tristate → SymId
constant tri_no = symbol_no
constant tri_mod = symbol_mod
constant tri_yes = symbol_yes

-- The three static symbols, in the initial state that nothing changes.
pub record IsConstant (st : Store) (t : Tristate) : Type 0 where
  pub type : symbol_type st (constant t) ≡ s_unknown
  pub tri : sym_get_tristate_value st (constant t) ≡ t
  pub val : (st.sym (constant t)).curr.val ≡ text (tri_text t)
  pub flag : (st.sym (constant t)).flags.const ≡ true

pub record IsConsistent (st : Store) : Type 0 where
  pub constants : (t : Tristate) → IsConstant st t
  pub boolean_ne_mod :
      (s : SymId) → symbol_type st s ≡ s_boolean → sym_get_tristate_value st s ≢ tri_mod
  pub modules_on :
      (s : SymId)
      → symbol_type st s ≡ s_tristate
      → sym_get_tristate_value st s ≡ tri_mod
      → sym_get_tristate_value st st.modules_sym ≢ tri_no

abbrev pub IsLogicalType : SymbolType → Type 0
IsLogicalType t = (t ≡ s_boolean) ⊎ (t ≡ s_tristate)

module _ {st : Store} (good : IsConsistent st) where
  modules_on_of_mod :
      (s : SymId)
      → IsLogicalType (symbol_type st s)
      → sym_get_tristate_value st s ≡ tri_mod
      → sym_get_tristate_value st st.modules_sym ≢ tri_no
  modules_on_of_mod s (inl b) e = absurd (good.boolean_ne_mod s b e)
  modules_on_of_mod s (inr t) e = good.modules_on s t e

tristate_text-on : (m t : Tristate) → (t ≡ tri_mod → m ≢ tri_no) → tristate_text m t ≡ tri_text t
unfolding tristate_text rank
tristate_text-on m tri_no h = refl
tristate_text-on m tri_mod h = ground (arith, h refl)
tristate_text-on m tri_yes h = refl

sym_get_string_value-logical :
    (st : Store) (s : SymId)
    → IsLogicalType (symbol_type st s)
    → sym_get_string_value st s
      ≡ tristate_text (sym_get_tristate_value st st.modules_sym) (sym_get_tristate_value st s)
unfolding sym_get_string_value
sym_get_string_value-logical st s (inl e) = ground arith
sym_get_string_value-logical st s (inr e) = ground arith

sym_get_string_value-constant :
    (st : Store) (t : Tristate)
    → IsConstant st t
    → sym_get_string_value st (constant t) ≡ tri_text t
unfolding sym_get_string_value
sym_get_string_value-constant st t k = ground (arith, k.type, k.val)

-- A logical symbol's text against a constant's: strings are compared, since `strtoll` refuses them.
compare_values-text :
    (a b : Tristate) (t : SymbolType)
    → IsLogicalType t
    → is_eq (compare_values (tri_text a) (tri_text b) t s_unknown) ≡ tri_eq a b
unfolding compare_values rank
compare_values-text tri_no tri_no s_boolean h = refl
compare_values-text tri_mod tri_no s_boolean h = refl
compare_values-text tri_yes tri_no s_boolean h = refl
compare_values-text tri_no tri_no s_tristate h = refl
compare_values-text tri_mod tri_no s_tristate h = refl
compare_values-text tri_yes tri_no s_tristate h = refl
compare_values-text _ _ s_boolean h = refl
compare_values-text _ _ s_tristate h = refl
compare_values-text _ _ _ h = ground arith

-- Two constants: neither text is a number, so strings are compared.
compare_values-constants :
    (a b : Tristate)
    → is_eq (compare_values (tri_text a) (tri_text b) s_unknown s_unknown) ≡ tri_eq a b
unfolding compare_values rank
compare_values-constants tri_no tri_no = refl
compare_values-constants tri_mod tri_no = refl
compare_values-constants tri_yes tri_no = refl
compare_values-constants _ _ = refl

-- A symbol that stands for a tristate: one of a logical type, or a constant.
abbrev pub IsOperand : Store → SymId → Type 0
IsOperand st s = IsLogicalType (symbol_type st s) ⊎ ((t : Tristate) × (s ≡ constant t))

module _ {st : Store} (good : IsConsistent st) where
  pub sym_get_string_value-tristate :
      (s : SymId)
      → IsLogicalType (symbol_type st s)
      → sym_get_string_value st s ≡ tri_text (sym_get_tristate_value st s)
  sym_get_string_value-tristate s h =
      sym_get_string_value-logical st s h
      ∙ tristate_text-on _ (sym_get_tristate_value st s) (modules_on_of_mod good s h)

  -- In a consistent store, a boolean or tristate symbol compares equal to a constant symbol exactly
  -- when it has its value.
  pub compare_symbols-constant :
      (s : SymId) (t : Tristate)
      → IsLogicalType (symbol_type st s)
      → is_eq (compare_symbols st s (constant t)) ≡ tri_eq (sym_get_tristate_value st s) t
  unfolding compare_symbols
  compare_symbols-constant s t h =
      rw
        (
          sym_get_string_value-tristate s h,
          sym_get_string_value-constant st t (good.constants t),
          (good.constants t).type,
        )
        (compare_values-text (sym_get_tristate_value st s) t (symbol_type st s) h)

  compare_constants :
      (a b : Tristate)
      → is_eq (compare_symbols st (constant a) (constant b))
        ≡ tri_eq (sym_get_tristate_value st (constant a)) b
  unfolding compare_symbols
  compare_constants a b =
      rw
        (
          sym_get_string_value-constant st a (good.constants a),
          sym_get_string_value-constant st b (good.constants b),
          (good.constants a).type,
          (good.constants b).type,
          (good.constants a).tri,
        )
        (compare_values-constants a b)

  pub compare_symbols-operand :
      (s : SymId) (t : Tristate)
      → IsOperand st s
      → is_eq (compare_symbols st s (constant t)) ≡ tri_eq (sym_get_tristate_value st s) t
  compare_symbols-operand s t (inl h) = compare_symbols-constant s t h
  compare_symbols-operand s t (inr (u, e)) =
      subst
        (λ s. is_eq (compare_symbols st s (constant t)) ≡ tri_eq (sym_get_tristate_value st s) t)
        (sym e) (compare_constants u t)
