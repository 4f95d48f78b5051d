-- ===== src/Symbol/Table/Find.antt =====
-- scripts/kconfig/symbol.c: `sym_find` and `sym_lookup` together, as conf_read_simple of confdata.c
-- calls them.
use kdevops.Prelude.{
  Bool, true, false, not, ◌≡◌, refl, sym, ◌∙◌, ap, inl, inr, none, some, List, [], ◌∷◌, arith,
  Bytes, Option-cases, Bool-cases,
}
use kdevops.Expr.{SymId}
use kdevops.Symbol.Table.{
  Table, no_flag, has_flags, first_in, constant_named, hash_index, new_symbol, insert,
  is_looked_for, sym_lookup, is_found, sym_find,
}
use kdevops.Symbol.Table.Lookup.{
  first_in-head, bucket-insert, sym-insert, named-new, insert-fresh, lookup_name-resolve,
  sym_lookup-resolve,
}

-- A search that accepts less finds nothing either.
first_in-none :
    (f g : SymId → Bool) (ss : List SymId)
    → ((s : SymId) → f s ≡ false → g s ≡ false)
    → first_in f ss ≡ none
    → first_in g ss ≡ none
unfolding first_in
first_in-none f g [] h e = refl
first_in-none f g (s ∷ ss) h e = elim (Bool-cases (f s)) [
  | inl a ↦ ground (arith, a, e)
  | inr a ↦
      let rest : first_in f ss ≡ none = ground (arith, a, e) in
      ground (arith, h s a, first_in-none f g ss h rest)
]

looked_for-found :
    (n : Bytes) (t : Table) (s : SymId)
    → is_found n t s ≡ false
    → is_looked_for no_flag n t s ≡ false
unfolding is_found is_looked_for has_flags
looked_for-found n t s h = ground (arith, h)

const-new : (n : Bytes) → not (new_symbol (some n) no_flag).flags.const ≡ true
unfolding new_symbol
const-new n = refl

is_found-insert :
    (n : Bytes) (t : Table) → is_found n (insert (some n) no_flag (hash_index n) t).1 t.fresh ≡ true
unfolding is_found
is_found-insert n t = rw (sym-insert n no_flag t, named-new n no_flag) (const-new n)

module _ (n : Bytes) (t : Table) where
  sym_find-plain :
      constant_named n ≡ none
      → sym_find (some n) t ≡ first_in (is_found n t) (t.bucket (hash_index n))
  unfolding sym_find
  sym_find-plain e = rw (sym_find, e) refl

  found_constant : (c : SymId) → constant_named n ≡ some c → sym_find (some n) t ≡ some c
  unfolding sym_find
  found_constant c e = rw (sym_find, e) refl

-- Where sym_find finds no symbol of a name, sym_lookup makes one, and sym_find finds that one then.
pub sym_find-lookup :
    (n : Bytes) (t : Table)
    → sym_find (some n) t ≡ none
    → sym_find (some n) (sym_lookup (some n) no_flag t).1 ≡ some (sym_lookup (some n) no_flag t).0
sym_find-lookup n t h = elim (Option-cases (constant_named n)) [
  | inr (c, e) ↦ let found = found_constant n t c e in cc
  | inl e ↦
      let missing =
        first_in-none (is_found n t) (is_looked_for no_flag n t) _ (looked_for-found n t)
          (sym (sym_find-plain n t e) ∙ h) in
      let p =
        sym_lookup-resolve n no_flag t none e ∙ lookup_name-resolve n no_flag t none missing in
      ap (λ r. sym_find (some n) r.1) p
      ∙ sym_find-plain n (insert (some n) no_flag (hash_index n) t).1 e
      ∙ first_in-head _ t.fresh _ _ (bucket-insert n no_flag t) (is_found-insert n t)
      ∙ ap (λ r. some r.0) (insert-fresh n no_flag t ∙ sym p)
]
