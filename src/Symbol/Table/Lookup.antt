-- ===== src/Symbol/Table/Lookup.antt =====
-- scripts/kconfig/symbol.c: a symbol that `sym_lookup` returns is found again.
use kdevops.Prelude.{
  ℕ, Bool, true, ◌≡◌, refl, sym, ◌∙◌, ap, inl, inr, Option, none, some, List, ◌∷◌, ◌==◌, arith,
  Bytes, Option-cases,
}
use kdevops.Libc.Laws.{strcmp_self}
use kdevops.Expr.{SymId}
use kdevops.Symbol.Table.{
  Table, LookupFlags, no_flag, const_flag, choice_flag, is_named, has_flags, first_in,
  constant_named, hash_index, new_symbol, insert, is_looked_for, lookup_name, sym_lookup,
}

is_named-same : (n : Bytes) → is_named n (some n) ≡ true
unfolding is_named
is_named-same n = ground (arith, strcmp_self n)

same_index : (a : ℕ) → (a == a) ≡ true
same_index a = ground arith

-- What an insertion puts at the head of the bucket of a name, and what it stands for.
module _ (n : Bytes) (k : LookupFlags) (t : Table) where
  pub bucket-insert :
      (insert (some n) k (hash_index n) t).1.bucket (hash_index n)
      ≡ t.fresh ∷ t.bucket (hash_index n)
  unfolding insert
  bucket-insert = rw (same_index (hash_index n)) refl

  pub sym-insert : (insert (some n) k (hash_index n) t).1.sym t.fresh ≡ new_symbol (some n) k
  unfolding insert
  sym-insert = rw (same_index t.fresh) refl

pub first_in-head :
    (f : SymId → Bool) (s : SymId) (l ss : List SymId)
    → l ≡ s ∷ ss
    → f s ≡ true
    → first_in f l ≡ some s
unfolding first_in
first_in-head f s l ss e h = rw (e, h) refl

has_flags-new : (k : LookupFlags) (o : Option Bytes) → has_flags k (new_symbol o k).flags ≡ true
unfolding has_flags new_symbol
has_flags-new no_flag o = refl
has_flags-new const_flag o = refl
has_flags-new choice_flag o = refl

pub named-new : (n : Bytes) (k : LookupFlags) → is_named n (new_symbol (some n) k).name ≡ true
unfolding new_symbol
named-new n k = is_named-same n

pub insert-fresh :
    (n : Bytes) (k : LookupFlags) (t : Table)
    → (t.fresh, (insert (some n) k (hash_index n) t).1) ≡ insert (some n) k (hash_index n) t
unfolding insert
insert-fresh n k t = refl

-- What `lookup_name` does with the symbol that the bucket has, and `sym_lookup` with the constant.
abbrev resolve : Bytes → LookupFlags → Table → Option SymId → SymId × Table
resolve n k t none = insert (some n) k (hash_index n) t
resolve n k t (some s) = (s, t)

abbrev resolve_constant : Bytes → LookupFlags → Table → Option SymId → SymId × Table
resolve_constant n k t none = lookup_name n k t
resolve_constant n k t (some s) = (s, t)

module _ (n : Bytes) (k : LookupFlags) where
  is_looked_for-insert :
      (t : Table) → is_looked_for k n (insert (some n) k (hash_index n) t).1 t.fresh ≡ true
  unfolding is_looked_for
  is_looked_for-insert t = rw (sym-insert n k t, has_flags-new k (some n)) (rw (named-new n k) refl)

  resolve-elim :
      (t : Table) (o : Option SymId)
      → elim o [ some s ↦ (s, t) | none ↦ insert (some n) k (hash_index n) t ] ≡ resolve n k t o
  resolve-elim t none = refl
  resolve-elim t (some s) = refl

  resolve_constant-elim :
      (t : Table) (o : Option SymId)
      → elim o [ some s ↦ (s, t) | none ↦ lookup_name n k t ] ≡ resolve_constant n k t o
  resolve_constant-elim t none = refl
  resolve_constant-elim t (some s) = refl

  pub lookup_name-resolve :
      (t : Table) (o : Option SymId)
      → first_in (is_looked_for k n t) (t.bucket (hash_index n)) ≡ o
      → lookup_name n k t ≡ resolve n k t o
  unfolding lookup_name
  lookup_name-resolve t o e =
      ap (λ o. elim o [ some s ↦ (s, t) | none ↦ insert (some n) k (hash_index n) t ]) e
      ∙ resolve-elim t o

  lookup-insert :
      (t : Table)
      → lookup_name n k (insert (some n) k (hash_index n) t).1 ≡ insert (some n) k (hash_index n) t
  lookup-insert t =
      lookup_name-resolve (insert (some n) k (hash_index n) t).1 (some t.fresh)
        (first_in-head _ t.fresh _ _ (bucket-insert n k t) (is_looked_for-insert t))
      ∙ insert-fresh n k t

  lookup_name-twice : (t : Table) → lookup_name n k (lookup_name n k t).1 ≡ lookup_name n k t
  lookup_name-twice t =
      elim (Option-cases (first_in (is_looked_for k n t) (t.bucket (hash_index n)))) [
        | inl e ↦
            let p = lookup_name-resolve t none e in
            ap (λ r. lookup_name n k r.1) p ∙ lookup-insert t ∙ sym p
        | inr (s, e) ↦ ap (λ r. lookup_name n k r.1) (lookup_name-resolve t (some s) e)
      ]

  pub sym_lookup-resolve :
      (t : Table) (o : Option SymId)
      → constant_named n ≡ o
      → sym_lookup (some n) k t ≡ resolve_constant n k t o
  unfolding sym_lookup
  sym_lookup-resolve t o e =
      ap (λ o. elim o [ some s ↦ (s, t) | none ↦ lookup_name n k t ]) e ∙ resolve_constant-elim t o

-- A name that is looked up twice gives one symbol, and the second time the table stays as it is.
pub sym_lookup-twice :
    (n : Bytes) (k : LookupFlags) (t : Table)
    → sym_lookup (some n) k (sym_lookup (some n) k t).1 ≡ sym_lookup (some n) k t
sym_lookup-twice n k t = elim (Option-cases (constant_named n)) [
  | inl e ↦
      let p = sym_lookup-resolve n k t none e in
      sym_lookup-resolve n k (sym_lookup (some n) k t).1 none e
      ∙ ap (λ r. lookup_name n k r.1) p
      ∙ lookup_name-twice n k t
      ∙ sym p
  | inr (c, e) ↦
      let p = sym_lookup-resolve n k t (some c) e in
      sym_lookup-resolve n k (sym_lookup (some n) k t).1 (some c) e ∙ ap (λ r. (c, r.1)) p ∙ sym p
]
