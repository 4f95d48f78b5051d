-- ===== src/Config/Names.antt =====
-- scripts/kconfig/symbol.c: `sym_find` and `sym_lookup` on the store, whose list of symbols is the hash
-- table, bucket after bucket.
use kdevops.Prelude.{ℕ, Option, none, some, List, [], ◌∷◌, ◌==◌, ltb, if◌then◌else◌, Bytes}
use kdevops.Expr.{SymId}
use kdevops.Symbol.{Symbol, Store}
use kdevops.Symbol.State.{M}
use kdevops.Symbol.Table.{Table, no_flag, hash_index, sym_find, sym_lookup}

abbrev name_index : Option Bytes → ℕ
name_index none = 0
name_index (some n) = hash_index n

-- The symbols of one bucket: those whose names hash to it, in the order of the table.
in_bucket : (SymId → Symbol) → ℕ → List SymId → List SymId
in_bucket sym i [] = []
in_bucket sym i (s ∷ ss) =
    if name_index (sym s).name == i then s ∷ in_bucket sym i ss else in_bucket sym i ss

-- A new symbol stands in front of its bucket.
place : (SymId → Symbol) → ℕ → SymId → List SymId → List SymId
place sym i new [] = new ∷ []
place sym i new (s ∷ ss) =
    if ltb (name_index (sym s).name) i then s ∷ place sym i new ss else new ∷ s ∷ ss

unfoldable pub table_of : Store → Table
unfolding in_bucket
table_of st = record { bucket = λ i. in_bucket st.sym i st.hashed; sym = st.sym; fresh = st.fresh }

-- The store with the table after a lookup.
with_table : Bytes → SymId × Table → Store → Store
unfolding place
with_table n (s, t) st = record st {
  hashed = if t.fresh == st.fresh then st.hashed else place st.sym (hash_index n) s st.hashed;
  sym = t.sym;
  fresh = t.fresh;
}

unfoldable pub find : Bytes → M (Option SymId)
unfolding table_of sym_find
find n st = some (sym_find (some n) (table_of st), st)

unfoldable pub lookup : Bytes → M SymId
unfolding table_of sym_lookup with_table
lookup n st = let r = sym_lookup (some n) no_flag (table_of st) in some (r.0, with_table n r st)
