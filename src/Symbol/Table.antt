-- ===== src/Symbol/Table.antt =====
-- scripts/kconfig/symbol.c: the hash table of symbol names, `strhash`, `sym_lookup` and `sym_find`.
pub mod Lookup
pub mod Find
use Prim.Native.Nat.{Ordering, bit_xor}
use kdevops.Prelude.{
  ℕ, suc, ◌+◌, ◌-◌, ◌*◌, ◌%◌, ◌^◌, Bool, true, false, not, ◌&&◌, ◌||◌, Option, none, some, List, [],
  ◌∷◌, ◌==◌, ltb, if◌then◌else◌, Bytes,
}
use kdevops.Libc.{strcmp}
use kdevops.Tristate.{tri_no}
use kdevops.Expr.{SymId, symbol_no, symbol_mod, symbol_yes}
use kdevops.Symbol.{s_unknown, null, SymbolValue, ExprValue, Flags, Symbol}

-- `symbol_hash`; the symbols by their addresses; and the address of the next allocation.
pub record Table : Type 0 where
  pub bucket : ℕ → List SymId
  pub sym : SymId → Symbol
  pub fresh : SymId

-- The flags that a symbol is looked up with: 0, SYMBOL_CONST or SYMBOL_CHOICE.
pub data LookupFlags : Type 0 where
  no_flag const_flag choice_flag : LookupFlags

-- A byte is a `signed char`, and is extended to the 32 bits of the hash.
unfoldable pub extended : ℕ → ℕ
extended c = if ltb c 128 then c else c + (2 ^ 32 - 256)

hash_from : ℕ → Bytes → ℕ
unfolding extended
hash_from hash [] = hash
hash_from hash (c ∷ cs) = hash_from (bit_xor hash (extended c) * 16777619 % 2 ^ 32) cs

unfoldable pub strhash : Bytes → ℕ
unfolding hash_from
strhash s = hash_from 2166136261 s

unfoldable pub is_named : Bytes → Option Bytes → Bool
unfolding strcmp
is_named n none = false
is_named n (some m) = elim (strcmp m n) [ Ordering.eq ↦ true | _ ↦ false ]

unfoldable pub has_flags : LookupFlags → Flags → Bool
has_flags no_flag f = not (f.const || f.choice)
has_flags const_flag f = f.const
has_flags choice_flag f = f.choice

-- The first symbol of a bucket that a test accepts.
unfoldable pub first_in : (SymId → Bool) → List SymId → Option SymId
first_in f [] = none
first_in f (s ∷ ss) = if f s then some s else first_in f ss

-- The names `y`, `m` and `n` stand for the constants.
unfoldable pub constant_named : Bytes → Option SymId
constant_named (c ∷ []) =
    if c == b'y'
    then some symbol_yes
    else if c == b'm'
    then some symbol_mod
    else if c == b'n'
    then some symbol_no
    else none
constant_named _ = none

abbrev pub hash_index : Bytes → ℕ
hash_index n = strhash n % 9973

flags_of : LookupFlags → Flags
flags_of k = record {
  const = elim k [ const_flag ↦ true | _ ↦ false ];
  choice = elim k [ choice_flag ↦ true | _ ↦ false ];
  choiceval = false;
  valid = false;
  optional = false;
  write = false;
  changed = false;
  no_write = false;
  def_user = false;
  def_auto = false;
  written = false;
  check = false;
  checked = false;
  need_set_choice_values = false;
}

-- A symbol of zero bytes, with a name and flags.
unfoldable pub new_symbol : Option Bytes → LookupFlags → Symbol
unfolding flags_of
new_symbol name k =
    let no_value : SymbolValue = record { val = null; tri = tri_no } in
    let no_expr : ExprValue = record { expr = none; tri = tri_no } in
    record {
      name = name;
      type = s_unknown;
      curr = no_value;
      def_value = no_value;
      auto_value = no_value;
      visible = tri_no;
      flags = flags_of k;
      prop = [];
      dir_dep = no_expr;
      rev_dep = no_expr;
      implied = no_expr;
    }

-- The allocation, and the new head of a bucket.
unfoldable pub insert : Option Bytes → LookupFlags → ℕ → Table → SymId × Table
unfolding new_symbol
insert name k hash t = (
  t.fresh,
  record {
    bucket = λ i. if i == hash then t.fresh ∷ t.bucket i else t.bucket i;
    sym = λ s. if s == t.fresh then new_symbol name k else t.sym s;
    fresh = suc t.fresh;
  },
)

unfoldable pub is_looked_for : LookupFlags → Bytes → Table → SymId → Bool
unfolding is_named has_flags
is_looked_for k n t s = is_named n (t.sym s).name && has_flags k (t.sym s).flags

unfoldable pub lookup_name : Bytes → LookupFlags → Table → SymId × Table
unfolding first_in is_looked_for strhash insert
lookup_name n k t = elim (first_in (is_looked_for k n t) (t.bucket (hash_index n))) [
  | some s ↦ (s, t)
  | none ↦ insert (some n) k (hash_index n) t
]

unfoldable pub sym_lookup : Option Bytes → LookupFlags → Table → SymId × Table
unfolding constant_named lookup_name insert
sym_lookup none k t = insert none k 0 t
sym_lookup (some n) k t = elim (constant_named n) [ some s ↦ (s, t) | none ↦ lookup_name n k t ]

unfoldable pub is_found : Bytes → Table → SymId → Bool
unfolding is_named
is_found n t s = is_named n (t.sym s).name && not (t.sym s).flags.const

unfoldable pub sym_find : Option Bytes → Table → Option SymId
unfolding constant_named first_in is_found strhash
sym_find none t = none
sym_find (some n) t = elim (constant_named n) [
  | some s ↦ some s
  | none ↦ first_in (is_found n t) (t.bucket (hash_index n))
]
