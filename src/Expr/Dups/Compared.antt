-- ===== src/Expr/Dups/Compared.antt =====
-- scripts/kconfig/expr.c: what the comparisons of `expr_eliminate_dups1` have found where they leave
-- `trans_count` as it was.
use kdevops.Prelude.{
  ℕ, suc, ◌<◌, ◌≡◌, ◌≢◌, sym, ap, ◌∙◌, inl, inr, Option, none, some, List, ◌==◌, ==_iff, arith,
  Bool-cases,
}
use mathlib.Core.Path.{subst}
use kdevops.Expr.{Expr}
use kdevops.Expr.Equal.{Operator}
use kdevops.Expr.Dups.{operand, join, Pass}
use kdevops.Expr.Dups.Step.{ChangesPass, Simpler}
use kdevops.Expr.Outcome.{Ends}
use kdevops.Symbol.{Store}

-- Two operands that the code cannot join.
abbrev pub NotJoined : Store → Operator → List Expr → ℕ → ℕ → Type 0
NotJoined st op xs i j = join op st (operand xs i) (operand xs j) ≡ some none

-- What one comparison does, one leaf with the first `n`, and the first `n` leaves with the first
-- `all`: where `trans_count` stays, there was nothing to join.
abbrev pub Compared : Store → Operator → ℕ → ℕ → Pass → Pass → Type 0
Compared st op i j p q = Simpler st op p q × (q.1 ≡ p.1 → i ≢ j → NotJoined st op p.0 i j)

abbrev pub ComparedWith : Store → Operator → ℕ → ℕ → Pass → Pass → Type 0
ComparedWith st op i n p q =
    Simpler st op p q × (q.1 ≡ p.1 → (j : ℕ) → j < n → i ≢ j → NotJoined st op p.0 i j)

abbrev pub AllCompared : Store → Operator → ℕ → ℕ → Pass → Pass → Type 0
AllCompared st op all n p q =
    Simpler st op p q × (q.1 ≡ p.1 → (i j : ℕ) → i < n → j < all → i ≢ j → NotJoined st op p.0 i j)

pub Ends-self :
    {P : Option Expr → Type 0} {m : Option (Option Expr)}
    → Ends P m
    → Ends (λ a. (m ≡ some a) × P a) m
Ends-self e = record { result = e.result; is_result = e.is_result; holds = (e.is_result, e.holds) }

pub Ends-map :
    {P Q : Pass → Type 0} {m : Option Pass} → Ends P m → ((a : Pass) → P a → Q a) → Ends Q m
Ends-map e f = record { result = e.result; is_result = e.is_result; holds = f e.result e.holds }

module _ {st : Store} {op : Operator} (p q r : Pass) (s : Simpler st op p q) (u : Simpler st op q r)
    (c : r.1 ≡ p.1) where
  first_unchanged : ChangesPass op p q → ChangesPass op q r → (q ≡ p) × (r.1 ≡ q.1)
  first_unchanged (inl h) k = (h, c ∙ sym (ap (λ x. x.1) h))
  first_unchanged (inr (h, l)) (inl k) = ground (arith, ap (λ x. x.1) k)
  first_unchanged (inr (h, l)) (inr (k, m)) = ground arith

  unchanged : (q ≡ p) × (r.1 ≡ q.1)
  unchanged = first_unchanged s.changed u.changed

pub ComparedWith-suc :
    {st : Store} {op : Operator} (i n : ℕ) (p q r : Pass)
    → Simpler st op p q
    → Simpler st op q r
    → (q.1 ≡ p.1 → (j : ℕ) → j < n → i ≢ j → NotJoined st op p.0 i j)
    → (r.1 ≡ q.1 → i ≢ n → NotJoined st op q.0 i n)
    → r.1 ≡ p.1
    → (j : ℕ) → j < suc n
    → i ≢ j
    → NotJoined st op p.0 i j
ComparedWith-suc {st} {op} i n p q r s u k v c j l ne =
    let (e, d) = unchanged p q r s u c in
    elim (Bool-cases (j == n)) [
      | inl h ↦
          let t = (==_iff j n).0 h in
          subst (λ y. NotJoined st op p.0 i y) (sym t)
            (subst (λ x. NotJoined st op x.0 i n) e (v d (λ w. ne (w ∙ sym t))))
      | inr h ↦ k (ap (λ x. x.1) e) j (ground (arith, ==_iff j n)) ne
    ]

pub AllCompared-suc :
    {st : Store} {op : Operator} (all n : ℕ) (p q r : Pass)
    → Simpler st op p q
    → Simpler st op q r
    → (q.1 ≡ p.1 → (i j : ℕ) → i < n → j < all → i ≢ j → NotJoined st op p.0 i j)
    → (r.1 ≡ q.1 → (j : ℕ) → j < all → n ≢ j → NotJoined st op q.0 n j)
    → r.1 ≡ p.1
    → (i j : ℕ) → i < suc n
    → j < all
    → i ≢ j
    → NotJoined st op p.0 i j
AllCompared-suc {st} {op} all n p q r s u k v c i j li lj ne =
    let (e, d) = unchanged p q r s u c in
    elim (Bool-cases (i == n)) [
      | inl h ↦
          let t = (==_iff i n).0 h in
          subst (λ y. NotJoined st op p.0 y j) (sym t)
            (subst (λ x. NotJoined st op x.0 n j) e (v d j lj (λ w. ne (t ∙ w))))
      | inr h ↦ k (ap (λ x. x.1) e) i j (ground (arith, ==_iff i n)) lj ne
    ]
