-- ===== src/Expr/Dups/Step.antt =====
-- scripts/kconfig/expr.c: one step of `expr_eliminate_dups1`, its value and what it leaves for
-- `expr_eliminate_yn`.
use kdevops.Prelude.{
  ℕ, ◌+◌, ◌≤◌, ◌<◌, ◌≡◌, ◌≢◌, refl, sym, ap, ◌∙◌, ◌⊎◌, inl, inr, List, length, arith,
}
use kdevops.Expr.{Expr}
use kdevops.Expr.Equal.{Operator, neutral}
use kdevops.Expr.Dups.{operand, set_operand, leaves, Pass}
use kdevops.Expr.Dups.Joins.{Joins}
use kdevops.Expr.Dups.Measure.{leaves-expr_eliminate_yn, kept, kept_le, kept-neutral}
use kdevops.Expr.Dups.Operands.{
  length-set_operand, operand-set_operand_same, operand-set_operand_other, set_operand-operand,
  total, total-set_operand, total_lt,
}
use kdevops.Expr.Dups.Meaning.{apply, unit, apply_assoc, value_of, value_of-set_operand}
use kdevops.Expr.Value.{value}
use kdevops.Expr.YesNo.{expr_eliminate_yn}
use kdevops.Symbol.{Store}

-- Nothing has changed, or `trans_count` grew and the next simplification makes the tree smaller.
abbrev pub Changes : Expr → ℕ → Expr × ℕ → Type 0
Changes e n r = (r ≡ (e, n)) ⊎ ((n < r.1) × (leaves (expr_eliminate_yn r.0) < leaves r.0))

abbrev pub ChangesPass : Operator → Pass → Pass → Type 0
ChangesPass op p q = (q ≡ p) ⊎ ((p.1 < q.1) × (total (kept op) q.0 < total leaves q.0))

-- What a pass over an expression does to it and to `trans_count`.
pub record Reduces (st : Store) (e : Expr) (n : ℕ) (r : Expr × ℕ) : Type 0 where
  pub same_value : value st r.0 ≡ value st e
  pub leaves_le : leaves r.0 ≤ leaves e
  pub changed : Changes e n r

-- The same for its operands.
pub record Simpler (st : Store) (op : Operator) (p q : Pass) : Type 0 where
  pub same_length : length q.0 ≡ length p.0
  pub same_value : value_of op st q.0 ≡ value_of op st p.0
  pub leaves_le : total leaves q.0 ≤ total leaves p.0
  pub changed : ChangesPass op p q

pub Simpler-refl : (st : Store) (op : Operator) (p : Pass) → Simpler st op p p
Simpler-refl st op p = record {
  same_length = refl;
  same_value = refl;
  leaves_le = omega arith;
  changed = inl refl;
}

module _ {st : Store} {op : Operator} {p q r : Pass} (a : Simpler st op p q)
    (b : Simpler st op q r) where
  trans-changed : ChangesPass op p q → ChangesPass op q r → ChangesPass op p r
  trans-changed (inl h) (inl k) = inl (k ∙ h)
  trans-changed (inl h) (inr (k, l)) = inr (rw (sym h) k, l)
  trans-changed (inr (h, l)) (inl k) = inr (rw k h, rw k l)
  trans-changed (inr (h, l)) (inr (k, m)) = inr (omega arith, m)

  pub Simpler-trans : Simpler st op p r
  Simpler-trans = record {
    same_length = b.same_length ∙ a.same_length;
    same_value = b.same_value ∙ a.same_value;
    leaves_le = omega (arith, a.leaves_le, b.leaves_le);
    changed = trans-changed a.changed b.changed;
  }

-- One operand taken out of the value of all.
value_of-at :
    (st : Store) (op : Operator) (i : ℕ) (xs : List Expr)
    → i < length xs
    → value st (neutral op) ≡ unit op
    → value_of op st xs
      ≡ apply op (value st (operand xs i)) (value_of op st (set_operand i (neutral op) xs))
value_of-at st op i xs h n =
    ap (value_of op st) (sym (set_operand-operand i xs))
    ∙ value_of-set_operand op st i (operand xs i) xs h n

leaves-neutral : (op : Operator) → leaves (neutral op) ≡ 1
unfolding leaves
leaves-neutral op = ground arith

kept_le_leaves : (op : Operator) (e : Expr) → kept op e ≤ leaves e
kept_le_leaves op e = omega (arith, kept_le op e, leaves-expr_eliminate_yn e)

module _ (st : Store) (op : Operator) (n : value st (neutral op) ≡ unit op) (i : ℕ) (xs : List Expr)
    (hi : i < length xs) where
  -- The call on an operand.
  module _ (count : ℕ) (r : Expr × ℕ) (h : Reduces st (operand xs i) count r) where
    nested-changed :
        Changes (operand xs i) count r → ChangesPass op (xs, count) (set_operand i r.0 xs, r.1)
    nested-changed (inl e) = inl (
        ap {B = Pass} (λ s. (set_operand i s.0 xs, s.1)) e
        ∙ ap {B = Pass} (λ ys. (ys, count)) (set_operand-operand i xs))
    nested-changed (inr (k, l)) = inr (
      k,
      total_lt (kept op) leaves (kept_le_leaves op) i (set_operand i r.0 xs)
          (omega (arith, length-set_operand i r.0 xs, hi))
          (rw (operand-set_operand_same i r.0 xs hi) (omega (arith, kept_le op r.0, l))),
    )

    pub nested-Simpler : Simpler st op (xs, count) (set_operand i r.0 xs, r.1)
    nested-Simpler = record {
      same_length = length-set_operand i r.0 xs;
      same_value =
          value_of-set_operand op st i r.0 xs hi n
          ∙ ap (λ v. apply op v (value_of op st (set_operand i (neutral op) xs))) h.same_value
          ∙ sym (value_of-at st op i xs hi n);
      leaves_le = omega (arith, total-set_operand leaves i r.0 xs hi, h.leaves_le);
      changed = nested-changed h.changed;
    }

  -- A join of two operands, where `ys` are the operands without the first.
  module _ (j : ℕ) (hj : j < length xs) (ne : i ≢ j) (ys : List Expr)
      (is_ys : set_operand i (neutral op) xs ≡ ys) where
    length_ys : length ys ≡ length xs
    length_ys = ap length (sym is_ys) ∙ length-set_operand i (neutral op) xs

    operand_ys : operand ys j ≡ operand xs j
    operand_ys =
        ap (λ zs. operand zs j) (sym is_ys) ∙ operand-set_operand_other i j (neutral op) xs ne

    value-join :
        (e : Expr)
        → value st e ≡ apply op (value st (operand xs i)) (value st (operand xs j))
        → value_of op st (set_operand j e ys) ≡ value_of op st xs
    value-join e h =
        let b = value_of-at st op j ys (omega (arith, length_ys, hj)) n in
        value_of-set_operand op st j e ys (omega (arith, length_ys, hj)) n
        ∙ ap (λ v. apply op v (value_of op st (set_operand j (neutral op) ys))) h
        ∙ apply_assoc op _ _ _
        ∙ ap (apply op (value st (operand xs i))) (
            ap (λ f. apply op (value st f) (value_of op st (set_operand j (neutral op) ys)))
              (sym operand_ys)
            ∙ sym b
            ∙ ap (value_of op st) (sym is_ys))
        ∙ sym (value_of-at st op i xs hi n)

    leaves-join :
        (e : Expr)
        → leaves e + 1 ≤ leaves (operand xs i) + leaves (operand xs j)
        → total leaves (set_operand j e ys) ≤ total leaves xs
    leaves-join e h = omega (
      arith,
      h,
      total-set_operand leaves j e ys (omega (arith, length_ys, hj)),
      ap leaves operand_ys,
      ap (total leaves) is_ys,
      total-set_operand leaves i (neutral op) xs hi,
      leaves-neutral op,
    )

    kept-join :
        (e : Expr) → total (kept op) (set_operand j e ys) < total leaves (set_operand j e ys)
    kept-join e =
        total_lt (kept op) leaves (kept_le_leaves op) i (set_operand j e ys)
          (omega (arith, length-set_operand j e ys, length_ys, hi))
          (rw
            (operand-set_operand_other j i e ys (λ k. ne (sym k))
              ∙ ap (λ zs. operand zs i) (sym is_ys)
              ∙ operand-set_operand_same i (neutral op) xs hi)
            (kept-neutral op))

    pub join-Simpler :
        (e : Expr) (count : ℕ)
        → Joins op st (operand xs i) (operand xs j) e
        → Simpler st op (xs, count) (set_operand j e ys, count + 1)
    join-Simpler e count (v, l) = record {
      same_length = length-set_operand j e ys ∙ length_ys;
      same_value = value-join e v;
      leaves_le = leaves-join e l;
      changed = inr (omega arith, kept-join e);
    }
