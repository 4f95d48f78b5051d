-- ===== src/Expr/Dups/Compare.antt =====
-- scripts/kconfig/expr.c: the comparisons of `expr_eliminate_dups1`, their ends and what they leave
-- unjoined.
use kdevops.Prelude.{
  ℕ, zero, suc, ◌≤◌, ◌<◌, ◌≡◌, ◌≢◌, refl, sym, ap, ◌∙◌, inl, inr, Option, none, some, List, ◌==◌,
  ==_iff, length, arith, Bool-cases,
}
use kdevops.Tristate.{tri_no, tri_yes}
use kdevops.Expr.{Expr}
use kdevops.Expr.Equal.{Operator, op_or, op_and, neutral}
use kdevops.Expr.Dups.{
  operand, set_operand, leaves, join, Pass, join_operands, compare_leaves, each_second, each_first,
}
use kdevops.Expr.Dups.Compared.{
  NotJoined, Compared, ComparedWith, AllCompared, Ends-self, Ends-map, ComparedWith-suc,
  AllCompared-suc,
}
use kdevops.Expr.Dups.Joins.{Joins, join-Joins}
use kdevops.Expr.Dups.Measure.{leaves_pos}
use kdevops.Expr.Dups.Operands.{
  length-set_operand, operand-set_operand_same, operand-set_operand_other, total, operands_le_total,
}
use kdevops.Expr.Dups.Step.{
  Reduces, Changes, Simpler, Simpler-refl, Simpler-trans, nested-Simpler, join-Simpler,
}
use kdevops.Expr.Dups.Meaning.{unit}
use kdevops.Expr.Join.Cases.{ConstantsDiffer}
use kdevops.Expr.Outcome.{◌>>=◌, Post, just, Ends, >>=-Ends}
use kdevops.Expr.Value.{value}
use kdevops.Symbol.{Store}
use kdevops.Symbol.Consistent.{IsConsistent}

module _ {st : Store} (good : IsConsistent st) (differ : ConstantsDiffer st) where
  value-neutral : (op : Operator) → value st (neutral op) ≡ unit op
  unfolding value unit
  value-neutral op_or = (good.constants tri_no).tri
  value-neutral op_and = (good.constants tri_yes).tri

  joined-Simpler :
      (op : Operator) (i j : ℕ) (xs : List Expr) (count : ℕ)
      → i < length xs
      → j < length xs
      → i ≢ j
      → (m : Option Expr) → Post (Joins op st (operand xs i) (operand xs j)) m
      → Simpler st op (xs, count) (join_operands op i j m xs count)
  unfolding join_operands
  joined-Simpler op i j xs count hi hj ne none h = Simpler-refl st op (xs, count)
  joined-Simpler op i j xs count hi hj ne (some e) (just h) =
      join-Simpler st op (value-neutral op) i xs hi j hj ne _ refl e count h

  -- The calls on operands return with the fuel `f` if these have at most `f` leaves.
  module _ (nested : Expr → ℕ → Option (Expr × ℕ)) (f : ℕ)
      (nested_ends : (e : Expr) (n : ℕ) → leaves e ≤ f → Ends (Reduces st e n) (nested e n))
      (op : Operator) where
    -- Behind both calls: where `trans_count` stays, neither found anything.
    not_joined :
        (i j : ℕ) (p : Pass) (r : Expr × ℕ) (m : Option Expr)
        → Changes (operand p.0 i) p.1 r
        → join op st r.0 (operand p.0 j) ≡ some m
        → (join_operands op i j m (set_operand i r.0 p.0) r.1).1 ≡ p.1
        → NotJoined st op p.0 i j
    unfolding join_operands
    not_joined i j p r none (inl h) k c = ap (λ s. join op st s.0 (operand p.0 j)) (sym h) ∙ k
    not_joined i j p r none (inr (h, l)) k c = ground arith
    not_joined i j p r (some e) (inl h) k c = ground (arith, ap (λ s. s.1) h)
    not_joined i j p r (some e) (inr (h, l)) k c = ground arith

    different-Compared :
        (i j : ℕ) (p : Pass)
        → i < length p.0
        → j < length p.0
        → total leaves p.0 ≤ suc f
        → i ≢ j
        → Ends (Compared st op i j p) (do
          (e1, k) ← nested (operand p.0 i) p.1
          joined ← join op st e1 (operand p.0 j)
          some (join_operands op i j joined (set_operand i e1 p.0) k))
    different-Compared i j p hi hj t ne =
        >>=-Ends (nested (operand p.0 i) p.1)
          (nested_ends (operand p.0 i) p.1 (
            omega
              (arith, t, leaves_pos (operand p.0 j), operands_le_total leaves i j p.0 hi hj ne)))
          (λ r h.
            >>=-Ends (join op st r.0 (operand p.0 j))
              (Ends-self (join-Joins good differ op r.0 (operand p.0 j)))
              (λ m (w, k). record {
                result = join_operands op i j m (set_operand i r.0 p.0) r.1;
                is_result = refl;
                holds =
                    let ys = set_operand i r.0 p.0 in
                    let l = length-set_operand i r.0 p.0 in
                    (
                      Simpler-trans (nested-Simpler st op (value-neutral op) i p.0 hi p.1 r h) (
                          joined-Simpler op i j ys r.1 (omega (arith, l, hi)) (omega (arith, l, hj))
                            ne m
                            (rw (operand-set_operand_same i r.0 p.0 hi)
                              (rw (operand-set_operand_other i j r.0 p.0 ne) k))),
                      (λ c _. not_joined i j p r m h.changed w c),
                    );
              }))

    pub compare_leaves-Compared :
        (i j : ℕ) (p : Pass)
        → i < length p.0
        → j < length p.0
        → total leaves p.0 ≤ suc f
        → Ends (Compared st op i j p) (compare_leaves nested st op i j p)
    unfolding compare_leaves
    compare_leaves-Compared i j p hi hj t = elim (Bool-cases (i == j)) [
      | inl e ↦ rw e (record {
        result = p;
        is_result = refl;
        holds = (Simpler-refl st op p, λ c ne. ground (arith, ==_iff i j));
      })
      | inr e ↦ rw e (different-Compared i j p hi hj t (ground (arith, ==_iff i j)))
    ]

    pub each_second-NoneJoined :
        (i n : ℕ) (p : Pass)
        → i < length p.0
        → n ≤ length p.0
        → total leaves p.0 ≤ suc f
        → Ends (ComparedWith st op i n p) (each_second nested st op i n p)
    unfolding each_second
    each_second-NoneJoined i zero p hi hn t = record {
      result = p;
      is_result = refl;
      holds = (Simpler-refl st op p, λ c j l. ground arith);
    }
    each_second-NoneJoined i (suc n) p hi hn t =
        >>=-Ends (each_second nested st op i n p) (each_second-NoneJoined i n p hi (omega arith) t)
          (λ q (s, k).
            Ends-map
              (compare_leaves-Compared i n q (omega (arith, s.same_length, hi))
                (omega (arith, s.same_length, hn)) (omega (arith, s.leaves_le, t)))
              (λ r (u, v). (Simpler-trans s u, ComparedWith-suc i n p q r s u k v)))

    pub each_first-NoneJoined :
        (all n : ℕ) (p : Pass)
        → all ≤ length p.0
        → n ≤ length p.0
        → total leaves p.0 ≤ suc f
        → Ends (AllCompared st op all n p) (each_first nested st op all n p)
    unfolding each_first
    each_first-NoneJoined all zero p ha hn t = record {
      result = p;
      is_result = refl;
      holds = (Simpler-refl st op p, λ c i j l. ground arith);
    }
    each_first-NoneJoined all (suc n) p ha hn t =
        >>=-Ends (each_first nested st op all n p)
          (each_first-NoneJoined all n p ha (omega arith) t)
          (λ q (s, k).
            Ends-map
              (each_second-NoneJoined n all q (omega (arith, s.same_length, hn))
                (omega (arith, s.same_length, ha)) (omega (arith, s.leaves_le, t)))
              (λ r (u, v). (Simpler-trans s u, AllCompared-suc all n p q r s u k v)))
