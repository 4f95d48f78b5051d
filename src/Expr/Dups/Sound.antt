-- ===== src/Expr/Dups/Sound.antt =====
-- scripts/kconfig/expr.c: the passes and the loop of `expr_eliminate_dups`, their ends and values.
use kdevops.Prelude.{
  ℕ, zero, suc, ◌≤◌, ◌<◌, ◌≡◌, ◌≢◌, refl, sym, ap, ◌∙◌, inl, inr, false, Option, none, some, ◌==◌,
  ==_iff, length, arith, Bool-cases,
}
use mathlib.Core.Path.{subst}
use kdevops.Expr.{Expr}
use kdevops.Expr.Equal.{Operator, operator}
use kdevops.Expr.Dups.{
  operands, refill, leaves, Pass, each_first, pass_at, expr_eliminate_dups1, eliminate_dups_fuel,
  expr_eliminate_dups,
}
use kdevops.Expr.Dups.Measure.{
  leaves_pos, leaves-expr_eliminate_yn, kept, kept-node, shrinks-of_kept,
}
use kdevops.Expr.Dups.Compared.{NotJoined}
use kdevops.Expr.Dups.Compare.{each_first-NoneJoined}
use kdevops.Expr.Dups.Step.{Reduces, Changes, ChangesPass}
use kdevops.Expr.Dups.Meaning.{value-refill}
use kdevops.Expr.Dups.Tree.{
  refill-operands, refill_le, leaves-refill, operator-refill, total-operands,
}
use kdevops.Expr.Join.Cases.{ConstantsDiffer}
use kdevops.Expr.Outcome.{Ends, >>=-Ends}
use kdevops.Expr.Value.{value}
use kdevops.Expr.YesNo.{expr_eliminate_yn, value-expr_eliminate_yn}
use kdevops.Symbol.{Store}
use kdevops.Symbol.Consistent.{IsConsistent}

refill-Changes :
    (op : Operator) (e : Expr) (n : ℕ) (q : Pass)
    → operator e ≡ some op
    → length q.0 ≡ length (operands op e)
    → ChangesPass op (operands op e, n) q
    → Changes e n (refill op e q.0, q.1)
refill-Changes op e n q k l (inl h) = inl (
    ap {B = Expr × ℕ} (λ s. (refill op e s.0, s.1)) h
    ∙ ap {B = Expr × ℕ} (λ x. (x, n)) (refill-operands op e))
refill-Changes op e n q k l (inr (h, t)) = inr (
  h,
  shrinks-of_kept op (refill op e q.0) (operator-refill op e q.0 k)
      (omega (arith, t, leaves-refill op e q.0 l, refill_le (kept op) op (kept-node op) e q.0 l)),
)

-- No two operands of the root's operator can be joined.
unfoldable pub IsSettledAt : Store → Option Operator → Expr → Type 0
unfolding operands
IsSettledAt st none e = Unit
IsSettledAt st (some op) e =
    (i j : ℕ)
    → i < length (operands op e)
    → j < length (operands op e)
    → i ≢ j
    → NotJoined st op (operands op e) i j

unfoldable pub IsSettled : Store → Expr → Type 0
unfolding IsSettledAt
IsSettled st e = IsSettledAt st (operator e) e

-- The result of `expr_eliminate_dups`.
pub record Deduplicates (st : Store) (e r : Expr) : Type 0 where
  pub same_value : value st r ≡ value st e
  pub leaves_le : leaves r ≤ leaves e
  pub settled : IsSettled st r

module _ {st : Store} (good : IsConsistent st) (differ : ConstantsDiffer st) where
  pass_at-Reduces :
      (nested : Expr → ℕ → Option (Expr × ℕ)) (f : ℕ)
      → ((e : Expr) (n : ℕ) → leaves e ≤ f → Ends (Reduces st e n) (nested e n))
      → (o : Option Operator) (e : Expr) (n : ℕ) → operator e ≡ o
      → leaves e ≤ suc f
      → Ends (λ r. Reduces st e n r × (r.1 ≡ n → IsSettledAt st o e)) (pass_at nested st o e n)
  unfolding pass_at IsSettledAt
  pass_at-Reduces nested f h none e n k t = record {
    result = (e, n);
    is_result = refl;
    holds = (record { same_value = refl; leaves_le = omega arith; changed = inl refl }, λ c. tt);
  }
  pass_at-Reduces nested f h (some op) e n k t =
      let xs = operands op e in
      >>=-Ends (each_first nested st op (length xs) (length xs) (xs, n))
        (each_first-NoneJoined good differ nested f h op (length xs) (length xs) (xs, n)
          (omega arith) (omega arith) (omega (arith, t, total-operands op e)))
        (λ q (s, none_joined). record {
          result = (refill op e q.0, q.1);
          is_result = refl;
          holds = (
            record {
              same_value =
                  value-refill op st e q.0 s.same_length
                  ∙ s.same_value
                  ∙ sym (value-refill op st e xs refl)
                  ∙ ap (value st) (refill-operands op e);
              leaves_le =
                  omega
                    (arith, leaves-refill op e q.0 s.same_length, s.leaves_le, total-operands op e);
              changed = refill-Changes op e n q k s.same_length s.changed;
            },
            λ c i j hi hj ne. none_joined c i j hi hj ne,
          );
        })

  pass-Reduces :
      (fuel : ℕ) (e : Expr) (n : ℕ)
      → leaves e ≤ fuel
      → Ends (λ r. Reduces st e n r × (r.1 ≡ n → IsSettled st e)) (expr_eliminate_dups1 fuel st e n)
  unfolding expr_eliminate_dups1 IsSettled
  pass-Reduces zero e n h = ground (arith, leaves_pos e)
  pass-Reduces (suc f) e n h =
      pass_at-Reduces (expr_eliminate_dups1 f st) f
        (λ x m l.
          let p = pass-Reduces f x m l in
          record { result = p.result; is_result = p.is_result; holds = p.holds.0 })
        (operator e) e n refl h

  -- A round in which nothing was joined is the last.
  last_round :
      (e : Expr) (r : Expr × ℕ)
      → Changes e 0 r
      → (r.1 ≡ 0 → IsSettled st e)
      → r.1 ≡ 0
      → Deduplicates st e r.0
  last_round e r (inl h) k c = record {
    same_value = ap (λ s. value st s.0) h;
    leaves_le = omega (arith, ap (λ s. leaves s.0) h);
    settled = subst (λ s. IsSettled st s.0) (sym h) (k c);
  }
  last_round e r (inr (h, l)) k c = ground arith

  -- After another one, the tree is smaller.
  next_round :
      (f : ℕ) (e : Expr) (r : Expr × ℕ)
      → leaves r.0 ≤ leaves e
      → leaves e < suc f
      → Changes e 0 r
      → (r.1 == 0) ≡ false
      → leaves (expr_eliminate_yn r.0) < f
  next_round f e r le lt (inl h) c = ground (arith, ap (λ s. s.1) h, ==_iff r.1 0)
  next_round f e r le lt (inr (h, l)) c = omega arith

  Deduplicates-trans :
      (e f r : Expr)
      → value st f ≡ value st e
      → leaves f ≤ leaves e
      → Deduplicates st (expr_eliminate_yn f) r
      → Deduplicates st e r
  Deduplicates-trans e f r v l d = record {
    same_value = d.same_value ∙ value-expr_eliminate_yn good f ∙ v;
    leaves_le = omega (arith, d.leaves_le, leaves-expr_eliminate_yn f, l);
    settled = d.settled;
  }

  eliminate_dups_fuel-Deduplicates :
      (fuel : ℕ) (e : Expr)
      → leaves e < fuel
      → Ends (Deduplicates st e) (eliminate_dups_fuel fuel st e)
  unfolding eliminate_dups_fuel
  eliminate_dups_fuel-Deduplicates zero e h = ground arith
  eliminate_dups_fuel-Deduplicates (suc f) e h =
      >>=-Ends (expr_eliminate_dups1 (suc f) st e 0) (pass-Reduces (suc f) e 0 (omega arith))
        (λ r (a, k). elim (Bool-cases (r.1 == 0)) [
          | inl c ↦ rw c (record {
            result = r.0;
            is_result = refl;
            holds = last_round e r a.changed k ((==_iff r.1 0).0 c);
          })
          | inr c ↦
              let d =
                eliminate_dups_fuel-Deduplicates f (expr_eliminate_yn r.0)
                  (next_round f e r a.leaves_le h a.changed c) in
              rw c (record {
                result = d.result;
                is_result = d.is_result;
                holds = Deduplicates-trans e r.0 d.result a.same_value a.leaves_le d.holds;
              })
        ])

  -- In a consistent store in which no tristate symbol compares equal to two constant symbols,
  -- `expr_eliminate_dups` returns. Its result has the value of its argument and no more operands, and
  -- no two different operands of the `||` or `&&` at its root can be joined further.
  pub expr_eliminate_dups-Deduplicates :
      (e : Expr) → Ends (Deduplicates st e) (expr_eliminate_dups st e)
  unfolding expr_eliminate_dups
  expr_eliminate_dups-Deduplicates e =
      eliminate_dups_fuel-Deduplicates (suc (leaves e)) e (omega arith)
