-- ===== src/Expr/Equal/Result.antt =====
-- scripts/kconfig/expr.c: what `expr_eq` and `expr_eliminate_eq` promise their callers.
use kdevops.Prelude.{ℕ, suc, ◌+◌, ◌<◌, Bool, true, ◌≡◌, refl, Option, none, some, arith}
use kdevops.Expr.{Expr}
use kdevops.Expr.Equal.{
  Operator, op_or, op_and, Walk, walk, operator, first_walk, second_walk, eliminate_eq, height,
  expr_eq_fuel, expr_eq, expr_eliminate_eq,
}
use kdevops.Expr.Equal.Common.{EachLeaf, Differ, marks, expr_eq_fuel-KnowsSymbols}
use kdevops.Expr.Equal.Removal.{walk-Removes}
use kdevops.Expr.Equal.Shares.{Shares}
use kdevops.Expr.Equal.Sound.{expr_eq-value, expr_eq_fuel-value, walk-Shares}
use kdevops.Expr.Equal.Total.{expr_eq-Returns, expr_eliminate_eq-Returns}
use kdevops.Expr.Outcome.{Post, just, >>=-Post, Post-map, Post-both, Ends, Ends-Post}
use kdevops.Expr.Value.{value, value?}
use kdevops.Expr.YesNo.{expr_eliminate_yn}
use kdevops.Symbol.{Store}
use kdevops.Symbol.Consistent.{IsConsistent}

-- What a walk at `op` does: no leaf that is left of one tree is equal to one that is left of the other,
-- unless both are the same constant; as many leaves of either tree as `trans_count` has risen by are
-- replaced by the constant of `op`; and the values have lost a common part.
pub record Removed (st : Store) (eq : Expr → Expr → Option Bool) (op : Operator) (a b : Expr)
    (k : ℕ) (w : Walk) : Type 0 where
  pub differ : EachLeaf (λ x. EachLeaf (Differ eq x) op w.1) op w.0
  pub count1 : marks op w.0 + k ≡ marks op a + w.2
  pub count2 : marks op w.1 + k ≡ marks op b + w.2
  pub shares : Shares op (value st a) (value st b) (value st w.0) (value st w.1)

-- A walk that is made only if there is an operator for it.
unfoldable pub StepOf :
    Store → (Expr → Expr → Option Bool) → Option Operator → Expr → Expr → ℕ → Walk → Type 0
StepOf st eq none a b k w = w ≡ (a, b, k)
StepOf st eq (some op) a b k w = Removed st eq op a b k w

-- The second walk is for the operator of the second tree, where the first tree has another one or none.
unfoldable pub second_operator : Option Operator → Option Operator → Option Operator
second_operator (some op_and) (some op_and) = none
second_operator (some op_or) (some op_or) = none
second_operator _ o = o

-- Both walks, and `expr_eliminate_yn` of what they leave. `fuel` is that of the test of equality.
pub record Eliminates (st : Store) (a b : Expr) (k : ℕ) (w : Walk) : Type 0 where
  pub fuel : ℕ
  pub fuel_enough : height a < fuel
  pub mid : Walk
  pub last : Walk
  pub step1 : StepOf st (expr_eq_fuel fuel) (operator a) a b k mid
  pub step2 :
      StepOf st
        (expr_eq_fuel fuel)
        (second_operator (operator mid.0) (operator mid.1))
        mid.0
        mid.1
        mid.2
        last
  pub result : w ≡ (expr_eliminate_yn last.0, expr_eliminate_yn last.1, last.2)

-- On two pointers: where one is null nothing changes.
unfoldable pub Eliminates? :
    Store → Option Expr → Option Expr → ℕ → Option Expr × Option Expr × ℕ → Type 0
Eliminates? st (some a) (some b) k w =
    (x : Walk) × (w ≡ (some x.0, some x.1, x.2)) × Eliminates st a b k x
Eliminates? st a b k w = w ≡ (a, b, k)

module _ {st : Store} (good : IsConsistent st) where
  -- In a consistent store, `expr_eq` returns, and two expressions of which it says that they are
  -- equal have one value.
  pub expr_eq_correct :
      (a b : Option Expr) → Ends (λ same. same ≡ true → value? st a ≡ value? st b) (expr_eq a b)
  expr_eq_correct a b =
      let e = expr_eq-Returns a b in
      record {
        result = e.result;
        is_result = e.is_result;
        holds = λ h. expr_eq-value good a b (rw h at (e.is_result));
      }

  module _ (fuel : ℕ) where
    abbrev eq : Expr → Expr → Option Bool
    eq = expr_eq_fuel fuel

    walk-Removed :
        (op : Operator) (a b : Expr) (k : ℕ) → Post (Removed st eq op a b k) (walk eq op a b k)
    walk-Removed op a b k =
        Post-map (walk eq op a b k)
          (λ w (r, s). record {
            differ = r.differ;
            count1 = r.count1;
            count2 = r.count2;
            shares = s;
          })
          (Post-both (walk eq op a b k) (walk-Removes eq (expr_eq_fuel-KnowsSymbols fuel) op a b k)
            (walk-Shares good eq (expr_eq_fuel-value good fuel) op a b k))

    first_walk-StepOf :
        (o : Option Operator) (a b : Expr) (k : ℕ)
        → Post (StepOf st eq o a b k) (first_walk eq o a b k)
    unfolding first_walk StepOf
    first_walk-StepOf none a b k = just refl
    first_walk-StepOf (some op) a b k = walk-Removed op a b k

    second_walk-StepOf :
        (o p : Option Operator) (a b : Expr) (k : ℕ)
        → Post (StepOf st eq (second_operator o p) a b k) (second_walk eq o p a b k)
    unfolding second_walk StepOf second_operator
    second_walk-StepOf (some op_and) (some op_and) a b k = just refl
    second_walk-StepOf (some op_or) (some op_or) a b k = just refl
    second_walk-StepOf none none a b k = just refl
    second_walk-StepOf (some op_and) none a b k = just refl
    second_walk-StepOf (some op_or) none a b k = just refl
    second_walk-StepOf none (some op) a b k = walk-Removed op a b k
    second_walk-StepOf (some op_and) (some op_or) a b k = walk-Removed op_or a b k
    second_walk-StepOf (some op_or) (some op_and) a b k = walk-Removed op_and a b k

    eliminate_eq-Eliminates :
        (a b : Expr) (k : ℕ) → height a < fuel → Post (Eliminates st a b k) (eliminate_eq eq a b k)
    unfolding eliminate_eq
    eliminate_eq-Eliminates a b k h =
        >>=-Post (first_walk eq (operator a) a b k) (first_walk-StepOf (operator a) a b k) (λ x p.
          >>=-Post (second_walk eq (operator x.0) (operator x.1) x.0 x.1 x.2)
            (second_walk-StepOf (operator x.0) (operator x.1) x.0 x.1 x.2)
            (λ y q. just (record {
              fuel = fuel;
              fuel_enough = h;
              mid = x;
              last = y;
              step1 = p;
              step2 = q;
              result = refl;
            })))

  expr_eliminate_eq-Eliminates :
      (a b : Option Expr) (count : ℕ)
      → Post (Eliminates? st a b count) (expr_eliminate_eq a b count)
  unfolding expr_eliminate_eq Eliminates?
  expr_eliminate_eq-Eliminates (some a) (some b) k =
      >>=-Post (eliminate_eq (expr_eq_fuel (suc (height a))) a b k)
        (eliminate_eq-Eliminates (suc (height a)) a b k (omega arith)) (λ w p. just (w, refl, p))
  expr_eliminate_eq-Eliminates none b k = just refl
  expr_eliminate_eq-Eliminates (some a) none k = just refl

  -- In a consistent store, `expr_eliminate_eq` returns. Where neither pointer is null, it makes a walk for
  -- the operator of the first expression, a second one for that of the second expression if the first
  -- one does not have it then, and simplifies constants. After a walk no leaf of one tree is equal to a
  -- leaf of the other, but for a constant; as many leaves of either as trans_count has risen by are
  -- replaced by the neutral constant; and what was removed is common to both values.
  pub expr_eliminate_eq_correct :
      (a b : Option Expr) (count : ℕ)
      → Ends (Eliminates? st a b count) (expr_eliminate_eq a b count)
  expr_eliminate_eq_correct a b count =
      Ends-Post (expr_eliminate_eq-Returns a b count) (expr_eliminate_eq-Eliminates a b count)
