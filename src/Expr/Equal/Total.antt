-- ===== src/Expr/Equal/Total.antt =====
-- scripts/kconfig/expr.c: the recursion of `expr_eq` and `expr_eliminate_eq` ends: the height of the
-- first expression is fuel enough.
use kdevops.Prelude.{
  ℕ, zero, suc, ◌+◌, ◌≤◌, ◌<◌, max, Bool, true, false, ◌≡◌, ◌≢◌, refl, sym, ◌∙◌, inl, inr, Option,
  none, some, if◌then◌else◌, Bool-cases, arith,
}
use kdevops.Expr.{Expr, symbol, not_expr, and_expr, or_expr, comp}
use kdevops.Expr.Outcome.{Ends, >>=-Ends}
use kdevops.Expr.Equal.{
  Operator, op_or, op_and, Walk, neutral, same_constant, eliminate_leaves, walk_second, walk,
  operator, first_walk, second_walk, eliminate_eq, height, expr_eq_fuel, expr_eq, expr_eliminate_eq,
}

abbrev pub Returns {ℓ} : {A : Type ℓ} → Option A → Type ℓ
Returns m = Ends (λ _. Unit {0}) m

abbrev done {ℓ} : {A : Type ℓ} (a : A) → Returns (some a)
done a = record { result = a; is_result = refl; holds = tt }

-- The height of the highest leaf of a walk.
leaf_height : Operator → Expr → ℕ
leaf_height op_or (or_expr l r) = max (leaf_height op_or l) (leaf_height op_or r)
leaf_height op_and (and_expr l r) = max (leaf_height op_and l) (leaf_height op_and r)
leaf_height op e = height e

leaf_height-le : (op : Operator) (e : Expr) → leaf_height op e ≤ height e
unfolding leaf_height height
leaf_height-le op_or (or_expr l r) = omega (arith, leaf_height-le op_or l, leaf_height-le op_or r)
leaf_height-le op_and (and_expr l r) =
    omega (arith, leaf_height-le op_and l, leaf_height-le op_and r)
leaf_height-le op e = omega arith

-- What a walk at `op` keeps of the two trees.
record KeepsSecond (op : Operator) (a b : Expr) (w : Walk) : Type 0 where
  height_le : height w.0 ≤ height a
  top2 : operator b ≡ some op → operator w.1 ≡ some op

record Keeps (op : Operator) (a b : Expr) (w : Walk) : Type 0 where
  height_le : height w.0 ≤ height a
  top1 : operator a ≡ some op → operator w.0 ≡ some op
  top2 : operator b ≡ some op → operator w.1 ≡ some op

height_if :
    (op : Operator) (a b : Expr) (k : ℕ) (same : Bool)
    → height (if◌then◌else◌ {A = Walk} same (neutral op, neutral op, k + 1) (a, b, k)).0 ≤ height a
unfolding height
height_if op_or a b k true = omega arith
height_if op_and a b k true = omega arith
height_if op a b k false = omega arith

module _ (eq : Expr → Expr → Option Bool) (fuel : ℕ)
    (eq_ends : (a b : Expr) → height a < fuel → Returns (eq a b)) where
  eliminate_leaves-Ends :
      (op : Operator) (a b : Expr) (k : ℕ)
      → height a < fuel
      → Ends (λ w. height w.0 ≤ height a) (eliminate_leaves eq op a b k)
  unfolding eliminate_leaves
  eliminate_leaves-Ends op a b k h = elim (Bool-cases (same_constant a b)) [
    | inl e ↦ rw e (record { result = (a, b, k); is_result = refl; holds = omega arith })
    | inr e ↦ rw e (
        >>=-Ends (eq a b) (eq_ends a b h) (λ same _. record {
          result = if same then (neutral op, neutral op, k + 1) else (a, b, k);
          is_result = refl;
          holds = height_if op a b k same;
        }))
  ]

  leaves-KeepsSecond :
      (op : Operator) (a b : Expr) (k : ℕ)
      → operator b ≢ some op
      → height a < fuel
      → Ends (KeepsSecond op a b) (eliminate_leaves eq op a b k)
  leaves-KeepsSecond op a b k leaf h =
      let e = eliminate_leaves-Ends op a b k h in
      record {
        result = e.result;
        is_result = e.is_result;
        holds = record { height_le = e.holds; top2 = λ t. absurd (leaf t) };
      }

  walk_second-Ends :
      (op : Operator) (a b : Expr) (k : ℕ)
      → height a < fuel
      → Ends (KeepsSecond op a b) (walk_second eq op a b k)
  unfolding walk_second operator
  walk_second-Ends op_or a (or_expr l r) k h =
      >>=-Ends (walk_second eq op_or a l k) (walk_second-Ends op_or a l k h) (λ (x, l', m) p.
        >>=-Ends (walk_second eq op_or x r m)
          (walk_second-Ends op_or x r m (omega (arith, p.height_le)))
          (λ (y, r', i) q. record {
            result = (y, or_expr l' r', i);
            is_result = refl;
            holds = record {
              height_le = omega (arith, p.height_le, q.height_le);
              top2 = λ _. refl;
            };
          }))
  walk_second-Ends op_and a (and_expr l r) k h =
      >>=-Ends (walk_second eq op_and a l k) (walk_second-Ends op_and a l k h) (λ (x, l', m) p.
        >>=-Ends (walk_second eq op_and x r m)
          (walk_second-Ends op_and x r m (omega (arith, p.height_le)))
          (λ (y, r', i) q. record {
            result = (y, and_expr l' r', i);
            is_result = refl;
            holds = record {
              height_le = omega (arith, p.height_le, q.height_le);
              top2 = λ _. refl;
            };
          }))
  walk_second-Ends op a b k h = leaves-KeepsSecond op a b k (λ e. cc) h

  second-Keeps :
      (op : Operator) (a b : Expr) (k : ℕ)
      → operator a ≢ some op
      → height a < fuel
      → Ends (Keeps op a b) (walk_second eq op a b k)
  second-Keeps op a b k leaf h =
      let e = walk_second-Ends op a b k h in
      record {
        result = e.result;
        is_result = e.is_result;
        holds = record {
          height_le = e.holds.height_le;
          top1 = λ t. absurd (leaf t);
          top2 = e.holds.top2;
        };
      }

  walk-Ends :
      (op : Operator) (a b : Expr) (k : ℕ)
      → leaf_height op a < fuel
      → Ends (Keeps op a b) (walk eq op a b k)
  unfolding walk operator leaf_height height
  walk-Ends op_or (or_expr l r) b k h =
      >>=-Ends (walk eq op_or l b k) (walk-Ends op_or l b k (omega arith)) (λ (l', x, m) p.
        >>=-Ends (walk eq op_or r x m) (walk-Ends op_or r x m (omega arith)) (λ (r', y, i) q.
          record {
            result = (or_expr l' r', y, i);
            is_result = refl;
            holds = record {
              height_le = omega (arith, p.height_le, q.height_le);
              top1 = λ _. refl;
              top2 = λ t. q.top2 (p.top2 t);
            };
          }))
  walk-Ends op_and (and_expr l r) b k h =
      >>=-Ends (walk eq op_and l b k) (walk-Ends op_and l b k (omega arith)) (λ (l', x, m) p.
        >>=-Ends (walk eq op_and r x m) (walk-Ends op_and r x m (omega arith)) (λ (r', y, i) q.
          record {
            result = (and_expr l' r', y, i);
            is_result = refl;
            holds = record {
              height_le = omega (arith, p.height_le, q.height_le);
              top1 = λ _. refl;
              top2 = λ t. q.top2 (p.top2 t);
            };
          }))
  walk-Ends op a b k h = second-Keeps op a b k (λ e. cc) h

  walk-Returns : (op : Operator) (a b : Expr) (k : ℕ) → height a < fuel → Returns (walk eq op a b k)
  walk-Returns op a b k h =
      let e = walk-Ends op a b k (omega (arith, leaf_height-le op a)) in
      record { result = e.result; is_result = e.is_result; holds = tt }

  first_walk-Ends :
      (top : Option Operator) (a b : Expr) (k : ℕ)
      → ((op : Operator) → top ≡ some op → leaf_height op a < fuel)
      → Ends (λ w. height w.0 ≤ height a) (first_walk eq top a b k)
  unfolding first_walk
  first_walk-Ends none a b k h = record {
    result = (a, b, k);
    is_result = refl;
    holds = omega arith;
  }
  first_walk-Ends (some op) a b k h =
      let e = walk-Ends op a b k (h op refl) in
      record { result = e.result; is_result = e.is_result; holds = e.holds.height_le }

  second_walk-Ends :
      (top1 top2 : Option Operator) (a b : Expr) (k : ℕ)
      → ((op : Operator) → top2 ≡ some op → top1 ≢ some op → height a < fuel)
      → Returns (second_walk eq top1 top2 a b k)
  unfolding second_walk
  second_walk-Ends (some op_and) (some op_and) a b k h = done (a, b, k)
  second_walk-Ends (some op_or) (some op_or) a b k h = done (a, b, k)
  second_walk-Ends none none a b k h = done (a, b, k)
  second_walk-Ends (some op) none a b k h = done (a, b, k)
  second_walk-Ends _ (some op) a b k h = walk-Returns op a b k (h op refl (λ e. cc))

  -- With trees at one operator the second walk is not made, and the leaves alone need fuel.
  eliminate_eq-Returns_same :
      (op : Operator) (a b : Expr) (k : ℕ)
      → operator a ≡ some op
      → operator b ≡ some op
      → leaf_height op a < fuel
      → Returns (eliminate_eq eq a b k)
  unfolding eliminate_eq first_walk
  eliminate_eq-Returns_same op a b k ta tb h = rw ta (
      >>=-Ends (walk eq op a b k) (walk-Ends op a b k h) (λ (x, y, m) p.
        >>=-Ends (second_walk eq (operator x) (operator y) x y m)
          (second_walk-Ends (operator x) (operator y) x y m
            (λ op' e n. absurd (n (p.top1 ta ∙ sym (p.top2 tb) ∙ e))))
          (λ (c, d, i) _. done (_, _, i))))

  eliminate_eq-Returns : (a b : Expr) (k : ℕ) → height a < fuel → Returns (eliminate_eq eq a b k)
  unfolding eliminate_eq
  eliminate_eq-Returns a b k h =
      >>=-Ends (first_walk eq (operator a) a b k)
        (first_walk-Ends (operator a) a b k (λ op _. omega (arith, leaf_height-le op a)))
        (λ (x, y, m) p.
          >>=-Ends (second_walk eq (operator x) (operator y) x y m)
            (second_walk-Ends (operator x) (operator y) x y m (λ op e n. omega arith))
            (λ (c, d, i) _. done (_, _, i)))

expr_eq_fuel-Returns : (f : ℕ) (a b : Expr) → height a < f → Returns (expr_eq_fuel f a b)
unfolding expr_eq_fuel height operator leaf_height
expr_eq_fuel-Returns zero a b h = absurd (omega arith)
expr_eq_fuel-Returns (suc f) (symbol s) (symbol t) h = done _
expr_eq_fuel-Returns (suc f) (comp r a b) (comp q c d) h = done _
expr_eq_fuel-Returns (suc f) (not_expr a) (not_expr b) h = expr_eq_fuel-Returns f a b (omega arith)
expr_eq_fuel-Returns (suc f) (and_expr l r) (and_expr p q) h =
    >>=-Ends (eliminate_eq (expr_eq_fuel f) (and_expr l r) (and_expr p q) 0)
      (eliminate_eq-Returns_same (expr_eq_fuel f) f (expr_eq_fuel-Returns f) op_and (and_expr l r)
        (and_expr p q) 0 refl refl
        (omega (arith, leaf_height-le op_and l, leaf_height-le op_and r)))
      (λ w _. done _)
expr_eq_fuel-Returns (suc f) (or_expr l r) (or_expr p q) h =
    >>=-Ends (eliminate_eq (expr_eq_fuel f) (or_expr l r) (or_expr p q) 0)
      (eliminate_eq-Returns_same (expr_eq_fuel f) f (expr_eq_fuel-Returns f) op_or (or_expr l r)
        (or_expr p q) 0 refl refl (omega (arith, leaf_height-le op_or l, leaf_height-le op_or r)))
      (λ w _. done _)
expr_eq_fuel-Returns (suc f) a b h = done _

-- `expr_eq` always gives an answer.
pub expr_eq-Returns : (a b : Option Expr) → Returns (expr_eq a b)
unfolding expr_eq
expr_eq-Returns (some a) (some b) = expr_eq_fuel-Returns (suc (height a)) a b (omega arith)
expr_eq-Returns none b = done _
expr_eq-Returns (some a) none = done _

pub expr_eliminate_eq-Returns : (a b : Option Expr) (k : ℕ) → Returns (expr_eliminate_eq a b k)
unfolding expr_eliminate_eq
expr_eliminate_eq-Returns (some a) (some b) k =
    let f = suc (height a) in
    >>=-Ends (eliminate_eq (expr_eq_fuel f) a b k)
      (eliminate_eq-Returns (expr_eq_fuel f) f (expr_eq_fuel-Returns f) a b k (omega arith))
      (λ w _. done _)
expr_eliminate_eq-Returns none b k = done _
expr_eliminate_eq-Returns (some a) none k = done _
