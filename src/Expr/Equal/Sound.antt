-- ===== src/Expr/Equal/Sound.antt =====
-- scripts/kconfig/expr.c: what `expr_eliminate_eq` removes is a common part of both expressions,
-- so two expressions that `expr_eq` accepts have one value.
use kdevops.Prelude.{
  ℕ, zero, suc, ◌+◌, Bool, true, false, ◌≡◌, refl, sym, ap, ap₂, ◌∙◌, inl, inr, Option, none, some,
  ◌==◌, if◌then◌else◌, ◌&&◌, Bool-cases, ==_iff, arith,
}
use kdevops.Tristate.{Tristate, tri_no, tri_yes, expr_and, expr_or, expr_not}
use kdevops.Expr.{
  SymId, symbol_yes, Relation, expr_is_yes, Expr, symbol, not_expr, and_expr, or_expr, comp,
}
use kdevops.Expr.Value.{value, value?}
use kdevops.Expr.YesNo.{value-expr_eliminate_yn}
use kdevops.Expr.Equal.{
  Operator, op_or, op_and, Walk, neutral, relation_eq, same_constant, eliminate_leaves, walk_second,
  walk, operator, first_walk, second_walk, eliminate_eq, same_symbol, height, expr_eq_fuel, expr_eq,
}
use kdevops.Expr.Outcome.{Post, nothing, just, >>=-Post, Post-self, Post-map, Post-eq, ◌>>=◌}
use kdevops.Expr.Equal.Shares.{
  combine, Shares, Shares-refl, Shares-symm, Shares-operands, SharesTwice, eq_of_SharesTwice,
}
use kdevops.Symbol.{Store}
use kdevops.Symbol.Consistent.{IsConsistent}

relation_eq-eq : (r q : Relation) → relation_eq r q ≡ true → r ≡ q
unfolding relation_eq
relation_eq-eq r q h = ground arith

comp_tests :
    (r q : Relation) (a b c d : SymId)
    → (a == c && b == d && relation_eq r q) ≡ true
    → (a ≡ c) × (b ≡ d) × (r ≡ q)
comp_tests r q a b c d h = ground (arith, relation_eq-eq r q)

module _ {st : Store} (good : IsConsistent st) where
  combine-neutral : (op : Operator) (v : Tristate) → combine op v (value st (neutral op)) ≡ v
  unfolding value expr_and expr_or
  combine-neutral op_or v = ground (arith, (good.constants tri_no).tri)
  combine-neutral op_and v = ground (arith, (good.constants tri_yes).tri)

  Shares-neutral :
      (op : Operator) (v w : Tristate)
      → v ≡ w
      → Shares op v w (value st (neutral op)) (value st (neutral op))
  Shares-neutral op v w e = record {
    common = v;
    first = sym (combine-neutral op v);
    second = sym e ∙ sym (combine-neutral op v);
  }

  abbrev pub WalkShares : Operator → Tristate → Tristate → Walk → Type 0
  WalkShares op v1 v2 w = Shares op v1 v2 (value st w.0) (value st w.1)

  module _ (eq : Expr → Expr → Option Bool)
      (eq_sound : (a b : Expr) → eq a b ≡ some true → value st a ≡ value st b) where
    removed_if :
        (op : Operator) (a b : Expr) (k : ℕ) (same : Bool)
        → eq a b ≡ some same
        → WalkShares op
            (value st a)
            (value st b)
            (if same then (neutral op, neutral op, k + 1) else (a, b, k))
    removed_if op a b k true e = Shares-neutral op _ _ (eq_sound a b e)
    removed_if op a b k false e = Shares-refl op _ _

    eliminate_leaves-Shares :
        (op : Operator) (a b : Expr) (k : ℕ)
        → Post (WalkShares op (value st a) (value st b)) (eliminate_leaves eq op a b k)
    unfolding eliminate_leaves
    eliminate_leaves-Shares op a b k = elim (Bool-cases (same_constant a b)) [
      | inl e ↦ rw e (just (Shares-refl op _ _))
      | inr e ↦
          rw e
            (>>=-Post (eq a b) (Post-self (eq a b)) (λ same h. just (removed_if op a b k same h)))
    ]

    walk_second-Shares :
        (op : Operator) (a b : Expr) (k : ℕ)
        → Post (WalkShares op (value st a) (value st b)) (walk_second eq op a b k)
    unfolding walk_second value
    walk_second-Shares op_or a (or_expr l r) k =
        >>=-Post (walk_second eq op_or a l k) (walk_second-Shares op_or a l k) (λ (x, l', m) p.
          >>=-Post (walk_second eq op_or x r m) (walk_second-Shares op_or x r m)
            (λ w q. just (Shares-operands p q)))
    walk_second-Shares op_and a (and_expr l r) k =
        >>=-Post (walk_second eq op_and a l k) (walk_second-Shares op_and a l k) (λ (x, l', m) p.
          >>=-Post (walk_second eq op_and x r m) (walk_second-Shares op_and x r m)
            (λ w q. just (Shares-operands p q)))
    walk_second-Shares op a b k = eliminate_leaves-Shares op a b k

    pub walk-Shares :
        (op : Operator) (a b : Expr) (k : ℕ)
        → Post (WalkShares op (value st a) (value st b)) (walk eq op a b k)
    unfolding walk value
    walk-Shares op_or (or_expr l r) b k =
        >>=-Post (walk eq op_or l b k) (walk-Shares op_or l b k) (λ (l', x, m) p.
          >>=-Post (walk eq op_or r x m) (walk-Shares op_or r x m)
            (λ w q. just (Shares-symm (Shares-operands (Shares-symm p) (Shares-symm q)))))
    walk-Shares op_and (and_expr l r) b k =
        >>=-Post (walk eq op_and l b k) (walk-Shares op_and l b k) (λ (l', x, m) p.
          >>=-Post (walk eq op_and r x m) (walk-Shares op_and r x m)
            (λ w q. just (Shares-symm (Shares-operands (Shares-symm p) (Shares-symm q)))))
    walk-Shares op a b k = walk_second-Shares op a b k

    -- The operator of the first walk does not matter where there is none.
    first_walk-Shares :
        (top : Option Operator) (a b : Expr) (k : ℕ)
        → Post
            (λ w. (op : Operator) × WalkShares op (value st a) (value st b) w)
            (first_walk eq top a b k)
    unfolding first_walk
    first_walk-Shares none a b k = just (op_or, Shares-refl op_or _ _)
    first_walk-Shares (some op) a b k =
        Post-map (walk eq op a b k) (λ w p. (op, p)) (walk-Shares op a b k)

    second_walk-Shares :
        (top1 top2 : Option Operator) (a b : Expr) (k : ℕ)
        → Post
            (λ w. (op : Operator) × WalkShares op (value st a) (value st b) w)
            (second_walk eq top1 top2 a b k)
    unfolding second_walk
    second_walk-Shares (some op_and) (some op_and) a b k = just (op_or, Shares-refl op_or _ _)
    second_walk-Shares (some op_or) (some op_or) a b k = just (op_or, Shares-refl op_or _ _)
    second_walk-Shares none none a b k = just (op_or, Shares-refl op_or _ _)
    second_walk-Shares (some op) none a b k = just (op_or, Shares-refl op_or _ _)
    second_walk-Shares _ (some op) a b k =
        Post-map (walk eq op a b k) (λ w p. (op, p)) (walk-Shares op a b k)

    pub eliminate_eq-SharesTwice :
        (a b : Expr) (k : ℕ)
        → Post
            (λ w. SharesTwice (value st a) (value st b) (value st w.0) (value st w.1))
            (eliminate_eq eq a b k)
    unfolding eliminate_eq
    eliminate_eq-SharesTwice a b k =
        >>=-Post (first_walk eq (operator a) a b k) (first_walk-Shares (operator a) a b k)
          (λ (x, y, m) (op, p).
            >>=-Post (second_walk eq (operator x) (operator y) x y m)
              (second_walk-Shares (operator x) (operator y) x y m)
              (λ (c, d, i) (op', q). just (record {
                op1 = op;
                op2 = op';
                x1 = value st x;
                x2 = value st y;
                step1 = p;
                step2 = rw (value-expr_eliminate_yn good c, value-expr_eliminate_yn good d) q;
              })))

  same_symbol-value : (a b : Expr) → same_symbol a b ≡ true → value st a ≡ value st b
  unfolding same_symbol value
  same_symbol-value (symbol s) (symbol t) h = ap (λ s. value st (symbol s)) ((==_iff s t).0 h)
  same_symbol-value _ _ h = ground arith

  comp_eq :
      (r q : Relation) (a b c d : SymId)
      → (a == c && b == d && relation_eq r q) ≡ true
      → value st (comp r a b) ≡ value st (comp q c d)
  comp_eq r q a b c d h =
      let (p1, p2, p3) = comp_tests r q a b c d h in
      ap₂ (λ r a. value st (comp r a b)) p3 p1 ∙ ap (λ b. value st (comp q c b)) p2

  abbrev SaysEqual : Expr → Expr → Bool → Type 0
  SaysEqual a b same = same ≡ true → value st a ≡ value st b

  eliminated-SaysEqual :
      (eq : Expr → Expr → Option Bool)
      → ((a b : Expr) → eq a b ≡ some true → value st a ≡ value st b)
      → (a b : Expr)
      → Post (SaysEqual a b) (eliminate_eq eq a b 0 >>= λ w. some (same_symbol w.0 w.1))
  eliminated-SaysEqual eq h a b =
      >>=-Post (eliminate_eq eq a b 0) (eliminate_eq-SharesTwice eq h a b 0)
        (λ w p. just (λ e. eq_of_SharesTwice p (same_symbol-value w.0 w.1 e)))

  expr_eq_fuel-Post : (f : ℕ) (a b : Expr) → Post (SaysEqual a b) (expr_eq_fuel f a b)
  unfolding expr_eq_fuel value
  expr_eq_fuel-Post zero a b = nothing
  expr_eq_fuel-Post (suc f) (symbol s) (symbol t) = just (same_symbol-value (symbol s) (symbol t))
  expr_eq_fuel-Post (suc f) (comp r a b) (comp q c d) = just (comp_eq r q a b c d)
  expr_eq_fuel-Post (suc f) (not_expr a) (not_expr b) =
      Post-map (expr_eq_fuel f a b) (λ same p h. ap expr_not (p h)) (expr_eq_fuel-Post f a b)
  expr_eq_fuel-Post (suc f) (and_expr l r) (and_expr p q) =
      eliminated-SaysEqual (expr_eq_fuel f) (λ a b h. Post-eq (expr_eq_fuel-Post f a b) h refl)
        (and_expr l r) (and_expr p q)
  expr_eq_fuel-Post (suc f) (or_expr l r) (or_expr p q) =
      eliminated-SaysEqual (expr_eq_fuel f) (λ a b h. Post-eq (expr_eq_fuel-Post f a b) h refl)
        (or_expr l r) (or_expr p q)
  expr_eq_fuel-Post (suc f) a b = just (λ h. cc)

  expr_is_yes-value : (e : Option Expr) → expr_is_yes e ≡ true → value? st e ≡ tri_yes
  unfolding expr_is_yes value?
  expr_is_yes-value none h = refl
  expr_is_yes-value (some (symbol s)) h =
      ap (λ s. value st (symbol s)) ((==_iff s symbol_yes).0 h)
      ∙ unfold value in (good.constants tri_yes).tri
  expr_is_yes-value (some _) h = cc

  pub expr_eq_fuel-value :
      (f : ℕ) (a b : Expr) → expr_eq_fuel f a b ≡ some true → value st a ≡ value st b
  expr_eq_fuel-value f a b h = Post-eq (expr_eq_fuel-Post f a b) h refl

  -- Two expressions that `expr_eq` accepts have one value, whatever the symbols are set to.
  pub expr_eq-value : (a b : Option Expr) → expr_eq a b ≡ some true → value? st a ≡ value? st b
  unfolding expr_eq value?
  expr_eq-value (some a) (some b) h = Post-eq (expr_eq_fuel-Post (suc (height a)) a b) h refl
  expr_eq-value none none h = refl
  expr_eq-value none (some b) h = sym (expr_is_yes-value (some b) (ground arith))
  expr_eq-value (some a) none h = expr_is_yes-value (some a) (ground arith)
