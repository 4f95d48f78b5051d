-- ===== src/Expr/Equal/Removal.antt =====
-- scripts/kconfig/expr.c: what a walk of `__expr_eliminate_eq` does to the leaves of both trees.
use mathlib.Core.Path.{subst}
use kdevops.Prelude.{
  ℕ, ◌+◌, ◌≡◌, refl, sym, ap, ◌∙◌, ◌⊎◌, inl, inr, Bool, true, false, Option, some, if◌then◌else◌,
  arith, Bool-cases,
}
use kdevops.Expr.{Expr, and_expr, or_expr}
use kdevops.Expr.Equal.{
  Operator, op_or, op_and, Walk, neutral, same_constant, eliminate_leaves, walk_second, walk,
}
use kdevops.Expr.Equal.Common.{
  EachLeaf, EachLeaf-map, EachLeaf-all, EachLeaf-neutral, mark, marks, mark-neutral, marks-neutral,
  mark_one, KnowsSymbols, Differ, neutral-Differ, Differ-neutral,
}
use kdevops.Expr.Outcome.{Post, just, >>=-Post, Post-self, Post-map}

module _ (eq : Expr → Expr → Option Bool) (knows : KnowsSymbols eq) (op : Operator) where
  -- A leaf against a tree: no leaf that is left of the tree is equal to what is left of the leaf, and
  -- `trans_count` rises by the number of leaves that were replaced, on either side.
  record Second (a b : Expr) (k : ℕ) (w : Walk) : Type 1 where
    kept : (w.0 ≡ a) ⊎ (w.0 ≡ neutral op)
    differ : EachLeaf (Differ eq w.0) op w.1
    weaken : (P : Expr → Type 0) → P (neutral op) → EachLeaf P op b → EachLeaf P op w.1
    count1 : mark op w.0 + k ≡ mark op a + w.2
    count2 : marks op w.1 + k ≡ marks op b + w.2

  -- What holds of the leaf and of the constant holds of what is left.
  of_kept :
      (P : Expr → Type 0) {x a : Expr} → (x ≡ a) ⊎ (x ≡ neutral op) → P a → P (neutral op) → P x
  of_kept P (inl e) h k = subst P (sym e) h
  of_kept P (inr e) h k = subst P (sym e) k

  -- A tree against a tree.
  pub record Removes (a b : Expr) (k : ℕ) (w : Walk) : Type 1 where
    pub differ : EachLeaf (λ x. EachLeaf (Differ eq x) op w.1) op w.0
    pub weaken : (P : Expr → Type 0) → P (neutral op) → EachLeaf P op b → EachLeaf P op w.1
    pub count1 : marks op w.0 + k ≡ marks op a + w.2
    pub count2 : marks op w.1 + k ≡ marks op b + w.2

  -- A tree that is a leaf of the walk.
  record IsLeaf (b : Expr) : Type 1 where
    each : (P : Expr → Type 0) → EachLeaf P op b ≡ P b
    marked : marks op b ≡ mark op b

  not_mark :
      (a b : Expr)
      → same_constant a b ≡ false
      → eq a b ≡ some true
      → (mark op a ≡ 0) × (mark op b ≡ 0)
  not_mark a b e h = (left_mark (mark_one op a), right_mark (mark_one op b))
    where
      left_mark : (mark op a ≡ 0) ⊎ (a ≡ neutral op) → mark op a ≡ 0
      left_mark (inl z) = z
      left_mark (inr z) =
          let d : Differ eq a b =
            subst (λ x. Differ eq x b) (sym z) (neutral-Differ eq knows op b) in
          ground (arith, d h)

      right_mark : (mark op b ≡ 0) ⊎ (b ≡ neutral op) → mark op b ≡ 0
      right_mark (inl z) = z
      right_mark (inr z) =
          let d : Differ eq a b =
            subst (λ x. Differ eq a x) (sym z) (Differ-neutral eq knows op a) in
          ground (arith, d h)

  module _ (a b : Expr) (k : ℕ) (leaf : IsLeaf b) where
    same_leaves : Differ eq a b → Second a b k (a, b, k)
    same_leaves d = record {
      kept = inl refl;
      differ = subst (λ T. T) (sym (leaf.each (Differ eq a))) d;
      weaken = λ P h l. l;
      count1 = refl;
      count2 = refl;
    }

    both_removed :
        same_constant a b ≡ false
        → eq a b ≡ some true
        → Second a b k (neutral op, neutral op, k + 1)
    both_removed e h =
        let (m, n) = not_mark a b e h in
        record {
          kept = inr refl;
          differ =
              EachLeaf-neutral (Differ eq (neutral op)) op
                (neutral-Differ eq knows op (neutral op));
          weaken = λ P h l. EachLeaf-neutral P op h;
          count1 = omega (arith, m, mark-neutral op);
          count2 = omega (arith, n, marks-neutral op, leaf.marked);
        }

    leaves-Second : Post (Second a b k) (eliminate_leaves eq op a b k)
    unfolding eliminate_leaves
    leaves-Second = elim (Bool-cases (same_constant a b)) [
      | inl e ↦ rw e (just (same_leaves (λ h. e)))
      | inr e ↦ rw e (>>=-Post (eq a b) (Post-self (eq a b)) (λ same h. just (decided e same h)))
    ]
      where
        decided :
            same_constant a b ≡ false
            → (same : Bool) → eq a b ≡ some same
            → Second a b k (if same then (neutral op, neutral op, k + 1) else (a, b, k))
        decided e true h = both_removed e h
        decided e false h = same_leaves (λ g. cc)

module _ (eq : Expr → Expr → Option Bool) (knows : KnowsSymbols eq) where
  -- What is left of a leaf after two walks, over a tree that was walked first.
  first-Differ :
      (op : Operator) {x y : Expr} (l : Expr)
      → (y ≡ x) ⊎ (y ≡ neutral op)
      → EachLeaf (Differ eq x) op l
      → EachLeaf (Differ eq y) op l
  first-Differ op l (inl e) h = subst (λ z. EachLeaf (Differ eq z) op l) (sym e) h
  first-Differ op l (inr e) h =
      subst (λ z. EachLeaf (Differ eq z) op l) (sym e)
        (EachLeaf-all (neutral-Differ eq knows op) op l)

  both_kept :
      (op : Operator) {a x y : Expr}
      → (x ≡ a) ⊎ (x ≡ neutral op)
      → (y ≡ x) ⊎ (y ≡ neutral op)
      → (y ≡ a) ⊎ (y ≡ neutral op)
  both_kept op h (inr e) = inr e
  both_kept op (inl d) (inl e) = inl (e ∙ d)
  both_kept op (inr d) (inl e) = inr (e ∙ d)

  -- The operands of the second tree, one after the other.
  or-Second :
      {a l r x y l' r' : Expr} {k m n : ℕ}
      → Second eq knows op_or a l k (x, l', m)
      → Second eq knows op_or x r m (y, r', n)
      → Second eq knows op_or a (or_expr l r) k (y, or_expr l' r', n)
  unfolding EachLeaf marks
  or-Second {l' = l'} p q = record {
    kept = both_kept op_or p.kept q.kept;
    differ = (first-Differ op_or l' q.kept p.differ, q.differ);
    weaken = λ P h (u, v). (p.weaken P h u, q.weaken P h v);
    count1 = omega (arith, p.count1, q.count1);
    count2 = omega (arith, p.count2, q.count2);
  }

  and-Second :
      {a l r x y l' r' : Expr} {k m n : ℕ}
      → Second eq knows op_and a l k (x, l', m)
      → Second eq knows op_and x r m (y, r', n)
      → Second eq knows op_and a (and_expr l r) k (y, and_expr l' r', n)
  unfolding EachLeaf marks
  and-Second {l' = l'} p q = record {
    kept = both_kept op_and p.kept q.kept;
    differ = (first-Differ op_and l' q.kept p.differ, q.differ);
    weaken = λ P h (u, v). (p.weaken P h u, q.weaken P h v);
    count1 = omega (arith, p.count1, q.count1);
    count2 = omega (arith, p.count2, q.count2);
  }

  at_leaf :
      (op : Operator) (b : Expr)
      → IsLeaf eq knows op b
      → (a : Expr) (k : ℕ) → Post (Second eq knows op a b k) (eliminate_leaves eq op a b k)
  at_leaf op b h a k = leaves-Second eq knows op a b k h

  walk_second-Second :
      (op : Operator) (a b : Expr) (k : ℕ)
      → Post (Second eq knows op a b k) (walk_second eq op a b k)
  unfolding walk_second EachLeaf marks
  walk_second-Second op_or a (or_expr l r) k =
      >>=-Post (walk_second eq op_or a l k) (walk_second-Second op_or a l k) (λ (x, l', m) p.
        >>=-Post (walk_second eq op_or x r m) (walk_second-Second op_or x r m)
          (λ (y, r', n) q. just (or-Second p q)))
  walk_second-Second op_and a (and_expr l r) k =
      >>=-Post (walk_second eq op_and a l k) (walk_second-Second op_and a l k) (λ (x, l', m) p.
        >>=-Post (walk_second eq op_and x r m) (walk_second-Second op_and x r m)
          (λ (y, r', n) q. just (and-Second p q)))
  walk_second-Second op a b k = at_leaf op b (record { each = λ P. refl; marked = refl }) a k

  -- The operands of the first tree.
  map-Differ :
      (op : Operator) (l x y : Expr)
      → ((P : Expr → Type 0) → P (neutral op) → EachLeaf P op x → EachLeaf P op y)
      → EachLeaf (λ u. EachLeaf (Differ eq u) op x) op l
      → EachLeaf (λ u. EachLeaf (Differ eq u) op y) op l
  map-Differ op l x y weaken h =
      EachLeaf-map (λ u d. weaken (Differ eq u) (Differ-neutral eq knows op u) d) op l h

  or-Removes :
      {l r b x y l' r' : Expr} {k m n : ℕ}
      → Removes eq knows op_or l b k (l', x, m)
      → Removes eq knows op_or r x m (r', y, n)
      → Removes eq knows op_or (or_expr l r) b k (or_expr l' r', y, n)
  unfolding EachLeaf marks
  or-Removes {x} {y} {l' = l'} p q = record {
    differ = (map-Differ op_or l' x y q.weaken p.differ, q.differ);
    weaken = λ P h u. q.weaken P h (p.weaken P h u);
    count1 = omega (arith, p.count1, q.count1);
    count2 = omega (arith, p.count2, q.count2);
  }

  and-Removes :
      {l r b x y l' r' : Expr} {k m n : ℕ}
      → Removes eq knows op_and l b k (l', x, m)
      → Removes eq knows op_and r x m (r', y, n)
      → Removes eq knows op_and (and_expr l r) b k (and_expr l' r', y, n)
  unfolding EachLeaf marks
  and-Removes {x} {y} {l' = l'} p q = record {
    differ = (map-Differ op_and l' x y q.weaken p.differ, q.differ);
    weaken = λ P h u. q.weaken P h (p.weaken P h u);
    count1 = omega (arith, p.count1, q.count1);
    count2 = omega (arith, p.count2, q.count2);
  }

  -- A first tree that is a leaf is a leaf afterwards.
  module _ (op : Operator) (a b : Expr) (k : ℕ) (w : Walk) (leaf : IsLeaf eq knows op a)
      (h : Second eq knows op a b k w) where
    abbrev Left : Expr → Type 0
    Left x = EachLeaf (Differ eq x) op w.1

    join_first : (w.0 ≡ a) ⊎ (w.0 ≡ neutral op) → EachLeaf Left op w.0
    join_first (inl e) =
        subst (EachLeaf Left op) (sym e)
          (subst (λ T. T) (sym (leaf.each Left)) (subst Left e h.differ))
    join_first (inr e) =
        subst (EachLeaf Left op) (sym e) (EachLeaf-neutral Left op (subst Left e h.differ))

    left_mark : (w.0 ≡ a) ⊎ (w.0 ≡ neutral op) → marks op w.0 ≡ mark op w.0
    left_mark (inl e) = ap (marks op) e ∙ leaf.marked ∙ ap (mark op) (sym e)
    left_mark (inr e) =
        ap (marks op) e ∙ marks-neutral op ∙ sym (mark-neutral op) ∙ ap (mark op) (sym e)

    leaf-Removes : Removes eq knows op a b k w
    leaf-Removes = record {
      differ = join_first h.kept;
      weaken = h.weaken;
      count1 = omega (arith, h.count1, leaf.marked, left_mark h.kept);
      count2 = h.count2;
    }

  pub walk-Removes :
      (op : Operator) (a b : Expr) (k : ℕ) → Post (Removes eq knows op a b k) (walk eq op a b k)
  unfolding walk EachLeaf marks
  walk-Removes op_or (or_expr l r) b k =
      >>=-Post (walk eq op_or l b k) (walk-Removes op_or l b k) (λ (l', x, m) p.
        >>=-Post (walk eq op_or r x m) (walk-Removes op_or r x m)
          (λ (r', y, n) q. just (or-Removes p q)))
  walk-Removes op_and (and_expr l r) b k =
      >>=-Post (walk eq op_and l b k) (walk-Removes op_and l b k) (λ (l', x, m) p.
        >>=-Post (walk eq op_and r x m) (walk-Removes op_and r x m)
          (λ (r', y, n) q. just (and-Removes p q)))
  walk-Removes op a b k =
      Post-map (walk_second eq op a b k)
        (λ w h. leaf-Removes op a b k w (record { each = λ P. refl; marked = refl }) h)
        (walk_second-Second op a b k)
