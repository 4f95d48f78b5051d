-- ===== src/Menu/Walk/Order.antt =====
-- scripts/kconfig/confdata.c: the walk through linked menus and the recursion on the tree.
use kdevops.Prelude.{
  ℕ, zero, suc, ◌+◌, ◌-◌, ◌≤◌, ◌<◌, ◌≡◌, ◌≢◌, refl, sym, ap, ◌∙◌, Option, none, some, arith,
}
use kdevops.Menu.{Menu}
use kdevops.Menu.Tree.{Forest, nil, config, block, size, first, Linked}
use kdevops.Menu.Walk.{◌>>=◌, climb, next_menu, walk, after_inner, visit}

bind_cong :
    {A B : Type 0} (o : Option A) (f g : A → Option B)
    → ((a : A) → f a ≡ g a)
    → (o >>= f) ≡ (o >>= g)
bind_cong none f g h = refl
bind_cong (some a) f g h = h a

bind_assoc :
    {A B C : Type 0} (o : Option A) (f : A → Option B) (g : B → Option C)
    → ((o >>= f) >>= g) ≡ (o >>= λ a. f a >>= g)
bind_assoc none f g = refl
bind_assoc (some a) f g = refl

bind_some : {A : Type 0} (o : Option A) → (o >>= some) ≡ o
bind_some none = refl
bind_some (some a) = refl

ne_none : {A : Type 0} {o : Option A} {a : A} → o ≡ some a → o ≢ none
ne_none e q = cc (e, q)

-- The rounds for a level, in front of `g` more.
abbrev pub rounds : Forest → ℕ → ℕ
rounds nil g = g
rounds (config s rest) g = suc (rounds rest g)
rounds (block s inner rest) g = suc (rounds inner (rounds rest g))

pub rounds-size : (f : Forest) (g : ℕ) → rounds f g ≡ size f + g
rounds-size nil g = omega arith
rounds-size (config s rest) g = omega (arith, rounds-size rest g)
rounds-size (block s inner rest) g =
    omega (arith, rounds-size inner (rounds rest g), rounds-size rest g)

module _ {S : Type 0} (node : ℕ → Menu) (enter leave : ℕ → S → Option S) (steps : ℕ) where
  abbrev go : ℕ → Option ℕ × S → Option S
  go g r = walk node enter leave steps g r.0 r.1

  -- From a level below `par`, the walk goes on as `up` does.
  abbrev Up : ℕ → ℕ → (S → Option S) → Type 0
  Up par g up =
      (k d : ℕ) (s : S)
      → (node k).parent ≡ some par
      → suc par < d
      → (climb node enter leave d k s >>= go g) ≡ up s

  -- What `climb` does once a node is left.
  abbrev to_next : ℕ → ℕ → Option ℕ → S → Option (Option ℕ × S)
  to_next d n o s = elim o [ some q ↦ some (some q, s) | none ↦ climb node enter leave d n s ]

  abbrev above : ℕ → ℕ → S → Option (Option ℕ × S)
  above d n s = to_next d n (node n).next s

  abbrev to_parent : ℕ → Option ℕ → S → Option (Option ℕ × S)
  to_parent d o s = elim o [ none ↦ some (none, s) | some p ↦ leave p s >>= above d p ]

  -- The walk from the start of a level.
  level : Forest → ℕ → ℕ → (S → Option S) → S → Option S
  level nil n g up s = up s
  level (config a rest) n g up s = go (rounds (config a rest) g) (some n, s)
  level (block a inner rest) n g up s = go (rounds (block a inner rest) g) (some n, s)

  -- Behind a node comes the rest of its level.
  onward :
      (rest : Forest) (m n par g d : ℕ) (up : S → Option S) (s : S)
      → (node n).next ≡ first rest m
      → (node n).parent ≡ some par
      → suc par < d
      → Up par g up
      → (above d n s >>= go (rounds rest g)) ≡ level rest m g up s
  unfolding level
  onward nil m n par g d up s e p l u = ap (λ o. to_next d n o s >>= go g) e ∙ u n d s p l
  onward (config a rest) m n par g d up s e p l u =
      ap (λ o. to_next d n o s >>= go (rounds (config a rest) g)) e
  onward (block a inner rest) m n par g d up s e p l u =
      ap (λ o. to_next d n o s >>= go (rounds (block a inner rest) g)) e

  -- At the end of the inner level its node is left.
  inner-Up :
      (rest : Forest) (m n par g : ℕ) (up : S → Option S)
      → (node n).next ≡ first rest m
      → (node n).parent ≡ some par
      → par < n
      → Up par g up
      → Up n (rounds rest g) (λ s. leave n s >>= level rest m g up)
  unfolding climb
  inner-Up rest m n par g up e p l u k zero s q h = absurd (omega (arith, h))
  inner-Up rest m n par g up e p l u k (suc d) s q h =
      ap (λ o. to_parent d o s >>= go (rounds rest g)) q
      ∙ bind_assoc (leave n s) (above d n) (go (rounds rest g))
      ∙ bind_cong (leave n s) (λ s'. above d n s' >>= go (rounds rest g)) (level rest m g up)
          (λ s'. onward rest m n par g d up s' e p (omega (arith, l, h)) u)

  abbrev to_list : ℕ → Option ℕ → S → Option (Option ℕ × S)
  to_list n o s = elim o [ some q ↦ some (some q, s) | none ↦ above steps n s ]

  -- Behind the node of a level that has entries comes the first of them.
  next-inner :
      (inner : Forest) (n g : ℕ) (up : S → Option S) (s : S)
      → (node n).list ≡ first inner (suc n)
      → ((node n).list ≡ none → (next_menu node enter leave steps n s >>= go g) ≡ up s)
      → (next_menu node enter leave steps n s >>= go (rounds inner g)) ≡ level inner (suc n) g up s
  unfolding next_menu level
  next-inner nil n g up s e h = h e
  next-inner (config a rest) n g up s e h =
      ap (λ o. to_list n o s >>= go (rounds (config a rest) g)) e
  next-inner (block a inner rest) n g up s e h =
      ap (λ o. to_list n o s >>= go (rounds (block a inner rest) g)) e

  module _ (inner rest : Forest) (n m g : ℕ) (up : S → Option S)
      (ih_rest : (s : S) → level rest m g up s ≡ (visit node enter leave rest m s >>= up)) where
    -- A node without entries below it.
    flat :
        (par : ℕ) (s : S)
        → (node n).list ≡ none
        → (node n).next ≡ first rest m
        → (node n).parent ≡ some par
        → suc par < steps
        → Up par g up
        → (next_menu node enter leave steps n s >>= go (rounds rest g))
          ≡ (visit node enter leave rest m s >>= up)
    unfolding next_menu
    flat par s e x p l u =
        ap (λ o. to_list n o s >>= go (rounds rest g)) e
        ∙ onward rest m n par g steps up s x p l u
        ∙ ih_rest s

    abbrev then_leave : S → Option S
    then_leave s = leave n s >>= level rest m g up

    -- A node with entries below it.
    deep :
        (s : S)
        → (node n).list ≡ first inner (suc n)
        → (node n).list ≢ none
        → ((s : S) → after_inner node enter leave inner n s ≡ leave n s)
        → ((s : S)
            → level inner (suc n) (rounds rest g) then_leave s
              ≡ (visit node enter leave inner (suc n) s >>= then_leave))
        → (next_menu node enter leave steps n s >>= go (rounds inner (rounds rest g))) ≡ (
            (visit node enter leave inner (suc n) s >>= λ s2.
            after_inner node enter leave inner n s2 >>= visit node enter leave rest m)
            >>= up)
    deep s e ne a ih =
        next-inner inner n (rounds rest g) then_leave s e (λ q. absurd (ne q))
        ∙ ih s
        ∙ bind_cong (visit node enter leave inner (suc n) s) then_leave
            (λ s2.
              (after_inner node enter leave inner n s2 >>= visit node enter leave rest m) >>= up)
            (λ s2.
              bind_cong (leave n s2) (level rest m g up)
                (λ s3. visit node enter leave rest m s3 >>= up) ih_rest
              ∙ sym (bind_assoc (leave n s2) (visit node enter leave rest m) up)
              ∙ ap (λ o. (o >>= visit node enter leave rest m) >>= up) (sym (a s2)))
        ∙ sym (
            bind_assoc (visit node enter leave inner (suc n) s)
              (λ s2. after_inner node enter leave inner n s2 >>= visit node enter leave rest m) up)

  -- The root menu is the last one that is left.
  root-Up : (node 0).next ≡ none → (node 0).parent ≡ none → (g : ℕ) → Up 0 g (leave 0)
  unfolding climb walk
  root-Up nx pa g k zero s q h = absurd (omega (arith, h))
  root-Up nx pa g k (suc zero) s q h = absurd (omega (arith, h))
  root-Up nx pa g k (suc (suc d)) s q h =
      ap (λ o. to_parent (suc d) o s >>= go g) q
      ∙ bind_assoc (leave 0 s) (above (suc d) 0) (go g)
      ∙ bind_cong (leave 0 s) (λ s'. above (suc d) 0 s' >>= go g) some
          (λ s'.
            ap (λ o. to_next (suc d) 0 o s' >>= go g) nx ∙ ap (λ o. to_parent d o s' >>= go g) pa)
      ∙ bind_some (leave 0 s)

  -- Entering a node, with what follows it on both sides.
  entered :
      (n r : ℕ) (v : S → Option S) (up : S → Option S) (s : S)
      → ((s' : S) → (next_menu node enter leave steps n s' >>= go r) ≡ (v s' >>= up))
      → (enter n s >>= λ s'. next_menu node enter leave steps n s' >>= go r)
        ≡ ((enter n s >>= v) >>= up)
  entered n r v up s h =
      bind_cong (enter n s) (λ s'. next_menu node enter leave steps n s' >>= go r)
        (λ s'. v s' >>= up) h
      ∙ sym (bind_assoc (enter n s) v up)

  level-visit :
      (f : Forest) (n par g : ℕ) (up : S → Option S)
      → Linked node par f n
      → par < n
      → n + size f ≤ steps
      → Up par g up
      → (s : S) → level f n g up s ≡ (visit node enter leave f n s >>= up)
  unfolding level walk visit after_inner
  level-visit nil n par g up k l b u s = refl
  level-visit (config a rest) n par g up (e, k) l b u s =
      entered n (rounds rest g) (visit node enter leave rest (suc n)) up s (λ s'.
        flat nil rest n (suc n) g up
          (level-visit rest (suc n) par g up k (omega (arith, l)) (omega (arith, b)) u) par s'
          e.list_lem e.next_lem e.parent_lem (omega (arith, l, b)) u)
  level-visit (block a nil rest) n par g up (e, j, k) l b u s =
      entered n (rounds rest g) (visit node enter leave rest (suc n + 0)) up s (λ s'.
        flat nil rest n (suc n + 0) g up
          (level-visit rest (suc n + 0) par g up k (omega (arith, l)) (omega (arith, b)) u) par s'
          e.list_lem e.next_lem e.parent_lem (omega (arith, l, b)) u)
  level-visit (block a (config c i) rest) n par g up (e, j, k) l b u s =
      let m : ℕ = suc n + size (config c i) in
      let ih : (s : S) → level rest m g up s ≡ (visit node enter leave rest m s >>= up) =
        level-visit rest m par g up k (omega (arith, l)) (omega (arith, b)) u in
      entered n (rounds (config c i) (rounds rest g))
        (λ s1. visit node enter leave (config c i) (suc n) s1 >>= λ s2.
          after_inner node enter leave (config c i) n s2 >>= visit node enter leave rest m)
        up s
        (λ s'.
          deep (config c i) rest n m g up ih s' e.list_lem (ne_none e.list_lem) (λ s2. refl)
            (level-visit (config c i) (suc n) n (rounds rest g)
              (then_leave (config c i) rest n m g up ih) j (omega arith) (omega (arith, b))
              (inner-Up rest m n par g up e.next_lem e.parent_lem l u)))
  level-visit (block a (block c i i') rest) n par g up (e, j, k) l b u s =
      let m : ℕ = suc n + size (block c i i') in
      let ih : (s : S) → level rest m g up s ≡ (visit node enter leave rest m s >>= up) =
        level-visit rest m par g up k (omega (arith, l)) (omega (arith, b)) u in
      entered n (rounds (block c i i') (rounds rest g))
        (λ s1. visit node enter leave (block c i i') (suc n) s1 >>= λ s2.
          after_inner node enter leave (block c i i') n s2 >>= visit node enter leave rest m)
        up s
        (λ s'.
          deep (block c i i') rest n m g up ih s' e.list_lem (ne_none e.list_lem) (λ s2. refl)
            (level-visit (block c i i') (suc n) n (rounds rest g)
              (then_leave (block c i i') rest n m g up ih) j (omega arith) (omega (arith, b))
              (inner-Up rest m n par g up e.next_lem e.parent_lem l u)))

-- Where the nodes from 1 to `last` are linked as a tree below the root menu, the walk from the root's
-- first entry, with enough rounds and steps, does what the recursion on the tree does, whatever is done
-- at the nodes: each node is entered before the entries below it, left behind them, and the root is left
-- at the end.
pub walk-visit :
    {S : Type 0} (node : ℕ → Menu) (enter leave : ℕ → S → Option S) (steps fuel : ℕ) (f : Forest)
    (s : S)
    → Linked node 0 f 1
    → (node 0).list ≡ first f 1
    → (node 0).next ≡ none
    → (node 0).parent ≡ none
    → size f < steps
    → size f ≤ fuel
    → walk node enter leave steps fuel (node 0).list s
      ≡ (visit node enter leave f 1 s >>= after_inner node enter leave f 0)
unfolding climb walk visit after_inner level
walk-visit node enter leave steps fuel f s k li nx pa a b =
    ap (λ o. walk node enter leave steps fuel o s) li
    ∙ ap (λ t. walk node enter leave steps t (first f 1) s) {x = fuel}
        {y = rounds f (fuel - size f)} (omega (arith, b, rounds-size f (fuel - size f)))
    ∙ root_level f (fuel - size f) k a
  where
    root_level :
        (f : Forest) (g : ℕ)
        → Linked node 0 f 1
        → size f < steps
        → walk node enter leave steps (rounds f g) (first f 1) s
          ≡ (visit node enter leave f 1 s >>= after_inner node enter leave f 0)
    root_level nil g k a = refl
    root_level (config c i) g k a =
        level-visit node enter leave steps (config c i) 1 0 g (leave 0) k (omega arith)
          (omega (arith, a)) (root-Up node enter leave steps nx pa g) s
    root_level (block c i j) g k a =
        level-visit node enter leave steps (block c i j) 1 0 g (leave 0) k (omega arith)
          (omega (arith, a)) (root-Up node enter leave steps nx pa g) s
