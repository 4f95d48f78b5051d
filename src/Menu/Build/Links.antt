-- ===== src/Menu/Build/Links.antt =====
-- scripts/kconfig/menu.c: the links between the nodes that the calls of the parser make.
use mathlib.Core.Path.{subst}
use kdevops.Prelude.{ℕ, suc, ◌+◌, ◌≡◌, refl, sym, ap, ◌∙◌, Option, none, some, arith}
use kdevops.Expr.{SymId}
use kdevops.Symbol.{Store}
use kdevops.Menu.{
  next_of, list_of, Menus, World, blank, menu_init, add_node, menu_add_entry, menu_add_menu,
  menu_end_menu,
}
use kdevops.Menu.Tree.{Forest, nil, config, block, size, first, Linked, Linked-same}
use kdevops.Menu.Walk.{◌>>=◌}
use kdevops.Menu.Build.{
  parse, set_slot-ne, set_slot-none, Ready, Built, Parsed, add_place-menus, new-node,
  add_node-before, add_node-Ready, inside, inside-Ready, entry_node, entry_node-Entry, linked_next,
  linked_list, ended,
}

module _ (s : Option SymId) (inner rest : Forest) (ms : Menus) (par n : ℕ)
    (r : Ready ms par n) where
  -- An entry without a level of its own, and the rest of its level.
  config-Built :
      (ms' : Menus)
      → Built (add_node s ms) ms' par (suc n) rest
      → Built ms ms' par n (config s rest)
  config-Built ms' b = record {
    ready = subst (Ready ms' par) (omega arith) b.ready;
    before = λ k l.
        b.before k (omega (arith, l))
        ∙ set_slot-ne (next_of ms.fresh) (first rest (suc n)) (add_node s ms).node k
            (ground (arith, l, r.fresh_lem))
        ∙ add_node-before s ms par n k r l;
    linked = (
      entry_node-Entry ms'.node par n s none (first rest (suc n)) (
          b.before n (omega arith)
          ∙ linked_next s par n ms.fresh none (first rest (suc n)) (add_node s ms).node r.fresh_lem
              (new-node s ms par n r)),
      b.linked,
    );
  }

  -- An entry with a level of its own: the node, once that level is there.
  inner-node :
      (ms3 : Menus)
      → Built (inside (add_node s ms)) ms3 n (suc n) inner
      → ms3.node n ≡ entry_node s par (first inner (suc n)) none
  inner-node ms3 b =
      b.before n (omega arith)
      ∙ linked_list s par n ms.fresh (first inner (suc n)) (add_node s ms).node r.fresh_lem
          (new-node s ms par n r)

  ended-Ready :
      (ms3 : Menus)
      → Built (inside (add_node s ms)) ms3 n (suc n) inner
      → Ready (ended par n ms3) par (suc n + size inner)
  ended-Ready ms3 b = record {
    fresh_lem = b.ready.fresh_lem;
    current_lem = refl;
    slot_none = ap (λ x. x.next) (inner-node ms3 b);
    owner_lt = omega arith;
  }

  end_inner :
      (w : World)
      → Built (inside (add_node s ms)) w.menus n (suc n) inner
      → menu_end_menu w ≡ some (record w { menus = ended par n w.menus })
  unfolding menu_end_menu
  end_inner w b =
      let made : Option ℕ → World =
        λ o. record w { menus = record w.menus { last_entry = next_of n; current_menu = o } } in
      ap
        (λ o. elim o as (λ o. Option World) [
          | none ↦ none
          | some m ↦ some (record w {
            menus = record w.menus {
              last_entry = next_of m;
              current_menu = (w.menus.node m).parent;
            };
          })
        ])
        b.ready.current_lem
      ∙ ap (λ o. some (made o)) (ap (λ x. x.parent) (inner-node w.menus b))

  block-Built :
      (ms3 ms' : Menus)
      → Built (inside (add_node s ms)) ms3 n (suc n) inner
      → Built (ended par n ms3) ms' par (suc n + size inner) rest
      → Built ms ms' par n (block s inner rest)
  block-Built ms3 ms' b b' =
      let m : ℕ = suc n + size inner in
      record {
        ready = subst (Ready ms' par) (omega arith) b'.ready;
        before = λ k l.
            b'.before k (omega (arith, l))
            ∙ set_slot-ne (next_of n) (first rest m) ms3.node k (ground (arith, l))
            ∙ b.before k (omega (arith, l))
            ∙ set_slot-ne (list_of ms.fresh) (first inner (suc n)) (add_node s ms).node k
                (ground (arith, l, r.fresh_lem))
            ∙ add_node-before s ms par n k r l;
        linked = (
          entry_node-Entry ms'.node par n s (first inner (suc n)) (first rest m) (
              b'.before n (omega arith)
              ∙ linked_next s par n n (first inner (suc n)) (first rest m) ms3.node refl
                  (inner-node ms3 b)),
          Linked-same ms3.node ms'.node n inner (suc n)
              (λ k lo hi.
                b'.before k hi
                ∙ set_slot-ne (next_of n) (first rest m) ms3.node k (ground (arith, lo)))
              b.linked,
          b'.linked,
        );
      }

parse-Parsed :
    (f : Forest) (w : World) (par n : ℕ) → Ready w.menus par n → Parsed (parse f w) w.menus par n f
unfolding parse menu_add_entry menu_add_menu
parse-Parsed nil w par n r = record {
  world = w;
  result = refl;
  built = record {
    ready = subst (Ready w.menus par) (omega arith) r;
    before = λ k l. set_slot-none w.menus.last_entry w.menus.node k r.slot_none;
    linked = tt;
  };
}
parse-Parsed (config s rest) w par n r =
    let added : (menu_add_entry s w).menus ≡ add_node s w.menus =
      add_place-menus s (record w { menus = add_node s w.menus }) in
    let p =
      parse-Parsed rest (menu_add_entry s w) par (suc n)
        (subst (λ ms. Ready ms par (suc n)) (sym added) (add_node-Ready s w.menus par n r)) in
    record {
      world = p.world;
      result = p.result;
      built =
          config-Built s nil rest w.menus par n r p.world.menus
            (subst (λ ms. Built ms p.world.menus par (suc n) rest) added p.built);
    }
parse-Parsed (block s inner rest) w par n r =
    let added : (menu_add_entry s w).menus ≡ add_node s w.menus =
      add_place-menus s (record w { menus = add_node s w.menus }) in
    let p =
      parse-Parsed inner (menu_add_menu (menu_add_entry s w)) n (suc n)
        (subst (λ ms. Ready (inside ms) n (suc n)) (sym added) (inside-Ready s w.menus par n r)) in
    let b : Built (inside (add_node s w.menus)) p.world.menus n (suc n) inner =
      subst (λ ms. Built (inside ms) p.world.menus n (suc n) inner) added p.built in
    let w4 : World = record p.world { menus = ended par n p.world.menus } in
    let q =
      parse-Parsed rest w4 par (suc n + size inner)
        (ended-Ready s inner rest w.menus par n r p.world.menus b) in
    record {
      world = q.world;
      result =
          ap (λ o. o >>= λ w'. menu_end_menu w' >>= parse rest) p.result
          ∙ ap (λ o. o >>= parse rest) (end_inner s inner rest w.menus par n r p.world b)
          ∙ q.result;
      built = block-Built s inner rest w.menus par n r p.world.menus q.world.menus b q.built;
    }

init-Ready : Ready menu_init 0 1
unfolding menu_init
init-Ready = record {
  fresh_lem = refl;
  current_lem = refl;
  slot_none = refl;
  owner_lt = omega arith;
}

-- The calls for nested entries, after _menu_init, have a result, in which the nodes are linked as the
-- same tree below the root menu, numbered from 1 in the order of the calls. The root menu, with neither
-- a parent nor a node behind it, is the current one again.
pub parse-Linked :
    (f : Forest) (st : Store)
    → (w : World) × (parse f (record { store = st; menus = menu_init }) ≡ some w)
      × Linked w.menus.node 0 f 1
      × (w.menus.node 0 ≡ record blank { list = first f 1 })
      × (w.menus.current_menu ≡ some 0)
unfolding menu_init
parse-Linked f st =
    let p = parse-Parsed f (record { store = st; menus = menu_init }) 0 1 init-Ready in
    (p.world, p.result, p.built.linked, p.built.before 0 (omega arith), p.built.ready.current_lem)
