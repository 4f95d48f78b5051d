-- ===== src/Menu/Build.antt =====
-- scripts/kconfig/menu.c: the calls that the parser makes for nested entries, and the nodes that one of
-- them adds.
pub mod Links
use mathlib.Core.Path.{subst}
use kdevops.Prelude.{
  ℕ, suc, ◌+◌, ◌<◌, ◌≡◌, refl, sym, ap, ◌∙◌, true, false, Option, none, some, arith, ◌==◌,
  if◌then◌else◌,
}
use kdevops.Expr.{SymId}
use kdevops.Symbol.{Store}
use kdevops.Menu.{
  Menu, Slot, next_of, list_of, Menus, World, blank, update_node, set_slot, menu_init, add_node,
  add_place, menu_add_entry, menu_add_menu, menu_end_menu,
}
use kdevops.Menu.Tree.{Forest, nil, config, block, size, first, Entry, Linked, Linked-same}
use kdevops.Menu.Walk.{◌>>=◌}

-- The calls for the entries of a level: an entry with a level of its own is a menu, a choice or an `if`.
unfoldable pub parse : Forest → World → Option World
unfolding menu_add_entry menu_add_menu menu_end_menu
parse nil w = some w
parse (config s rest) w = parse rest (menu_add_entry s w)
parse (block s inner rest) w =
    parse inner (menu_add_menu (menu_add_entry s w)) >>= λ w'. menu_end_menu w' >>= parse rest

abbrev owner : Slot → ℕ
owner (next_of m) = m
owner (list_of m) = m

abbrev slot_value : Slot → (ℕ → Menu) → Option ℕ
slot_value (next_of m) node = (node m).next
slot_value (list_of m) node = (node m).list

pub set_slot-ne :
    (slot : Slot) (v : Option ℕ) (node : ℕ → Menu) (k : ℕ)
    → (k == owner slot) ≡ false
    → set_slot slot v node k ≡ node k
set_slot-ne (next_of m) v node k h = rw h refl
set_slot-ne (list_of m) v node k h = rw h refl

set_slot-local :
    (slot : Slot) (v : Option ℕ) (node node' : ℕ → Menu) (k : ℕ)
    → node k ≡ node' k
    → set_slot slot v node k ≡ set_slot slot v node' k
set_slot-local (next_of m) v node node' k h =
    ap (λ x. if k == m then record x { next = v } else x) h
set_slot-local (list_of m) v node node' k h =
    ap (λ x. if k == m then record x { list = v } else x) h

==_self : (n : ℕ) → (n == n) ≡ true
==_self n = ground arith

-- Writing what is there changes nothing.
pub set_slot-none :
    (slot : Slot) (node : ℕ → Menu) (k : ℕ)
    → slot_value slot node ≡ none
    → node k ≡ set_slot slot none node k
set_slot-none (next_of m) node k h = ground (arith, h)
set_slot-none (list_of m) node k h = ground (arith, h)

-- The next entry goes to a free slot of a level below `par`, and has the number `n`.
pub record Ready (ms : Menus) (par n : ℕ) : Type 0 where
  pub fresh_lem : ms.fresh ≡ n
  pub current_lem : ms.current_menu ≡ some par
  pub slot_none : slot_value ms.last_entry ms.node ≡ none
  pub owner_lt : owner ms.last_entry < n

-- The level is linked in behind the slot, and no other node has changed.
pub record Built (ms ms' : Menus) (par n : ℕ) (f : Forest) : Type 0 where
  pub ready : Ready ms' par (n + size f)
  pub before : (k : ℕ) → k < n → ms'.node k ≡ set_slot ms.last_entry (first f n) ms.node k
  pub linked : Linked ms'.node par f n

pub record Parsed (o : Option World) (ms : Menus) (par n : ℕ) (f : Forest) : Type 0 where
  pub world : World
  pub result : o ≡ some world
  pub built : Built ms world.menus par n f

pub add_place-menus : (s : Option SymId) (w : World) → (add_place s w).menus ≡ w.menus
unfolding add_place
add_place-menus none w = refl
add_place-menus (some s) w = refl

-- The node that is added.
pub new-node :
    (s : Option SymId) (ms : Menus) (par n : ℕ)
    → Ready ms par n
    → (add_node s ms).node n ≡ record blank { sym = s; parent = some par }
new-node s ms par n r =
    set_slot-ne ms.last_entry (some ms.fresh)
      (update_node ms.fresh (λ x. record blank { sym = s; parent = ms.current_menu }) ms.node) n
      (ground (arith, r.owner_lt))
    ∙ ground (arith, r.fresh_lem, r.current_lem)

pub add_node-before :
    (s : Option SymId) (ms : Menus) (par n k : ℕ)
    → Ready ms par n
    → k < n
    → (add_node s ms).node k ≡ set_slot ms.last_entry (some n) ms.node k
add_node-before s ms par n k r l =
    set_slot-local ms.last_entry (some ms.fresh)
      (update_node ms.fresh (λ x. record blank { sym = s; parent = ms.current_menu }) ms.node)
      ms.node k (ground (arith, l, r.fresh_lem))
    ∙ ap (λ f. set_slot ms.last_entry (some f) ms.node k) r.fresh_lem

pub add_node-Ready :
    (s : Option SymId) (ms : Menus) (par n : ℕ) → Ready ms par n → Ready (add_node s ms) par (suc n)
add_node-Ready s ms par n r = record {
  fresh_lem = omega (arith, r.fresh_lem);
  current_lem = r.current_lem;
  slot_none =
      ap (λ k. ((add_node s ms).node k).next) r.fresh_lem
      ∙ ap (λ x. x.next) (new-node s ms par n r);
  owner_lt = omega (arith, r.fresh_lem);
}

-- `menu_add_menu` behind it, for a level of its own.
abbrev pub inside : Menus → Menus
inside ms = record ms {
  last_entry = list_of ms.current_entry;
  current_menu = some ms.current_entry;
}

pub inside-Ready :
    (s : Option SymId) (ms : Menus) (par n : ℕ)
    → Ready ms par n
    → Ready (inside (add_node s ms)) n (suc n)
inside-Ready s ms par n r = record {
  fresh_lem = omega (arith, r.fresh_lem);
  current_lem = ap some r.fresh_lem;
  slot_none =
      ap (λ k. ((add_node s ms).node k).list) r.fresh_lem
      ∙ ap (λ x. x.list) (new-node s ms par n r);
  owner_lt = omega (arith, r.fresh_lem);
}

-- The node of an entry, once its level goes on with `v` and it has the entries `l` below it.
abbrev pub entry_node : Option SymId → ℕ → Option ℕ → Option ℕ → Menu
entry_node s par l v = record blank { sym = s; parent = some par; list = l; next = v }

pub entry_node-Entry :
    (node : ℕ → Menu) (par n : ℕ) (s : Option SymId) (l v : Option ℕ)
    → node n ≡ entry_node s par l v
    → Entry node par n s l v
entry_node-Entry node par n s l v h = record {
  parent_lem = ap (λ x. x.parent) h;
  sym_lem = ap (λ x. x.sym) h;
  list_lem = ap (λ x. x.list) h;
  next_lem = ap (λ x. x.next) h;
}

-- The link to what follows a node is written to the node.
pub linked_next :
    (s : Option SymId) (par n f : ℕ) (l v : Option ℕ) (node : ℕ → Menu)
    → f ≡ n
    → node n ≡ entry_node s par l none
    → set_slot (next_of f) v node n ≡ entry_node s par l v
linked_next s par n f l v node e h =
    ap (λ f. set_slot (next_of f) v node n) e
    ∙ rw (==_self n) (ap {B = Menu} (λ (x : Menu). record x { next = v }) h)

pub linked_list :
    (s : Option SymId) (par n f : ℕ) (l : Option ℕ) (node : ℕ → Menu)
    → f ≡ n
    → node n ≡ entry_node s par none none
    → set_slot (list_of f) l node n ≡ entry_node s par l none
linked_list s par n f l node e h =
    ap (λ f. set_slot (list_of f) l node n) e
    ∙ rw (==_self n) (ap {B = Menu} (λ (x : Menu). record x { list = l }) h)

-- What `menu_end_menu` makes of the state, for the menu `n` below `par`.
abbrev pub ended : ℕ → ℕ → Menus → Menus
ended par n ms = record ms { last_entry = next_of n; current_menu = some par }
