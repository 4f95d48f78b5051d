-- ===== src/Menu/Walk/Built.antt =====
-- scripts/kconfig/menu.c, confdata.c: the walk through the menus that the parser builds.
use kdevops.Prelude.{
  ℕ, zero, suc, ◌+◌, ◌≡◌, refl, sym, ap, ◌∙◌, Option, some, List, [], ◌∷◌, ◌++◌, arith,
}
use mathlib.Core.List.{append_assoc, append-nil}
use kdevops.Symbol.{Store}
use kdevops.Menu.{Menu, World, menu_init}
use kdevops.Menu.Tree.{Forest, nil, config, block, size}
use kdevops.Menu.Build.{parse}
use kdevops.Menu.Build.Links.{parse-Linked}
use kdevops.Menu.Walk.{◌>>=◌, walk, after_inner, visit}
use kdevops.Menu.Walk.Order.{walk-visit}

-- `count` numbers from `n` on.
abbrev pub from : ℕ → ℕ → List ℕ
from n zero = []
from n (suc count) = n ∷ from (suc n) count

-- Each node that is entered is noted.
abbrev pub note : ℕ → List ℕ → Option (List ℕ)
note m seen = some (seen ++ m ∷ [])

abbrev pub pass : ℕ → List ℕ → Option (List ℕ)
pass m seen = some seen

from-add : (n a b : ℕ) → from n (a + b) ≡ from n a ++ from (n + a) b
from-add n zero b =
    let none_added : 0 + b ≡ b = omega arith in
    let same : n ≡ n + 0 = omega arith in ap (from n) none_added ∙ ap (λ t. from t b) same
from-add n (suc a) b =
    let one_more : suc a + b ≡ suc (a + b) = omega arith in
    let moved : suc n + a ≡ n + suc a = omega arith in
    ap (from n) one_more
    ∙ ap (λ l. n ∷ l) (from-add (suc n) a b ∙ ap (λ t. from (suc n) a ++ from t b) moved)

after_inner-pass :
    (node : ℕ → Menu) (f : Forest) (n : ℕ) (seen : List ℕ)
    → after_inner node note pass f n seen ≡ some seen
unfolding after_inner
after_inner-pass node nil n seen = refl
after_inner-pass node (config s rest) n seen = refl
after_inner-pass node (block s inner rest) n seen = refl

visit-note :
    (node : ℕ → Menu) (f : Forest) (n : ℕ) (seen : List ℕ)
    → visit node note pass f n seen ≡ some (seen ++ from n (size f))
unfolding visit after_inner
visit-note node nil n seen = ap some (sym (append-nil seen))
visit-note node (config s rest) n seen =
    visit-note node rest (suc n) (seen ++ n ∷ [])
    ∙ ap some (append_assoc seen (n ∷ []) (from (suc n) (size rest)))
visit-note node (block s inner rest) n seen =
    let m : ℕ = suc n + size inner in
    let seen' : List ℕ = (seen ++ n ∷ []) ++ from (suc n) (size inner) in
    ap (λ o. o >>= λ s2. after_inner node note pass inner n s2 >>= visit node note pass rest m)
      (visit-note node inner (suc n) (seen ++ n ∷ []))
    ∙ ap (λ o. o >>= visit node note pass rest m) (after_inner-pass node inner n seen')
    ∙ visit-note node rest m seen'
    ∙ ap some (simp (append_assoc, from-add))

-- In the menus that the calls for nested entries build, the walk reaches every entry once, in the order
-- in which the entries were added, and ends.
pub walk-parse :
    (f : Forest) (st : Store)
    → (w : World) × (parse f (record { store = st; menus = menu_init }) ≡ some w)
      × (walk w.menus.node note pass (suc (size f)) (size f) (w.menus.node 0).list []
          ≡ some (from 1 (size f)))
walk-parse f st =
    let (w, made, links, root, current) = parse-Linked f st in
    (
      w,
      made,
      walk-visit w.menus.node note pass (suc (size f)) (size f) f [] links (ap (λ x. x.list) root)
            (ap (λ x. x.next) root) (ap (λ x. x.parent) root) (omega arith) (omega arith)
          ∙ ap (λ o. o >>= after_inner w.menus.node note pass f 0) (visit-note w.menus.node f 1 [])
          ∙ after_inner-pass w.menus.node f 0 (from 1 (size f)),
    )
