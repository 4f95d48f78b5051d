-- ===== src/Tristate/Laws.antt =====
-- scripts/kconfig/expr.h: the operators on tristates as a bounded lattice with an involution,
-- read through the numbers of the enumeration.
use kdevops.Prelude.{ℕ, ◌≡◌, refl, ap, ◌∙◌, ◌-◌, ◌≤◌, min, max, arith}
use kdevops.Tristate.{Tristate, tri_no, tri_mod, tri_yes, rank, expr_and, expr_or, expr_not}

pub rank_le : (a : Tristate) → rank a ≤ 2
unfolding rank
rank_le a = ground arith

pub eq_of_rank : (a b : Tristate) → rank a ≡ rank b → a ≡ b
unfolding rank
eq_of_rank a b h = ground arith

pub rank-expr_and : (a b : Tristate) → rank (expr_and a b) ≡ min (rank a) (rank b)
unfolding expr_and
rank-expr_and a b = ground arith

pub rank-expr_or : (a b : Tristate) → rank (expr_or a b) ≡ max (rank a) (rank b)
unfolding expr_or
rank-expr_or a b = ground arith

pub rank-expr_not : (a : Tristate) → rank (expr_not a) ≡ 2 - rank a
unfolding rank expr_not
rank-expr_not a = ground arith

pub rank_no : rank tri_no ≡ 0
unfolding rank
rank_no = refl

pub rank_mod : rank tri_mod ≡ 1
unfolding rank
rank_mod = refl

pub rank_yes : rank tri_yes ≡ 2
unfolding rank
rank_yes = refl

-- With these `omega` decides equations between tristate formulas.
pub ruleset tristate_laws =
    (arith, rank_le, rank-expr_and, rank-expr_or, rank-expr_not, rank_no, rank_mod, rank_yes)

pub and_comm : (a b : Tristate) → expr_and a b ≡ expr_and b a
and_comm a b = eq_of_rank _ _ (omega tristate_laws)

pub or_comm : (a b : Tristate) → expr_or a b ≡ expr_or b a
or_comm a b = eq_of_rank _ _ (omega tristate_laws)

pub and_assoc : (a b c : Tristate) → expr_and (expr_and a b) c ≡ expr_and a (expr_and b c)
and_assoc a b c = eq_of_rank _ _ (omega tristate_laws)

pub or_assoc : (a b c : Tristate) → expr_or (expr_or a b) c ≡ expr_or a (expr_or b c)
or_assoc a b c = eq_of_rank _ _ (omega tristate_laws)

pub not-not : (a : Tristate) → expr_not (expr_not a) ≡ a
not-not a = eq_of_rank _ _ (omega tristate_laws)

pub not-and : (a b : Tristate) → expr_not (expr_and a b) ≡ expr_or (expr_not a) (expr_not b)
not-and a b = eq_of_rank _ _ (omega tristate_laws)

pub not-or : (a b : Tristate) → expr_not (expr_or a b) ≡ expr_and (expr_not a) (expr_not b)
not-or a b = eq_of_rank _ _ (omega tristate_laws)
