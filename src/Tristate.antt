-- ===== src/Tristate.antt =====
-- scripts/kconfig/expr.h: the three-valued logic of kconfig, `enum tristate` and its operators.
pub mod Laws
use kdevops.Prelude.{ℕ, Bool, ltb, ◌==◌, if◌then◌else◌}

-- `no`, `mod` and `yes`, in the order of the enumeration.
pub data Tristate : Type 0 where
  tri_no tri_mod tri_yes : Tristate

-- The number that the enumeration gives.
unfoldable pub rank : Tristate → ℕ
rank tri_no = 0
rank tri_mod = 1
rank tri_yes = 2

-- C compares tristates by those numbers.
abbrev pub tri_lt : Tristate → Tristate → Bool
tri_lt a b = ltb (rank a) (rank b)

abbrev pub tri_eq : Tristate → Tristate → Bool
tri_eq a b = rank a == rank b

unfoldable pub expr_and : Tristate → Tristate → Tristate
unfolding rank
expr_and a b = if tri_lt a b then a else b

unfoldable pub expr_or : Tristate → Tristate → Tristate
unfolding rank
expr_or a b = if tri_lt b a then a else b

-- `2 - dep`
unfoldable pub expr_not : Tristate → Tristate
expr_not tri_no = tri_yes
expr_not tri_mod = tri_mod
expr_not tri_yes = tri_no
