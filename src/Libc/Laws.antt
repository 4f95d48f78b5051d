-- ===== src/Libc/Laws.antt =====
-- The comparison of texts that strcmp stands for.
use Prim.Native.Nat.{Ordering}
use kdevops.Prelude.{◌≡◌, refl, [], ◌∷◌, arith, Bytes}
use kdevops.Libc.{strcmp}

pub strcmp_self : (s : Bytes) → strcmp s s ≡ Ordering.eq
unfolding strcmp
strcmp_self [] = refl
strcmp_self (c ∷ cs) = ground (arith, strcmp_self cs)
