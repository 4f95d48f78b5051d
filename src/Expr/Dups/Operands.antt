-- ===== src/Expr/Dups/Operands.antt =====
-- scripts/kconfig/expr.c: assignments to the operands of a pass, and what sums over all operands
-- and over the tree have to do with each other.
use kdevops.Prelude.{
  ℕ, zero, suc, ◌+◌, ◌≤◌, ◌<◌, ◌≡◌, ◌≢◌, refl, ap, List, [], ◌∷◌, ◌++◌, length, arith,
}
use kdevops.Expr.{Expr}
use kdevops.Expr.Dups.{take, drop, operand, set_operand}

pub length-set_operand :
    (i : ℕ) (e : Expr) (xs : List Expr) → length (set_operand i e xs) ≡ length xs
unfolding set_operand
length-set_operand i e [] = refl
length-set_operand zero e (x ∷ xs) = refl
length-set_operand (suc i) e (x ∷ xs) = ap suc (length-set_operand i e xs)

pub operand-set_operand_same :
    (i : ℕ) (e : Expr) (xs : List Expr) → i < length xs → operand (set_operand i e xs) i ≡ e
unfolding set_operand operand
operand-set_operand_same i e [] h = ground arith
operand-set_operand_same zero e (x ∷ xs) h = refl
operand-set_operand_same (suc i) e (x ∷ xs) h = operand-set_operand_same i e xs (omega arith)

pub operand-set_operand_other :
    (i j : ℕ) (e : Expr) (xs : List Expr) → i ≢ j → operand (set_operand i e xs) j ≡ operand xs j
unfolding set_operand operand
operand-set_operand_other i j e [] n = refl
operand-set_operand_other zero zero e (x ∷ xs) n = ground arith
operand-set_operand_other zero (suc j) e (x ∷ xs) n = refl
operand-set_operand_other (suc i) zero e (x ∷ xs) n = refl
operand-set_operand_other (suc i) (suc j) e (x ∷ xs) n =
    operand-set_operand_other i j e xs (λ h. n (ap suc h))

pub set_operand-operand : (i : ℕ) (xs : List Expr) → set_operand i (operand xs i) xs ≡ xs
unfolding set_operand operand
set_operand-operand i [] = refl
set_operand-operand zero (x ∷ xs) = refl
set_operand-operand (suc i) (x ∷ xs) = ap (λ ys. x ∷ ys) (set_operand-operand i xs)

-- A number for each operand, added up.
unfoldable pub total : (Expr → ℕ) → List Expr → ℕ
total f [] = 0
total f (x ∷ xs) = f x + total f xs

pub total-set_operand :
    (f : Expr → ℕ) (i : ℕ) (e : Expr) (xs : List Expr)
    → i < length xs
    → total f (set_operand i e xs) + f (operand xs i) ≡ total f xs + f e
unfolding set_operand operand total
total-set_operand f i e [] h = omega arith
total-set_operand f zero e (x ∷ xs) h = omega arith
total-set_operand f (suc i) e (x ∷ xs) h = omega (arith, total-set_operand f i e xs (omega arith))

pub operand_le_total :
    (f : Expr → ℕ) (i : ℕ) (xs : List Expr) → i < length xs → f (operand xs i) ≤ total f xs
unfolding operand total
operand_le_total f i [] h = omega arith
operand_le_total f zero (x ∷ xs) h = omega arith
operand_le_total f (suc i) (x ∷ xs) h = omega (arith, operand_le_total f i xs (omega arith))

-- Two operands of different numbers do not exceed the sum.
pub operands_le_total :
    (f : Expr → ℕ) (i j : ℕ) (xs : List Expr)
    → i < length xs
    → j < length xs
    → i ≢ j
    → f (operand xs i) + f (operand xs j) ≤ total f xs
unfolding operand total
operands_le_total f i j [] hi hj n = omega arith
operands_le_total f zero zero (x ∷ xs) hi hj n = ground arith
operands_le_total f zero (suc j) (x ∷ xs) hi hj n =
    omega (arith, operand_le_total f j xs (omega arith))
operands_le_total f (suc i) zero (x ∷ xs) hi hj n =
    omega (arith, operand_le_total f i xs (omega arith))
operands_le_total f (suc i) (suc j) (x ∷ xs) hi hj n =
    omega (arith, operands_le_total f i j xs (omega arith) (omega arith) (λ h. n (ap suc h)))

pub total_mono :
    (f g : Expr → ℕ) → ((e : Expr) → f e ≤ g e) → (xs : List Expr) → total f xs ≤ total g xs
unfolding total
total_mono f g h [] = omega arith
total_mono f g h (x ∷ xs) = omega (arith, h x, total_mono f g h xs)

pub total_lt :
    (f g : Expr → ℕ)
    → ((e : Expr) → f e ≤ g e)
    → (i : ℕ) (xs : List Expr) → i < length xs
    → f (operand xs i) < g (operand xs i)
    → total f xs < total g xs
unfolding total operand
total_lt f g h i [] hi l = omega arith
total_lt f g h zero (x ∷ xs) hi l = omega (arith, total_mono f g h xs)
total_lt f g h (suc i) (x ∷ xs) hi l = omega (arith, h x, total_lt f g h i xs (omega arith) l)

pub length-++ : (xs ys : List Expr) → length (xs ++ ys) ≡ length xs + length ys
length-++ [] ys = omega arith
length-++ (x ∷ xs) ys = omega (arith, length-++ xs ys)

pub take-++ : (xs ys : List Expr) → take (length xs) (xs ++ ys) ≡ xs
unfolding take
take-++ [] ys = refl
take-++ (x ∷ xs) ys = ap (λ zs. x ∷ zs) (take-++ xs ys)

pub drop-++ : (xs ys : List Expr) → drop (length xs) (xs ++ ys) ≡ ys
unfolding drop
drop-++ [] ys = refl
drop-++ (x ∷ xs) ys = drop-++ xs ys

pub length-take : (n : ℕ) (xs : List Expr) → n ≤ length xs → length (take n xs) ≡ n
unfolding take
length-take zero xs h = refl
length-take (suc n) [] h = omega arith
length-take (suc n) (x ∷ xs) h = ap suc (length-take n xs (omega arith))

pub length-drop : (n : ℕ) (xs : List Expr) → n ≤ length xs → length (drop n xs) + n ≡ length xs
unfolding drop
length-drop zero xs h = omega arith
length-drop (suc n) [] h = omega arith
length-drop (suc n) (x ∷ xs) h = omega (arith, length-drop n xs (omega arith))

pub total-take-drop :
    (f : Expr → ℕ) (n : ℕ) (xs : List Expr) → total f (take n xs) + total f (drop n xs) ≡ total f xs
unfolding take drop total
total-take-drop f zero xs = omega arith
total-take-drop f (suc n) [] = omega arith
total-take-drop f (suc n) (x ∷ xs) = omega (arith, total-take-drop f n xs)

pub total-++ : (f : Expr → ℕ) (xs ys : List Expr) → total f (xs ++ ys) ≡ total f xs + total f ys
unfolding total
total-++ f [] ys = omega arith
total-++ f (x ∷ xs) ys = omega (arith, total-++ f xs ys)
