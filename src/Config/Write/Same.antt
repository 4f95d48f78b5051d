-- ===== src/Config/Write/Same.antt =====
-- scripts/kconfig/confdata.c: what `is_same` says of the old file and the new text.
use mathlib.Core.Path.{subst}
use kdevops.Prelude.{
  length, ◌≢◌, ap₂, Bool-cases, ==_iff, inl, inr, ◌⊎◌, true, false, ◌≡◌, refl, ap, Option, none,
  some, [], ◌∷◌, Bytes, arith,
}
use kdevops.Config.Write.{FileSystem, is_same, bytes_same}

-- The old file is none that holds `text`, or it cannot be read.
abbrev pub Differs : FileSystem → Option Bytes → Bytes → Type 0
Differs fs c text = (c ≢ some text) ⊎ ((fs.reads ≡ false) ⊎ (fs.maps ≡ false))

bytes_same-eq : (a b : Bytes) → bytes_same a b ≡ true → a ≡ b
unfolding bytes_same
bytes_same-eq [] [] h = refl
bytes_same-eq (x ∷ xs) (y ∷ ys) h =
    ap₂ (λ z zs. z ∷ zs) (ground (arith, ==_iff x y))
      (bytes_same-eq xs ys (ground (arith, ==_iff x y)))
bytes_same-eq [] (y ∷ ys) h = ground arith
bytes_same-eq (x ∷ xs) [] h = ground arith

pub is_same-eq :
    (fs : FileSystem) (c : Option Bytes) (text : Bytes)
    → is_same fs c text ≡ true
    → (c ≡ some text) ⊎ (fs.stat_fails ≡ true)
unfolding is_same
is_same-eq fs none text h = ground arith
is_same-eq fs (some old) text h = elim (Bool-cases fs.stat_fails) [
  | inl e ↦ inr e
  | inr e ↦ inl (ap some (bytes_same-eq old text (ground arith)))
]

bytes_same_refl : (a : Bytes) → bytes_same a a ≡ true
unfolding bytes_same
bytes_same_refl [] = refl
bytes_same_refl (x ∷ xs) = rw ((==_iff x x).1 refl, bytes_same_refl xs) refl

is_same_refl :
    (fs : FileSystem) (text : Bytes)
    → fs.reads ≡ true
    → fs.maps ≡ true
    → is_same fs (some text) text ≡ true
unfolding is_same
is_same_refl fs text r m = elim (Bool-cases fs.stat_fails) [
  | inl e ↦ rw (r, e) refl
  | inr e ↦ rw (r, e, m, (==_iff (length text) (length text)).1 refl, bytes_same_refl text) refl
]

pub is_same-Differs :
    (fs : FileSystem) (c : Option Bytes) (text : Bytes)
    → is_same fs c text ≡ false
    → Differs fs c text
is_same-Differs fs c text h = elim (Bool-cases fs.reads) [
  | inr e ↦ inr (inl e)
  | inl r ↦ elim (Bool-cases fs.maps) [
    | inr e ↦ inr (inr e)
    | inl m ↦ inl (λ e.
        let k : is_same fs (some text) text ≡ true = is_same_refl fs text r m in
        let d : is_same fs (some text) text ≡ false = subst (λ c. is_same fs c text ≡ false) e h in
        cc)
  ]
]
