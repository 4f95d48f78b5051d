-- ===== src/Conf/Chosen.antt =====
-- scripts/kconfig/conf.c: what `randomize_choice_values` does to the values of a choice.
use kdevops.Prelude.{
  ℕ, ◌+◌, ◌%◌, ◌<◌, Bool, true, false, ◌≡◌, refl, ap, ◌∙◌, Option, some, suc, List, [], ◌∷◌, ◌==◌,
  length, arith, if◌then◌else◌, ==_iff,
}
use kdevops.Tristate.{tri_no, tri_yes, rank}
use kdevops.Expr.{SymId}
use kdevops.Conf.{set_choice_value, set_choice_values, randomize_choice_values}
use kdevops.Symbol.{chosen, Flags, Property, Store}
use kdevops.Symbol.Properties.{sym_get_choice_prop, choice_values}
use kdevops.Symbol.State.{update}

-- A value of the choice `c`, which is the one that is picked or is not.
pub record IsAssigned (st : Store) (c s : SymId) (picked : Bool) : Type 0 where
  pub tri : (st.sym s).def_value.tri ≡ (if picked then tri_yes else tri_no)
  pub by_user : (st.sym s).flags.def_user ≡ true
  pub not_valid : (st.sym s).flags.valid ≡ false
  pub refers : picked ≡ true → (st.sym c).def_value.val ≡ chosen s

-- All values, from number `cnt` on.
unfoldable pub AreAssigned : Store → SymId → ℕ → ℕ → List SymId → Type 0
AreAssigned st c picked cnt [] = Unit
AreAssigned st c picked cnt (s ∷ ss) =
    IsAssigned st c s (picked == cnt) × AreAssigned st c picked (cnt + 1) ss

-- A symbol that is none of a list, and symbols of which no two are the same.
unfoldable pub IsApart : SymId → List SymId → Type 0
IsApart s [] = Unit
IsApart s (t ∷ ts) = ((s == t) ≡ false) × IsApart s ts

unfoldable pub AreDistinct : List SymId → Type 0
unfolding IsApart
AreDistinct [] = Unit
AreDistinct (s ∷ ss) = IsApart s ss × AreDistinct ss

eq_false_sym : (a b : ℕ) → (a == b) ≡ false → (b == a) ≡ false
eq_false_sym a b h = ground (arith, ==_iff a b, ==_iff b a)

module _ (c s : SymId) (picked : Bool) (st : Store) (c_apart : (c == s) ≡ false) where
  set_choice_value-other :
      (t : SymId)
      → (t == s) ≡ false
      → (t == c) ≡ false
      → (set_choice_value c s picked st).sym t ≡ st.sym t
  unfolding set_choice_value
  set_choice_value-other t h k = ground arith

  set_choice_value-val :
      picked ≡ false
      → ((set_choice_value c s picked st).sym c).def_value.val ≡ (st.sym c).def_value.val
  unfolding set_choice_value
  set_choice_value-val h = ground arith

  set_choice_value-IsAssigned : IsAssigned (set_choice_value c s picked st) c s picked
  unfolding set_choice_value
  set_choice_value-IsAssigned = record {
    tri = ground (arith, ==_iff s s, ==_iff c s, ==_iff s c, ==_iff c c);
    by_user = ground (arith, ==_iff s s);
    not_valid = ground (arith, ==_iff s s);
    refers = λ h. ground (arith, ==_iff c c);
  }

module _ (c picked : ℕ) where
  set_choice_values-other :
      (cnt : ℕ) (ss : List SymId) (st : Store) (t : SymId)
      → IsApart c ss
      → IsApart t ss
      → (t == c) ≡ false
      → (set_choice_values c picked cnt ss st).sym t ≡ st.sym t
  unfolding set_choice_values IsApart
  set_choice_values-other cnt [] st t hc ht k = refl
  set_choice_values-other cnt (s ∷ ss) st t (a, hc) (b, ht) k =
      set_choice_values-other (cnt + 1) ss _ t hc ht k
      ∙ set_choice_value-other c s (picked == cnt) st a t b k

  -- Behind the picked value, the choice keeps its reference.
  set_choice_values-val :
      (cnt : ℕ) (ss : List SymId) (st : Store)
      → IsApart c ss
      → picked < cnt
      → ((set_choice_values c picked cnt ss st).sym c).def_value.val ≡ (st.sym c).def_value.val
  unfolding set_choice_values IsApart
  set_choice_values-val cnt [] st h l = refl
  set_choice_values-val cnt (s ∷ ss) st (a, h) l =
      set_choice_values-val (cnt + 1) ss _ h (omega arith)
      ∙ set_choice_value-val c s (picked == cnt) st a (ground (arith, ==_iff picked cnt))

  IsAssigned-kept :
      (st st' : Store) (s : SymId) (b : Bool)
      → st'.sym s ≡ st.sym s
      → (b ≡ true → (st'.sym c).def_value.val ≡ (st.sym c).def_value.val)
      → IsAssigned st c s b
      → IsAssigned st' c s b
  IsAssigned-kept st st' s b e f h = record {
    tri = ap (λ y. y.def_value.tri) e ∙ h.tri;
    by_user = ap (λ y. y.flags.def_user) e ∙ h.by_user;
    not_valid = ap (λ y. y.flags.valid) e ∙ h.not_valid;
    refers = λ k. f k ∙ h.refers k;
  }

  set_choice_values-AreAssigned :
      (cnt : ℕ) (ss : List SymId) (st : Store)
      → IsApart c ss
      → AreDistinct ss
      → AreAssigned (set_choice_values c picked cnt ss st) c picked cnt ss
  unfolding set_choice_values IsApart AreDistinct AreAssigned
  set_choice_values-AreAssigned cnt [] st h d = tt
  set_choice_values-AreAssigned cnt (s ∷ ss) st (a, h) (b, d) =
      let st1 = set_choice_value c s (picked == cnt) st in
      (
        IsAssigned-kept st1 (set_choice_values c picked (cnt + 1) ss st1) s (picked == cnt)
            (set_choice_values-other (cnt + 1) ss st1 s h b (eq_false_sym c s a))
            (λ k. set_choice_values-val (cnt + 1) ss st1 h (ground (arith, ==_iff picked cnt)))
            (set_choice_value-IsAssigned c s (picked == cnt) st a),
        set_choice_values-AreAssigned (cnt + 1) ss st1 h d,
      )

  -- The flags of the choice itself do not matter.
  AreAssigned-update :
      (f : Flags → Flags) (st : Store) (cnt : ℕ) (ss : List SymId)
      → IsApart c ss
      → AreAssigned st c picked cnt ss
      → AreAssigned (update c (λ y. record y { flags = f y.flags }) st) c picked cnt ss
  unfolding IsApart AreAssigned
  AreAssigned-update f st cnt [] h k = tt
  AreAssigned-update f st cnt (s ∷ ss) (a, h) (k, l) = (
    IsAssigned-kept st (update c (λ y. record y { flags = f y.flags }) st) s (picked == cnt)
        (ground (arith, eq_false_sym c s a)) (λ e. ground arith) k,
    AreAssigned-update f st (cnt + 1) ss h l,
  )

positive : (n : ℕ) → 0 < n → (n == 0) ≡ false
positive n h = ground (arith, ==_iff n 0)

-- What a random choice does to the store.
pub record Randomizes (vs : List SymId) (c calls : ℕ) (drawn : ℕ) (r : Option ((ℕ × Bool) × Store))
    : Type 0 where
  pub after : Store
  pub is_result : r ≡ some ((suc calls, true), after)
  pub is_number : drawn % length vs < length vs
  pub are_set : AreAssigned after c (drawn % length vs) 0 vs
  pub by_user : (after.sym c).flags.def_user ≡ true
  pub not_valid : (after.sym c).flags.valid ≡ false

-- For a choice that is `y` and has values, none of them twice and none the choice itself,
-- `randomize_choice_values` draws one number and returns. The value that the number picks is then `y`
-- and the one that the choice refers to, and all others are `n`. These values and the choice count as
-- set by the user and will be calculated again.
pub randomize_choice_values-Randomizes :
    (rand : ℕ → ℕ) (c calls : ℕ) (p : Property) (st : Store)
    → (st.sym c).curr.tri ≡ tri_yes
    → sym_get_choice_prop (st.sym c) ≡ some p
    → 0 < length (choice_values p)
    → IsApart c (choice_values p)
    → AreDistinct (choice_values p)
    → Randomizes (choice_values p) c calls (rand calls) (randomize_choice_values rand c calls st)
unfolding randomize_choice_values rank
randomize_choice_values-Randomizes rand c calls p st t e l a d =
    let vs = choice_values p in
    let k = rand calls % length vs in
    let st1 = set_choice_values c k 0 vs st in
    record {
      after =
          update c (λ y. record y { flags = record y.flags { def_user = true; valid = false } })
            st1;
      is_result = rw t (rw e (rw (positive (length vs) l) refl));
      is_number = omega arith;
      are_set =
          AreAssigned-update c k (λ f. record f { def_user = true; valid = false }) st1 0 vs a
            (set_choice_values-AreAssigned c k 0 vs st a d);
      by_user = ground (arith, ==_iff c c);
      not_valid = ground (arith, ==_iff c c);
    }
