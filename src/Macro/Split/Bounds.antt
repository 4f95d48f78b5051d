-- ===== src/Macro/Split/Bounds.antt =====
-- scripts/kconfig/preprocess.c: how many commas a clause may have, and that its parts are the clause.
use kdevops.Prelude.{
  ℕ, suc, ◌+◌, ◌≤◌, ◌<◌, ◌≡◌, ◌⊎◌, refl, ◌∙◌, ap, sym, true, List, [], ◌∷◌, ◌++◌, length,
  if◌then◌else◌, arith, Bytes, Bool-cases, inl, inr,
}
use mathlib.Core.List.{append_assoc, append-nil}
use mathlib.Core.Path.{subst}
use kdevops.Macro.Split.{
  Split, parts, refused, overrun, nest_after, is_separator, split_from, split_clause,
}

-- The commas of a clause outside parentheses.
unfoldable pub separators : ℕ → Bytes → ℕ
unfolding nest_after
separators nest [] = 0
separators nest (c ∷ cs) =
    if is_separator nest c then suc (separators nest cs) else separators (nest_after nest c) cs

-- The parts with commas between them.
unfoldable pub join : List Bytes → Bytes
join [] = []
join (p ∷ []) = p
join (p ∷ q ∷ ps) = p ++ (b',' ∷ join (q ∷ ps))

split-refused :
    (argc nest : ℕ) (prev s : Bytes)
    → argc ≤ 16
    → 16 < argc + separators nest s
    → split_from argc nest prev s ≡ refused
unfolding split_from separators
split-refused argc nest prev [] h k = absurd (omega arith)
split-refused argc nest prev (c ∷ cs) h k = ground (
  arith,
  split-refused (suc argc) nest [] cs,
  split-refused argc (nest_after nest c) (prev ++ c ∷ []) cs,
)

split-overrun :
    (argc nest : ℕ) (prev s : Bytes)
    → argc + separators nest s ≡ 16
    → split_from argc nest prev s ≡ overrun
unfolding split_from separators
split-overrun argc nest prev [] h = ground (arith, h)
split-overrun argc nest prev (c ∷ cs) h = ground (
  arith,
  split-overrun (suc argc) nest [] cs,
  split-overrun argc (nest_after nest c) (prev ++ c ∷ []) cs,
)

-- The parts of a text, of which there is one more than commas.
pub record IsSplit (prev s : Bytes) (commas : ℕ) (r : Split) : Type 0 where
  pub first : Bytes
  pub others : List Bytes
  pub is_parts : r ≡ parts (first ∷ others)
  pub count : length others ≡ commas
  pub joined : join (first ∷ others) ≡ prev ++ s

separator_comma : (nest c : ℕ) → is_separator nest c ≡ true → c ≡ b','
separator_comma nest c h = ground (arith, h)

IsSplit-parts :
    (argc nest : ℕ) (prev s : Bytes)
    → argc + separators nest s < 16
    → IsSplit prev s (separators nest s) (split_from argc nest prev s)
unfolding split_from separators join
IsSplit-parts argc nest prev [] h = record {
  first = prev;
  others = [];
  is_parts = ground (arith, h);
  count = refl;
  joined = sym (append-nil prev);
}
IsSplit-parts argc nest prev (c ∷ cs) h = elim (Bool-cases (is_separator nest c)) [
  | inl e ↦
      let r = IsSplit-parts (suc argc) nest [] cs (ground (arith, h)) in
      record {
        first = prev;
        others = r.first ∷ r.others;
        is_parts = ground (arith, h, r.is_parts);
        count = ground (arith, r.count);
        joined =
            ap (λ r. prev ++ r)
              (ap (λ r. b',' ∷ r) r.joined ∙ ap (λ d. d ∷ cs) (sym (separator_comma nest c e)));
      }
  | inr e ↦
      let r = IsSplit-parts argc (nest_after nest c) (prev ++ c ∷ []) cs (ground (arith, h)) in
      record {
        first = r.first;
        others = r.others;
        is_parts = ground (arith, h, r.is_parts);
        count = ground (arith, r.count);
        joined = r.joined ∙ append_assoc prev (c ∷ []) cs;
      }
]

overrun_at : (s : Bytes) → separators 0 s ≡ 16 → split_clause s ≡ overrun
unfolding split_clause
overrun_at s h = split-overrun 0 0 [] s (omega arith)

refused_beyond : (s : Bytes) → 16 < separators 0 s → split_clause s ≡ refused
unfolding split_clause
refused_beyond s h = split-refused 0 0 [] s (omega arith) (omega arith)

limit-cases : (n : ℕ) → (n < 16) ⊎ (n ≡ 16) ⊎ (16 < n)
limit-cases n = ground arith

-- What splitting a text can come to.
pub data SplitOf (s : Bytes) : Split → Type 0 where
  within :
      (p : Bytes) (ps : List Bytes)
      → length ps ≡ separators 0 s
      → separators 0 s < 16
      → join (p ∷ ps) ≡ s
      → SplitOf s (parts (p ∷ ps))
  at_the_end : separators 0 s ≡ 16 → SplitOf s overrun
  beyond : 16 < separators 0 s → SplitOf s refused

parts_below : (s : Bytes) → separators 0 s < 16 → IsSplit [] s (separators 0 s) (split_clause s)
unfolding split_clause
parts_below s h = IsSplit-parts 0 0 [] s (omega arith)

-- A clause with at most fifteen commas outside parentheses is split at these, into parts that are
-- the clause again with the commas between them; with sixteen, the last part is written behind the
-- end of the array of sixteen; with more, the clause is refused.
pub split_clause-SplitOf : (s : Bytes) → SplitOf s (split_clause s)
split_clause-SplitOf s = elim (limit-cases (separators 0 s)) [
  | inl h ↦
      let r = parts_below s h in
      subst (SplitOf s) (sym r.is_parts) (within r.first r.others r.count h r.joined)
  | inr (inl h) ↦ subst (SplitOf s) (sym (overrun_at s h)) (at_the_end h)
  | inr (inr h) ↦ subst (SplitOf s) (sym (refused_beyond s h)) (beyond h)
]
