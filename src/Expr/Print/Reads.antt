-- ===== src/Expr/Print/Reads.antt =====
-- scripts/kconfig/expr.c: the text that `expr_print` writes, and how the parser reads it.
use mathlib.Core.List.{append_assoc, append-nil}
use mathlib.Core.Path.{subst}
use kdevops.Prelude.{
  ◌≡◌, refl, sym, ap, ◌∙◌, some, List, [], ◌∷◌, ◌++◌, Bytes, codes, ℕ, Bool, true, false, not, ◌&&◌,
  ◌==◌, ==_iff, Bool-cases, arith, ◌⊎◌, inl, inr,
}
use kdevops.Expr.{
  SymId, Relation, equal, unequal, lth, leq, gth, geq, Expr, symbol, not_expr, and_expr, or_expr,
  comp,
}
use kdevops.Expr.Print.{
  ExprType, e_none, e_or, e_and, e_not, e_symbol, Piece, mark, left_piece, right_piece,
  relation_type, relation_mark, in_parens, print_pieces, expr_print,
}
use kdevops.Expr.Print.Grammar.{
  Token, t_word, t_relation, Level, or_level, and_level, not_level, is_word_char, all_word_chars,
  is_word, breaks_word, lacks_equal, is_in, keywords, IsLooked, Lexes, lex_end, lex_word, lex_equal,
  lex_unequal, lex_less, lex_less_equal, lex_greater, lex_greater_equal, Reads, read_symbol,
  read_comp, or_of_and, and_of_not,
}
use kdevops.Expr.Print.Levels.{ReadsAs, at_level}
use kdevops.Expr.Print.Lexing.{
  IsText-nil, IsText-cons, Printed, print_or, print_and, print_parens, print_not,
}
use kdevops.Expr.Print.Output.{expr_fprint}
use kdevops.Symbol.{Store}

-- A symbol that the parser finds by its name: the name is a word, but none of the commands, and
-- `sym_lookup` gives the symbol for it.
abbrev pub IsReadable : Store → SymId → Type 0
IsReadable st s = (n : Bytes) × ((st.sym s).name ≡ some n) × (is_word n ≡ true) × IsLooked st n s

-- All symbols of the expression are such ones.
unfoldable pub AreReadable : Store → Expr → Type 0
AreReadable st (symbol s) = IsReadable st s
AreReadable st (not_expr e) = AreReadable st e
AreReadable st (and_expr l r) = AreReadable st l × AreReadable st r
AreReadable st (or_expr l r) = AreReadable st l × AreReadable st r
AreReadable st (comp r a b) = IsReadable st a × IsReadable st b

from_false : {A : Type 0} → false ≡ true → A
from_false h = cc

word_char-lacks_equal : (c : ℕ) → is_word_char c ≡ true → (c == b'=') ≡ false
unfolding is_word_char
word_char-lacks_equal c h = elim (Bool-cases (c == b'=')) [
  | inl e ↦ from_false (subst (λ x. is_word_char x ≡ true) ((==_iff c b'=').0 e) h)
  | inr e ↦ e
]

both-left : (a b c : Bool) → (a && b) && c ≡ true → a ≡ true
both-left true b c h = refl
both-left false b c h = from_false h

word-begins : (c : ℕ) (cs : Bytes) → is_word (c ∷ cs) ≡ true → is_word_char c ≡ true
unfolding is_word all_word_chars
word-begins c cs h =
    both-left (is_word_char c) (all_word_chars cs) (not (is_in (c ∷ cs) keywords)) h

word-lacks_equal : (n rest : Bytes) → is_word n ≡ true → lacks_equal (n ++ rest) ≡ true
unfolding is_word lacks_equal
word-lacks_equal [] rest h = from_false h
word-lacks_equal (c ∷ cs) rest h = ap not (word_char-lacks_equal c (word-begins c cs h))

word-Lexes :
    (n rest : Bytes) (ts : List Token)
    → is_word n ≡ true
    → breaks_word rest ≡ true
    → Lexes rest ts
    → Lexes ((n ++ []) ++ rest) (t_word n ∷ ts)
word-Lexes n rest ts w b h =
    subst (λ x. Lexes (x ++ rest) (t_word n ∷ ts)) (sym (append-nil n)) (lex_word n w b h)

-- The text of a relation.
abbrev relation_text : Relation → Bytes
relation_text equal = codes "="
relation_text unequal = codes "!="
relation_text lth = codes "<"
relation_text leq = codes "<="
relation_text gth = codes ">"
relation_text geq = codes ">="

relation-Lexes :
    (r : Relation) (rest : Bytes) (ts : List Token)
    → lacks_equal rest ≡ true
    → Lexes rest ts
    → Lexes (relation_text r ++ rest) (t_relation r ∷ ts)
relation-Lexes equal rest ts b h = lex_equal h
relation-Lexes unequal rest ts b h = lex_unequal h
relation-Lexes lth rest ts b h = lex_less b h
relation-Lexes leq rest ts b h = lex_less_equal h
relation-Lexes gth rest ts b h = lex_greater b h
relation-Lexes geq rest ts b h = lex_greater_equal h

relation_breaks : (r : Relation) (rest : Bytes) → breaks_word (relation_text r ++ rest) ≡ true
unfolding breaks_word is_word_char
relation_breaks equal rest = refl
relation_breaks unequal rest = refl
relation_breaks lth rest = refl
relation_breaks leq rest = refl
relation_breaks gth rest = refl
relation_breaks geq rest = refl

relation_str : (r : Relation) → (relation_mark r).str ≡ some (relation_text r)
unfolding relation_mark
relation_str equal = refl
relation_str unequal = refl
relation_str lth = refl
relation_str leq = refl
relation_str gth = refl
relation_str geq = refl

left_str :
    (st : Store) (s : SymId) (n : Bytes) → (st.sym s).name ≡ some n → (left_piece st s).str ≡ some n
unfolding left_piece
left_str st s n h = rw (h, left_piece) refl

print_symbol :
    (st : Store) (s : SymId)
    → IsReadable st s
    → Printed st not_level (left_piece st s ∷ []) (symbol s)
print_symbol st s (n, e, w, l) = record {
  text = n ++ [];
  is_text = IsText-cons (left_piece st s) n [] [] (left_str st s n e) IsText-nil;
  tokens = t_word n ∷ [];
  lexes = λ rest ts b h. word-Lexes n rest ts w b h;
  begins = λ rest. rw (append-nil n) (word-lacks_equal n rest w);
  reads = record { read = symbol s; reads = read_symbol s n l; same_value = λ st'. refl };
}

print_comp :
    (st : Store) (r : Relation) (a b : SymId)
    → IsReadable st a
    → IsReadable st b
    → Printed st not_level (left_piece st a ∷ relation_mark r ∷ right_piece st b ∷ []) (comp r a b)
print_comp st r a b (n, e, w, l) (m, f, v, k) = record {
  text = n ++ (relation_text r ++ (m ++ []));
  is_text = IsText-cons (left_piece st a) n _ _ (left_str st a n e) (
      IsText-cons (relation_mark r) (relation_text r) _ _ (relation_str r)
        (IsText-cons (right_piece st b) m [] [] f IsText-nil));
  tokens = t_word n ∷ t_relation r ∷ t_word m ∷ [];
  lexes = λ rest ts c h.
      subst (λ x. Lexes x (t_word n ∷ t_relation r ∷ t_word m ∷ ts))
        (sym (
          append_assoc n (relation_text r ++ (m ++ [])) rest
          ∙ ap (λ x. n ++ x) (append_assoc (relation_text r) (m ++ []) rest)))
        (lex_word n w (relation_breaks r ((m ++ []) ++ rest)) (
          relation-Lexes r ((m ++ []) ++ rest) (t_word m ∷ ts)
            (rw (append-nil m) (word-lacks_equal m rest v)) (word-Lexes m rest ts v c h)));
  begins = λ rest.
      rw (append_assoc n (relation_text r ++ (m ++ [])) rest)
        (word-lacks_equal n ((relation_text r ++ (m ++ [])) ++ rest) w);
  reads = record { read = comp r a b; reads = read_comp r a b n m l k; same_value = λ st'. refl };
}

-- The `prevtoken` of a call, and what may stand there.
data Context : ExprType → Level → Type 0 where
  at_root : Context e_none or_level
  in_or : Context e_or or_level
  in_and : Context e_and and_level
  in_not : Context e_not not_level

-- The same text at another level.
at_printed :
    {st : Store} {l k : Level} {ps : List Piece} {e : Expr}
    → ((xs : List Token) (a : Expr) → Reads st l xs a → Reads st k xs a)
    → Printed st l ps e
    → Printed st k ps e
at_printed f p = record {
  text = p.text;
  is_text = p.is_text;
  tokens = p.tokens;
  lexes = p.lexes;
  begins = p.begins;
  reads = at_level (f p.tokens) p.reads;
}

module _ {st : Store} {ps : List Piece} {e : Expr} where
  place_or :
      {t : ExprType} {l : Level}
      → Context t l
      → Printed st or_level ps e
      → Printed st l (in_parens t e_or ps) e
  unfolding in_parens
  place_or at_root p = p
  place_or in_or p = p
  place_or in_and p = at_printed (λ xs a. and_of_not) (print_parens ps e p)
  place_or in_not p = print_parens ps e p

  place_and :
      {t : ExprType} {l : Level}
      → Context t l
      → Printed st and_level ps e
      → Printed st l (in_parens t e_and ps) e
  unfolding in_parens
  place_and at_root p = at_printed (λ xs a. or_of_and) p
  place_and in_or p = at_printed (λ xs a. or_of_and) p
  place_and in_and p = p
  place_and in_not p = print_parens ps e (at_printed (λ xs a. or_of_and) p)

  raise : {t : ExprType} {l : Level} → Context t l → Printed st not_level ps e → Printed st l ps e
  raise at_root p = at_printed (λ xs a d. or_of_and (and_of_not d)) p
  raise in_or p = at_printed (λ xs a d. or_of_and (and_of_not d)) p
  raise in_and p = at_printed (λ xs a. and_of_not) p
  raise in_not p = p

bare :
    {t : ExprType} {l : Level}
    → Context t l
    → (u : ExprType) → (u ≡ e_not) ⊎ ((u ≡ e_symbol) ⊎ ((r : Relation) × (u ≡ relation_type r)))
    → (xs : List Piece) → in_parens t u xs ≡ xs
unfolding in_parens relation_type
bare at_root u h xs = ground arith
bare in_or u h xs = ground arith
bare in_and u h xs = ground arith
bare in_not u h xs = ground arith

print_pieces-Printed :
    (st : Store) (e : Expr)
    → AreReadable st e
    → (t : ExprType) (l : Level) → Context t l
    → Printed st l (print_pieces st t e) e
unfolding print_pieces AreReadable
print_pieces-Printed st (or_expr a b) (h, k) t l c = place_or c (
    print_or _ _ a b (print_pieces-Printed st a h e_or or_level in_or)
      (print_pieces-Printed st b k e_or or_level in_or))
print_pieces-Printed st (and_expr a b) (h, k) t l c = place_and c (
    print_and _ _ a b (print_pieces-Printed st a h e_and and_level in_and)
      (print_pieces-Printed st b k e_and and_level in_and))
print_pieces-Printed st (not_expr a) h t l c =
    rw (bare c e_not (inl refl) (mark "!" ∷ print_pieces st e_not a))
      (raise c (print_not _ a (print_pieces-Printed st a h e_not not_level in_not)))
print_pieces-Printed st (symbol s) h t l c =
    rw (bare c e_symbol (inr (inl refl)) (left_piece st s ∷ [])) (raise c (print_symbol st s h))
print_pieces-Printed st (comp r a b) (h, k) t l c =
    rw
      (bare c (relation_type r) (inr (inr (r, refl)))
        (left_piece st a ∷ relation_mark r ∷ right_piece st b ∷ []))
      (raise c (print_comp st r a b h k))

-- Where each symbol of an expression has a word for its name that is no command, and sym_lookup gives the
-- symbol for this word, expr_fprint writes a text that the lexer cuts into tokens which the grammar
-- reads as an expression of the same value in every store.
pub expr_fprint-ReadsAs :
    (st : Store) (e : Expr)
    → AreReadable st e
    → (text : Bytes) × (tokens : List Token) × (expr_fprint st (some e) [] ≡ some text)
      × Lexes text tokens
      × ReadsAs st or_level tokens e
unfolding expr_fprint expr_print breaks_word
expr_fprint-ReadsAs st e h =
    let p = print_pieces-Printed st e h e_none or_level at_root in
    let d : Lexes (p.text ++ []) (p.tokens ++ []) = p.lexes [] [] refl lex_end in
    let d' : Lexes p.text (p.tokens ++ []) =
      subst (λ x. Lexes x (p.tokens ++ [])) (append-nil p.text) d in
    (p.text, p.tokens, p.is_text.writes [], subst (Lexes p.text) (append-nil p.tokens) d', p.reads)
