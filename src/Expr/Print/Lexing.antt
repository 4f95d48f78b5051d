-- ===== src/Expr/Print/Lexing.antt =====
-- scripts/kconfig/expr.c, lexer.l: the text of the pieces of `expr_print`, and the tokens in it.
use mathlib.Core.List.{append_assoc, append-nil}
use mathlib.Core.Path.{subst}
use kdevops.Prelude.{
  true, ◌≡◌, refl, sym, ap, ◌∙◌, some, List, [], ◌∷◌, ◌++◌, Bytes, codes, Option-cases, inl, inr,
}
use kdevops.Expr.{Expr, and_expr, or_expr, not_expr}
use kdevops.Expr.Outcome.{◌>>=◌}
use kdevops.Expr.Print.{Piece, mark}
use kdevops.Expr.Print.Grammar.{
  Token, t_or, t_and, t_not, t_open_paren, t_close_paren, is_word_char, breaks_word, lacks_equal,
  Lexes, lex_space, lex_or, lex_and, lex_not, lex_open, lex_close, Level, or_level, and_level,
  not_level, read_not,
}
use kdevops.Expr.Print.Levels.{ReadsAs, combine_or, combine_and, parens_of_or}
use kdevops.Expr.Print.Output.{each_piece, expr_print_file_helper}
use kdevops.Symbol.{Store}
use kdevops.Expr.Value.{value}
use kdevops.Tristate.{expr_not}

-- Pieces that are written us `text`.
pub record IsText (ps : List Piece) (text : Bytes) : Type 0 where
  pub writes : (out : Bytes) → each_piece expr_print_file_helper out ps ≡ some (out ++ text)

pub IsText-nil : IsText [] []
unfolding each_piece
IsText-nil = record { writes = λ out. ap some (sym (append-nil out)) }

pub IsText-cons :
    (p : Piece) (t : Bytes) (ps : List Piece) (text : Bytes)
    → p.str ≡ some t
    → IsText ps text
    → IsText (p ∷ ps) (t ++ text)
unfolding each_piece expr_print_file_helper
IsText-cons p t ps text e h = record {
  writes = λ out. rw e (h.writes (out ++ t) ∙ ap some (append_assoc out t text));
}

each_piece-++ :
    (ps qs : List Piece) (out : Bytes)
    → each_piece expr_print_file_helper out (ps ++ qs) ≡ (
        each_piece expr_print_file_helper out ps >>= λ out.
        each_piece expr_print_file_helper out qs)
unfolding each_piece expr_print_file_helper
each_piece-++ [] qs out = refl
each_piece-++ (p ∷ ps) qs out = elim (Option-cases p.str) [
  | inl e ↦ rw e refl
  | inr (t, e) ↦ rw e (each_piece-++ ps qs (out ++ t))
]

pub IsText-++ :
    (ps qs : List Piece) (t u : Bytes) → IsText ps t → IsText qs u → IsText (ps ++ qs) (t ++ u)
IsText-++ ps qs t u h k = record {
  writes = λ out.
      each_piece-++ ps qs out
      ∙ ap (λ o. o >>= λ out. each_piece expr_print_file_helper out qs) (h.writes out)
      ∙ k.writes (out ++ t)
      ∙ ap some (append_assoc out t u);
}

-- The pieces of `e`: their text, the tokens of the text in front of any other text that begins a new
-- token, that the text does not begin with `=`, and what the tokens read us.
pub record Printed (st : Store) (l : Level) (ps : List Piece) (e : Expr) : Type 0 where
  pub text : Bytes
  pub is_text : IsText ps text
  pub tokens : List Token
  pub lexes :
      (rest : Bytes) (ts : List Token)
      → breaks_word rest ≡ true
      → Lexes rest ts
      → Lexes (text ++ rest) (tokens ++ ts)
  pub begins : (rest : Bytes) → lacks_equal (text ++ rest) ≡ true
  pub reads : ReadsAs st l tokens e

-- Pieces of which the text is `text` and lexes us `tokens`.
record IsLexed (text : Bytes) (tokens : List Token) : Type 0 where
  lexes :
      (rest : Bytes) (ts : List Token)
      → breaks_word rest ≡ true
      → Lexes rest ts
      → Lexes (text ++ rest) (tokens ++ ts)

-- A piece with a token of its own between two texts.
between :
    (t : Token) (a m b : Bytes) (us vs : List Token)
    → IsLexed a us
    → ((rest : Bytes) → breaks_word (m ++ rest) ≡ true)
    → ((rest : Bytes) (ts : List Token)
        → breaks_word rest ≡ true
        → Lexes rest ts
        → Lexes (m ++ (b ++ rest)) (t ∷ (vs ++ ts)))
    → IsLexed (a ++ (m ++ b)) (us ++ t ∷ vs)
between t a m b us vs h k f = record {
  lexes = λ rest ts w l.
      let d = h.lexes (m ++ (b ++ rest)) (t ∷ (vs ++ ts)) (k (b ++ rest)) (f rest ts w l) in
      subst (λ x. Lexes x ((us ++ t ∷ vs) ++ ts))
        (sym (append_assoc a (m ++ b) rest ∙ ap (λ x. a ++ x) (append_assoc m b rest)))
        (subst (Lexes (a ++ (m ++ (b ++ rest)))) (sym (append_assoc us (t ∷ vs) ts)) d);
}

begins_with :
    (a b rest : Bytes)
    → ((rest : Bytes) → lacks_equal (a ++ rest) ≡ true)
    → lacks_equal ((a ++ b) ++ rest) ≡ true
begins_with a b rest h = rw (append_assoc a b rest) (h (b ++ rest))

module _ {st : Store} where
  of_printed :
      {l : Level} {ps : List Piece} {e : Expr} (p : Printed st l ps e) → IsLexed p.text p.tokens
  of_printed p = record { lexes = p.lexes }

  pub print_or :
      (xs ys : List Piece) (l r : Expr)
      → Printed st or_level xs l
      → Printed st or_level ys r
      → Printed st or_level (xs ++ mark " || " ∷ ys) (or_expr l r)
  unfolding breaks_word is_word_char
  print_or xs ys l r p q = record {
    text = p.text ++ (codes " || " ++ q.text);
    is_text =
        IsText-++ xs _ _ _ p.is_text (IsText-cons (mark " || ") (codes " || ") ys _ refl q.is_text);
    tokens = p.tokens ++ t_or ∷ q.tokens;
    lexes =
        (between t_or p.text (codes " || ") q.text p.tokens q.tokens (of_printed p) (λ rest. refl)
          (λ rest ts b h. lex_space (lex_or (lex_space (q.lexes rest ts b h))))).lexes;
    begins = λ rest. begins_with p.text _ rest p.begins;
    reads = combine_or l r p.reads q.reads;
  }

  pub print_and :
      (xs ys : List Piece) (l r : Expr)
      → Printed st and_level xs l
      → Printed st and_level ys r
      → Printed st and_level (xs ++ mark " && " ∷ ys) (and_expr l r)
  unfolding breaks_word is_word_char
  print_and xs ys l r p q = record {
    text = p.text ++ (codes " && " ++ q.text);
    is_text =
        IsText-++ xs _ _ _ p.is_text (IsText-cons (mark " && ") (codes " && ") ys _ refl q.is_text);
    tokens = p.tokens ++ t_and ∷ q.tokens;
    lexes =
        (between t_and p.text (codes " && ") q.text p.tokens q.tokens (of_printed p) (λ rest. refl)
          (λ rest ts b h. lex_space (lex_and (lex_space (q.lexes rest ts b h))))).lexes;
    begins = λ rest. begins_with p.text _ rest p.begins;
    reads = combine_and l r p.reads q.reads;
  }

  pub print_parens :
      (xs : List Piece) (e : Expr)
      → Printed st or_level xs e
      → Printed st not_level (mark "(" ∷ (xs ++ mark ")" ∷ [])) e
  unfolding breaks_word is_word_char lacks_equal
  print_parens xs e p = record {
    text = codes "(" ++ (p.text ++ (codes ")" ++ []));
    is_text =
        IsText-cons (mark "(") (codes "(") _ _ refl
          (IsText-++ xs _ _ _ p.is_text (IsText-cons (mark ")") (codes ")") [] _ refl IsText-nil));
    tokens = t_open_paren ∷ (p.tokens ++ t_close_paren ∷ []);
    lexes = λ rest ts b h. lex_open (
        (between t_close_paren p.text (codes ")") [] p.tokens [] (of_printed p) (λ rest. refl)
            (λ rest ts b h. lex_close h)).lexes
          rest ts b h);
    begins = λ rest. refl;
    reads = parens_of_or p.reads;
  }

  pub print_not :
      (xs : List Piece) (e : Expr)
      → Printed st not_level xs e
      → Printed st not_level (mark "!" ∷ xs) (not_expr e)
  unfolding lacks_equal value
  print_not xs e p = record {
    text = codes "!" ++ p.text;
    is_text = IsText-cons (mark "!") (codes "!") xs _ refl p.is_text;
    tokens = t_not ∷ p.tokens;
    lexes = λ rest ts b h. lex_not (p.begins rest) (p.lexes rest ts b h);
    begins = λ rest. refl;
    reads = record {
      read = not_expr p.reads.read;
      reads = read_not p.reads.reads;
      same_value = λ st'. ap expr_not (p.reads.same_value st');
    };
  }
