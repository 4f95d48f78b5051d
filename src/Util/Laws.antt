-- ===== src/Util/Laws.antt =====
-- scripts/kconfig/util.c: what growable strings hold, and that a file is made once.
use kdevops.Prelude.{
  sym, Option-cases, inl, inr, ℕ, suc, ◌+◌, ◌≤◌, ◌<◌, ◌%◌, ◌^◌, ◌≡◌, refl, ◌∙◌, ap, Option, none,
  some, List, [], ◌∷◌, ◌++◌, length, Bytes, arith,
}
use kdevops.Macro.Variables.Laws.{bytes_eq_self}
use kdevops.Util.{new_file, Gstr, str_new, grow, str_append, File, find_file, file_lookup}

-- A string holds a text, and its buffer has room for it and its terminating zero.
pub record Holds (gs : Gstr) (t : Bytes) : Type 0 where
  pub holds : gs.s ≡ some t
  pub room : length t < gs.len

-- Texts that are appended one after the other.
unfoldable pub append_all : Gstr → List Bytes → Option Gstr
unfolding str_append
append_all gs [] = some gs
append_all gs (t ∷ ts) = elim (str_append gs (some t)) [
  | none ↦ none
  | some gs' ↦ append_all gs' ts
]

unfoldable pub joined : Bytes → List Bytes → Bytes
joined s [] = s
joined s (t ∷ ts) = joined (s ++ t) ts

unfoldable pub Result : Option Gstr → Bytes → Type 0
Result none t = ⊥
Result (some gs) t = Holds gs t

length-append : (s t : Bytes) → length (s ++ t) ≡ length s + length t
length-append [] t = omega arith
length-append (c ∷ s) t = omega (arith, length-append s t)

room_lem : (n len : ℕ) → n < 2 ^ 64 → n ≤ grow len (n % 2 ^ 64)
room_lem n len h = ground (arith, h)

str_append-Holds :
    (gs : Gstr) (s t : Bytes)
    → Holds gs s
    → suc (length (s ++ t)) < 2 ^ 64
    → Result (str_append gs (some t)) (s ++ t)
unfolding str_append Result
str_append-Holds gs s t h l = rw h.holds (record {
  holds = refl;
  room = omega (
    arith,
    length-append s t,
    room_lem (length s + length t + 1) gs.len (omega (arith, length-append s t, l)),
  );
})

length-joined : (s : Bytes) (ts : List Bytes) → length s ≤ length (joined s ts)
unfolding joined
length-joined s [] = omega arith
length-joined s (t ∷ ts) = omega (arith, length-joined (s ++ t) ts, length-append s t)

-- A result that holds a text, and what is appended to it.
next-Result :
    (o : Option Gstr) (s t : Bytes) (ts : List Bytes)
    → Result o s
    → ((gs : Gstr) → Holds gs s → Result (append_all gs ts) t)
    → Result (elim o as (λ o. Option Gstr) [ none ↦ none | some gs ↦ append_all gs ts ]) t
unfolding Result
next-Result none s t ts h k = absurd h
next-Result (some gs) s t ts h k = k gs h

append_all-Holds :
    (gs : Gstr) (s : Bytes) (ts : List Bytes)
    → Holds gs s
    → suc (length (joined s ts)) < 2 ^ 64
    → Result (append_all gs ts) (joined s ts)
unfolding append_all joined Result
append_all-Holds gs s [] h l = h
append_all-Holds gs s (t ∷ ts) h l =
    next-Result (str_append gs (some t)) (s ++ t) (joined (s ++ t) ts) ts
      (str_append-Holds gs s t h (omega (arith, length-joined (s ++ t) ts, l)))
      (λ gs' h'. append_all-Holds gs' (s ++ t) ts h' l)

-- Texts that are appended to a new string, each by str_append, leave it with all of them in order and
-- with a buffer that has room for them and the terminating zero, as long as their length fits a size_t.
pub str_append-all :
    (ts : List Bytes)
    → suc (length (joined [] ts)) < 2 ^ 64
    → Result (append_all str_new ts) (joined [] ts)
unfolding str_new
str_append-all ts l = append_all-Holds str_new [] ts (record { holds = refl; room = omega arith }) l

lookup_lem :
    (name : Bytes) (fs : List File) (o : Option ℕ)
    → find_file name fs ≡ o
    → file_lookup name fs
      ≡ elim o as (λ o. ℕ × List File) [ some f ↦ (f, fs) | none ↦ (length fs, new_file name ∷ fs) ]
unfolding file_lookup
lookup_lem name fs o e =
    ap
      (λ o. elim o as (λ o. ℕ × List File) [
        | some f ↦ (f, fs)
        | none ↦ (length fs, new_file name ∷ fs)
      ])
      e

find-new_file :
    (name : Bytes) (fs : List File) → find_file name (new_file name ∷ fs) ≡ some (length fs)
unfolding find_file
find-new_file name fs = rw (bytes_eq_self name) refl

-- Looking a name up again gives the same file and makes no other.
file_lookup-twice :
    (name : Bytes) (fs : List File) → file_lookup name (file_lookup name fs).1 ≡ file_lookup name fs
file_lookup-twice name fs = elim (Option-cases (find_file name fs)) [
  | inl e ↦
      let made = lookup_lem name fs none e in
      ap (λ r. file_lookup name r.1) made
      ∙ lookup_lem name (new_file name ∷ fs) (some (length fs)) (find-new_file name fs)
      ∙ sym made
  | inr (f, e) ↦ ap (λ r. file_lookup name r.1) (lookup_lem name fs (some f) e)
]
