-- ===== src/Config/Line/Laws.antt =====
-- scripts/kconfig/confdata.c: `parse_line` takes apart the lines that the printer writes.
use kdevops.Prelude.{
  ℕ, Bool, true, false, not, ◌≡◌, refl, ap, ◌&&◌, none, some, [], ◌∷◌, ◌++◌, ◌==◌, arith, Bytes,
  codes,
}
use kdevops.Config.Line.{
  assign, unset, ignored, unset_line, strip_prefix, split_at, drop_return, line_value, comment_line,
  parse_line,
}

-- No byte of a text is `b`.
abbrev pub lacks : ℕ → Bytes → Bool
lacks b [] = true
lacks b (c ∷ cs) = not (c == b) && lacks b cs

pub lacks-append :
    (b : ℕ) (s t : Bytes) → lacks b s ≡ true → lacks b t ≡ true → lacks b (s ++ t) ≡ true
lacks-append b [] t h k = k
lacks-append b (c ∷ s) t h k = ground (arith, lacks-append b s t)

strip_prefix-append : (p s : Bytes) → strip_prefix p (p ++ s) ≡ some s
unfolding strip_prefix
strip_prefix-append [] s = refl
strip_prefix-append (c ∷ p) s = ground (arith, strip_prefix-append p s)

split_at-append : (b : ℕ) (s t : Bytes) → lacks b s ≡ true → split_at b (s ++ b ∷ t) ≡ some (s, t)
unfolding split_at
split_at-append b [] t h = ground arith
split_at-append b (c ∷ s) t h = ground (arith, split_at-append b s t)

pub drop_return-lacks : (s : Bytes) → lacks b'\r' s ≡ true → drop_return s ≡ s
unfolding drop_return
drop_return-lacks [] h = refl
drop_return-lacks (c ∷ []) h = ground (arith, h)
drop_return-lacks (c ∷ d ∷ s) h = ground (arith, drop_return-lacks (d ∷ s))

-- A carriage return that is not at the end stays.
pub drop_return-last :
    (s : Bytes) (c : ℕ) → (c == b'\r') ≡ false → drop_return (s ++ c ∷ []) ≡ s ++ c ∷ []
unfolding drop_return
drop_return-last [] c h = ground (arith, h)
drop_return-last (d ∷ []) c h = ground (arith, h)
drop_return-last (d ∷ e ∷ s) c h = ap (λ r. d ∷ r) (drop_return-last (e ∷ s) c h)

line_value-newline :
    (v : Bytes) → lacks b'\n' v ≡ true → drop_return v ≡ v → line_value (v ++ b'\n' ∷ []) ≡ v
unfolding line_value
line_value-newline v h k = rw (line_value, split_at-append b'\n' v [] h) k

pub parse_line-assign :
    (name v : Bytes)
    → lacks b'=' name ≡ true
    → lacks b'\n' v ≡ true
    → drop_return v ≡ v
    → parse_line (codes "CONFIG_" ++ (name ++ (b'=' ∷ (v ++ b'\n' ∷ [])))) ≡ assign name v
unfolding parse_line strip_prefix
parse_line-assign name v h k e =
    rw (split_at-append b'=' name (v ++ b'\n' ∷ []) h) (ap (assign name) (line_value-newline v k e))

pub parse_line-unset :
    (name : Bytes)
    → lacks b' ' name ≡ true
    → parse_line (codes "# CONFIG_" ++ (name ++ codes " is not set\n")) ≡ unset name
unfolding parse_line strip_prefix comment_line unset_line
parse_line-unset name h =
    ap (λ o. elim o [ none ↦ ignored | some (n, p) ↦ unset_line n p ])
      (split_at-append b' ' name (codes "is not set\n") h)
