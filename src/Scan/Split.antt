-- ===== src/Scan/Split.antt =====
-- A rules text and its lines (see src/ngx_http_coraza_module.c on records).
use coraza_nginx.Common.{
  ℕ, ◌≡◌, refl, sym, ap, subst, ◌∙◌, Bool-cases, inl, inr, false, ◌==◌, List, [], ◌∷◌, ◌++◌, arith,
}
use coraza_nginx.Pack.{Bytes}
use coraza_nginx.Scan.Records.{lines}
use coraza_nginx.Scan.Lines.{NoNewline}
use coraza_nginx.Scan.Records.{on_first}

-- The text of the lines.
abbrev pub unlines : List Bytes → Bytes
unlines [] = []
unlines (l ∷ []) = l
unlines (l ∷ (l' ∷ ls)) = l ++ (10 ∷ unlines (l' ∷ ls))

unlines-on_first : (c : ℕ) (ls : List Bytes) → unlines (on_first c ls) ≡ c ∷ unlines ls
unlines-on_first c [] = refl
unlines-on_first c (l ∷ []) = refl
unlines-on_first c (l ∷ (l' ∷ ls)) = refl

abbrev pub AllOneLine : List Bytes → Type 0
AllOneLine [] = Unit {0}
AllOneLine (l ∷ ls) = NoNewline l × AllOneLine ls

on_first-AllOneLine :
    (c : ℕ) (ls : List Bytes) → (c == 10) ≡ false → AllOneLine ls → AllOneLine (on_first c ls)
on_first-AllOneLine c [] e a = ((e, tt), tt)
on_first-AllOneLine c (l ∷ ls) e a = ((e, a.0), a.1)

-- The lines are those of the text, one at least.
pub record Split (text : Bytes) (ls : List Bytes) : Type 0 where
  pub head : Bytes
  pub rest : List Bytes
  pub some_line : ls ≡ head ∷ rest
  pub whole : unlines ls ≡ text
  pub one_each : AllOneLine ls

on_first-Split :
    (c : ℕ) (cs : Bytes) (ls : List Bytes)
    → (c == 10) ≡ false
    → Split cs ls
    → Split (c ∷ cs) (on_first c ls)
on_first-Split c cs ls e p = record {
  head = c ∷ p.head;
  rest = p.rest;
  some_line = ap (on_first c) p.some_line;
  whole = unlines-on_first c ls ∙ ap (λ x. c ∷ x) p.whole;
  one_each = on_first-AllOneLine c ls e p.one_each;
}

newline-Split : (cs : Bytes) (ls : List Bytes) → Split cs ls → Split (10 ∷ cs) ([] ∷ ls)
newline-Split cs ls p = record {
  head = [];
  rest = ls;
  some_line = refl;
  whole =
      ap (λ x. unlines ([] ∷ x)) p.some_line
      ∙ ap (λ x. 10 ∷ x) (ap unlines (sym p.some_line) ∙ p.whole);
  one_each = (tt, p.one_each);
}

pub lines-Split : (text : Bytes) → Split text (lines text)
unfolding lines
lines-Split [] = record {
  head = [];
  rest = [];
  some_line = refl;
  whole = refl;
  one_each = (tt, tt);
}
lines-Split (c ∷ cs) = elim (Bool-cases (c == 10)) [
  | inl nl ↦
      let at : c ≡ 10 = ground (arith, nl) in
      rw nl (
        subst (λ x. Split (x ∷ cs) ([] ∷ lines cs)) (sym at)
          (newline-Split cs (lines cs) (lines-Split cs)))
  | inr other ↦ rw other (on_first-Split c cs (lines cs) other (lines-Split cs))
]
