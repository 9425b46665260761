-- ===== src/Scan/Words.antt =====
-- The first word of a record (src/ngx_http_coraza_module.c), and what of it can no longer become a
-- refused directive.
use coraza_nginx.Common.{
  ℕ, ◌<◌, ◌≡◌, refl, ap, ◌∙◌, Bool-cases, inl, inr, true, false, ◌==◌, [], ◌∷◌, ◌++◌, append_assoc,
  length, length-append, arith,
}
use coraza_nginx.Pack.{Bytes}
use coraza_nginx.Scan.{is_blank, same_word, unsupported}
use coraza_nginx.Scan.Records.{but_last, first_word, is_unsupported}

abbrev pub NoBlank : Bytes → Type 0
NoBlank [] = Unit {0}
NoBlank (c ∷ cs) = (is_blank c ≡ false) × NoBlank cs

abbrev pub AllBlank : Bytes → Type 0
AllBlank [] = Unit {0}
AllBlank (c ∷ cs) = (is_blank c ≡ true) × AllBlank cs

pub NoBlank-append : (a b : Bytes) → NoBlank a → NoBlank b → NoBlank (a ++ b)
NoBlank-append [] b p q = q
NoBlank-append (c ∷ a) b p q = (p.0, NoBlank-append a b p.1 q)

pub first_word-NoBlank : (w : Bytes) → NoBlank w → first_word w ≡ w
unfolding first_word
first_word-NoBlank [] n = refl
first_word-NoBlank (c ∷ w) n = rw n.0 (ap (λ x. c ∷ x) (first_word-NoBlank w n.1))

pub first_word-append : (w rest : Bytes) → NoBlank w → first_word (w ++ rest) ≡ w ++ first_word rest
unfolding first_word
first_word-append [] rest n = refl
first_word-append (c ∷ w) rest n = rw n.0 (ap (λ x. c ∷ x) (first_word-append w rest n.1))

pub first_word-blank :
    (w : Bytes) (b : ℕ) (rest : Bytes)
    → NoBlank w
    → is_blank b ≡ true
    → first_word (w ++ (b ∷ rest)) ≡ w
unfolding first_word
first_word-blank [] b rest n e = rw e refl
first_word-blank (c ∷ w) b rest n e = rw n.0 (ap (λ x. c ∷ x) (first_word-blank w b rest n.1 e))

-- A beginning that no end makes into the directive.
abbrev pub Dead : Bytes → Type 0
Dead p = (q : Bytes) → same_word (p ++ q) unsupported ≡ false

same_word-length : (a b : Bytes) → same_word a b ≡ true → length a ≡ length b
unfolding same_word
same_word-length [] [] e = refl
same_word-length [] (b ∷ bs) e = cc
same_word-length (a ∷ as') [] e = cc
same_word-length (a ∷ as') (b ∷ bs) e = ground (arith, e, same_word-length as' bs)

pub Dead-long : (p : Bytes) → 14 < length p → Dead p
Dead-long p l q = elim (Bool-cases (same_word (p ++ q) unsupported)) [
  | inr no_match ↦ no_match
  | inl match ↦
      absurd (omega (arith, l, length-append p q, same_word-length (p ++ q) unsupported match))
]

-- A backtick stands in no directive.
abbrev Plain : Bytes → Type 0
Plain [] = Unit {0}
Plain (c ∷ cs) = ((96 == c) ≡ false) × Plain cs

same_word-backtick : (p q us : Bytes) → Plain us → same_word (p ++ (96 ∷ q)) us ≡ false
unfolding same_word
same_word-backtick [] q [] n = refl
same_word-backtick (c ∷ p) q [] n = refl
same_word-backtick [] q (u ∷ us) n = rw n.0 refl
same_word-backtick (c ∷ p) q (u ∷ us) n = ground (arith, same_word-backtick p q us n.1)

unsupported-Plain : Plain unsupported
unsupported-Plain = ground arith

pub Dead-backtick : (p : Bytes) → Dead (p ++ (96 ∷ []))
Dead-backtick p q =
    ap (λ x. same_word x unsupported) (append_assoc p (96 ∷ []) q)
    ∙ same_word-backtick p q unsupported unsupported-Plain

-- A record whose first word begins with a dead beginning, with some bytes behind that.
pub record Lost (text : Bytes) : Type 0 where
  pub dead : Bytes
  pub rest : Bytes
  pub parts : text ≡ dead ++ rest
  pub whole : NoBlank dead
  pub never : Dead dead

pub Lost-unsupported : (text : Bytes) → Lost text → is_unsupported text ≡ false
unfolding is_unsupported
Lost-unsupported text l =
    ap (λ x. same_word x unsupported)
      (ap first_word l.parts ∙ first_word-append l.dead l.rest l.whole)
    ∙ l.never (first_word l.rest)

pub Lost-append : (text more : Bytes) → Lost text → Lost (text ++ more)
Lost-append text more l = record {
  dead = l.dead;
  rest = l.rest ++ more;
  parts = ap (λ x. x ++ more) l.parts ∙ append_assoc l.dead l.rest more;
  whole = l.whole;
  never = l.never;
}

-- The same with a byte at least behind the dead beginning, so that the last byte can be dropped.
pub record LostBefore (text : Bytes) : Type 0 where
  pub lost : Lost text
  pub behind : 0 < length lost.rest

pub LostBefore-add : (text : Bytes) (c : ℕ) → Lost text → LostBefore (text ++ (c ∷ []))
LostBefore-add text c l =
    let longer : Lost (text ++ (c ∷ [])) = record {
      dead = l.dead;
      rest = l.rest ++ (c ∷ []);
      parts = ap (λ x. x ++ (c ∷ [])) l.parts ∙ append_assoc l.dead l.rest (c ∷ []);
      whole = l.whole;
      never = l.never;
    } in
    record { lost = longer; behind = omega (arith, length-append l.rest (c ∷ [])) }

pub but_last-append :
    (p : Bytes) (c : ℕ) (cs : Bytes) → but_last (p ++ (c ∷ cs)) ≡ p ++ but_last (c ∷ cs)
unfolding but_last
but_last-append [] c cs = refl
but_last-append (d ∷ []) c cs = refl
but_last-append (d ∷ (e ∷ es)) c cs = ap (λ x. d ∷ x) (but_last-append (e ∷ es) c cs)

but_last-behind : (p q : Bytes) → 0 < length q → but_last (p ++ q) ≡ p ++ but_last q
but_last-behind p [] l = absurd (omega arith)
but_last-behind p (c ∷ cs) l = but_last-append p c cs

pub LostBefore-but_last : (text : Bytes) → LostBefore text → Lost (but_last text)
LostBefore-but_last text b = record {
  dead = b.lost.dead;
  rest = but_last b.lost.rest;
  parts = ap but_last b.lost.parts ∙ but_last-behind b.lost.dead b.lost.rest b.behind;
  whole = b.lost.whole;
  never = b.lost.never;
}

pub NoBlank-but_last : (w : Bytes) → NoBlank w → NoBlank (but_last w)
unfolding but_last
NoBlank-but_last [] n = tt
NoBlank-but_last (c ∷ []) n = tt
NoBlank-but_last (c ∷ (d ∷ ds)) n = (n.0, NoBlank-but_last (d ∷ ds) n.1)
