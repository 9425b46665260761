-- ===== src/Scan/Agrees.antt =====
-- The scan of a rules text (src/ngx_http_coraza_module.c) against its records.
use coraza_nginx.Common.{
  ℕ, ◌≡◌, refl, sym, ap, subst, ◌∙◌, Bool, Bool-cases, inl, inr, true, false, ◌==◌, [], ◌∷◌, ◌++◌,
  arith, ◌||◌,
}
use coraza_nginx.Pack.{Bytes}
use coraza_nginx.Scan.{Scan, is_blank, backticks, rules_scan, rules_scan_eol, scan_word}
use coraza_nginx.Scan.Records.{Record, opens, ends, take_trimmed, trim_right, keep}
use coraza_nginx.Scan.Words.{Lost, LostBefore}
use coraza_nginx.Scan.Held.{Holds, growing}
use coraza_nginx.Scan.Lines.{NoNewline}
use coraza_nginx.Scan.Turn.{Raw, line-Raw, line-Comment}
use coraza_nginx.Scan.Ends.{Agrees, shut-opens, Holds-opens, Holds-drop, Holds-verdict}

-- A line's end on both sides: the same verdict, and where there is none they agree again.
pub record Turned (p : Scan × Bool) (q : Record × Bool) : Type 0 where
  pub same : p.1 ≡ q.1
  pub next : p.1 ≡ false → Agrees p.0 q.0

eol-opens :
    (s t : Scan) (r : Record) (c : ℕ) (ys : Bytes) (mid : Bool)
    → Agrees s r
    → (t.first == 0 || t.first == 35) ≡ false
    → backticks t ≡ true
    → opens r.opened (c ∷ ys) ≡ true
    → Holds LostBefore t.word mid (r.text ++ (c ∷ ys))
    → (mid ≡ true → t.word_done ≡ true)
    → (c == 35) ≡ false
    → Turned (rules_scan_eol t) (take_trimmed r (c ∷ ys))
unfolding rules_scan_eol take_trimmed
eol-opens s t r c ys mid a f b o h later nc =
    let shut = shut-opens r c ys a.shut o in
    rw (f, b, nc, o)
      (record {
        same = refl;
        next = λ e. record {
          at_start = refl;
          ticks = refl;
          holds = Holds-opens t.word mid t.word_done (r.text ++ (c ∷ ys)) h later shut;
          shut = λ e. shut;
        };
      })

eol-continues :
    (s t : Scan) (r : Record) (c : ℕ) (ys : Bytes)
    → (t.first == 0 || t.first == 35) ≡ false
    → backticks t ≡ false
    → opens r.opened (c ∷ ys) ≡ false
    → Holds LostBefore t.word t.word_done (r.text ++ (c ∷ ys))
    → (t.last == 92) ≡ true
    → ends (c ∷ ys) ≡ 92
    → (c == 35) ≡ false
    → Turned (rules_scan_eol t) (take_trimmed r (c ∷ ys))
unfolding rules_scan_eol take_trimmed
eol-continues s t r c ys f b o h l e nc =
    let e' : (ends (c ∷ ys) == 92) ≡ true = ap (λ x. x == 92) e in
    rw (f, b, l, nc, o, e')
      (record {
        same = refl;
        next = λ n. record {
          at_start = refl;
          ticks = refl;
          holds = Holds-drop t.word t.word_done r.text c ys h e;
          shut = λ n. absurd (cc n);
        };
      })

eol-ends :
    (s t : Scan) (r : Record) (c : ℕ) (ys : Bytes) (mid : Bool)
    → (t.first == 0 || t.first == 35) ≡ false
    → backticks t ≡ false
    → opens r.opened (c ∷ ys) ≡ false
    → Holds LostBefore t.word mid (r.text ++ (c ∷ ys))
    → (t.last == 92) ≡ false
    → (ends (c ∷ ys) == 92) ≡ false
    → (c == 35) ≡ false
    → Turned (rules_scan_eol t) (take_trimmed r (c ∷ ys))
unfolding rules_scan_eol take_trimmed scan_word
eol-ends s t r c ys mid f b o h l e nc =
    rw (f, b, l, nc, o, e)
      (record {
        same = Holds-verdict LostBefore t.word mid (r.text ++ (c ∷ ys)) (λ x. x.lost) h;
        next = λ n. record {
          at_start = refl;
          ticks = refl;
          holds = growing refl refl tt (omega arith);
          shut = λ n. absurd (cc n);
        };
      })

eol-Raw :
    (s : Scan) (rec : Record) (c : ℕ) (cs : Bytes) (p : Scan × Bool)
    → Agrees s rec
    → Raw s c cs p rec.text
    → (c == 0) ≡ false
    → (c == 35) ≡ false
    → (ends (c ∷ trim_right cs) ≡ 92 → trim_right cs ≡ cs)
    → Turned (rules_scan_eol p.0) (take_trimmed rec (c ∷ trim_right cs))
eol-Raw s rec c cs p a raw z nc tidy =
    let t = p.0 in
    let l = c ∷ trim_right cs in
    let f : (t.first == 0 || t.first == 35) ≡ false = rw raw.new_first (rw z nc) in
    let b : backticks t ≡ opens rec.opened l =
      rw (raw.same_ticks, a.ticks, raw.new_last, raw.new_first) refl in
    elim (Bool-cases (opens rec.opened l)) [
      | inl o ↦ eol-opens s t rec c (trim_right cs) raw.mid a f (b ∙ o) o raw.holds raw.later nc
      | inr o ↦ elim (Bool-cases (ends l == 92)) [
        | inl e ↦
            let e' : ends l ≡ 92 = ground (arith, e) in
            let done = raw.tight (tidy e') in
            let held =
              subst (λ d. Holds LostBefore t.word d (rec.text ++ l)) (sym done) raw.holds in
            eol-continues s t rec c (trim_right cs) f (b ∙ o) o held
              (ap (λ x. x == 92) raw.new_last ∙ e) e' nc
        | inr e ↦
            eol-ends s t rec c (trim_right cs) raw.mid f (b ∙ o) o raw.holds
              (ap (λ x. x == 92) raw.new_last ∙ e) e nc
      ]
    ]

-- A line that is ignored.
pub eol-ignored :
    (s t : Scan) (r : Record)
    → Agrees s r
    → (t.first == 0 || t.first == 35) ≡ true
    → t.in_backticks ≡ s.in_backticks
    → t.word ≡ s.word
    → t.word_done ≡ s.word_done
    → Turned (rules_scan_eol t) (r, false)
unfolding rules_scan_eol
eol-ignored s t r a f ticks word done = rw f (record {
  same = refl;
  next = λ e. record {
    at_start = refl;
    ticks = ticks ∙ a.ticks;
    holds =
        subst (λ w. Holds Lost w t.word_done r.text) (sym word)
          (subst (λ d. Holds Lost s.word d r.text) (sym done) a.holds);
    shut = a.shut;
  };
})

keep-byte : (c : ℕ) (ys : Bytes) → is_blank c ≡ false → keep c ys ≡ c ∷ ys
keep-byte c [] b = rw b refl
keep-byte c (y ∷ ys) b = refl

pub trim_right-byte :
    (c : ℕ) (cs : Bytes) → is_blank c ≡ false → trim_right (c ∷ cs) ≡ c ∷ trim_right cs
unfolding trim_right
trim_right-byte c cs b = keep-byte c (trim_right cs) b

take_trimmed-comment : (r : Record) (ys : Bytes) → take_trimmed r (35 ∷ ys) ≡ (r, false)
unfolding take_trimmed
take_trimmed-comment r ys = refl

-- The line from its first byte that is not blank on.
pub body-LineTurned :
    (c : ℕ) (cs : Bytes) (s : Scan) (r : Record)
    → Agrees s r
    → is_blank c ≡ false
    → NoNewline (c ∷ cs)
    → (c == 0) ≡ false
    → (ends (c ∷ trim_right cs) ≡ 92 → trim_right cs ≡ cs)
    → ((rules_scan (c ∷ cs) s).1 ≡ false)
      × Turned (rules_scan_eol (rules_scan (c ∷ cs) s).0) (take_trimmed r (trim_right (c ∷ cs)))
body-LineTurned c cs s r a b nl z tidy = elim (Bool-cases (c == 35)) [
  | inr nc ↦
      let raw = line-Raw c cs s r.text a.at_start b z nc nl a.holds in
      (
        raw.fine,
        subst (λ x. Turned (rules_scan_eol (rules_scan (c ∷ cs) s).0) (take_trimmed r x))
            (sym (trim_right-byte c cs b))
            (eol-Raw s r c cs (rules_scan (c ∷ cs) s) a raw z nc tidy),
      )
  | inl hash ↦
      let at : c ≡ 35 = ground (arith, hash) in
      let remark = line-Comment cs s a.at_start nl.1 in
      let run : rules_scan (35 ∷ cs) s ≡ rules_scan (c ∷ cs) s =
        ap (λ x. rules_scan (x ∷ cs) s) (sym at) in
      let t = (rules_scan (35 ∷ cs) s).0 in
      let f : (t.first == 0 || t.first == 35) ≡ true = rw remark.new_first refl in
      let turned = eol-ignored s t r a f remark.same_ticks remark.same_word remark.same_done in
      let left : take_trimmed r (trim_right (c ∷ cs)) ≡ (r, false) =
        ap (take_trimmed r) (trim_right-byte c cs b ∙ ap (λ x. x ∷ trim_right cs) at)
        ∙ take_trimmed-comment r (trim_right cs) in
      (
        ap (λ x. x.1) (sym run) ∙ remark.fine,
        subst (λ x. Turned (rules_scan_eol x.0) (take_trimmed r (trim_right (c ∷ cs)))) run
            (subst (Turned (rules_scan_eol t)) (sym left) turned),
      )
]
