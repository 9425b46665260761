-- ===== src/Scan/Turn.antt =====
-- One line of a rules text (src/ngx_http_coraza_module.c): the scan against the record.
use coraza_nginx.Common.{
  ℕ, ◌≡◌, refl, sym, ap, subst, ◌∙◌, Bool, Bool-cases, inl, inr, true, false, ◌==◌, [], ◌∷◌, ◌++◌,
  append_assoc, length, length_zero, length-append, arith,
}
use coraza_nginx.Pack.{Bytes}
use coraza_nginx.Scan.{Scan, is_blank, begin_line, collect, scan_byte, rules_scan}
use coraza_nginx.Scan.Chunks.{rules_scan-append}
use coraza_nginx.Scan.Records.{trim_left, trim_right, ends}
use coraza_nginx.Scan.Words.{Lost, LostBefore}
use coraza_nginx.Scan.Trimmed.{last_of, trim_right-Trimmed, last_of-trim_right}
use coraza_nginx.Scan.Held.{Holds, collect-Holds, collect-still}
use coraza_nginx.Scan.Lines.{NoNewline, walk, skip, trail}

-- The first byte of a line that is not blank.
record Begun (s : Scan) (c : ℕ) (r : Scan × Bool) (text : Bytes) : Type 0 where
  fine : r.1 ≡ false
  new_first : r.0.first ≡ c
  new_last : r.0.last ≡ c
  same_ticks : r.0.in_backticks ≡ s.in_backticks
  holds : Holds LostBefore r.0.word r.0.word_done (text ++ (c ∷ []))

begin_still :
    (c : ℕ) (s : Scan)
    → s.first ≡ 0
    → ((begin_line c s).first ≡ c)
      × ((begin_line c s).in_backticks ≡ s.in_backticks)
      × ((begin_line c s).word ≡ s.word)
      × ((begin_line c s).word_done ≡ s.word_done)
unfolding begin_line
begin_still c s z = ground (arith, z)

begin_byte :
    (c : ℕ) (s : Scan) (text : Bytes)
    → s.first ≡ 0
    → (c == 10) ≡ false
    → is_blank c ≡ false
    → (c == 35) ≡ false
    → Holds Lost s.word s.word_done text
    → Begun s c (scan_byte c s) text
unfolding scan_byte
begin_byte c s text z nl b nc h =
    let still = begin_still c s z in
    let t : Scan = record (begin_line c s) { last = c } in
    let kept = collect-still c t in
    let h₁ = subst (λ w. Holds Lost w s.word_done text) (sym still.2) h in
    let h₂ = subst (λ d. Holds Lost t.word d text) (sym still.3) h₁ in
    let held = collect-Holds c t text b (ap (λ f. f == 35) still.0 ∙ nc) h₂ in
    rw (nl, b)
      (record {
        fine = refl;
        new_first = kept.0 ∙ still.0;
        new_last = kept.1;
        same_ticks = kept.2 ∙ still.1;
        holds = held;
      })

-- Blanks before a line do nothing.
lead_byte :
    (c : ℕ) (s : Scan)
    → s.first ≡ 0
    → (c == 10) ≡ false
    → is_blank c ≡ true
    → scan_byte c s ≡ (s, false)
unfolding scan_byte
lead_byte c s z nl b = let at : (s.first == 0) ≡ true = ap (λ f. f == 0) z in rw (nl, b, at) refl

-- What is left of a line at its left end: nothing, or a byte that is not blank and more.
pub data Led (s : Scan) (l : Bytes) : Bytes → Type 0 where
  nothing : rules_scan l s ≡ (s, false) → Led s l []
  bytes :
      (c : ℕ) (cs : Bytes)
      → rules_scan l s ≡ rules_scan (c ∷ cs) s
      → is_blank c ≡ false
      → NoNewline (c ∷ cs)
      → Led s l (c ∷ cs)

lead-Led :
    (c : ℕ) (cs : Bytes) (s : Scan) (t : Bytes)
    → rules_scan (c ∷ cs) s ≡ rules_scan cs s
    → Led s cs t
    → Led s (c ∷ cs) t
lead-Led c cs s t same (nothing e) = nothing (same ∙ e)
lead-Led c cs s t same (bytes d ds e b n) = bytes d ds (same ∙ e) b n

pub trim_left-Led : (l : Bytes) (s : Scan) → s.first ≡ 0 → NoNewline l → Led s l (trim_left l)
unfolding rules_scan trim_left
trim_left-Led [] s z nl = nothing refl
trim_left-Led (c ∷ cs) s z nl = elim (Bool-cases (is_blank c)) [
  | inl b ↦
      let one = lead_byte c s z nl.0 b in
      rw b (lead-Led c cs s (trim_left cs) (rw one refl) (trim_left-Led cs s z nl.1))
  | inr b ↦ rw b (bytes c cs refl b nl)
]

-- A line with a word, up to its end. `mid` is whether the word was at its end before the blanks.
pub record Raw (s : Scan) (c : ℕ) (cs : Bytes) (r : Scan × Bool) (text : Bytes) : Type 0 where
  pub fine : r.1 ≡ false
  pub new_first : r.0.first ≡ c
  pub new_last : r.0.last ≡ ends (c ∷ trim_right cs)
  pub same_ticks : r.0.in_backticks ≡ s.in_backticks
  pub mid : Bool
  pub holds : Holds LostBefore r.0.word mid (text ++ (c ∷ trim_right cs))
  pub later : mid ≡ true → r.0.word_done ≡ true
  pub tight : trim_right cs ≡ cs → r.0.word_done ≡ mid

NoNewline-append : (a b : Bytes) → NoNewline (a ++ b) → NoNewline a × NoNewline b
NoNewline-append [] b n = (tt, n)
NoNewline-append (c ∷ a) b n = let (p, q) = NoNewline-append a b n.1 in ((n.0, p), q)

rules_scan-fine :
    (p q : Bytes) (s : Scan)
    → (rules_scan p s).1 ≡ false
    → rules_scan (p ++ q) s ≡ rules_scan q (rules_scan p s).0
rules_scan-fine p q s e = rules_scan-append p q s ∙ rw e refl

scan_first :
    (c : ℕ) (cs : Bytes) (s : Scan)
    → (scan_byte c s).1 ≡ false
    → rules_scan (c ∷ cs) s ≡ rules_scan cs (scan_byte c s).0
unfolding rules_scan
scan_first c cs s e = rw e refl

scan_nothing : (s : Scan) → (rules_scan [] s).0.word_done ≡ s.word_done
unfolding rules_scan
scan_nothing s = refl

no_blanks : (a b : Bytes) → a ++ b ≡ a → b ≡ []
no_blanks a b e = length_zero b (omega (arith, length-append a b, ap length e))

pub line-Raw :
    (c : ℕ) (cs : Bytes) (s : Scan) (text : Bytes)
    → s.first ≡ 0
    → is_blank c ≡ false
    → (c == 0) ≡ false
    → (c == 35) ≡ false
    → NoNewline (c ∷ cs)
    → Holds Lost s.word s.word_done text
    → Raw s c cs (rules_scan (c ∷ cs) s) text
line-Raw c cs s text z b nz nc nl h =
    let ys = trim_right cs in
    let t = trim_right-Trimmed cs in
    let bs = t.blanks in
    let (ny, nb) = NoNewline-append ys bs (subst NoNewline t.parts nl.1) in
    let one = begin_byte c s text z nl.0 b nc h in
    let s₁ = (scan_byte c s).0 in
    let two =
      walk ys s₁ (text ++ (c ∷ [])) ny (ap (λ f. f == 0) one.new_first ∙ nz)
        (ap (λ f. f == 35) one.new_first ∙ nc) (omega (arith, length-append text (c ∷ [])))
        one.holds in
    let s₂ = (rules_scan ys s₁).0 in
    let three = trail bs s₂ nb t.all_blank in
    let run : rules_scan (c ∷ cs) s ≡ rules_scan bs s₂ =
      scan_first c cs s one.fine
      ∙ ap (λ x. rules_scan x s₁) t.parts
      ∙ rules_scan-fine ys bs s₁ two.fine in
    let joins = append_assoc text (c ∷ []) ys in
    let held =
      subst (λ w. Holds LostBefore w s₂.word_done (text ++ (c ∷ ys))) (sym three.same_word)
        (subst (Holds LostBefore s₂.word s₂.word_done) joins two.holds) in
    rw run (record {
      fine = three.fine;
      new_first = three.same_first ∙ two.same_first ∙ one.new_first;
      new_last =
          three.same_last
          ∙ two.new_last
          ∙ ap (λ d. last_of d ys) one.new_last
          ∙ last_of-trim_right cs c;
      same_ticks = three.same_ticks ∙ two.same_ticks ∙ one.same_ticks;
      mid = s₂.word_done;
      holds = held;
      later = three.still_done;
      tight = λ e.
          ap (λ x. (rules_scan x s₂).0.word_done) (no_blanks ys bs (sym t.parts ∙ sym e))
          ∙ scan_nothing s₂;
    })

-- A comment, up to its end.
pub record Comment (s : Scan) (r : Scan × Bool) : Type 0 where
  pub fine : r.1 ≡ false
  pub new_first : r.0.first ≡ 35
  pub same_ticks : r.0.in_backticks ≡ s.in_backticks
  pub same_word : r.0.word ≡ s.word
  pub same_done : r.0.word_done ≡ s.word_done

Comment-byte : (s : Scan) → s.first ≡ 0 → Comment s (scan_byte 35 s)
unfolding scan_byte begin_line collect
Comment-byte s z = ground (arith, z)

pub line-Comment :
    (cs : Bytes) (s : Scan) → s.first ≡ 0 → NoNewline cs → Comment s (rules_scan (35 ∷ cs) s)
line-Comment cs s z nl =
    let one = Comment-byte s z in
    let rest = skip cs (scan_byte 35 s).0 nl (ap (λ f. f == 35) one.new_first) in
    rw (scan_first 35 cs s one.fine) (record {
      fine = rest.fine;
      new_first = rest.same_first ∙ one.new_first;
      same_ticks = rest.same_ticks ∙ one.same_ticks;
      same_word = rest.same_word ∙ one.same_word;
      same_done = rest.same_done ∙ one.same_done;
    })
