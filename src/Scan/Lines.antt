-- ===== src/Scan/Lines.antt =====
-- The scan of one line (src/ngx_http_coraza_module.c) against the record that it adds to.
use coraza_nginx.Common.{
  ℕ, ◌<◌, ◌≡◌, refl, sym, ap, subst, ◌∙◌, Bool, Bool-cases, inl, inr, true, false, ◌==◌, [], ◌∷◌,
  ◌++◌, append_assoc, append-nil, length, length-append, arith,
}
use coraza_nginx.Pack.{Bytes}
use coraza_nginx.Scan.{Scan, is_blank, has_bytes, begin_line, collect, scan_byte, rules_scan}
use coraza_nginx.Scan.Words.{AllBlank, LostBefore}
use coraza_nginx.Scan.Trimmed.{last_of}
use coraza_nginx.Scan.Held.{Holds, collect-Holds, Holds-Lost, collect-still, blank-Holds}

abbrev pub NoNewline : Bytes → Type 0
NoNewline [] = Unit {0}
NoNewline (c ∷ cs) = ((c == 10) ≡ false) × NoNewline cs

-- The scan of bytes in a line that has begun.
pub record Walked (s : Scan) (cs : Bytes) (r : Scan × Bool) (text : Bytes) : Type 0 where
  pub fine : r.1 ≡ false
  pub same_first : r.0.first ≡ s.first
  pub same_ticks : r.0.in_backticks ≡ s.in_backticks
  pub new_last : r.0.last ≡ last_of s.last cs
  pub holds : Holds LostBefore r.0.word r.0.word_done (text ++ cs)

walk_byte :
    (c : ℕ) (s : Scan) (text : Bytes)
    → (c == 10) ≡ false
    → (s.first == 0) ≡ false
    → (s.first == 35) ≡ false
    → 0 < length text
    → Holds LostBefore s.word s.word_done text
    → Walked s (c ∷ []) (scan_byte c s) text
unfolding scan_byte begin_line
walk_byte c s text nl z nc l h = elim (Bool-cases (is_blank c)) [
  | inl b ↦
      let (more, same) = blank-Holds c s.word s.word_done text b l h in
      elim (Bool-cases (has_bytes s.word)) [
        | inl y ↦
            rw (nl, b, z, nc, y)
              (record {
                fine = refl;
                same_first = refl;
                same_ticks = refl;
                new_last = rw b refl;
                holds = more y;
              })
        | inr y ↦
            rw (nl, b, z, nc, y)
              (record {
                fine = refl;
                same_first = refl;
                same_ticks = refl;
                new_last = rw b refl;
                holds = same y;
              })
      ]
  | inr b ↦
      let t : Scan = record s { last = c } in
      let still = collect-still c t in
      let held = collect-Holds c t text b nc (Holds-Lost s.word s.word_done text h) in
      rw (nl, b, z)
        (record {
          fine = refl;
          same_first = still.0;
          same_ticks = still.2;
          new_last = rw b still.1;
          holds = held;
        })
]

pub walk :
    (cs : Bytes) (s : Scan) (text : Bytes)
    → NoNewline cs
    → (s.first == 0) ≡ false
    → (s.first == 35) ≡ false
    → 0 < length text
    → Holds LostBefore s.word s.word_done text
    → Walked s cs (rules_scan cs s) text
unfolding rules_scan
walk [] s text nl z nc l h = record {
  fine = refl;
  same_first = refl;
  same_ticks = refl;
  new_last = refl;
  holds = subst (Holds LostBefore s.word s.word_done) (sym (append-nil text)) h;
}
walk (c ∷ cs) s text nl z nc l h =
    let one = walk_byte c s text nl.0 z nc l h in
    let t = (scan_byte c s).0 in
    let rest =
      walk cs t (text ++ (c ∷ [])) nl.1 (ap (λ f. f == 0) one.same_first ∙ z)
        (ap (λ f. f == 35) one.same_first ∙ nc) (omega (arith, length-append text (c ∷ [])))
        one.holds in
    rw one.fine (record {
      fine = rest.fine;
      same_first = rest.same_first ∙ one.same_first;
      same_ticks = rest.same_ticks ∙ one.same_ticks;
      new_last = rest.new_last ∙ ap (λ d. last_of d cs) one.new_last;
      holds =
          subst (Holds LostBefore (rules_scan cs t).0.word (rules_scan cs t).0.word_done)
            (append_assoc text (c ∷ []) cs) rest.holds;
    })

-- The bytes of a comment change nothing of the record.
pub record Skipped (s : Scan) (r : Scan × Bool) : Type 0 where
  pub fine : r.1 ≡ false
  pub same_first : r.0.first ≡ s.first
  pub same_ticks : r.0.in_backticks ≡ s.in_backticks
  pub same_word : r.0.word ≡ s.word
  pub same_done : r.0.word_done ≡ s.word_done

skip_byte :
    (c : ℕ) (s : Scan) → (c == 10) ≡ false → (s.first == 35) ≡ true → Skipped s (scan_byte c s)
unfolding scan_byte begin_line collect
skip_byte c s nl h = ground (arith, nl, h)

pub skip :
    (cs : Bytes) (s : Scan) → NoNewline cs → (s.first == 35) ≡ true → Skipped s (rules_scan cs s)
unfolding rules_scan
skip [] s nl h = record {
  fine = refl;
  same_first = refl;
  same_ticks = refl;
  same_word = refl;
  same_done = refl;
}
skip (c ∷ cs) s nl h =
    let one = skip_byte c s nl.0 h in
    let t = (scan_byte c s).0 in
    let rest = skip cs t nl.1 (ap (λ f. f == 35) one.same_first ∙ h) in
    rw one.fine (record {
      fine = rest.fine;
      same_first = rest.same_first ∙ one.same_first;
      same_ticks = rest.same_ticks ∙ one.same_ticks;
      same_word = rest.same_word ∙ one.same_word;
      same_done = rest.same_done ∙ one.same_done;
    })

-- Blanks at the end of a line, which may end the word.
pub record Trailed (s : Scan) (r : Scan × Bool) : Type 0 where
  pub fine : r.1 ≡ false
  pub same_first : r.0.first ≡ s.first
  pub same_last : r.0.last ≡ s.last
  pub same_ticks : r.0.in_backticks ≡ s.in_backticks
  pub same_word : r.0.word ≡ s.word
  pub still_done : s.word_done ≡ true → r.0.word_done ≡ true

trail_byte : (c : ℕ) (s : Scan) → (c == 10) ≡ false → is_blank c ≡ true → Trailed s (scan_byte c s)
unfolding scan_byte
trail_byte c s nl b = ground (arith, nl, b)

pub trail : (cs : Bytes) (s : Scan) → NoNewline cs → AllBlank cs → Trailed s (rules_scan cs s)
unfolding rules_scan
trail [] s nl b = record {
  fine = refl;
  same_first = refl;
  same_last = refl;
  same_ticks = refl;
  same_word = refl;
  still_done = λ d. d;
}
trail (c ∷ cs) s nl b =
    let one = trail_byte c s nl.0 b.0 in
    let rest = trail cs (scan_byte c s).0 nl.1 b.1 in
    rw one.fine (record {
      fine = rest.fine;
      same_first = rest.same_first ∙ one.same_first;
      same_last = rest.same_last ∙ one.same_last;
      same_ticks = rest.same_ticks ∙ one.same_ticks;
      same_word = rest.same_word ∙ one.same_word;
      still_done = λ d. rest.still_done (one.still_done d);
    })
