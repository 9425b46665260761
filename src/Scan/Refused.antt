-- ===== src/Scan/Refused.antt =====
-- What a rules text is refused for (src/ngx_http_coraza_module.c).
use coraza_nginx.Common.{
  ℕ, ◌+◌, ◌≡◌, refl, sym, ap, subst, ◌∙◌, Bool, Bool-cases, inl, inr, true, false, ◌==◌, List, [],
  ◌∷◌, ◌++◌, if◌then◌else◌, arith, ◌&&◌, ◌||◌,
}
use coraza_nginx.Pack.{Bytes}
use coraza_nginx.Scan.{
  Scan, is_blank, rules_scan, rules_scan_eol, scan_word, rules_scan_done, rules_scan_init,
  scan_byte,
}
use coraza_nginx.Scan.Records.{
  Record, is_unsupported, ends, take_trimmed, take_line, refuses, lines, new_record, trim_left,
  trim_right, IsTidy, AllTidy, NoZero,
}
use coraza_nginx.Scan.Words.{Lost}
use coraza_nginx.Scan.Held.{growing}
use coraza_nginx.Scan.Lines.{NoNewline}
use coraza_nginx.Scan.Ends.{Agrees, Holds-verdict}
use coraza_nginx.Scan.Agrees.{Turned, eol-ignored, body-LineTurned, trim_right-byte}
use coraza_nginx.Scan.Split.{unlines, AllOneLine, lines-Split}
use coraza_nginx.Scan.Turn.{Led, nothing, bytes, trim_left-Led}
use coraza_nginx.Scan.Chunks.{rules_scan-append}
use coraza_nginx.Directives.{is_refused_text}

-- One line, without its newline: the scan of its bytes refuses nothing, and its end is that of the
-- record.
record LineTurned (s : Scan) (r : Record) (l : Bytes) : Type 0 where
  fine : (rules_scan l s).1 ≡ false
  turned : Turned (rules_scan_eol (rules_scan l s).0) (take_line r l)

trim_left-NoZero : (l : Bytes) → NoZero l → NoZero (trim_left l)
unfolding trim_left
trim_left-NoZero [] n = tt
trim_left-NoZero (c ∷ cs) n = elim (Bool-cases (is_blank c)) [
  | inl b ↦ rw b (trim_left-NoZero cs n.1)
  | inr b ↦ rw b n
]

tail_eq : (c : ℕ) (a b : Bytes) → c ∷ a ≡ c ∷ b → a ≡ b
tail_eq c a b e = cc e

take_trimmed-blank : (r : Record) → take_trimmed r [] ≡ (r, false)
unfolding take_trimmed
take_trimmed-blank r = refl

trim_right-nil : trim_right [] ≡ []
unfolding trim_right
trim_right-nil = refl

-- Whatever is left of the line at its left end.
Led-LineTurned :
    (l t : Bytes) (s : Scan) (r : Record)
    → Agrees s r
    → Led s l t
    → (ends (trim_right t) ≡ 92 → trim_right t ≡ t)
    → NoZero t
    → ((rules_scan l s).1 ≡ false)
      × Turned (rules_scan_eol (rules_scan l s).0) (take_trimmed r (trim_right t))
Led-LineTurned l _ s r a (nothing e) tidy nz =
    let f : (s.first == 0 || s.first == 35) ≡ true = rw a.at_start refl in
    rw (e, trim_right-nil, take_trimmed-blank r) (refl, eol-ignored s s r a f refl refl refl)
Led-LineTurned l _ s r a (bytes c cs e b n) tidy nz =
    let same = trim_right-byte c cs b in
    rw e (
      body-LineTurned c cs s r a b n nz.0
        (λ q. tail_eq c (trim_right cs) cs (sym same ∙ tidy (ap ends same ∙ q))))

line_LineTurned :
    (l : Bytes) (s : Scan) (r : Record) → Agrees s r → NoNewline l → IsTidy l → LineTurned s r l
line_LineTurned l s r a nl tidy =
    let (fine, turned) =
      Led-LineTurned l (trim_left l) s r a (trim_left-Led l s a.at_start nl) tidy.0
        (trim_left-NoZero l tidy.1) in
    record { fine = fine; turned = turned }

-- The verdict on what is left of a text.
abbrev verdict : Scan → Bytes → Bool
verdict s text = let (t, bad) = rules_scan text s in if bad then true else rules_scan_done t

rules_scan-newline :
    (rest : Bytes) (t : Scan)
    → verdict t (10 ∷ rest) ≡ (
        if (rules_scan_eol t).1
        then true
        else verdict (record ((rules_scan_eol t).0) { line = (rules_scan_eol t).0.line + 1 }) rest)
unfolding rules_scan scan_byte
rules_scan-newline rest t = elim (Bool-cases (rules_scan_eol t).1) [
  | inl b ↦ rw b refl
  | inr b ↦ rw b refl
]

verdict-append :
    (l rest : Bytes) (s : Scan)
    → (rules_scan l s).1 ≡ false
    → verdict s (l ++ rest) ≡ verdict (rules_scan l s).0 rest
verdict-append l rest s e = rw (rules_scan-append l rest s, e) refl

Agrees-line : (s : Scan) (n : ℕ) (r : Record) → Agrees s r → Agrees (record s { line = n }) r
Agrees-line s n r a = record {
  at_start = a.at_start;
  ticks = a.ticks;
  holds = a.holds;
  shut = a.shut;
}

-- The end of the text.
done-refuses :
    (t : Scan) (q : Record × Bool)
    → Turned (rules_scan_eol t) q
    → rules_scan_done t ≡ (if q.1 then true else (q.0.opened && is_unsupported q.0.text))
unfolding rules_scan_done scan_word
done-refuses t q turned = elim (Bool-cases (rules_scan_eol t).1) [
  | inl b ↦ let b' = sym turned.same ∙ b in rw (b, b') refl
  | inr b ↦
      let b' = sym turned.same ∙ b in
      let a = turned.next b in
      let same =
        Holds-verdict Lost (rules_scan_eol t).0.word (rules_scan_eol t).0.word_done q.0.text
          (λ x. x) a.holds in
      rw (b, b', a.ticks, same) refl
]

run-refuses :
    (l : Bytes) (ls : List Bytes) (s : Scan) (r : Record)
    → Agrees s r
    → AllOneLine (l ∷ ls)
    → AllTidy (l ∷ ls)
    → verdict s (unlines (l ∷ ls)) ≡ refuses r (l ∷ ls)
unfolding refuses
run-refuses l [] s r a one tidy =
    let t = line_LineTurned l s r a one.0 tidy.0 in
    rw t.fine (done-refuses (rules_scan l s).0 (take_line r l) t.turned)
run-refuses l (l' ∷ ls) s r a one tidy =
    let t = line_LineTurned l s r a one.0 tidy.0 in
    let rest = unlines (l' ∷ ls) in
    let e = rules_scan_eol (rules_scan l s).0 in
    let both = verdict-append l (10 ∷ rest) s t.fine ∙ rules_scan-newline rest (rules_scan l s).0 in
    both ∙ elim (Bool-cases e.1) [
      | inl b ↦ let b' = sym t.turned.same ∙ b in rw (b, b') refl
      | inr b ↦
          let b' = sym t.turned.same ∙ b in
          let a' = Agrees-line e.0 (e.0.line + 1) (take_line r l).0 (t.turned.next b) in
          rw (b, b')
            (run-refuses l' ls (record (e.0) { line = e.0.line + 1 }) (take_line r l).0 a' one.1
              tidy.1)
    ]

rules_scan_init-Agrees : Agrees rules_scan_init new_record
rules_scan_init-Agrees = record {
  at_start = refl;
  ticks = refl;
  holds = growing refl refl tt (omega arith);
  shut = λ e. absurd (cc e);
}

-- A rules text is refused exactly if one of its records is: the records that the comment above
-- `ngx_http_coraza_rules_scan_t` describes, put together from the trimmed lines with their
-- continuations, comments and action lists in backticks, whose first word is SecRemoteRules in
-- letters of either size. The text has no zero byte, and no line of it has a blank or a carriage
-- return behind a backslash at its end.
pub is_refused_text-refuses :
    (text : Bytes) → AllTidy (lines text) → is_refused_text text ≡ refuses new_record (lines text)
unfolding is_refused_text
is_refused_text-refuses text tidy =
    let p = lines-Split text in
    let ran =
      run-refuses p.head p.rest rules_scan_init new_record rules_scan_init-Agrees
        (subst AllOneLine p.some_line p.one_each) (subst AllTidy p.some_line tidy) in
    ap (verdict rules_scan_init) (sym p.whole ∙ ap unlines p.some_line)
    ∙ ran
    ∙ ap (refuses new_record) (sym p.some_line)
