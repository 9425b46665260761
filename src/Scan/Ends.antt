-- ===== src/Scan/Ends.antt =====
-- The end of a line (`ngx_http_coraza_rules_scan_eol` of src/ngx_http_coraza_module.c) against the
-- record.
use coraza_nginx.Common.{
  ℕ, ◌≤◌, ◌≡◌, refl, sym, ap, subst, ◌∙◌, Bool, Bool-cases, inl, inr, true, false, [], ◌∷◌, ◌++◌,
  append_assoc, append-nil, length, length-append, if◌then◌else◌, arith,
}
use coraza_nginx.Pack.{Bytes}
use coraza_nginx.Scan.{Scan, is_blank, same_word, unsupported, word_size, drop_backslash}
use coraza_nginx.Scan.Records.{Record, is_unsupported, but_last, opens, ends, first_word}
use coraza_nginx.Scan.Words.{
  NoBlank, NoBlank-but_last, Lost, Lost-append, Lost-unsupported, LostBefore, LostBefore-but_last,
  Dead-backtick, first_word-NoBlank, first_word-blank, but_last-append,
}
use coraza_nginx.Scan.Held.{Holds, growing, ended, gone}

-- The scan between two lines and the record that it stands for.
pub record Agrees (s : Scan) (r : Record) : Type 0 where
  pub at_start : s.first ≡ 0
  pub ticks : s.in_backticks ≡ r.opened
  pub holds : Holds Lost s.word s.word_done r.text
  pub shut : r.opened ≡ true → NoBlank r.text → Lost r.text

NoBlank-left : (a b : Bytes) → NoBlank (a ++ b) → NoBlank a
NoBlank-left [] b n = tt
NoBlank-left (c ∷ a) b n = (n.0, NoBlank-left a b n.1)

-- A text that ends in a byte is the text before it and the byte.
ends-parts : (c : ℕ) (cs : Bytes) → c ∷ cs ≡ but_last (c ∷ cs) ++ (ends (c ∷ cs) ∷ [])
unfolding but_last
ends-parts c [] = refl
ends-parts c (d ∷ ds) = ap (λ x. c ∷ x) (ends-parts d ds)

ends-append : (a : Bytes) (c : ℕ) (cs : Bytes) → ends (a ++ (c ∷ cs)) ≡ ends (c ∷ cs)
ends-append [] c cs = refl
ends-append (d ∷ []) c cs = refl
ends-append (d ∷ (e ∷ es)) c cs = ends-append (e ∷ es) c cs

-- Inside of an action list the first word is at its end or the record is lost.
pub shut-opens :
    (r : Record) (c : ℕ) (cs : Bytes)
    → (r.opened ≡ true → NoBlank r.text → Lost r.text)
    → opens r.opened (c ∷ cs) ≡ true
    → NoBlank (r.text ++ (c ∷ cs))
    → Lost (r.text ++ (c ∷ cs))
shut-opens r c cs shut o n = elim (Bool-cases r.opened) [
  | inl open_before ↦
      Lost-append r.text (c ∷ cs) (shut open_before (NoBlank-left r.text (c ∷ cs) n))
  | inr new ↦
      let tick : ends (c ∷ cs) ≡ 96 = ground (arith, o, new) in
      let front = r.text ++ but_last (c ∷ cs) in
      let parts : r.text ++ (c ∷ cs) ≡ front ++ (96 ∷ []) =
        ap (λ x. r.text ++ x) (ends-parts c cs ∙ ap (λ x. but_last (c ∷ cs) ++ (x ∷ [])) tick)
        ∙ sym (append_assoc r.text (but_last (c ∷ cs)) (96 ∷ [])) in
      record {
        dead = front ++ (96 ∷ []);
        rest = [];
        parts = parts ∙ sym (append-nil (front ++ (96 ∷ [])));
        whole = subst NoBlank parts n;
        never = Dead-backtick front;
      }
]

unsupported-first : (text : Bytes) → Lost text → same_word (first_word text) unsupported ≡ false
unfolding is_unsupported
unsupported-first text l = Lost-unsupported text l

-- The word that the scan holds inside of an action list, whether blanks end it or not.
pub Holds-opens :
    (word : Bytes) (mid done : Bool) (text : Bytes)
    → Holds LostBefore word mid text
    → (mid ≡ true → done ≡ true)
    → (NoBlank text → Lost text)
    → Holds Lost word done text
Holds-opens word mid done text (growing d w n l) later lost = elim (Bool-cases done) [
  | inr e ↦ growing e w n l
  | inl e ↦
      gone e
        (ap (λ x. same_word x unsupported) (w ∙ sym (first_word-NoBlank text n))
          ∙ unsupported-first text (lost n))
        (lost n)
]
Holds-opens word mid done text (ended b rest d n e at) later lost = ended b rest (later d) n e at
Holds-opens word mid done text (gone d m l) later lost = gone (later d) m l.lost

drop_backslash-but_last :
    (c : ℕ) (cs : Bytes) → ends (c ∷ cs) ≡ 92 → drop_backslash (c ∷ cs) ≡ but_last (c ∷ cs)
unfolding drop_backslash but_last
drop_backslash-but_last c [] e = rw e refl
drop_backslash-but_last c (d ∷ ds) e = ap (λ x. c ∷ x) (drop_backslash-but_last d ds e)

drop_backslash-text :
    (text : Bytes) (c : ℕ) (cs : Bytes)
    → ends (c ∷ cs) ≡ 92
    → drop_backslash (text ++ (c ∷ cs)) ≡ but_last (text ++ (c ∷ cs))
drop_backslash-text [] c cs e = drop_backslash-but_last c cs e
drop_backslash-text (d ∷ ds) c cs e =
    drop_backslash-but_last d (ds ++ (c ∷ cs)) (ends-append (d ∷ ds) c cs ∙ e)

length-but_last : (w : Bytes) → length (but_last w) ≤ length w
unfolding but_last
length-but_last [] = omega arith
length-but_last (c ∷ []) = omega arith
length-but_last (c ∷ (d ∷ ds)) = omega (arith, length-but_last (d ∷ ds))

but_last-two : (a b : ℕ) (w : Bytes) → but_last (a ∷ (b ∷ w)) ≡ a ∷ but_last (b ∷ w)
unfolding but_last
but_last-two a b w = refl

-- The word that the scan holds after a continuation's backslash is dropped.
pub Holds-drop :
    (word : Bytes) (done : Bool) (text : Bytes) (c : ℕ) (cs : Bytes)
    → Holds LostBefore word done (text ++ (c ∷ cs))
    → ends (c ∷ cs) ≡ 92
    → Holds Lost (if done then word else drop_backslash word) done (text ++ but_last (c ∷ cs))
Holds-drop word done text c cs (growing d w n l) e =
    let whole : but_last (text ++ (c ∷ cs)) ≡ text ++ but_last (c ∷ cs) =
      but_last-append text c cs in
    let dropped : drop_backslash word ≡ text ++ but_last (c ∷ cs) =
      ap drop_backslash w ∙ drop_backslash-text text c cs e ∙ whole in
    let less : length (text ++ but_last (c ∷ cs)) ≤ word_size = omega (
      arith,
      l,
      length-append text (c ∷ cs),
      length-append text (but_last (c ∷ cs)),
      length-but_last (c ∷ cs),
    ) in
    rw d (growing refl dropped (subst NoBlank whole (NoBlank-but_last (text ++ (c ∷ cs)) n)) less)
Holds-drop word done text c cs (ended b [] d n q at) e =
    let last : b ≡ 92 =
      sym (ends-append word b []) ∙ ap ends (sym at) ∙ ends-append text c cs ∙ e in
    absurd (cc (q, ap is_blank last))
Holds-drop word done text c cs (ended b (x ∷ xs) d n q at) e =
    let whole : text ++ but_last (c ∷ cs) ≡ word ++ (b ∷ but_last (x ∷ xs)) =
      sym (but_last-append text c cs)
      ∙ ap but_last at
      ∙ but_last-append word b (x ∷ xs)
      ∙ ap (λ y. word ++ y) (but_last-two b x xs) in
    rw d (ended b (but_last (x ∷ xs)) refl n q whole)
Holds-drop word done text c cs (gone d m l) e = rw d (
    gone refl m (subst Lost (but_last-append text c cs) (LostBefore-but_last (text ++ (c ∷ cs)) l)))

-- The verdict on a record whose line ends it.
pub Holds-verdict :
    (L : Bytes → Type 0) (word : Bytes) (done : Bool) (text : Bytes)
    → (L text → Lost text)
    → Holds L word done text
    → same_word word unsupported ≡ is_unsupported text
unfolding is_unsupported
Holds-verdict L word done text f (growing d w n l) =
    ap (λ x. same_word x unsupported) (w ∙ sym (first_word-NoBlank text n))
Holds-verdict L word done text f (ended b rest d n e at) =
    ap (λ x. same_word x unsupported)
      (sym (first_word-blank word b rest n e) ∙ ap first_word (sym at))
Holds-verdict L word done text f (gone d m l) = m ∙ sym (unsupported-first text (f l))
