-- ===== src/Scan/Held.antt =====
-- What the scan of src/ngx_http_coraza_module.c holds of a record's first word, byte by byte.
use coraza_nginx.Common.{
  ℕ, ◌≤◌, ◌<◌, ◌≡◌, refl, sym, ap, subst, ◌∙◌, Bool, Bool-cases, inl, inr, true, false, ◌==◌, ltb,
  [], ◌∷◌, ◌++◌, append_assoc, append-nil, length, length-append, arith,
}
use coraza_nginx.Pack.{Bytes}
use coraza_nginx.Scan.{Scan, is_blank, same_word, unsupported, word_size, has_bytes, collect}
use coraza_nginx.Scan.Words.{NoBlank, NoBlank-append, Dead-long, Lost, LostBefore, LostBefore-add}

-- What the scan holds of the record's first word: all of it so far, the word, or nothing that
-- counts, since the record is lost.
pub data Holds (L : Bytes → Type 0) (word : Bytes) (done : Bool) (text : Bytes) : Type 0 where
  growing :
      done ≡ false → word ≡ text → NoBlank text → length text ≤ word_size → Holds L word done text
  ended :
      (b : ℕ) (rest : Bytes)
      → done ≡ true
      → NoBlank word
      → is_blank b ≡ true
      → text ≡ word ++ (b ∷ rest)
      → Holds L word done text
  gone : done ≡ true → same_word word unsupported ≡ false → L text → Holds L word done text

-- A byte that is collected.
pub collect-Holds :
    (c : ℕ) (s : Scan) (text : Bytes)
    → is_blank c ≡ false
    → (s.first == 35) ≡ false
    → Holds Lost s.word s.word_done text
    → let t = collect c s in Holds LostBefore t.word t.word_done (text ++ (c ∷ []))
unfolding collect same_word
collect-Holds c s text nb nc (growing d w n l) = elim (Bool-cases (ltb (length s.word) word_size)) [
  | inl fits ↦
      let more : length (text ++ (c ∷ [])) ≤ word_size =
        ground (arith, fits, w, length-append text (c ∷ [])) in
      rw (nc, d, fits)
        (growing refl (ap (λ x. x ++ (c ∷ [])) w) (NoBlank-append text (c ∷ []) n (nb, tt)) more)
  | inr full ↦
      let long : 14 < length text = ground (arith, full, w) in
      let lost : Lost text = record {
        dead = text;
        rest = [];
        parts = sym (append-nil text);
        whole = n;
        never = Dead-long text long;
      } in
      rw (nc, d, full) (gone refl refl (LostBefore-add text c lost))
]
collect-Holds c s text nb nc (ended b rest d n e at) =
    rw (nc, d)
      (ended b (rest ++ (c ∷ [])) refl n e
        (ap (λ x. x ++ (c ∷ [])) at ∙ append_assoc s.word (b ∷ rest) (c ∷ [])))
collect-Holds c s text nb nc (gone d m l) = rw (nc, d) (gone refl m (LostBefore-add text c l))

pub Holds-Lost :
    (word : Bytes) (done : Bool) (text : Bytes)
    → Holds LostBefore word done text
    → Holds Lost word done text
Holds-Lost word done text (growing d w n l) = growing d w n l
Holds-Lost word done text (ended b rest d n e at) = ended b rest d n e at
Holds-Lost word done text (gone d m l) = gone d m l.lost

-- What `collect` leaves alone.
pub collect-still :
    (c : ℕ) (s : Scan)
    → ((collect c s).first ≡ s.first)
      × ((collect c s).last ≡ s.last)
      × ((collect c s).in_backticks ≡ s.in_backticks)
unfolding collect
collect-still c s = ground arith

has_bytes-length : (w : Bytes) → 0 < length w → has_bytes w ≡ true
has_bytes-length [] l = absurd (omega arith)
has_bytes-length (c ∷ w) l = refl

-- A blank ends the word.
pub blank-Holds :
    (c : ℕ) (word : Bytes) (done : Bool) (text : Bytes)
    → is_blank c ≡ true
    → 0 < length text
    → Holds LostBefore word done text
    → (has_bytes word ≡ true → Holds LostBefore word true (text ++ (c ∷ [])))
      × (has_bytes word ≡ false → Holds LostBefore word done (text ++ (c ∷ [])))
blank-Holds c word done text b l (growing d w n f) = (
  λ e. ended c [] refl (subst NoBlank (sym w) n) b (ap (λ x. x ++ (c ∷ [])) (sym w)),
  λ e. absurd (cc (e, has_bytes-length word (subst (λ x. 0 < length x) (sym w) l))),
)
blank-Holds c word done text b l (ended c' rest d n e at) = (
  λ h.
      ended c' (rest ++ (c ∷ [])) refl n e
        (ap (λ x. x ++ (c ∷ [])) at ∙ append_assoc word (c' ∷ rest) (c ∷ [])),
  λ h.
      ended c' (rest ++ (c ∷ [])) d n e
        (ap (λ x. x ++ (c ∷ [])) at ∙ append_assoc word (c' ∷ rest) (c ∷ [])),
)
blank-Holds c word done text b l (gone d m lost) = (
  λ h. gone refl m (LostBefore-add text c lost.lost),
  λ h. gone d m (LostBefore-add text c lost.lost),
)
