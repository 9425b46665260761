-- ===== src/Scan/Trimmed.antt =====
-- Lines without the blanks at their end (see src/ngx_http_coraza_module.c on records).
use coraza_nginx.Common.{ℕ, ◌≡◌, refl, ap, Bool-cases, inl, inr, [], ◌∷◌, ◌++◌, if◌then◌else◌}
use coraza_nginx.Pack.{Bytes}
use coraza_nginx.Scan.{is_blank}
use coraza_nginx.Scan.Records.{keep, trim_right, ends}
use coraza_nginx.Scan.Words.{AllBlank}

-- The last byte that is not blank, `d` if there is none.
abbrev pub last_of : ℕ → Bytes → ℕ
last_of d [] = d
last_of d (c ∷ cs) = last_of (if is_blank c then d else c) cs

-- A line is what is left of it, and blanks.
pub record Trimmed (l : Bytes) : Type 0 where
  pub blanks : Bytes
  pub parts : l ≡ trim_right l ++ blanks
  pub all_blank : AllBlank blanks

keep-Trimmed :
    (c : ℕ) (cs ys bs : Bytes)
    → cs ≡ ys ++ bs
    → AllBlank bs
    → (zs : Bytes) × (c ∷ cs ≡ keep c ys ++ zs) × AllBlank zs
keep-Trimmed c cs [] bs e a = elim (Bool-cases (is_blank c)) [
  | inl b ↦ (c ∷ bs, rw b (ap (λ x. c ∷ x) e), (b, a))
  | inr b ↦ (bs, rw b (ap (λ x. c ∷ x) e), a)
]
keep-Trimmed c cs (y ∷ ys) bs e a = (bs, ap (λ x. c ∷ x) e, a)

pub trim_right-Trimmed : (l : Bytes) → Trimmed l
unfolding trim_right
trim_right-Trimmed [] = record { blanks = []; parts = refl; all_blank = tt }
trim_right-Trimmed (c ∷ cs) =
    let t = trim_right-Trimmed cs in
    let (zs, e, a) = keep-Trimmed c cs (trim_right cs) t.blanks t.parts t.all_blank in
    record { blanks = zs; parts = e; all_blank = a }

keep-last_of :
    (c : ℕ) (ys : Bytes)
    → ((d : ℕ) → last_of d ys ≡ ends (d ∷ ys))
    → (d : ℕ) → last_of d (keep c ys) ≡ ends (d ∷ keep c ys)
keep-last_of c [] ih d = elim (Bool-cases (is_blank c)) [
  | inl b ↦ rw b refl
  | inr b ↦ rw (b, b) refl
]
keep-last_of c (y ∷ ys) ih d = ih (if is_blank c then d else c)

-- The last byte of a trimmed line is the last one that is not blank.
pub last_of-trim_right : (cs : Bytes) (d : ℕ) → last_of d (trim_right cs) ≡ ends (d ∷ trim_right cs)
unfolding trim_right
last_of-trim_right [] d = refl
last_of-trim_right (c ∷ cs) d = keep-last_of c (trim_right cs) (last_of-trim_right cs) d
