-- ===== src/Waf/Settled.antt =====
-- What a location's turn at the start of a worker makes of its handle
-- (src/ngx_http_coraza_module.c).
use coraza_nginx.Common.{
  ℕ, ◌≡◌, ◌≢◌, refl, ap, sym, ◌∙◌, Bool, true, false, not, ◌&&◌, ◌==◌, Bool-cases, inl, inr, Option,
  none, some, List, [], ◌∷◌, ◌++◌, ◌||◌, arith,
}
use coraza_nginx.Conf.{RuleEntry, Rules, LocConf, MainConf, has_entries}
use coraza_nginx.Waf.{WafEnv, WafTrace, rules_equal, build_waf, find_donor, share, init_loc}
use coraza_nginx.Waf.Equal.{rules_equal_iff}
use coraza_nginx.Waf.Turn.{Fresh, Unbuilt}
use coraza_nginx.Waf.Fed.{Fed, Keeps, build_waf-Fed, build_waf-Keeps}

-- The memory of the configuration: one address holds one array.
abbrev pub Heap : Type 0
Heap = ℕ → List RuleEntry

abbrev pub AllIn : Heap → List LocConf → Type 0
AllIn heap [] = Unit {0}
AllIn heap (c ∷ cs) = (c.rules.entries ≡ heap c.rules.address) × AllIn heap cs

-- Whether the location has rules of its own, by the test of the code.
abbrev pub has_own : LocConf → Bool
has_own c = c.has_rules && has_entries c.rules

-- What every location that had its turn satisfies.
pub record Settled (env : WafEnv) (heap : Heap) (t : WafTrace) (c : LocConf) : Type 0 where
  pub held : c.rules.entries ≡ heap c.rules.address
  pub fed : c.waf ≢ 0 → Fed env c.waf c.rules.entries t
  pub own : has_own c ≡ true → c.waf ≢ 0
  pub other : has_own c ≡ false → c.waf ≡ 0

abbrev pub AllSettled : WafEnv → Heap → WafTrace → List LocConf → Type 0
AllSettled env heap t [] = Unit {0}
AllSettled env heap t (c ∷ cs) = Settled env heap t c × AllSettled env heap t cs

pub AllSettled-append :
    (env : WafEnv) (heap : Heap) (t : WafTrace) (cs ds : List LocConf)
    → AllSettled env heap t cs
    → AllSettled env heap t ds
    → AllSettled env heap t (cs ++ ds)
AllSettled-append env heap t [] ds a b = b
AllSettled-append env heap t (c ∷ cs) ds a b = (a.0, AllSettled-append env heap t cs ds a.1 b)

pub AllSettled-Keeps :
    (env : WafEnv) (heap : Heap) (t t' : WafTrace) (cs : List LocConf)
    → Keeps env t t'
    → AllSettled env heap t cs
    → AllSettled env heap t' cs
AllSettled-Keeps env heap t t' [] k a = tt
AllSettled-Keeps env heap t t' (c ∷ cs) k a = (
  record {
    held = a.0.held;
    fed = λ n. k c.waf c.rules.entries (a.0.fed n);
    own = a.0.own;
    other = a.0.other;
  },
  AllSettled-Keeps env heap t t' cs k a.1,
)

-- A donor's handle was given the very rules that are looked for.
find_donor-Fed :
    (env : WafEnv) (heap : Heap) (t : WafTrace) (rules : Rules) (done : List LocConf) {w : ℕ}
    → rules.entries ≡ heap rules.address
    → AllSettled env heap t done
    → find_donor rules done ≡ some w
    → Fed env w rules.entries t
unfolding find_donor
find_donor-Fed env heap t rules [] h a e = absurd (ground (arith, e))
find_donor-Fed env heap t rules (c ∷ cs) {w} h a e =
    let same = rules_equal_iff c.rules rules (λ at. a.0.held ∙ ap heap at ∙ sym h) in
    elim (Bool-cases (c.waf_owner && (not (c.waf == 0) && rules_equal c.rules rules))) [
      | inl hits ↦
          let at : w ≡ c.waf = ground (arith, e, hits) in
          let eq : rules.entries ≡ c.rules.entries = sym (same.0 (ground (arith, hits))) in
          rw (at, eq) (a.0.fed (ground (arith, hits)))
      | inr miss ↦ find_donor-Fed env heap t rules cs h a.1 (ground (arith, e, miss))
    ]

-- A turn on which the worker goes on.
pub record Settles (env : WafEnv) (heap : Heap) (c : LocConf) (t : WafTrace) (c' : LocConf)
    (t' : WafTrace) : Type 0 where
  pub keeps : Keeps env t t'
  pub settled : Settled env heap t' c'
  pub same : c' ≡ record c { waf = c'.waf; waf_owner = c'.waf_owner }

Settled-at :
    (env : WafEnv) (heap : Heap) (t : WafTrace) (c : LocConf) (w : ℕ) (o : Bool)
    → c.rules.entries ≡ heap c.rules.address
    → has_own c ≡ true
    → Fed env w c.rules.entries t
    → Settled env heap t (record c { waf = w; waf_owner = o })
Settled-at env heap t c w o h own fed = record {
  held = h;
  fed = λ n. fed;
  own = λ e. fed.usable;
  other = λ e. absurd (cc (own, e));
}

share-Settles :
    (env : WafEnv) (heap : Heap) (done : List LocConf) (c : LocConf) (t : WafTrace)
    → Fresh env
    → c.rules.entries ≡ heap c.rules.address
    → has_own c ≡ true
    → AllSettled env heap t done
    → (d : Option ℕ) → find_donor c.rules done ≡ d
    → (share env c t d).0.1 ≡ true
    → Settles env heap c t (share env c t d).0.0 (share env c t d).1
unfolding share
share-Settles env heap done c t f h own a (some w) e on = record {
  keeps = λ k es d. d;
  settled = Settled-at env heap t c w false h own (find_donor-Fed env heap t c.rules done h a e);
  same = refl;
}
share-Settles env heap done c t f h own a none e on =
    let w = (build_waf env c.rules t).0 in
    let t' = (build_waf env c.rules t).1 in
    elim (Bool-cases (w == 0)) [
      | inl z ↦ absurd (ground (arith, z, on))
      | inr z ↦
          let fed = build_waf-Fed env c.rules t (ground (arith, z)) in
          rw z (record {
            keeps = build_waf-Keeps env c.rules t f;
            settled = Settled-at env heap t' c w true h own fed;
            same = refl;
          })
    ]

pub init_loc-Settles :
    (env : WafEnv) (heap : Heap) (m : MainConf) (done : List LocConf) (c : LocConf) (t : WafTrace)
    → Fresh env
    → m.rules.entries ≡ heap m.rules.address
    → Fed env m.waf m.rules.entries t
    → c.rules.entries ≡ heap c.rules.address
    → Unbuilt c
    → AllSettled env heap t done
    → (init_loc env m done c t).0.1 ≡ true
    → Settles env heap c t (init_loc env m done c t).0.0 (init_loc env m done c t).1
unfolding init_loc
init_loc-Settles env heap m done c t f hm fm h u a on = elim (Bool-cases (has_own c)) [
  | inr lacks ↦
      let skips : (not c.has_rules || not (has_entries c.rules)) ≡ true = ground (arith, lacks) in
      rw skips (record {
        keeps = λ k es d. d;
        settled = record {
          held = h;
          fed = λ n. absurd (n u.0);
          own = λ e. absurd (cc (lacks, e));
          other = λ e. u.0;
        };
        same = refl;
      })
  | inl own ↦
      let goes : (not c.has_rules || not (has_entries c.rules)) ≡ false = ground (arith, own) in
      elim (Bool-cases (c.rules.address == m.rules.address && not (m.waf == 0))) [
        | inl mains ↦
            let at : c.rules.address ≡ m.rules.address = ground (arith, mains) in
            let eq : m.rules.entries ≡ c.rules.entries = hm ∙ ap heap (sym at) ∙ sym h in
            let fed : Fed env m.waf c.rules.entries t = record {
              usable = fm.usable;
              rules = fm.rules ∙ ap some eq;
            } in
            rw (goes, mains)
              (record {
                keeps = λ k es d. d;
                settled = Settled-at env heap t c m.waf c.waf_owner h own fed;
                same = refl;
              })
        | inr others ↦
            rw (goes, others)
              (share-Settles env heap done c t f h own a (find_donor c.rules done) refl
                (ground (arith, goes, others, on)))
      ]
]
