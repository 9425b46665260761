-- ===== src/Waf/Served.antt =====
-- By which rules a location is served once the worker has started
-- (src/ngx_http_coraza_module.c).
use coraza_nginx.Common.{
  ℕ, ◌≡◌, ap, sym, subst, ◌∙◌, true, false, ◌==◌, Bool-cases, inl, inr, none, List, [], ◌∷◌, ◌++◌,
  append-nil, append_assoc, if◌then◌else◌, arith,
}
use coraza_nginx.Conf.{RuleEntry, Rules, LocConf, MainConf}
use coraza_nginx.Transaction.{chosen_waf}
use coraza_nginx.Waf.{WafEnv, WafTrace, build_main, init_loc, init_locs, init_process}
use coraza_nginx.Waf.Turn.{Fresh, AllUnbuilt}
use coraza_nginx.Waf.Fed.{Fed, Keeps, build_main-Fed}
use coraza_nginx.Waf.Settled.{
  Heap, AllIn, has_own, Settled, AllSettled, AllSettled-append, AllSettled-Keeps, init_loc-Settles,
}

-- The locations after the start, against those that were configured.
abbrev AllSame : List LocConf → List LocConf → Type 0
AllSame [] [] = Unit {0}
AllSame (c ∷ cs) (c' ∷ cs') =
    (c' ≡ record c { waf = c'.waf; waf_owner = c'.waf_owner }) × AllSame cs cs'
AllSame _ _ = ⊥

record Ran (env : WafEnv) (heap : Heap) (done cs : List LocConf) (t : WafTrace) (all : List LocConf)
    (t' : WafTrace) : Type 0 where
  turned : List LocConf
  parts : all ≡ done ++ turned
  same : AllSame cs turned
  settled : AllSettled env heap t' all
  keeps : Keeps env t t'

init_locs-Ran :
    (env : WafEnv) (heap : Heap) (m : MainConf) (done cs : List LocConf) (t : WafTrace)
    → Fresh env
    → m.rules.entries ≡ heap m.rules.address
    → Fed env m.waf m.rules.entries t
    → AllIn heap cs
    → AllUnbuilt cs
    → AllSettled env heap t done
    → (init_locs env m done cs t).0.1 ≡ true
    → Ran env heap done cs t (init_locs env m done cs t).0.0 (init_locs env m done cs t).1
unfolding init_locs
init_locs-Ran env heap m done [] t f hm fm i u a on = record {
  turned = [];
  parts = sym (append-nil done);
  same = tt;
  settled = a;
  keeps = λ k es d. d;
}
init_locs-Ran env heap m done (c ∷ cs) t f hm fm i u a on =
    let turn = init_loc env m done c t in
    let c' = turn.0.0 in
    let t' = turn.1 in
    elim (Bool-cases turn.0.1) [
      | inr stops ↦ absurd (ground (arith, stops, on))
      | inl goes ↦
          let s = init_loc-Settles env heap m done c t f hm fm i.0 u.0 a goes in
          let a' =
            AllSettled-append env heap t' done (c' ∷ [])
              (AllSettled-Keeps env heap t t' done s.keeps a) (s.settled, tt) in
          let r =
            init_locs-Ran env heap m (done ++ (c' ∷ [])) cs t' f hm
              (s.keeps m.waf m.rules.entries fm) i.1 u.1 a' (ground (arith, goes, on)) in
          rw goes (record {
            turned = c' ∷ r.turned;
            parts = r.parts ∙ append_assoc done (c' ∷ []) r.turned;
            same = (s.same, r.same);
            settled = r.settled;
            keeps = λ k es d. r.keeps k es (s.keeps k es d);
          })
    ]

-- The rules that a location means: its own, or those of the main configuration.
abbrev pub meant : Rules → LocConf → List RuleEntry
meant main c = if has_own c then c.rules.entries else main.entries

-- The handle that a request of the location gets, behind the start.
abbrev pub serving : MainConf → LocConf → ℕ
serving m c = chosen_waf (record { loc_waf = c.waf; main_waf = m.waf; transaction_id = none })

-- Each location, as it was configured and as it is after the start: only its handle is set, and
-- the handle that serves it is one whose configuration was given the rules that it means.
abbrev pub AllServed : WafEnv → MainConf → List LocConf → List LocConf → WafTrace → Type 0
AllServed env m [] [] t = Unit {0}
AllServed env m (c ∷ cs) (c' ∷ cs') t =
    ((c' ≡ record c { waf = c'.waf; waf_owner = c'.waf_owner })
      × Fed env (serving m c') (meant m.rules c) t)
    × AllServed env m cs cs' t
AllServed env m _ _ t = ⊥

served :
    (env : WafEnv) (heap : Heap) (m : MainConf) (c c' : LocConf) (t : WafTrace)
    → Fed env m.waf m.rules.entries t
    → c' ≡ record c { waf = c'.waf; waf_owner = c'.waf_owner }
    → Settled env heap t c'
    → Fed env (serving m c') (meant m.rules c) t
served env heap m c c' t fm same s =
    let own_eq : has_own c' ≡ has_own c = ap has_own same in
    let eq : c'.rules.entries ≡ c.rules.entries = ap (λ x. x.rules.entries) same in
    elim (Bool-cases (has_own c)) [
      | inl own ↦
          let n = s.own (own_eq ∙ own) in
          let z : (c'.waf == 0) ≡ false = ground (arith, n) in rw (own, z, sym eq) (s.fed n)
      | inr lacks ↦
          let z : (c'.waf == 0) ≡ true = ground (arith, s.other (own_eq ∙ lacks)) in
          rw (lacks, z) fm
    ]

AllServed-Settled :
    (env : WafEnv) (heap : Heap) (m : MainConf) (cs cs' : List LocConf) (t : WafTrace)
    → Fed env m.waf m.rules.entries t
    → AllSame cs cs'
    → AllSettled env heap t cs'
    → AllServed env m cs cs' t
AllServed-Settled env heap m [] [] t fm same s = tt
AllServed-Settled env heap m (c ∷ cs) (c' ∷ cs') t fm same s = (
  (same.0, served env heap m c c' t fm same.0 s.0),
  AllServed-Settled env heap m cs cs' t fm same.1 s.1,
)
AllServed-Settled env heap m [] (c ∷ cs) t fm same s = absurd same
AllServed-Settled env heap m (c ∷ cs) [] t fm same s = absurd same

-- After a start that succeeds, where the engine gives out no handle twice, no location has a
-- handle before and each address holds one rules array: the handle that serves a location's
-- requests is not null, and the engine's configuration from which it was made was given exactly
-- the rules of that location (of the main configuration where it has none), in their order, by
-- whichever location the handle was built. Of a location nothing but its handle is changed.
pub init_process-Served :
    (env : WafEnv) (heap : ℕ → List RuleEntry) (m : MainConf) (t : WafTrace)
    → Fresh env
    → AllUnbuilt m.loc_confs
    → m.rules.entries ≡ heap m.rules.address
    → AllIn heap m.loc_confs
    → (init_process env m t).0.1 ≡ true
    → let ((m', on), t') = init_process env m t in AllServed env m' m.loc_confs m'.loc_confs t'
unfolding init_process
init_process-Served env heap m t f u hm i on =
    let w = (build_main env m.rules t).0 in
    let t₁ = (build_main env m.rules t).1 in
    let m₁ : MainConf = record m { waf = w } in
    elim (Bool-cases (w == 0)) [
      | inl z ↦ absurd (ground (arith, z, on))
      | inr z ↦
          let fm = build_main-Fed env m.rules t (ground (arith, z)) in
          let r =
            init_locs-Ran env heap m₁ [] m.loc_confs t₁ f hm fm i u tt (ground (arith, z, on)) in
          let ran = init_locs env m₁ [] m.loc_confs t₁ in
          let same = subst (AllSame m.loc_confs) (sym r.parts) r.same in
          let m₂ : MainConf = record m₁ { loc_confs = ran.0.0 } in
          rw z (
            AllServed-Settled env heap m₂ m.loc_confs ran.0.0 ran.1 (r.keeps w m.rules.entries fm)
              same r.settled)
    ]
