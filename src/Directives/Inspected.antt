-- ===== src/Directives/Inspected.antt =====
-- From the reading of the configuration to the inspection of requests
-- (src/ngx_http_coraza_module.c).
use coraza_nginx.Common.{
  ℕ, ◌+◌, ◌≡◌, ap, sym, subst, ◌∙◌, Bool, true, false, Option, none, some, List, [], ◌∷◌, ◌++◌,
  arith,
}
use coraza_nginx.Conf.{RuleEntry, RuleType, LocConf, MainConf}
use coraza_nginx.Waf.{WafEnv, WafTrace, init_process}
use coraza_nginx.Waf.Turn.{Fresh, AllUnbuilt}
use coraza_nginx.Waf.Settled.{AllIn}
use coraza_nginx.Waf.Requested.{AllInspect, init_process-AllInspect}
use coraza_nginx.Directives.{
  Directive, coraza_rules, coraza_rules_file, coraza_transaction_id, apply, push_entry, set_rules,
  add_rules_file, set_rules_file, set_transaction_id, with_loc, check_rules_file, track,
  create_main_conf,
}
use coraza_nginx.Directives.Checked.{Built, Checked, Built-Checked, IsScanned}

-- The main configuration while the file is read: a new one, with directives taken in whatever
-- location, and with the merged locations in its list.
pub data Reading : MainConf → Type 0 where
  begun :
      {m : MainConf} (room tracked : Bool) (fresh : Option ℕ)
      → create_main_conf room fresh tracked ≡ some m
      → Reading m
  directed :
      {n : MainConf} {d : LocConf} (m : MainConf) (c : LocConf) (x : Directive)
      → Reading m
      → apply x (m, c) ≡ some (n, d)
      → Reading n
  listed :
      {n : MainConf} (m : MainConf) (c : LocConf) (pushed : Bool)
      → Reading m
      → Built m c
      → track pushed c m ≡ some n
      → Reading n

-- The inline rules of every location have passed the scan.
abbrev pub AllScanned : List LocConf → Type 0
AllScanned [] = Unit {0}
AllScanned (c ∷ cs) = IsScanned c.rules.entries × AllScanned cs

abbrev AllChecked : List LocConf → Type 0
AllChecked [] = Unit {0}
AllChecked (c ∷ cs) = Checked c × AllChecked cs

AllChecked-append :
    (cs : List LocConf) (c : LocConf) → AllChecked cs → Checked c → AllChecked (cs ++ (c ∷ []))
AllChecked-append [] c a k = (k, tt)
AllChecked-append (d ∷ ds) c a k = (a.0, AllChecked-append ds c a.1 k)

AllChecked-AllUnbuilt : (cs : List LocConf) → AllChecked cs → AllUnbuilt cs
AllChecked-AllUnbuilt [] a = tt
AllChecked-AllUnbuilt (c ∷ cs) a = ((a.0.no_waf, a.0.no_owner), AllChecked-AllUnbuilt cs a.1)

AllChecked-AllScanned : (cs : List LocConf) → AllChecked cs → AllScanned cs
AllChecked-AllScanned [] a = tt
AllChecked-AllScanned (c ∷ cs) a = (a.0.scanned, AllChecked-AllScanned cs a.1)

-- The list of locations and the rules of the main configuration.
record Known (m : MainConf) : Type 0 where
  locations : AllChecked m.loc_confs
  no_rules : m.rules.entries ≡ []

with_loc-same :
    (m n : MainConf) (o : Option LocConf) (d : LocConf) → with_loc m o ≡ some (n, d) → m ≡ n
with_loc-same m n none d p = absurd (ground arith)
with_loc-same m n (some c) d p = ground arith

add_rules_file-same :
    (pushed copied : Bool) (path : Option (List ℕ)) (m n : MainConf) (c d : LocConf)
    → add_rules_file pushed copied path (m, c) ≡ some (n, d)
    → (n.loc_confs ≡ m.loc_confs) × (n.rules ≡ m.rules)
unfolding add_rules_file
add_rules_file-same pushed copied none m n c d p = absurd (ground arith)
add_rules_file-same pushed copied (some path) m n c d p =
    let e : RuleEntry = record { kind = RuleType.file; text = path } in
    let m' : MainConf = record m { rules_file = m.rules_file + 1 } in
    let same = with_loc-same m' n (push_entry pushed copied e c) d p in
    (ap (λ x. x.loc_confs) (sym same), ap (λ x. x.rules) (sym same))

-- A directive leaves both alone.
apply-same :
    (x : Directive) (m n : MainConf) (c d : LocConf)
    → apply x (m, c) ≡ some (n, d)
    → (n.loc_confs ≡ m.loc_confs) × (n.rules ≡ m.rules)
unfolding apply set_rules set_rules_file set_transaction_id
apply-same (coraza_rules pushed copied text) m n c d p =
    let e : RuleEntry = record { kind = RuleType.inline; text = text } in
    let m' : MainConf = record m { rules_inline = m.rules_inline + 1 } in
    ground (arith, with_loc-same m' n (push_entry pushed copied e c) d)
apply-same (coraza_rules_file pushed copied full file) m n c d p =
    add_rules_file-same pushed copied (check_rules_file full file) m n c d p
apply-same (coraza_transaction_id allocated none) m n c d p = absurd (ground arith)
apply-same (coraza_transaction_id allocated (some v)) m n c d p = ground arith

create_main_conf-Known :
    (room tracked : Bool) (fresh : Option ℕ) (m : MainConf)
    → create_main_conf room fresh tracked ≡ some m
    → (m.loc_confs ≡ []) × (m.rules.entries ≡ [])
unfolding create_main_conf
create_main_conf-Known false tracked fresh m p = absurd (ground arith)
create_main_conf-Known true tracked none m p = absurd (ground arith)
create_main_conf-Known true tracked (some a) m p = ground arith

track-parts :
    (pushed : Bool) (c : LocConf) (m n : MainConf)
    → track pushed c m ≡ some n
    → (n.loc_confs ≡ m.loc_confs ++ (c ∷ [])) × (n.rules ≡ m.rules)
unfolding track
track-parts pushed c m n p = ground arith

Reading-Known : {m : MainConf} → Reading m → Known m
Reading-Known (begun {m = m} room tracked fresh e) =
    let (confs, rules) = create_main_conf-Known room tracked fresh m e in
    record { locations = subst AllChecked (sym confs) tt; no_rules = rules }
Reading-Known (directed {n = n} {d = d} m c x r e) =
    let (confs, rules) = apply-same x m n c d e in
    let k = Reading-Known r in
    record {
      locations = subst AllChecked (sym confs) k.locations;
      no_rules = ap (λ y. y.entries) rules ∙ k.no_rules;
    }
Reading-Known (listed {n = n} m c pushed r b e) =
    let (confs, rules) = track-parts pushed c m n e in
    let k = Reading-Known r in
    record {
      locations =
          subst AllChecked (sym confs)
            (AllChecked-append m.loc_confs c k.locations (Built-Checked b));
      no_rules = ap (λ y. y.entries) rules ∙ k.no_rules;
    }

-- From the configuration file to a request: however the configuration was read, where the start of
-- the worker succeeds (the engine gives out no handle twice, and each address holds one rules
-- array), a request in any location asks for no transaction or for one of a handle that was made
-- of exactly the rules of the location; one without rules gets an engine without rules, and each
-- inline rule of a location has passed the scan.
pub Reading-AllInspect :
    {m : MainConf} (wenv : WafEnv) (heap : ℕ → List RuleEntry) (t : WafTrace)
    → Reading m
    → Fresh wenv
    → heap m.rules.address ≡ []
    → AllIn heap m.loc_confs
    → (init_process wenv m t).0.1 ≡ true
    → let ((m', on), t') = init_process wenv m t in
      AllInspect wenv m' m.loc_confs m'.loc_confs t'
      × AllScanned m.loc_confs
      × (m.rules.entries ≡ [])
Reading-AllInspect {m} wenv heap t r f hm i on =
    let k = Reading-Known r in
    (
      init_process-AllInspect wenv heap m t f (AllChecked-AllUnbuilt m.loc_confs k.locations)
          (k.no_rules ∙ sym hm) i on,
      AllChecked-AllScanned m.loc_confs k.locations,
      k.no_rules,
    )
