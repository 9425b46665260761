-- ===== src/Waf/Fed.antt =====
-- What the engine was told for a handle, read off the calls of src/ngx_http_coraza_module.c.
use coraza_nginx.Common.{
  ℕ, ◌+◌, ◌<◌, ◌≡◌, ◌≢◌, refl, ◌∙◌, inl, inr, Bool-cases, Bool, true, false, ◌==◌, Option, none,
  some, List, [], ◌∷◌, ◌++◌, append-nil, append_assoc, length, if◌then◌else◌, arith,
}
use coraza_nginx.Conf.{inline, file, RuleEntry, Rules, has_entries}
use coraza_nginx.Waf.{
  WafEnv, WafTrace, new_waf_config, free_waf_config, free_waf, new_waf, malloc, rules_add,
  rules_add_file, add_call, add_rules, finish_waf, build_waf, build_main,
}
use coraza_nginx.Waf.Turn.{built, Fresh}

-- The rules that the latest configuration was given.
abbrev pub told : WafTrace → List RuleEntry
told [] = []
told (new_waf_config ∷ t) = []
told (rules_add b ∷ t) = told t ++ (record { kind = inline; text = b } ∷ [])
told (rules_add_file b ∷ t) = told t ++ (record { kind = file; text = b } ∷ [])
told (_ ∷ t) = told t

-- The rules of the configuration from which the handle was made.
abbrev pub rules_of : WafEnv → ℕ → WafTrace → Option (List RuleEntry)
rules_of env h [] = none
rules_of env h (new_waf ∷ t) =
    if env.handle (new_waf ∷ t) == h then some (told t) else rules_of env h t
rules_of env h (_ ∷ t) = rules_of env h t

-- A handle of an engine that was given exactly these rules.
pub record Fed (env : WafEnv) (h : ℕ) (es : List RuleEntry) (t : WafTrace) : Type 0 where
  pub usable : h ≢ 0
  pub rules : rules_of env h t ≡ some es

rules_of-built :
    (env : WafEnv) (h : ℕ) (t : WafTrace) {es : List RuleEntry}
    → rules_of env h t ≡ some es
    → 0 < built env h t
rules_of-built env h [] e = ground (arith, e)
rules_of-built env h (new_waf ∷ t) {es} e = ground (arith, e, rules_of-built env h t {es = es})
rules_of-built env h (new_waf_config ∷ t) e = rules_of-built env h t e
rules_of-built env h (free_waf_config ∷ t) e = rules_of-built env h t e
rules_of-built env h (malloc n ∷ t) e = rules_of-built env h t e
rules_of-built env h (rules_add b ∷ t) e = rules_of-built env h t e
rules_of-built env h (rules_add_file b ∷ t) e = rules_of-built env h t e
rules_of-built env h (free_waf w ∷ t) e = rules_of-built env h t e

told-add_call : (e : RuleEntry) (t : WafTrace) → told (add_call e ∷ t) ≡ told t ++ (e ∷ [])
told-add_call e t = ground arith

rules_of-add_call :
    (env : WafEnv) (h : ℕ) (e : RuleEntry) (t : WafTrace)
    → rules_of env h (add_call e ∷ t) ≡ rules_of env h t
rules_of-add_call env h e t = ground arith

-- The engine takes all rules, or the handle is not made.
add_rules-told :
    (env : WafEnv) (es : List RuleEntry) (t : WafTrace)
    → (add_rules env es t).0 ≡ true
    → told (add_rules env es t).1 ≡ told t ++ es
unfolding add_rules
add_rules-told env [] t ok = ground (arith, append-nil (told t))
add_rules-told env (e ∷ es) t ok =
    let t₁ = malloc (length e.text + 1) ∷ t in
    ground (
      arith,
      told-add_call e t₁,
      add_rules-told env es (add_call e ∷ t₁),
      append_assoc (told t) (e ∷ []) es,
    )

add_rules-keeps :
    (env : WafEnv) (h : ℕ) (es : List RuleEntry) (t : WafTrace)
    → rules_of env h (add_rules env es t).1 ≡ rules_of env h t
unfolding add_rules
add_rules-keeps env h [] t = refl
add_rules-keeps env h (e ∷ es) t =
    let t₁ = malloc (length e.text + 1) ∷ t in
    ground (arith, rules_of-add_call env h e t₁, add_rules-keeps env h es (add_call e ∷ t₁))

finish_waf-Fed :
    (env : WafEnv) (r : Bool × WafTrace)
    → (finish_waf env r).0 ≢ 0
    → (r.0 ≡ true) × Fed env (finish_waf env r).0 (told r.1) (finish_waf env r).1
unfolding finish_waf
finish_waf-Fed env (false, t) n = absurd (n refl)
finish_waf-Fed env (true, t) n = (refl, record { usable = n; rules = ground arith })

-- Calls that make no handle anew keep what the handles were given.
abbrev pub Keeps : WafEnv → WafTrace → WafTrace → Type 0
Keeps env t t' = (h : ℕ) (es : List RuleEntry) → Fed env h es t → Fed env h es t'

finish_waf-Keeps :
    (env : WafEnv) (r : Bool × WafTrace) → Fresh env → Keeps env r.1 (finish_waf env r).1
unfolding finish_waf
finish_waf-Keeps env (false, t) f h es d = record { usable = d.usable; rules = d.rules }
finish_waf-Keeps env (true, t) f h es d = record {
  usable = d.usable;
  rules = ground (arith, f.unused t, d.usable, d.rules, rules_of-built env h t d.rules);
}

-- A WAF that is built was given the rules of its array, all of them and in their order.
pub build_waf-Fed :
    (env : WafEnv) (rules : Rules) (t : WafTrace)
    → (build_waf env rules t).0 ≢ 0
    → Fed env (build_waf env rules t).0 rules.entries (build_waf env rules t).1
unfolding build_waf
build_waf-Fed env rules t n =
    let r = add_rules env rules.entries (new_waf_config ∷ t) in
    ground (arith, n, finish_waf-Fed env r, add_rules-told env rules.entries (new_waf_config ∷ t))

pub build_waf-Keeps :
    (env : WafEnv) (rules : Rules) (t : WafTrace)
    → Fresh env
    → Keeps env t (build_waf env rules t).1
unfolding build_waf
build_waf-Keeps env rules t f h es d =
    let r = add_rules env rules.entries (new_waf_config ∷ t) in
    let same = add_rules-keeps env h rules.entries (new_waf_config ∷ t) in
    let fed : Fed env h es r.1 = record { usable = d.usable; rules = same ∙ d.rules } in
    let last = finish_waf-Keeps env r f h es fed in
    record { usable = d.usable; rules = ground (arith, d.rules, last.rules) }

no_entries :
    (a : ℕ) (es : List RuleEntry)
    → has_entries (record { address = a; entries = es }) ≡ false
    → es ≡ []
no_entries a [] e = refl
no_entries a (x ∷ xs) e = cc

-- So was the main configuration's, also where it has no rules.
pub build_main-Fed :
    (env : WafEnv) (rules : Rules) (t : WafTrace)
    → (build_main env rules t).0 ≢ 0
    → Fed env (build_main env rules t).0 rules.entries (build_main env rules t).1
unfolding build_main
build_main-Fed env rules t n = elim (Bool-cases (has_entries rules)) [
  | inl some_rules ↦ ground (arith, n, build_waf-Fed env rules t)
  | inr empty ↦
      let none_there = no_entries rules.address rules.entries empty in
      ground (arith, n, none_there, finish_waf-Fed env (true, new_waf_config ∷ t))
]
