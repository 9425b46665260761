-- ===== src/Waf/Turn.antt =====
-- Which handles a step of the worker builds, frees and hands to a location.
use coraza_nginx.Common.{
  ℕ, ◌+◌, ◌≤◌, ◌<◌, ap, ◌∙◌, length, ◌≡◌, ◌≢◌, refl, ◌⊎◌, Bool, true, false, not, ◌&&◌, ◌==◌,
  Option, none, some, List, [], ◌∷◌, ◌++◌, if◌then◌else◌, arith,
}
use coraza_nginx.Conf.{RuleEntry, Rules, LocConf, MainConf}
use coraza_nginx.Waf.{
  WafEnv, WafTrace, new_waf, free_waf, new_waf_config, malloc, add_call, add_rules, finish_waf,
  build_waf, build_main, find_donor, share, init_loc, free_locs,
}

abbrev pub hit : ℕ → ℕ → ℕ
hit w h = if w == h then 1 else 0

-- How often the engine gave out the handle, and how often it was freed.
abbrev pub built : WafEnv → ℕ → WafTrace → ℕ
built env h [] = 0
built env h (new_waf ∷ t) = hit (env.handle (new_waf ∷ t)) h + built env h t
built env h (_ ∷ t) = built env h t

abbrev pub freed : ℕ → WafTrace → ℕ
freed h [] = 0
freed h (free_waf w ∷ t) = hit w h + freed h t
freed h (_ ∷ t) = freed h t

-- A handle of `coraza_new_waf` is 0 or one that was not given out before.
pub record Fresh (env : WafEnv) : Type 0 where
  pub unused :
      (t : WafTrace) → (env.handle (new_waf ∷ t) ≡ 0) ⊎ (built env (env.handle (new_waf ∷ t)) t ≡ 0)

-- How often the handle is owned by a location, by the test that frees it.
abbrev pub owned_by : ℕ → ℕ → LocConf → ℕ
owned_by h main c =
    if c.waf_owner && (not (c.waf == 0) && not (c.waf == main)) then hit c.waf h else 0

abbrev pub owned : ℕ → ℕ → List LocConf → ℕ
owned h main [] = 0
owned h main (c ∷ cs) = owned_by h main c + owned h main cs

pub owned-append :
    (h main : ℕ) (cs ds : List LocConf)
    → owned h main (cs ++ ds) ≡ owned h main cs + owned h main ds
owned-append h main [] ds = omega arith
owned-append h main (c ∷ cs) ds = omega (arith, owned-append h main cs ds)

pub free_locs-counts :
    (env : WafEnv) (h main : ℕ) (cs : List LocConf) (t : WafTrace)
    → (freed h (free_locs main cs t) ≡ freed h t + owned h main cs)
      × (built env h (free_locs main cs t) ≡ built env h t)
unfolding free_locs
free_locs-counts env h main [] t = ground arith
free_locs-counts env h main (c ∷ cs) t =
    ground
      (arith, free_locs-counts env h main cs t, free_locs-counts env h main cs (free_waf c.waf ∷ t))

-- Nothing was freed, and the handle `w` was built, if it is one.
pub record Builds (env : WafEnv) (h : ℕ) (t : WafTrace) (w : ℕ) (t' : WafTrace) : Type 0 where
  pub none_freed : freed h t' ≡ freed h t
  pub one_built : h ≢ 0 → built env h t' ≡ built env h t + hit w h
  pub new_handle : (w ≡ 0) ⊎ (built env w t ≡ 0)

add_call-quiet :
    (env : WafEnv) (h : ℕ) (e : RuleEntry) (t : WafTrace)
    → (freed h (add_call e ∷ t) ≡ freed h t) × (built env h (add_call e ∷ t) ≡ built env h t)
add_call-quiet env h e t = ground arith

add_rules-quiet :
    (env : WafEnv) (h : ℕ) (es : List RuleEntry) (t : WafTrace)
    → (freed h (add_rules env es t).1 ≡ freed h t)
      × (built env h (add_rules env es t).1 ≡ built env h t)
unfolding add_rules
add_rules-quiet env h [] t = (refl, refl)
add_rules-quiet env h (e ∷ es) t =
    let t₁ = malloc (length e.text + 1) ∷ t in
    ground (arith, add_call-quiet env h e t₁, add_rules-quiet env h es (add_call e ∷ t₁))

finish_waf-Builds :
    (env : WafEnv) (h : ℕ) (r : Bool × WafTrace)
    → Fresh env
    → Builds env h r.1 (finish_waf env r).0 (finish_waf env r).1
unfolding finish_waf
finish_waf-Builds env h (false, t) f = ground arith
finish_waf-Builds env h (true, t) f = ground (arith, f.unused t)

Builds-after :
    (env : WafEnv) (h w : ℕ) (t t₁ t' : WafTrace)
    → freed h t₁ ≡ freed h t
    → built env h t₁ ≡ built env h t
    → built env w t₁ ≡ built env w t
    → Builds env h t₁ w t'
    → Builds env h t w t'
Builds-after env h w t t₁ t' p q r b = record {
  none_freed = b.none_freed ∙ p;
  one_built = λ n. b.one_built n ∙ ap (λ k. k + hit w h) q;
  new_handle = ground (arith, b.new_handle);
}

build_waf-Builds :
    (env : WafEnv) (h : ℕ) (rules : Rules) (t : WafTrace)
    → Fresh env
    → Builds env h t (build_waf env rules t).0 (build_waf env rules t).1
unfolding build_waf
build_waf-Builds env h rules t f =
    let t₁ = new_waf_config ∷ t in
    let r = add_rules env rules.entries t₁ in
    let w = (finish_waf env r).0 in
    let done =
      Builds-after env h w t₁ r.1 (finish_waf env r).1 (add_rules-quiet env h rules.entries t₁).0
        (add_rules-quiet env h rules.entries t₁).1 (add_rules-quiet env w rules.entries t₁).1
        (finish_waf-Builds env h r f) in
    ground (arith, done)

pub build_main-Builds :
    (env : WafEnv) (h : ℕ) (rules : Rules) (t : WafTrace)
    → Fresh env
    → Builds env h t (build_main env rules t).0 (build_main env rules t).1
unfolding build_main
build_main-Builds env h rules t f =
    let t₁ = new_waf_config ∷ t in
    ground (arith, build_waf-Builds env h rules t f, finish_waf-Builds env h (true, t₁) f)

-- A location that has no handle yet, as the configuration phase leaves it.
abbrev pub Unbuilt : LocConf → Type 0
Unbuilt c = (c.waf ≡ 0) × (c.waf_owner ≡ false)

abbrev pub AllUnbuilt : List LocConf → Type 0
AllUnbuilt [] = Unit {0}
AllUnbuilt (c ∷ cs) = Unbuilt c × AllUnbuilt cs

pub owned-AllUnbuilt : (h main : ℕ) (cs : List LocConf) → AllUnbuilt cs → owned h main cs ≡ 0
owned-AllUnbuilt h main [] u = refl
owned-AllUnbuilt h main (c ∷ cs) u = ground (arith, owned-AllUnbuilt h main cs u.1)

-- One turn: the handles that were built in it are those that the location owns after it.
abbrev pub Turn : WafEnv → ℕ → ℕ → WafTrace → LocConf → WafTrace → Type 0
Turn env h main t c t' =
    (freed h t' ≡ freed h t)
    × (built env h t' ≡ built env h t + owned_by h main c)
    × (built env main t ≤ built env main t')

share-Turn :
    (env : WafEnv) (h main : ℕ) (c : LocConf) (t : WafTrace) (d : Option ℕ)
    → Fresh env
    → h ≢ 0
    → 0 < main
    → 0 < built env main t
    → Turn env h main t (share env c t d).0.0 (share env c t d).1
unfolding share
share-Turn env h main c t (some w) f n m b = ground arith
share-Turn env h main c t none f n m b =
    ground (arith, build_waf-Builds env h c.rules t f, build_waf-Builds env main c.rules t f)

pub init_loc-Turn :
    (env : WafEnv) (h : ℕ) (m : MainConf) (done : List LocConf) (c : LocConf) (t : WafTrace)
    → Fresh env
    → h ≢ 0
    → 0 < m.waf
    → 0 < built env m.waf t
    → Unbuilt c
    → Turn env h m.waf t (init_loc env m done c t).0.0 (init_loc env m done c t).1
unfolding init_loc
init_loc-Turn env h m done c t f n p b u =
    ground (arith, share-Turn env h m.waf c t (find_donor c.rules done) f n p b)
