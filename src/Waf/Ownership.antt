-- ===== src/Waf/Ownership.antt =====
-- The handles over the start and the exit of a worker (src/ngx_http_coraza_module.c).
use coraza_nginx.Common.{
  ℕ, ◌+◌, ◌<◌, ◌≡◌, ◌≢◌, Bool-cases, inl, inr, ◌==◌, List, [], ◌∷◌, ◌++◌, arith,
}
use coraza_nginx.Conf.{LocConf, MainConf, Rules}
use coraza_nginx.Waf.{WafEnv, WafTrace, build_main, init_loc, init_locs, init_process, exit_process}
use coraza_nginx.Waf.Turn.{
  hit, built, freed, Fresh, owned, owned-append, free_locs-counts, build_main-Builds, AllUnbuilt,
  owned-AllUnbuilt, init_loc-Turn,
}

-- The handles built by the loop are those that the locations own after it.
abbrev Turns : WafEnv → ℕ → ℕ → List LocConf → WafTrace → List LocConf → WafTrace → Type 0
Turns env h main done t cs t' =
    (freed h t' ≡ freed h t)
    × (built env h t' + owned h main done ≡ built env h t + owned h main cs)

init_locs-Turns :
    (env : WafEnv) (h : ℕ) (m : MainConf) (done cs : List LocConf) (t : WafTrace)
    → Fresh env
    → h ≢ 0
    → 0 < m.waf
    → 0 < built env m.waf t
    → AllUnbuilt cs
    → Turns env h m.waf done t (init_locs env m done cs t).0.0 (init_locs env m done cs t).1
unfolding init_locs
init_locs-Turns env h m done [] t f n p b u = ground arith
init_locs-Turns env h m done (c ∷ cs) t f n p b u =
    let c' = (init_loc env m done c t).0.0 in
    let t' = (init_loc env m done c t).1 in
    let turn = init_loc-Turn env h m done c t f n p b u.0 in
    ground (
      arith,
      turn,
      owned-append h m.waf done (c' ∷ []),
      owned-append h m.waf done (c' ∷ cs),
      owned-AllUnbuilt h m.waf cs u.1,
      init_locs-Turns env h m (done ++ (c' ∷ [])) cs t' f n p (omega (arith, turn)) u.1,
    )

hit_self : (w : ℕ) → hit w w ≡ 1
hit_self w = ground arith

main_built :
    (env : WafEnv) (rules : Rules) (t : WafTrace)
    → Fresh env
    → 0 < (build_main env rules t).0
    → 0 < built env (build_main env rules t).0 (build_main env rules t).1
main_built env rules t f p =
    let w = (build_main env rules t).0 in
    let own = build_main-Builds env w rules t f in
    omega (arith, own.one_built (λ z. ground (arith, z)), hit_self w)

-- After the start: what was built is what the main configuration and the locations own.
init_process-owned :
    (env : WafEnv) (h : ℕ) (m : MainConf) (t : WafTrace)
    → Fresh env
    → h ≢ 0
    → AllUnbuilt m.loc_confs
    → let ((m', on), t') = init_process env m t in
      (freed h t' ≡ freed h t)
      × (built env h t' ≡ built env h t + (hit m'.waf h + owned h m'.waf m'.loc_confs))
unfolding init_process
init_process-owned env h m t f n u =
    let (w, t₁) = build_main env m.rules t in
    let m₁ = record m { waf = w } in
    let main = build_main-Builds env h m.rules t f in
    elim (Bool-cases (w == 0)) [
      | inl z ↦ ground (arith, main, owned-AllUnbuilt h w m.loc_confs u)
      | inr z ↦
          let p : 0 < w = ground arith in
          let b = main_built env m.rules t f p in
          ground (arith, main, init_locs-Turns env h m₁ [] m.loc_confs t₁ f n p b u)
    ]

-- The life of a worker, from the start to the exit, whether the start succeeded or gave up in the
-- middle, where the engine gives out no handle twice and no location has one before: each handle
-- that the engine gave out was freed exactly once, and no other was freed. The sharing of handles
-- between locations makes no double free and no leak.
pub worker-frees :
    (env : WafEnv) (h : ℕ) (m : MainConf)
    → Fresh env
    → h ≢ 0
    → AllUnbuilt m.loc_confs
    → let ((m', on), t) = init_process env m [] in
      freed h (exit_process m' t).1 ≡ built env h (exit_process m' t).1
unfolding exit_process
worker-frees env h m f n u =
    let m' = (init_process env m []).0.0 in
    let t = (init_process env m []).1 in
    ground
      (arith, init_process-owned env h m [] f n u, free_locs-counts env h m'.waf m'.loc_confs t)
