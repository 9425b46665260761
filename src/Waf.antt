-- ===== src/Waf.antt =====
-- The WAF handles of a worker (src/ngx_http_coraza_module.c): built after the fork, shared between
-- locations whose rules are the same, and freed when the worker exits.
pub mod Equal
pub mod Turn
pub mod Fed
pub mod Ownership
pub mod Settled
pub mod Served
pub mod Requested
pub mod Examples
use coraza_nginx.Common.{
  ℕ, Bool, true, false, not, ◌&&◌, ◌||◌, ◌==◌, ℤ, is_neg, Option, none, some, List, [], ◌∷◌, ◌++◌,
  length, ◌+◌, if◌then◌else◌,
}
use coraza_nginx.Pack.{Bytes}
use coraza_nginx.Conf.{RuleType, inline, file, RuleEntry, Rules, LocConf, MainConf, has_entries}

-- The calls that build and free handles.
pub data WafCall : Type 0 where
  new_waf_config free_waf_config new_waf : WafCall
  malloc : ℕ → WafCall
  rules_add rules_add_file : Bytes → WafCall
  free_waf : ℕ → WafCall

abbrev pub WafTrace : Type 0
WafTrace = List WafCall

-- The answers of libcoraza and of malloc, each by the calls up to it; a handle is 0 for a failure.
pub record WafEnv : Type 0 where
  pub handle : WafTrace → ℕ
  pub code : WafTrace → ℤ
  pub room : WafTrace → Bool

-- Byte-wise equality of strings.
unfoldable pub same_bytes : Bytes → Bytes → Bool
same_bytes [] [] = true
same_bytes (a ∷ as') (b ∷ bs) = a == b && same_bytes as' bs
same_bytes _ _ = false

abbrev pub same_type : RuleType → RuleType → Bool
same_type inline inline = true
same_type file file = true
same_type _ _ = false

-- The loop of `ngx_http_coraza_rules_equal`; arrays of different length are different.
unfoldable pub entries_equal : List RuleEntry → List RuleEntry → Bool
unfolding same_bytes
entries_equal [] [] = true
entries_equal (a ∷ as') (b ∷ bs) =
    (same_type a.kind b.kind && same_bytes a.text b.text) && entries_equal as' bs
entries_equal _ _ = false

unfoldable pub rules_equal : Rules → Rules → Bool
unfolding entries_equal
rules_equal a b = a.address == b.address || entries_equal a.entries b.entries

abbrev pub by_type : RuleType → Bytes → WafCall
by_type inline s = rules_add s
by_type file s = rules_add_file s

abbrev pub add_call : RuleEntry → WafCall
add_call e = by_type e.kind e.text

-- The loop that hands the rules to the engine's configuration; `true` if all were taken.
unfoldable pub add_rules : WafEnv → List RuleEntry → WafTrace → Bool × WafTrace
add_rules env [] t = (true, t)
add_rules env (e ∷ es) t =
    let t₁ = malloc (length e.text + 1) ∷ t in
    let t₂ = add_call e ∷ t₁ in
    let rest = add_rules env es t₂ in
    if not (env.room t₁) then (false, t₁) else if is_neg (env.code t₂) then (false, t₂) else rest

-- The handle that the configuration gives, with the configuration freed on every path.
unfoldable pub finish_waf : WafEnv → Bool × WafTrace → ℕ × WafTrace
finish_waf env (false, t) = (0, free_waf_config ∷ t)
finish_waf env (true, t) = (env.handle (new_waf ∷ t), free_waf_config ∷ new_waf ∷ t)

unfoldable pub build_waf : WafEnv → Rules → WafTrace → ℕ × WafTrace
build_waf env rules t =
    if not (has_entries rules)
    then (0, t)
    else if env.handle (new_waf_config ∷ t) == 0
    then (0, new_waf_config ∷ t)
    else finish_waf env (add_rules env rules.entries (new_waf_config ∷ t))

-- The WAF of the main configuration, an empty one if it has no rules.
unfoldable pub build_main : WafEnv → Rules → WafTrace → ℕ × WafTrace
build_main env rules t =
    if has_entries rules
    then build_waf env rules t
    else if env.handle (new_waf_config ∷ t) == 0
    then (0, new_waf_config ∷ t)
    else finish_waf env (true, new_waf_config ∷ t)

-- The first of the earlier locations that owns a WAF for the same rules.
unfoldable pub find_donor : Rules → List LocConf → Option ℕ
unfolding rules_equal
find_donor rules [] = none
find_donor rules (c ∷ cs) =
    if c.waf_owner && (not (c.waf == 0) && rules_equal c.rules rules)
    then some c.waf
    else find_donor rules cs

-- A location borrows a donor's handle, or builds its own.
unfoldable pub share : WafEnv → LocConf → WafTrace → Option ℕ → (LocConf × Bool) × WafTrace
share env c t (some w) = ((record c { waf = w; waf_owner = false }, true), t)
share env c t none =
    let (w, t') = build_waf env c.rules t in
    if w == 0
    then ((record c { waf = 0 }, false), t')
    else ((record c { waf = w; waf_owner = true }, true), t')

-- A location's configuration after its turn, whether the worker goes on, and the calls.
unfoldable pub init_loc :
    WafEnv → MainConf → List LocConf → LocConf → WafTrace → (LocConf × Bool) × WafTrace
init_loc env m done c t =
    if not c.has_rules || not (has_entries c.rules)
    then ((c, true), t)
    else if c.rules.address == m.rules.address && not (m.waf == 0)
    then ((record c { waf = m.waf }, true), t)
    else share env c t (find_donor c.rules done)

-- The loop over the locations; `done` are those that had their turn.
unfoldable pub init_locs :
    WafEnv → MainConf → List LocConf → List LocConf → WafTrace → (List LocConf × Bool) × WafTrace
init_locs env m done [] t = ((done, true), t)
init_locs env m done (c ∷ cs) t =
    let ((c', on), t') = init_loc env m done c t in
    let rest = init_locs env m (done ++ (c' ∷ [])) cs t' in
    if on then rest else ((done ++ (c' ∷ cs), false), t')

-- `ngx_http_coraza_init_process` after the library is open: the main configuration as it leaves
-- it, whether the worker starts, and the calls.
unfoldable pub init_process : WafEnv → MainConf → WafTrace → (MainConf × Bool) × WafTrace
init_process env m t =
    let (w, t₁) = build_main env m.rules t in
    let m₁ = record m { waf = w } in
    let ((confs, on), t₂) = init_locs env m₁ [] m.loc_confs t₁ in
    if w == 0 then ((m₁, false), t₁) else ((record m₁ { loc_confs = confs }, on), t₂)

-- The first loop of `ngx_http_coraza_exit_process`.
unfoldable pub free_locs : ℕ → List LocConf → WafTrace → WafTrace
free_locs main [] t = t
free_locs main (c ∷ cs) t =
    free_locs main cs
      (if c.waf_owner && (not (c.waf == 0) && not (c.waf == main)) then free_waf c.waf ∷ t else t)

-- The second.
unfoldable pub clear_locs : List LocConf → List LocConf
clear_locs [] = []
clear_locs (c ∷ cs) = record c { waf = 0; waf_owner = false } ∷ clear_locs cs

unfoldable pub exit_process : MainConf → WafTrace → MainConf × WafTrace
exit_process m t =
    let t₁ = free_locs m.waf m.loc_confs t in
    (
      record m { waf = 0; loc_confs = clear_locs m.loc_confs },
      if m.waf == 0 then t₁ else free_waf m.waf ∷ t₁,
    )
