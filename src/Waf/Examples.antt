-- ===== src/Waf/Examples.antt =====
-- Tests and witnesses of a worker's handles.
use coraza_nginx.Common.{
  ℕ, suc, ◌<◌, ◌≡◌, refl, inr, true, false, some, pos, List, [], ◌∷◌, length, ◌==◌, if◌then◌else◌,
  arith,
}
use coraza_nginx.Conf.{inline, RuleEntry, LocConf, MainConf}
use coraza_nginx.Waf.{
  WafEnv, WafTrace, new_waf_config, free_waf_config, new_waf, malloc, rules_add, rules_add_file,
  free_waf, same_bytes, entries_equal, rules_equal, add_rules, finish_waf, build_waf, build_main,
  find_donor, share, init_loc, init_locs, init_process, free_locs, exit_process,
}
use coraza_nginx.Waf.Turn.{built, freed, Fresh}
use coraza_nginx.Waf.Ownership.{worker-frees}
use coraza_nginx.Waf.Requested.{AllInspect, init_process-AllInspect}

-- An engine that gives out a new handle each time.
abbrev pub numbering : WafEnv
numbering = record { handle = length; code = λ t. pos 0; room = λ t. true }

built_later : (h : ℕ) (t : WafTrace) → length t < h → built numbering h t ≡ 0
built_later h [] l = refl
built_later h (new_waf ∷ t) l = ground (arith, built_later h t)
built_later h (new_waf_config ∷ t) l = built_later h t (omega arith)
built_later h (free_waf_config ∷ t) l = built_later h t (omega arith)
built_later h (malloc n ∷ t) l = built_later h t (omega arith)
built_later h (rules_add b ∷ t) l = built_later h t (omega arith)
built_later h (rules_add_file b ∷ t) l = built_later h t (omega arith)
built_later h (free_waf w ∷ t) l = built_later h t (omega arith)

pub numbering-Fresh : Fresh numbering
numbering-Fresh = record { unused = λ t. inr (built_later (suc (length t)) t (omega arith)) }

abbrev rule : ℕ → RuleEntry
rule c = record { kind = inline; text = c ∷ [] }

abbrev location : ℕ → ℕ → LocConf
location address c = record {
  waf = 0;
  rules = record { address = address; entries = rule c ∷ [] };
  waf_owner = false;
  enable = some true;
  has_rules = true;
  delay_response_headers = some true;
  transaction_id = some 0;
}

-- The first two locations have the same rules in two arrays, and the third has others.
abbrev pub three_locations : MainConf
three_locations = record {
  waf = 0;
  rules = record { address = 1; entries = [] };
  loc_confs = location 2 97 ∷ location 3 97 ∷ location 4 98 ∷ [];
  rules_inline = 3;
  rules_file = 0;
}

-- The first location's handle, which the second borrows.
built_once :
    built numbering 7
      (exit_process
        (init_process numbering three_locations []).0.0
        (init_process numbering three_locations []).1).1
    ≡ 1
unfolding init_process init_locs init_loc share find_donor rules_equal entries_equal same_bytes
    build_main build_waf add_rules finish_waf exit_process free_locs
built_once = refl

worker-frees_example :
    let ((m', on), t) = init_process numbering three_locations [] in
    freed 7 (exit_process m' t).1 ≡ built numbering 7 (exit_process m' t).1
worker-frees_example =
    worker-frees numbering 7 three_locations numbering-Fresh (λ e. ground (arith, e))
      ((refl, refl), ((refl, refl), ((refl, refl), tt)))

-- The arrays of the three locations and of the main configuration.
abbrev arrays : ℕ → List RuleEntry
arrays a = if a == 1 then [] else if a == 4 then rule 98 ∷ [] else rule 97 ∷ []

three_start : (init_process numbering three_locations []).0.1 ≡ true
unfolding init_process init_locs init_loc share find_donor rules_equal entries_equal same_bytes
    build_main build_waf add_rules finish_waf
three_start = refl

init_process-AllInspect_example :
    let ((m', on), t') = init_process numbering three_locations [] in
    AllInspect numbering m' three_locations.loc_confs m'.loc_confs t'
init_process-AllInspect_example =
    init_process-AllInspect numbering arrays three_locations [] numbering-Fresh
      ((refl, refl), ((refl, refl), ((refl, refl), tt))) refl (refl, (refl, (refl, tt))) three_start
