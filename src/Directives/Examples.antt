-- ===== src/Directives/Examples.antt =====
-- Tests and witnesses of the directives.
use coraza_nginx.Common.{
  ◌≡◌, ◌⊎◌, refl, if◌then◌else◌, true, false, none, some, ℕ, List, [], ◌∷◌, ◌==◌,
}
use coraza_nginx.Conf.{
  RuleType, RuleEntry, LocConf, MainConf, has_entries, create_conf, is_on, any_on, validate_rules,
}
use coraza_nginx.Scan.{rules_scan_done, rules_scan_eol}
use coraza_nginx.Directives.{
  Directive, coraza_rules_file, Reads, apply, set_rules_file, add_rules_file, check_rules_file,
  check_reads, push_entry, track, create_main_conf, Hooks, init, is_refused_text,
}
use coraza_nginx.Waf.{
  init_process, init_locs, init_loc, share, find_donor, rules_equal, entries_equal, same_bytes,
  build_main, build_waf, add_rules, finish_waf,
}
use coraza_nginx.Waf.Examples.{numbering, numbering-Fresh}
use coraza_nginx.Waf.Requested.{AllInspect}
use coraza_nginx.Directives.Inspected.{
  Reading, begun, directed, listed, AllScanned, Reading-AllInspect,
}
use coraza_nginx.Directives.Checked.{Built, created, Checked, Built-Checked}
use coraza_nginx.Directives.Checked
use coraza_nginx.Scan.Chunks.{joined}
use coraza_nginx.Directives.Files.{reads_of, check_rules_file-text}
use coraza_nginx.Directives.Started.{init-Built}

abbrev main : MainConf
main = record {
  waf = 0;
  rules = record { address = 1; entries = [] };
  loc_confs = [];
  rules_inline = 0;
  rules_file = 0;
}

abbrev empty : LocConf
empty = record {
  waf = 0;
  rules = record { address = 2; entries = [] };
  waf_owner = false;
  enable = none;
  has_rules = false;
  delay_response_headers = none;
  transaction_id = none;
}

empty_created : create_conf true (some 2) ≡ some empty
unfolding create_conf
empty_created = refl

-- An empty file "r".
abbrev file_directive : Directive
file_directive = coraza_rules_file true true (some (114 ∷ [])) (some Reads.at_end)

abbrev with_file : LocConf
with_file = record empty {
  rules = record { address = 2; entries = record { kind = RuleType.file; text = 114 ∷ [] } ∷ [] };
  has_rules = true;
}

abbrev main_counted : MainConf
main_counted = record main { rules_file = 1 }

file_applied : apply file_directive (main, empty) ≡ some (main_counted, with_file)
unfolding apply set_rules_file add_rules_file check_rules_file check_reads push_entry
    rules_scan_done rules_scan_eol
file_applied = refl

with_file-Built : Built main_counted with_file
with_file-Built =
    Checked.Built.directed main empty file_directive (created main true (some 2) empty_created)
      file_applied

Built-Checked_example : Checked with_file
Built-Checked_example = Built-Checked with_file-Built

-- A configuration with the directive in one location.
abbrev one_location : MainConf
one_location = record main_counted { loc_confs = with_file ∷ [] }

main_begun : create_main_conf true (some 1) true ≡ some main
unfolding create_main_conf
main_begun = refl

with_file_tracked : track true with_file main_counted ≡ some one_location
unfolding track
with_file_tracked = refl

one_location-Reading : Reading one_location
one_location-Reading =
    listed main_counted with_file true
      (directed main empty file_directive (begun true true (some 1) main_begun) file_applied)
      with_file-Built with_file_tracked

-- The arrays of the main configuration and of the location.
abbrev heap : ℕ → List RuleEntry
heap a = if a == 2 then with_file.rules.entries else []

one_start : (init_process numbering one_location []).0.1 ≡ true
unfolding init_process init_locs init_loc share find_donor rules_equal entries_equal same_bytes
    build_main build_waf add_rules finish_waf
one_start = refl

Reading-AllInspect_example :
    let ((m', on), t') = init_process numbering one_location [] in
    AllInspect numbering m' one_location.loc_confs m'.loc_confs t'
    × AllScanned one_location.loc_confs
    × (one_location.rules.entries ≡ [])
Reading-AllInspect_example =
    Reading-AllInspect numbering heap [] one_location-Reading numbering-Fresh refl (refl, tt)
      one_start

-- The http level turns the connector on, and there is no rule.
abbrev http_on : LocConf
http_on = record empty { enable = some true }

abbrev no_hooks : Hooks
no_hooks = record { rewrite = []; preaccess = []; log = []; header_filters = []; body_filters = [] }

not_started : init true true true main http_on no_hooks ≡ none
unfolding init validate_rules
not_started = refl

init-Built_example :
    (has_entries empty.rules ≡ false) × ((is_on http_on ≡ true) ⊎ (any_on main.loc_confs ≡ true))
init-Built_example =
    init-Built http_on no_hooks (created main true (some 2) empty_created) not_started

check_rules_file-text_example :
    check_rules_file (some (114 ∷ [])) (some (reads_of ((97 ∷ []) ∷ (98 ∷ 10 ∷ []) ∷ [])))
    ≡ (if is_refused_text (joined ((97 ∷ []) ∷ (98 ∷ 10 ∷ []) ∷ [])) then none else some (114 ∷ []))
check_rules_file-text_example = check_rules_file-text (114 ∷ []) ((97 ∷ []) ∷ (98 ∷ 10 ∷ []) ∷ [])
