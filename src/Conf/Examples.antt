-- ===== src/Conf/Examples.antt =====
-- Tests and witnesses of the merge.
use coraza_nginx.Common.{ℕ, ◌≡◌, ◌↔◌, refl, true, false, Option, none, some, [], ◌∷◌, ◌++◌}
use coraza_nginx.Conf.{RuleEntry, inline, file, LocConf, merge_value, has_entries, merge_conf}
use coraza_nginx.Conf.Merge.{RulesKnown, merge_conf-entries, merge_conf-none}

abbrev inline_a : RuleEntry
inline_a = record { kind = inline; text = 97 ∷ [] }

abbrev file_b : RuleEntry
file_b = record { kind = file; text = 98 ∷ [] }

-- A configuration with one rule, that leaves its flags unset.
abbrev with_rule : ℕ → RuleEntry → LocConf
with_rule address e = record {
  waf = 0;
  rules = record { address = address; entries = e ∷ [] };
  waf_owner = false;
  enable = none;
  has_rules = true;
  delay_response_headers = none;
  transaction_id = none;
}

abbrev no_array : Option ℕ
no_array = none

abbrev outer : LocConf
outer = record (with_rule 1 inline_a) { enable = some true }

abbrev merged : LocConf
merged = record {
  waf = 0;
  rules = record { address = 3; entries = inline_a ∷ file_b ∷ [] };
  waf_owner = false;
  enable = some true;
  has_rules = true;
  delay_response_headers = some true;
  transaction_id = some 0;
}

merge_two : merge_conf (some 3) outer (with_rule 2 file_b) ≡ some merged
unfolding merge_conf
merge_two = refl

merge_conf-entries_example :
    (merged.rules.entries ≡ outer.rules.entries ++ (with_rule 2 file_b).rules.entries)
    × RulesKnown merged
    × (merged.waf ≡ (with_rule 2 file_b).waf)
    × (merged.waf_owner ≡ (with_rule 2 file_b).waf_owner)
    × (merged.enable ≡ merge_value (with_rule 2 file_b).enable outer.enable false)
    × (merged.delay_response_headers
        ≡ merge_value (with_rule 2 file_b).delay_response_headers outer.delay_response_headers true)
merge_conf-entries_example =
    merge_conf-entries (some 3) outer (with_rule 2 file_b) merge_two refl refl

merge_conf-none_example : (merge_conf no_array outer (with_rule 2 file_b) ≡ none) ↔ (
    (no_array ≡ none)
    × (has_entries outer.rules ≡ true)
    × (has_entries (with_rule 2 file_b).rules ≡ true))
merge_conf-none_example = merge_conf-none no_array outer (with_rule 2 file_b)
