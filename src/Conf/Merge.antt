-- ===== src/Conf/Merge.antt =====
-- What a merged location has.
use coraza_nginx.Common.{ℕ, ◌≡◌, ◌↔◌, true, false, Option, none, some, ◌++◌, append-nil, arith}
use coraza_nginx.Conf.{LocConf, merge_value, merge_conf, has_entries}

-- A configuration that says it has rules exactly if it has some.
abbrev pub RulesKnown : LocConf → Type 0
RulesKnown c = c.has_rules ≡ has_entries c.rules

-- A merge that has memory gives the parent's rules first and then the child's, in every one of its
-- cases, keeps the record whether there are rules, and does not touch the WAF handle or its
-- ownership; each flag is the child's own value, else the parent's, else the default (off for the
-- connector, on for the delay of the headers).
pub merge_conf-entries :
    (fresh : Option ℕ) (p c : LocConf) {m : LocConf}
    → merge_conf fresh p c ≡ some m
    → RulesKnown p
    → RulesKnown c
    → (m.rules.entries ≡ p.rules.entries ++ c.rules.entries)
      × RulesKnown m
      × (m.waf ≡ c.waf)
      × (m.waf_owner ≡ c.waf_owner)
      × (m.enable ≡ merge_value c.enable p.enable false)
      × (m.delay_response_headers
          ≡ merge_value c.delay_response_headers p.delay_response_headers true)
unfolding merge_conf
merge_conf-entries fresh p c e kp kc = ground (arith, append-nil p.rules.entries)

-- The merge fails only if both sides have rules and the new array cannot be made.
pub merge_conf-none :
    (fresh : Option ℕ) (p c : LocConf)
    → (merge_conf fresh p c ≡ none)
      ↔ ((fresh ≡ none) × (has_entries p.rules ≡ true) × (has_entries c.rules ≡ true))
unfolding merge_conf
merge_conf-none fresh p c = ground arith
