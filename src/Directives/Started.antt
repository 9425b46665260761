-- ===== src/Directives/Started.antt =====
-- When the configuration is accepted (src/ngx_http_coraza_module.c).
use coraza_nginx.Common.{
  ℕ, suc, ◌+◌, ◌≤◌, ◌≡◌, ◌⊎◌, inl, Bool, true, false, Option, none, some, arith,
}
use coraza_nginx.Pack.{Bytes}
use coraza_nginx.Conf.{
  RuleType, RuleEntry, LocConf, MainConf, has_entries, create_conf, merge_conf, validate_rules,
  is_on, any_on,
}
use coraza_nginx.Directives.{
  Directive, coraza_rules, coraza_rules_file, coraza_transaction_id, apply, push_entry, set_rules,
  add_rules_file, set_rules_file, set_transaction_id, with_loc, check_rules_file, track, Hooks,
  init,
}
use coraza_nginx.Directives.Checked.{Built, created, directed, elsewhere, merged, tracked}

-- Rules that were accepted so far.
abbrev counted : MainConf → ℕ
counted m = m.rules_inline + m.rules_file

-- A location with rules has had them counted.
IsCounted : MainConf → LocConf → Type 0
IsCounted m c = (has_entries c.rules ≡ false) ⊎ (1 ≤ counted m)

with_loc-counted :
    (m n : MainConf) (o : Option LocConf) (d : LocConf) → with_loc m o ≡ some (n, d) → m ≡ n
with_loc-counted m n none d p = absurd (ground arith)
with_loc-counted m n (some c) d p = ground arith

add_rules_file-counted :
    (pushed copied : Bool) (path : Option Bytes) (m n : MainConf) (c d : LocConf)
    → add_rules_file pushed copied path (m, c) ≡ some (n, d)
    → counted n ≡ suc (counted m)
unfolding add_rules_file
add_rules_file-counted pushed copied none m n c d p = absurd (ground arith)
add_rules_file-counted pushed copied (some path) m n c d p =
    let e : RuleEntry = record { kind = RuleType.file; text = path } in
    let m' : MainConf = record m { rules_file = m.rules_file + 1 } in
    ground (arith, with_loc-counted m' n (push_entry pushed copied e c) d)

-- A directive that is taken counts its rule, or leaves the rules alone.
apply-counted :
    (x : Directive) (m n : MainConf) (c d : LocConf)
    → apply x (m, c) ≡ some (n, d)
    → (counted n ≡ suc (counted m)) ⊎ ((counted n ≡ counted m) × (d.rules ≡ c.rules))
unfolding apply set_rules set_rules_file add_rules_file set_transaction_id
apply-counted (coraza_rules pushed copied text) m n c d p =
    let e : RuleEntry = record { kind = RuleType.inline; text = text } in
    let m' : MainConf = record m { rules_inline = m.rules_inline + 1 } in
    ground (arith, with_loc-counted m' n (push_entry pushed copied e c) d)
apply-counted (coraza_rules_file pushed copied full file) m n c d p =
    inl (add_rules_file-counted pushed copied (check_rules_file full file) m n c d p)
apply-counted (coraza_transaction_id allocated none) m n c d p = absurd (ground arith)
apply-counted (coraza_transaction_id allocated (some v)) m n c d p = ground arith

created-IsCounted :
    (m : MainConf) (room : Bool) (fresh : Option ℕ) (c : LocConf)
    → create_conf room fresh ≡ some c
    → IsCounted m c
unfolding create_conf IsCounted
created-IsCounted m false fresh c p = absurd (ground arith)
created-IsCounted m true none c p = absurd (ground arith)
created-IsCounted m true (some a) c p = ground arith

merged-IsCounted :
    (m : MainConf) (fresh : Option ℕ) (p c d : LocConf)
    → IsCounted m p
    → IsCounted m c
    → merge_conf fresh p c ≡ some d
    → IsCounted m d
unfolding merge_conf IsCounted
merged-IsCounted m fresh p c d kp kc e = ground arith

Built-IsCounted : {m : MainConf} {c : LocConf} → Built m c → IsCounted m c
unfolding IsCounted track
Built-IsCounted (created {c = c} m room fresh e) = created-IsCounted m room fresh c e
Built-IsCounted (directed {n = n} {d = d} m c x b e) =
    ground (arith, apply-counted x m n c d e, Built-IsCounted b)
Built-IsCounted (elsewhere {n = n} m e d x b p) =
    ground (arith, apply-counted x m n e d p, Built-IsCounted b)
Built-IsCounted (merged {m = m} {d = d} p c fresh bp bc e) =
    merged-IsCounted m fresh p c d (Built-IsCounted bp) (Built-IsCounted bc) e
Built-IsCounted (tracked m e pushed b p) = ground (arith, Built-IsCounted b)

-- Where the pool has room for the handlers, a configuration that has been read is refused at its
-- end only if the http level or a location turns the connector on and no location whatsoever,
-- however its rules were set or inherited, has any: one with a rule anywhere starts.
pub init-Built :
    {m : MainConf} {c : LocConf} (http : LocConf) (hooks : Hooks)
    → Built m c
    → init true true true m http hooks ≡ none
    → (has_entries c.rules ≡ false) × ((is_on http ≡ true) ⊎ (any_on m.loc_confs ≡ true))
unfolding init validate_rules IsCounted
init-Built http hooks b e = ground (arith, Built-IsCounted b)
