-- ===== src/Directives/Checked.antt =====
-- What every location's configuration has, however directives and merges have made it
-- (src/ngx_http_coraza_module.c).
use coraza_nginx.Common.{
  ℕ, ◌+◌, ◌≡◌, refl, sym, subst, ◌∙◌, inl, inr, Bool, true, false, Option, none, some, List, [],
  ◌∷◌, ◌++◌, Bool-cases, arith,
}
use coraza_nginx.Pack.{Bytes}
use coraza_nginx.Conf.{RuleType, RuleEntry, LocConf, MainConf, has_entries, create_conf, merge_conf}
use coraza_nginx.Conf.Merge.{RulesKnown, merge_conf-entries}
use coraza_nginx.Directives.{
  Directive, coraza_rules, coraza_rules_file, coraza_transaction_id, apply, is_refused_text,
  push_entry, set_rules, add_rules_file, set_rules_file, set_transaction_id, with_loc,
  check_rules_file, track,
}

-- Inline text that the engine could not take is not among these.
abbrev pub IsScanned : List RuleEntry → Type 0
IsScanned [] = Unit {0}
IsScanned (e ∷ es) = IsScannedEntry e.kind e.text × IsScanned es
  where
    IsScannedEntry : RuleType → Bytes → Type 0
    IsScannedEntry RuleType.inline text = is_refused_text text ≡ false
    IsScannedEntry RuleType.file path = Unit {0}

-- A location's configuration while the main one is `m`, as the reading of the configuration file
-- makes them; other locations' directives and merges change the main one too.
pub data Built : MainConf → LocConf → Type 0 where
  created :
      {c : LocConf} (m : MainConf) (room : Bool) (fresh : Option ℕ)
      → create_conf room fresh ≡ some c
      → Built m c
  directed :
      {n : MainConf} {d : LocConf} (m : MainConf) (c : LocConf) (x : Directive)
      → Built m c
      → apply x (m, c) ≡ some (n, d)
      → Built n d
  elsewhere :
      {n : MainConf} {c : LocConf} (m : MainConf) (e d : LocConf) (x : Directive)
      → Built m c
      → apply x (m, e) ≡ some (n, d)
      → Built n c
  merged :
      {m : MainConf} {d : LocConf} (p c : LocConf) (fresh : Option ℕ)
      → Built m p
      → Built m c
      → merge_conf fresh p c ≡ some d
      → Built m d
  tracked :
      {n : MainConf} {c : LocConf} (m : MainConf) (e : LocConf) (pushed : Bool)
      → Built m c
      → track pushed e m ≡ some n
      → Built n c

IsScanned-append : (xs ys : List RuleEntry) → IsScanned xs → IsScanned ys → IsScanned (xs ++ ys)
IsScanned-append [] ys f g = g
IsScanned-append (x ∷ xs) ys f g = (f.0, IsScanned-append xs ys f.1 g)

-- The configuration knows whether it has rules, its inline text is scanned, and it has no WAF yet.
pub record Checked (c : LocConf) : Type 0 where
  pub knows : RulesKnown c
  pub scanned : IsScanned c.rules.entries
  pub no_waf : c.waf ≡ 0
  pub no_owner : c.waf_owner ≡ false

has_entries-push :
    (a : ℕ) (es : List RuleEntry) (e : RuleEntry)
    → has_entries (record { address = a; entries = es ++ (e ∷ []) }) ≡ true
has_entries-push a [] e = refl
has_entries-push a (x ∷ xs) e = refl

push_entry-Checked :
    (pushed copied : Bool) (e : RuleEntry) (c : LocConf) {d : LocConf}
    → IsScanned (e ∷ [])
    → Checked c
    → push_entry pushed copied e c ≡ some d
    → Checked d
unfolding push_entry
push_entry-Checked pushed copied e c f k p = ground (
  arith,
  has_entries-push c.rules.address c.rules.entries e,
  IsScanned-append c.rules.entries (e ∷ []) k.scanned f,
)

with_loc-some :
    (m n : MainConf) (o : Option LocConf) (d : LocConf) → with_loc m o ≡ some (n, d) → o ≡ some d
with_loc-some m n none d p = absurd (ground arith)
with_loc-some m n (some c) d p = ground arith

rules-Checked :
    (pushed copied : Bool) (text : Bytes) (m n : MainConf) (c d : LocConf)
    → Checked c
    → set_rules pushed copied text (m, c) ≡ some (n, d)
    → Checked d
unfolding set_rules
rules-Checked pushed copied text m n c d k p =
    let e : RuleEntry = record { kind = RuleType.inline; text = text } in
    let m' : MainConf = record m { rules_inline = m.rules_inline + 1 } in
    elim (Bool-cases (is_refused_text text)) [
      | inl bad ↦ absurd (ground (arith, bad))
      | inr good ↦
          push_entry-Checked pushed copied e c (good, tt) k
            (with_loc-some m' n (push_entry pushed copied e c) d (ground (arith, good)))
    ]

rules_file-Checked :
    (pushed copied : Bool) (path : Option Bytes) (m n : MainConf) (c d : LocConf)
    → Checked c
    → add_rules_file pushed copied path (m, c) ≡ some (n, d)
    → Checked d
unfolding add_rules_file
rules_file-Checked pushed copied none m n c d k p = absurd (ground arith)
rules_file-Checked pushed copied (some path) m n c d k p =
    let e : RuleEntry = record { kind = RuleType.file; text = path } in
    let m' : MainConf = record m { rules_file = m.rules_file + 1 } in
    push_entry-Checked pushed copied e c (tt, tt) k
      (with_loc-some m' n (push_entry pushed copied e c) d p)

transaction_id-Checked :
    (allocated : Bool) (compiled : Option ℕ) (m n : MainConf) (c d : LocConf)
    → Checked c
    → set_transaction_id allocated compiled (m, c) ≡ some (n, d)
    → Checked d
unfolding set_transaction_id
transaction_id-Checked allocated none m n c d k p = absurd (ground arith)
transaction_id-Checked allocated (some v) m n c d k p = ground arith

apply-Checked :
    (x : Directive) (m n : MainConf) (c d : LocConf)
    → Checked c
    → apply x (m, c) ≡ some (n, d)
    → Checked d
unfolding apply set_rules_file
apply-Checked (coraza_rules pushed copied text) m n c d k p =
    rules-Checked pushed copied text m n c d k p
apply-Checked (coraza_rules_file pushed copied full file) m n c d k p =
    rules_file-Checked pushed copied (check_rules_file full file) m n c d k p
apply-Checked (coraza_transaction_id allocated compiled) m n c d k p =
    transaction_id-Checked allocated compiled m n c d k p

create_conf-Checked :
    (room : Bool) (fresh : Option ℕ) (c : LocConf) → create_conf room fresh ≡ some c → Checked c
unfolding create_conf
create_conf-Checked false fresh c p = absurd (ground arith)
create_conf-Checked true none c p = absurd (ground arith)
create_conf-Checked true (some a) c p = ground arith

merge_conf-Checked :
    (fresh : Option ℕ) (p c d : LocConf)
    → Checked p
    → Checked c
    → merge_conf fresh p c ≡ some d
    → Checked d
merge_conf-Checked fresh p c d kp kc e =
    let (entries, knows, waf, owner, on, delay) =
      merge_conf-entries fresh p c e kp.knows kc.knows in
    record {
      knows = knows;
      scanned =
          subst IsScanned (sym entries)
            (IsScanned-append p.rules.entries c.rules.entries kp.scanned kc.scanned);
      no_waf = waf ∙ kc.no_waf;
      no_owner = owner ∙ kc.no_owner;
    }

-- Whatever directives and merges have made a location's configuration, inherited rules included:
-- each of its inline rules has passed the scan, it says that it has rules exactly if it has some,
-- and it has no WAF and owns none when the workers start.
pub Built-Checked : {m : MainConf} {c : LocConf} → Built m c → Checked c
Built-Checked (created {c = c} m room fresh e) = create_conf-Checked room fresh c e
Built-Checked (directed {n = n} {d = d} m c x b e) = apply-Checked x m n c d (Built-Checked b) e
Built-Checked (elsewhere m e d x b p) = Built-Checked b
Built-Checked (merged {d = d} p c fresh bp bc e) =
    merge_conf-Checked fresh p c d (Built-Checked bp) (Built-Checked bc) e
Built-Checked (tracked m e pushed b p) = Built-Checked b
