-- ===== src/Directives.antt =====
-- The directives of src/ngx_http_coraza_module.c, the main configuration, and the registration of
-- the handlers once the configuration is read.
pub mod Checked
pub mod Started
pub mod Files
pub mod Inspected
mod Examples
use coraza_nginx.Common.{
  ℕ, ◌+◌, Bool, true, false, not, ◌||◌, Option, none, some, List, [], ◌∷◌, ◌++◌, if◌then◌else◌,
}
use coraza_nginx.Pack.{Bytes}
use coraza_nginx.Scan.{Scan, rules_scan_init, rules_scan, rules_scan_done}
use coraza_nginx.Conf.{RuleType, RuleEntry, Rules, LocConf, MainConf, validate_rules}

-- What the reads of a rules file give: its chunks, and then the end or an error.
pub data Reads : Type 0 where
  at_end fails : Reads
  chunk : Bytes → Reads → Reads

-- The loop over the file. The answer is whether it is refused; what is read before an error only
-- counts if it is refused there.
unfoldable pub check_reads : Reads → Scan → Bool
check_reads at_end s = rules_scan_done s
check_reads fails s = false
check_reads (chunk p rest) s =
    let (t, bad) = rules_scan p s in let more = check_reads rest t in if bad then true else more

-- The path as it is stored, or `none` for NGX_CONF_ERROR. `full` is the path against the
-- configuration's prefix, and `file` is `none` if it cannot be opened.
unfoldable pub check_rules_file : Option Bytes → Option Reads → Option Bytes
check_rules_file none file = none
check_rules_file (some full) none = some full
check_rules_file (some full) (some reads) =
    if check_reads reads rules_scan_init then none else some full

-- Whether inline text is refused.
unfoldable pub is_refused_text : Bytes → Bool
is_refused_text text =
    let (s, bad) = rules_scan text rules_scan_init in if bad then true else rules_scan_done s

-- The entry at the end of the location's rules; `pushed` and `copied` say whether the pool had
-- room for it and for its text.
unfoldable pub push_entry : Bool → Bool → RuleEntry → LocConf → Option LocConf
push_entry pushed copied e c =
    if not pushed || not copied
    then none
    else some (record c {
      rules = record (c.rules) { entries = c.rules.entries ++ (e ∷ []) };
      has_rules = true;
    })

-- The configurations behind a directive that was taken.
abbrev pub with_loc : MainConf → Option LocConf → Option (MainConf × LocConf)
with_loc m none = none
with_loc m (some c) = some (m, c)

unfoldable pub set_rules : Bool → Bool → Bytes → MainConf × LocConf → Option (MainConf × LocConf)
unfolding push_entry
set_rules pushed copied text (m, c) =
    let e : RuleEntry = record { kind = RuleType.inline; text = text } in
    if is_refused_text text
    then none
    else with_loc (record m { rules_inline = m.rules_inline + 1 }) (push_entry pushed copied e c)

-- From the checked path on.
unfoldable pub add_rules_file :
    Bool → Bool → Option Bytes → MainConf × LocConf → Option (MainConf × LocConf)
unfolding push_entry
add_rules_file pushed copied none (m, c) = none
add_rules_file pushed copied (some path) (m, c) =
    let e : RuleEntry = record { kind = RuleType.file; text = path } in
    with_loc (record m { rules_file = m.rules_file + 1 }) (push_entry pushed copied e c)

unfoldable pub set_rules_file :
    Bool → Bool → Option Bytes → Option Reads → MainConf × LocConf → Option (MainConf × LocConf)
unfolding add_rules_file
set_rules_file pushed copied full file confs =
    add_rules_file pushed copied (check_rules_file full file) confs

-- `compiled` is the complex value, `none` if it does not compile.
unfoldable pub set_transaction_id :
    Bool → Option ℕ → MainConf × LocConf → Option (MainConf × LocConf)
set_transaction_id allocated none confs = none
set_transaction_id allocated (some compiled) (m, c) =
    if allocated then some (m, record c { transaction_id = some compiled }) else none

-- The directives that have a setter of the connector's own, each with what it finds.
pub data Directive : Type 0 where
  coraza_rules : Bool → Bool → Bytes → Directive
  coraza_rules_file : Bool → Bool → Option Bytes → Option Reads → Directive
  coraza_transaction_id : Bool → Option ℕ → Directive

unfoldable pub apply : Directive → MainConf × LocConf → Option (MainConf × LocConf)
apply (coraza_rules pushed copied text) confs = set_rules pushed copied text confs
apply (coraza_rules_file pushed copied full file) confs =
    set_rules_file pushed copied full file confs
apply (coraza_transaction_id allocated compiled) confs = set_transaction_id allocated compiled confs

-- The addresses are those of the two new arrays; the second is that of the list of locations.
unfoldable pub create_main_conf : Bool → Option ℕ → Bool → Option MainConf
create_main_conf false fresh listed = none
create_main_conf true none listed = none
create_main_conf true (some address) listed =
    if listed
    then some (record {
      waf = 0;
      rules = record { address = address; entries = [] };
      loc_confs = [];
      rules_inline = 0;
      rules_file = 0;
    })
    else none

-- The merge's push onto the list of locations.
unfoldable pub track : Bool → LocConf → MainConf → Option MainConf
track pushed c m = if pushed then some (record m { loc_confs = m.loc_confs ++ (c ∷ []) }) else none

-- The handlers of the phases, and the chains of filters, the top one first.
pub data Handler : Type 0 where
  rewrite_phase preaccess_phase log_phase header_phase body_phase : Handler
  foreign : ℕ → Handler

pub record Hooks : Type 0 where
  pub rewrite : List Handler
  pub preaccess : List Handler
  pub log : List Handler
  pub header_filters : List Handler
  pub body_filters : List Handler

-- Each filter goes in front of those that are there.
unfoldable pub header_filter_init : Hooks → Hooks
header_filter_init hooks = record hooks { header_filters = header_phase ∷ hooks.header_filters }

unfoldable pub body_filter_init : Hooks → Hooks
body_filter_init hooks = record hooks { body_filters = body_phase ∷ hooks.body_filters }

-- `ngx_http_coraza_init`, with the answers of the three pushes.
unfoldable pub init : Bool → Bool → Bool → MainConf → LocConf → Hooks → Option Hooks
init first second third m http hooks =
    if not (validate_rules m http) || (not first || (not second || not third))
    then none
    else some (
        body_filter_init (
          header_filter_init (record hooks {
            rewrite = hooks.rewrite ++ (rewrite_phase ∷ []);
            preaccess = hooks.preaccess ++ (preaccess_phase ∷ []);
            log = hooks.log ++ (log_phase ∷ []);
          })))
