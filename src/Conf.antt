-- ===== src/Conf.antt =====
-- The location configurations of src/ngx_http_coraza_module.c: their creation and merge, and the
-- check that a location that turns the connector on has rules.
pub mod Merge
mod Examples
use coraza_nginx.Common.{
  ℕ, Bool, true, false, not, ◌&&◌, ◌||◌, ◌==◌, Option, none, some, List, [], ◌∷◌, ◌++◌,
  if◌then◌else◌,
}
use coraza_nginx.Pack.{Bytes}

pub data RuleType : Type 0 where
  inline file : RuleType

pub record RuleEntry : Type 0 where
  pub kind : RuleType
  pub text : Bytes

-- An `ngx_array_t` of rule entries; `address` is the pointer to it.
pub record Rules : Type 0 where
  pub address : ℕ
  pub entries : List RuleEntry

-- `none` is NGX_CONF_UNSET, or NGX_CONF_UNSET_PTR; the complex value of a transaction id is a
-- number, 0 for NULL.
pub record LocConf : Type 0 where
  pub waf : ℕ
  pub rules : Rules
  pub waf_owner : Bool
  pub enable : Option Bool
  pub has_rules : Bool
  pub delay_response_headers : Option Bool
  pub transaction_id : Option ℕ

pub record MainConf : Type 0 where
  pub waf : ℕ
  pub rules : Rules
  pub loc_confs : List LocConf
  pub rules_inline : ℕ
  pub rules_file : ℕ

-- A new configuration: whether the pool has room for it, and the address of a new array, if one
-- can be made.
unfoldable pub create_conf : Bool → Option ℕ → Option LocConf
create_conf false fresh = none
create_conf true none = none
create_conf true (some address) = some (record {
  waf = 0;
  rules = record { address = address; entries = [] };
  waf_owner = false;
  enable = none;
  has_rules = false;
  delay_response_headers = none;
  transaction_id = none;
})

-- `ngx_conf_merge_value`: the child's value if it is set, else the parent's, else the default.
abbrev pub merge_value {ℓ} : {A : Type ℓ} → Option A → Option A → A → Option A
merge_value (some x) parent default = some x
merge_value none (some y) default = some y
merge_value none none default = some default

abbrev pub has_entries : Rules → Bool
has_entries r = not (no_entries r.entries)
  where
    no_entries : List RuleEntry → Bool
    no_entries [] = true
    no_entries (e ∷ es) = false

-- The rules after the merge. `fresh` is the address of a new array, `none` if it cannot be made.
unfoldable pub merge_rules : Option ℕ → LocConf → LocConf → Option LocConf
merge_rules fresh p c =
    if has_entries p.rules
    then (if has_entries c.rules
        then with_array fresh
        else some (record c { rules = p.rules; has_rules = p.has_rules || c.has_rules }))
    else some c
  where
    with_array : Option ℕ → Option LocConf
    with_array none = none
    with_array (some a) = some (record c {
      rules = record { address = a; entries = p.rules.entries ++ c.rules.entries };
      has_rules = true;
    })

-- The merged child; the caller adds it to `loc_confs`.
unfoldable pub merge_conf : Option ℕ → LocConf → LocConf → Option LocConf
unfolding merge_rules
merge_conf fresh p c = merge_rules fresh p (record c {
  enable = merge_value c.enable p.enable false;
  delay_response_headers = merge_value c.delay_response_headers p.delay_response_headers true;
  transaction_id = merge_value c.transaction_id p.transaction_id 0;
})

abbrev pub is_on : LocConf → Bool
is_on c = go c.enable
  where
    go : Option Bool → Bool
    go none = false
    go (some b) = b

unfoldable pub any_on : List LocConf → Bool
any_on [] = false
any_on (c ∷ cs) = is_on c || any_on cs

-- The answer is whether the configuration is accepted; `http` is the configuration at http level.
unfoldable pub validate_rules : MainConf → LocConf → Bool
unfolding any_on
validate_rules m http =
    if not (m.rules_inline == 0) || not (m.rules_file == 0)
    then true
    else if is_on http
    then false
    else not (any_on m.loc_confs)
