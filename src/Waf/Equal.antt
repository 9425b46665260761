-- ===== src/Waf/Equal.antt =====
-- When two rules arrays are taken for the same.
use coraza_nginx.Common.{◌≡◌, ◌↔◌, true, List, [], ◌∷◌, ◌&&◌, arith}
use coraza_nginx.Pack.{Bytes}
use coraza_nginx.Conf.{RuleEntry, Rules}
use coraza_nginx.Waf.{same_bytes, same_type, entries_equal, rules_equal}

same_bytes_iff : (a b : Bytes) → (same_bytes a b ≡ true) ↔ (a ≡ b)
unfolding same_bytes
same_bytes_iff [] [] = ground arith
same_bytes_iff [] (b ∷ bs) = ground arith
same_bytes_iff (a ∷ as') [] = ground arith
same_bytes_iff (a ∷ as') (b ∷ bs) = ground (arith, same_bytes_iff as' bs)

same_entry_iff :
    (a b : RuleEntry) → ((same_type a.kind b.kind && same_bytes a.text b.text) ≡ true) ↔ (a ≡ b)
same_entry_iff a b = ground (arith, same_bytes_iff a.text b.text)

pub entries_equal_iff : (as' bs : List RuleEntry) → (entries_equal as' bs ≡ true) ↔ (as' ≡ bs)
unfolding entries_equal
entries_equal_iff [] [] = ground arith
entries_equal_iff [] (b ∷ bs) = ground arith
entries_equal_iff (a ∷ as') [] = ground arith
entries_equal_iff (a ∷ as') (b ∷ bs) = ground (arith, same_entry_iff a b, entries_equal_iff as' bs)

-- Two arrays are taken for the same exactly if they hold the same rules in the same order, type
-- and text of each; the shortcut by address agrees where one address holds
-- one array.
pub rules_equal_iff :
    (a b : Rules)
    → (a.address ≡ b.address → a.entries ≡ b.entries)
    → (rules_equal a b ≡ true) ↔ (a.entries ≡ b.entries)
unfolding rules_equal
rules_equal_iff a b one = ground (arith, entries_equal_iff a.entries b.entries)
