-- ===== src/Dl/Places.antt =====
-- That each static pointer of src/ngx_http_coraza_dl.c has a place of its own.
use coraza_nginx.Common.{ℕ, zero, suc, List, [], ◌∷◌, ◌==◌, ◌≡◌, refl, sym, ap, ◌∙◌, true, arith}
use coraza_nginx.Dl.{Symbol, place, table}

-- The pointer that the use at this place of a list sets.
pointer_at : List (Symbol × Symbol) → ℕ → Symbol
pointer_at [] i = Symbol.version_num
pointer_at ((p, name) ∷ rest) zero = p
pointer_at ((p, name) ∷ rest) (suc i) = pointer_at rest i

-- The symbol at a place.
symbol_at : ℕ → Symbol
symbol_at i = pointer_at table i

symbol_at-place : (x : Symbol) → symbol_at (place x) ≡ x
unfolding symbol_at pointer_at table place
symbol_at-place Symbol.new_waf_config = refl
symbol_at-place Symbol.rules_add = refl
symbol_at-place Symbol.rules_add_file = refl
symbol_at-place Symbol.free_waf_config = refl
symbol_at-place Symbol.new_waf = refl
symbol_at-place Symbol.free_waf = refl
symbol_at-place Symbol.free_string = refl
symbol_at-place Symbol.rules_count = refl
symbol_at-place Symbol.new_transaction = refl
symbol_at-place Symbol.new_transaction_with_id = refl
symbol_at-place Symbol.free_transaction = refl
symbol_at-place Symbol.intervention = refl
symbol_at-place Symbol.free_intervention = refl
symbol_at-place Symbol.process_connection = refl
symbol_at-place Symbol.process_uri = refl
symbol_at-place Symbol.add_request_header = refl
symbol_at-place Symbol.process_request_headers = refl
symbol_at-place Symbol.append_request_body = refl
symbol_at-place Symbol.process_request_body = refl
symbol_at-place Symbol.is_request_body_accessible = refl
symbol_at-place Symbol.add_response_header = refl
symbol_at-place Symbol.append_response_body = refl
symbol_at-place Symbol.process_response_body = refl
symbol_at-place Symbol.process_response_headers = refl
symbol_at-place Symbol.process_logging = refl
symbol_at-place Symbol.update_status_code = refl
symbol_at-place Symbol.is_response_body_processable = refl
symbol_at-place Symbol.add_request_headers = refl
symbol_at-place Symbol.add_response_headers = refl
symbol_at-place Symbol.version_num = refl

eq_nat : (m n : ℕ) → (m == n) ≡ true → m ≡ n
eq_nat m n e = ground arith

pub same_place : (x p : Symbol) → (place x == place p) ≡ true → x ≡ p
same_place x p e =
    sym (symbol_at-place x) ∙ ap symbol_at (eq_nat (place x) (place p) e) ∙ symbol_at-place p
