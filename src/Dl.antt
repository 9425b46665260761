-- ===== src/Dl.antt =====
-- src/ngx_http_coraza_dl.c: libcoraza is opened in each worker, and each call goes through a pointer
-- that was set then.
pub mod Places
pub mod Loaded
pub mod Opens
pub mod Examples
use coraza_nginx.Common.{
  ℕ, suc, ◌==◌, ltb, ℤ, pos, negsuc, Bool, true, false, ngx_ok, ngx_error, Option, none, some, List,
  [], ◌∷◌, if◌then◌else◌,
}

-- The functions of libcoraza, `coraza_new_waf_config` and so on. Each has a static pointer of its
-- own, `dl_new_waf_config` and so on.
pub data Symbol : Type 0 where
  new_waf_config rules_add rules_add_file : Symbol
  free_waf_config new_waf free_waf : Symbol
  free_string rules_count new_transaction : Symbol
  new_transaction_with_id free_transaction intervention : Symbol
  free_intervention process_connection process_uri : Symbol
  add_request_header process_request_headers append_request_body : Symbol
  process_request_body is_request_body_accessible add_response_header : Symbol
  append_response_body process_response_body process_response_headers : Symbol
  process_logging update_status_code is_response_body_processable : Symbol
  add_request_headers add_response_headers version_num : Symbol

-- The place of a pointer among the static ones.
unfoldable pub place : Symbol → ℕ
place new_waf_config = 0
place rules_add = 1
place rules_add_file = 2
place free_waf_config = 3
place new_waf = 4
place free_waf = 5
place free_string = 6
place rules_count = 7
place new_transaction = 8
place new_transaction_with_id = 9
place free_transaction = 10
place intervention = 11
place free_intervention = 12
place process_connection = 13
place process_uri = 14
place add_request_header = 15
place process_request_headers = 16
place append_request_body = 17
place process_request_body = 18
place is_request_body_accessible = 19
place add_response_header = 20
place append_response_body = 21
place process_response_body = 22
place process_response_headers = 23
place process_logging = 24
place update_status_code = 25
place is_response_body_processable = 26
place add_request_headers = 27
place add_response_headers = 28
place version_num = 29

-- What the dynamic loader does: the handle of the library, if it can be opened, the address of a
-- symbol under a handle, and the number that the library's own `coraza_version_num` answers.
pub record Library : Type 0 where
  pub file : Option ℕ
  pub sym : ℕ → Symbol → Option ℕ
  pub version : ℤ

-- The static variables, and how often the loader was asked to open and to close.
pub record Loader : Type 0 where
  pub handle : Option ℕ
  pub pointers : Symbol → Option ℕ
  pub opens : ℕ
  pub closes : ℕ

abbrev pub set_pointer : Symbol → Option ℕ → (Symbol → Option ℕ) → Symbol → Option ℕ
set_pointer p address old x = if place x == place p then address else old x

-- `dynlib_close`, and the handle is forgotten.
abbrev pub shut : Loader → Loader
shut l = record l { handle = none; closes = suc l.closes }

-- What DL_SYM does with the loader's answer.
unfoldable pub bind : Symbol → Option ℕ → Loader → Bool × Loader
bind p none l = (false, shut (record l { pointers = set_pointer p none l.pointers }))
bind p (some address) l = (true, record l { pointers = set_pointer p (some address) l.pointers })

-- A run of DL_SYM, each with the pointer and the symbol.
unfoldable pub bind_all : Library → ℕ → List (Symbol × Symbol) → Loader → Bool × Loader
bind_all lib h [] l = (true, l)
bind_all lib h ((p, name) ∷ rest) l =
    let (bound, l') = bind p (lib.sym h name) l in
    let more = bind_all lib h rest l' in if bound then more else (false, l')

-- The uses of DL_SYM in `ngx_http_coraza_dl_open`.
unfoldable pub table : List (Symbol × Symbol)
table =
    (new_waf_config, new_waf_config)
    ∷ (rules_add, rules_add)
    ∷ (rules_add_file, rules_add_file)
    ∷ (free_waf_config, free_waf_config)
    ∷ (new_waf, new_waf)
    ∷ (free_waf, free_waf)
    ∷ (free_string, free_string)
    ∷ (rules_count, rules_count)
    ∷ (new_transaction, new_transaction)
    ∷ (new_transaction_with_id, new_transaction_with_id)
    ∷ (free_transaction, free_transaction)
    ∷ (intervention, intervention)
    ∷ (free_intervention, free_intervention)
    ∷ (process_connection, process_connection)
    ∷ (process_uri, process_uri)
    ∷ (add_request_header, add_request_header)
    ∷ (process_request_headers, process_request_headers)
    ∷ (append_request_body, append_request_body)
    ∷ (process_request_body, process_request_body)
    ∷ (is_request_body_accessible, is_request_body_accessible)
    ∷ (add_response_header, add_response_header)
    ∷ (append_response_body, append_response_body)
    ∷ (process_response_body, process_response_body)
    ∷ (process_response_headers, process_response_headers)
    ∷ (process_logging, process_logging)
    ∷ (update_status_code, update_status_code)
    ∷ (is_response_body_processable, is_response_body_processable)
    ∷ (add_request_headers, add_request_headers)
    ∷ (add_response_headers, add_response_headers)
    ∷ (version_num, version_num)
    ∷ []

-- `version < 10700`.
abbrev pub is_too_old : ℤ → Bool
is_too_old (pos n) = ltb n 10700
is_too_old (negsuc n) = true

unfoldable pub check_version : ℤ → Bool × Loader → ℤ × Loader
check_version version (false, l) = (ngx_error, l)
check_version version (true, l) = if is_too_old version then (ngx_error, shut l) else (ngx_ok, l)

-- From `dynlib_open` on.
unfoldable pub load : Library → Option ℕ → Loader → ℤ × Loader
load lib none l = (ngx_error, l)
load lib (some h) l =
    check_version lib.version
      (bind_all lib h table (record l { handle = some h; opens = suc l.opens }))

abbrev pub open_once : Library → Option ℕ → Loader → ℤ × Loader
open_once lib none l = load lib lib.file l
open_once lib (some h) l = (ngx_ok, l)

unfoldable pub dl_open : Library → Loader → ℤ × Loader
unfolding load
dl_open lib l = open_once lib l.handle l

-- The library stays open until the process ends.
unfoldable pub dl_close : Loader → Loader
dl_close l = l

-- A wrapper hands its arguments to what its pointer denotes; `none` is a call through NULL.
unfoldable pub wrapper : {A B : Type 0} → (ℕ → A → B) → Symbol → Loader → A → Option B
wrapper run x l args = elim (l.pointers x) [ none ↦ none | some address ↦ some (run address args) ]

-- `coraza_free_string`: `none` in the argument is the NULL string, and an answer `some none` that
-- nothing is called.
unfoldable pub free_string_wrapper :
    {A B : Type 0} → (ℕ → A → B) → Loader → Option A → Option (Option B)
unfolding wrapper
free_string_wrapper run l none = some none
free_string_wrapper run l (some s) = elim (wrapper run free_string l s) [
  | none ↦ none
  | some b ↦ some (some b)
]
