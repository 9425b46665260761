-- ===== src/Dl/Loaded.antt =====
-- The pointers into libcoraza (src/ngx_http_coraza_dl.c) once it is open, and the opens and closes.
use coraza_nginx.Common.{
  ℕ, suc, ◌==◌, ◌≡◌, refl, ap, subst, ◌∙◌, ◌⊎◌, inl, inr, Bool, true, false, ◌||◌, Option, none,
  some, List, [], ◌∷◌, Bool-cases, Option-cases, arith,
}
use coraza_nginx.Dl.{Symbol, place, Library, Loader, set_pointer, bind, bind_all, table}
use coraza_nginx.Dl.Places.{same_place}

-- Each use of a list names a symbol for its own pointer.
abbrev IsDiagonal : List (Symbol × Symbol) → Type 0
IsDiagonal [] = Unit {0}
IsDiagonal ((p, name) ∷ rest) = (p ≡ name) × IsDiagonal rest

abbrev sets : List (Symbol × Symbol) → Symbol → Bool
sets [] x = false
sets ((p, name) ∷ rest) x = place x == place p || sets rest x

-- The pointer denotes its own symbol, which the library has.
abbrev IsBound : Library → ℕ → Symbol → Option ℕ → Type 0
IsBound lib h x address = (address ≡ lib.sym h x) × ((address ≡ none) → ⊥)

-- A run of DL_SYM that ends well.
pub record AllBound (lib : Library) (h : ℕ) (uses : List (Symbol × Symbol)) (l m : Loader)
    : Type 0 where
  pub same_handle : m.handle ≡ l.handle
  pub same_opens : m.opens ≡ l.opens
  pub same_closes : m.closes ≡ l.closes
  pub bound : (x : Symbol) → sets uses x ≡ true → IsBound lib h x (m.pointers x)
  pub others : (x : Symbol) → sets uses x ≡ false → m.pointers x ≡ l.pointers x

-- One that has failed: some symbol is missing, and the library is closed.
pub record Missing (lib : Library) (h : ℕ) (uses : List (Symbol × Symbol)) (l m : Loader)
    : Type 0 where
  pub no_handle : m.handle ≡ none
  pub same_opens : m.opens ≡ l.opens
  pub one_close : m.closes ≡ suc l.closes
  pub missing : Symbol
  pub is_missing : lib.sym h missing ≡ none

abbrev Binds : Library → ℕ → List (Symbol × Symbol) → Loader → Bool × Loader → Type 0
Binds lib h uses l r =
    ((r.0 ≡ true) × AllBound lib h uses l r.1) ⊎ ((r.0 ≡ false) × Missing lib h uses l r.1)

-- The pointer of the use in front, where no later use sets it.
front-IsBound :
    (lib : Library) (h : ℕ) (p x : Symbol) (a : ℕ) (old : Symbol → Option ℕ) (address : Option ℕ)
    → lib.sym h p ≡ some a
    → (place x == place p) ≡ true
    → address ≡ set_pointer p (some a) old x
    → IsBound lib h x address
front-IsBound lib h p x a old address e same is =
    let found : lib.sym h x ≡ some a = ap (lib.sym h) (same_place x p same) ∙ e in
    ground (arith, found)

-- The pointers after one more use in front.
cons-AllBound :
    (lib : Library) (h : ℕ) (p : Symbol) (a : ℕ) (rest : List (Symbol × Symbol)) (l m : Loader)
    → lib.sym h p ≡ some a
    → AllBound lib h rest (record l { pointers = set_pointer p (some a) l.pointers }) m
    → AllBound lib h ((p, p) ∷ rest) l m
cons-AllBound lib h p a rest l m e b = record {
  same_handle = b.same_handle;
  same_opens = b.same_opens;
  same_closes = b.same_closes;
  bound = λ x s. elim (Bool-cases (sets rest x)) [
    | inl q ↦ b.bound x q
    | inr q ↦
        front-IsBound lib h p x a l.pointers (m.pointers x) e (ground (arith, s, q)) (b.others x q)
  ];
  others = λ x s. ground (arith, b.others x);
}

cons-Binds :
    (lib : Library) (h : ℕ) (p : Symbol) (rest : List (Symbol × Symbol)) (l : Loader)
    → ((m : Loader) → Binds lib h rest m (bind_all lib h rest m))
    → Binds lib h ((p, p) ∷ rest) l (bind_all lib h ((p, p) ∷ rest) l)
unfolding bind_all bind
cons-Binds lib h p rest l f = elim (Option-cases (lib.sym h p)) [
  | inl e ↦ rw e (
      inr (
        refl,
        record {
          no_handle = refl;
          same_opens = refl;
          one_close = refl;
          missing = p;
          is_missing = e;
        },
      ))
  | inr (a, e) ↦
      let m : Loader = record l { pointers = set_pointer p (some a) l.pointers } in
      rw e (elim (f m) [
        | inl (o, b) ↦ inl (o, cons-AllBound lib h p a rest l (bind_all lib h rest m).1 e b)
        | inr (o, b) ↦ inr (
          o,
          record {
            no_handle = b.no_handle;
            same_opens = b.same_opens;
            one_close = b.one_close;
            missing = b.missing;
            is_missing = b.is_missing;
          },
        )
      ])
]

pub bind_all-Binds :
    (lib : Library) (h : ℕ) (uses : List (Symbol × Symbol)) (l : Loader)
    → IsDiagonal uses
    → Binds lib h uses l (bind_all lib h uses l)
unfolding bind_all
bind_all-Binds lib h [] l d = inl (
  refl,
  record {
    same_handle = refl;
    same_opens = refl;
    same_closes = refl;
    bound = λ x s. absurd (ground (arith, s));
    others = λ x s. refl;
  },
)
bind_all-Binds lib h ((p, name) ∷ rest) l (same, d) =
    subst (λ n. Binds lib h ((p, n) ∷ rest) l (bind_all lib h ((p, n) ∷ rest) l)) same
      (cons-Binds lib h p rest l (λ m. bind_all-Binds lib h rest m d))

pub table-IsDiagonal : IsDiagonal table
unfolding table
table-IsDiagonal = ground arith

pub sets-table : (x : Symbol) → sets table x ≡ true
unfolding table place
sets-table Symbol.new_waf_config = refl
sets-table Symbol.rules_add = refl
sets-table Symbol.rules_add_file = refl
sets-table Symbol.free_waf_config = refl
sets-table Symbol.new_waf = refl
sets-table Symbol.free_waf = refl
sets-table Symbol.free_string = refl
sets-table Symbol.rules_count = refl
sets-table Symbol.new_transaction = refl
sets-table Symbol.new_transaction_with_id = refl
sets-table Symbol.free_transaction = refl
sets-table Symbol.intervention = refl
sets-table Symbol.free_intervention = refl
sets-table Symbol.process_connection = refl
sets-table Symbol.process_uri = refl
sets-table Symbol.add_request_header = refl
sets-table Symbol.process_request_headers = refl
sets-table Symbol.append_request_body = refl
sets-table Symbol.process_request_body = refl
sets-table Symbol.is_request_body_accessible = refl
sets-table Symbol.add_response_header = refl
sets-table Symbol.append_response_body = refl
sets-table Symbol.process_response_body = refl
sets-table Symbol.process_response_headers = refl
sets-table Symbol.process_logging = refl
sets-table Symbol.update_status_code = refl
sets-table Symbol.is_response_body_processable = refl
sets-table Symbol.add_request_headers = refl
sets-table Symbol.add_response_headers = refl
sets-table Symbol.version_num = refl

-- The library is open and each pointer denotes its own symbol, or it is not open. The loader has
-- been asked to close as often as to open, but for the one open library.
pub record Loaded (h : ℕ) (l : Loader) : Type 0 where
  pub is_open : l.handle ≡ some h
  pub bound : (x : Symbol) → (l.pointers x ≡ none) → ⊥
  pub balance : l.opens ≡ suc l.closes

pub record Unloaded (l : Loader) : Type 0 where
  pub is_shut : l.handle ≡ none
  pub balance : l.opens ≡ l.closes
