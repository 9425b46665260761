-- ===== src/Dl/Opens.antt =====
-- When libcoraza is opened (src/ngx_http_coraza_dl.c), and that no call goes through NULL then.
use coraza_nginx.Common.{
  ℕ, suc, ◌≡◌, refl, sym, ap, subst, ◌∙◌, ◌⊎◌, inl, inr, ℤ, true, false, ngx_ok, ngx_error, Option,
  none, some, Bool-cases, Option-cases, arith,
}
use coraza_nginx.Dl.{
  Symbol, Library, Loader, shut, table, bind_all, is_too_old, check_version, load, open_once,
  dl_open, dl_close, wrapper,
}
use coraza_nginx.Dl.Loaded.{
  Loaded, Unloaded, AllBound, Missing, bind_all-Binds, table-IsDiagonal, sets-table,
}

-- The library's file is found, it has each symbol, and its version is 1.7.0 at least.
pub record IsSupported (lib : Library) (h : ℕ) : Type 0 where
  pub is_found : lib.file ≡ some h
  pub has : (x : Symbol) → (lib.sym h x ≡ none) → ⊥
  pub is_recent : is_too_old lib.version ≡ false

-- The library was opened.
pub record Opened (lib : Library) (h : ℕ) (r : ℤ × Loader) : Type 0 where
  pub is_ok : r.0 ≡ ngx_ok
  pub is_supported : IsSupported lib h
  pub is_loaded : Loaded h r.1
  pub own_symbols : (x : Symbol) → r.1.pointers x ≡ lib.sym h x

-- It was not, and it is not left open.
pub record Refused (lib : Library) (r : ℤ × Loader) : Type 0 where
  pub is_error : r.0 ≡ ngx_error
  pub is_unloaded : Unloaded r.1
  pub unsupported : (h : ℕ) → IsSupported lib h → ⊥

start : ℕ → Loader → Loader
start h l = record l { handle = some h; opens = suc l.opens }

some-injective : (a b : ℕ) → some a ≡ some b → a ≡ b
some-injective a b e = ground arith

bound-Opened :
    (lib : Library) (h : ℕ) (l m : Loader)
    → Unloaded l
    → lib.file ≡ some h
    → AllBound lib h table (start h l) m
    → is_too_old lib.version ≡ false
    → Opened lib h (ngx_ok, m)
unfolding start
bound-Opened lib h l m u f b v = record {
  is_ok = refl;
  is_supported = record {
    is_found = f;
    has = λ x e. (b.bound x (sets-table x)).1 ((b.bound x (sets-table x)).0 ∙ e);
    is_recent = v;
  };
  is_loaded = record {
    is_open = b.same_handle;
    bound = λ x. (b.bound x (sets-table x)).1;
    balance = b.same_opens ∙ ap suc (u.balance ∙ sym b.same_closes);
  };
  own_symbols = λ x. (b.bound x (sets-table x)).0;
}

Missing-Refused :
    (lib : Library) (h : ℕ) (l m : Loader)
    → Unloaded l
    → lib.file ≡ some h
    → Missing lib h table (start h l) m
    → Refused lib (ngx_error, m)
unfolding start
Missing-Refused lib h l m u f b = record {
  is_error = refl;
  is_unloaded = record {
    is_shut = b.no_handle;
    balance = b.same_opens ∙ ap suc u.balance ∙ sym b.one_close;
  };
  unsupported = λ k s.
      s.has b.missing
        (ap (λ i. lib.sym i b.missing) (some-injective k h (sym s.is_found ∙ f)) ∙ b.is_missing);
}

old-Refused :
    (lib : Library) (h : ℕ) (l m : Loader)
    → Unloaded l
    → AllBound lib h table (start h l) m
    → is_too_old lib.version ≡ true
    → Refused lib (ngx_error, shut m)
unfolding start
old-Refused lib h l m u b v = record {
  is_error = refl;
  is_unloaded = record {
    is_shut = refl;
    balance = b.same_opens ∙ ap suc (u.balance ∙ sym b.same_closes);
  };
  unsupported = λ k s. absurd (ground (arith, s.is_recent, v));
}

-- How the loading of a closed library ends.
abbrev pub Opens : Library → ℤ × Loader → Type 0
Opens lib r = ((h : ℕ) × Opened lib h r) ⊎ Refused lib r

load-Opens :
    (lib : Library) (file : Option ℕ) (l : Loader)
    → Unloaded l
    → lib.file ≡ file
    → Opens lib (load lib file l)
unfolding load check_version start
load-Opens lib none l u f = inr (record {
  is_error = refl;
  is_unloaded = u;
  unsupported = λ k s. absurd (ground (arith, s.is_found, f));
})
load-Opens lib (some h) l u f =
    let r = bind_all lib h table (start h l) in
    elim (bind_all-Binds lib h table (start h l) table-IsDiagonal)
      as (λ _. Opens lib (check_version lib.version r)) [
        | inr (o, b) ↦
            subst (λ x. Opens lib (check_version lib.version (x, r.1))) (sym o)
              (inr (Missing-Refused lib h l r.1 u f b))
        | inl (o, b) ↦
            subst (λ x. Opens lib (check_version lib.version (x, r.1))) (sym o)
              (elim (Bool-cases (is_too_old lib.version)) [
                | inl v ↦ rw v (inr (old-Refused lib h l r.1 u b v))
                | inr v ↦ rw v (inl (h, bound-Opened lib h l r.1 u f b v))
              ])
      ]

-- Where the library is not open: it is opened and NGX_OK answered if its file is found, it has each
-- of the thirty symbols and its version is 1.7.0 at least, and then each static pointer denotes the
-- symbol of its own name and none is NULL; otherwise NGX_ERROR is answered, and what was opened is
-- closed again.
pub dl_open-Opens : (lib : Library) (l : Loader) → Unloaded l → Opens lib (dl_open lib l)
unfolding dl_open
dl_open-Opens lib l u =
    subst (λ x. Opens lib (open_once lib x l)) (sym u.is_shut) (load-Opens lib lib.file l u refl)

-- What the processes of nginx do with the library, whatever they find at each try.
pub data Step : Loader → Loader → Type 0 where
  try_open : {l : Loader} (lib : Library) → Step l (dl_open lib l).1
  at_exit : {l : Loader} → Step l (dl_close l)

pub data Reach (s : Loader) : Loader → Type 0 where
  here : Reach s s
  next : {t u : Loader} → Reach s t → Step t u → Reach s u

abbrev Consistent : Loader → Type 0
Consistent l = Unloaded l ⊎ ((h : ℕ) × Loaded h l)

dl_open-Consistent : (lib : Library) (l : Loader) → Consistent l → Consistent (dl_open lib l).1
unfolding dl_open
dl_open-Consistent lib l (inl u) = elim (dl_open-Opens lib l u) [
  | inl (h, o) ↦ inr (h, o.is_loaded)
  | inr r ↦ inl r.is_unloaded
]
dl_open-Consistent lib l (inr (h, c)) =
    subst (λ x. Consistent (open_once lib x l).1) (sym c.is_open) (inr (h, c))

Step-Consistent : {s t : Loader} → Step s t → Consistent s → Consistent t
unfolding dl_close
Step-Consistent {s = s} (try_open lib) c = dl_open-Consistent lib s c
Step-Consistent at_exit c = c

pub Reach-Consistent : {s t : Loader} → Unloaded s → Reach s t → Consistent t
Reach-Consistent u here = inl u
Reach-Consistent u (next r st) = Step-Consistent st (Reach-Consistent u r)

dl_open-ok :
    (lib : Library) (l : Loader)
    → Consistent l
    → (dl_open lib l).0 ≡ ngx_ok
    → (h : ℕ) × Loaded h (dl_open lib l).1
unfolding dl_open
dl_open-ok lib l (inr (h, c)) e = (h, subst (λ x. Loaded h (open_once lib x l).1) (sym c.is_open) c)
dl_open-ok lib l (inl u) e = elim (dl_open-Opens lib l u) [
  | inl (h, o) ↦ (h, o.is_loaded)
  | inr r ↦ absurd (ground (arith, r.is_error, e))
]

-- From a state in which the library is not open, after whatever opens (of whatever libraries, with
-- whatever result) and closes: once an open answers NGX_OK, no wrapper calls through a NULL
-- pointer.
pub wrapper-runs :
    {s t : Loader} {A B : Type 0} (lib : Library) (x : Symbol) (run : ℕ → A → B) (args : A)
    → Unloaded s
    → Reach s t
    → (dl_open lib t).0 ≡ ngx_ok
    → (address : ℕ) × (wrapper run x (dl_open lib t).1 args ≡ some (run address args))
unfolding wrapper
wrapper-runs {t = t} lib x run args u r e =
    let (h, c) = dl_open-ok lib t (Reach-Consistent u r) e in
    elim (Option-cases ((dl_open lib t).1.pointers x)) [
      | inl p ↦ absurd (c.bound x p)
      | inr (a, p) ↦ (a, rw (p, wrapper))
    ]
