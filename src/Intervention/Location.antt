-- ===== src/Intervention/Location.antt =====
-- The redirect that an intervention installs (src/ngx_http_coraza_module.c).
use coraza_nginx.Common.{
  ◌≡◌, refl, sym, ap, ◌∙◌, ◌⊎◌, ℤ, Bool, true, false, Option-cases, inl, inr, Option, none, some,
  [], ◌∷◌, ◌++◌, length, arith,
}
use coraza_nginx.Pack.{Bytes}
use coraza_nginx.Runtime.{Env, HeadersOut, Intervention, State}
use coraza_nginx.Logging.{log_handler}
use coraza_nginx.Intervention.{
  is_redirect_status, is_safe_byte, safe_prefix, location_key, push_location, install_location,
  deny, settle, process_intervention,
}
use coraza_nginx.Intervention.Verdict.{fetched}

abbrev pub AllSafe : Bytes → Type 0
AllSafe [] = Unit {0}
AllSafe (c ∷ cs) = (is_safe_byte c ≡ true) × AllSafe cs

pub AllSafe-safe_prefix : (t : Bytes) → AllSafe (safe_prefix t)
unfolding safe_prefix
AllSafe-safe_prefix [] = tt
AllSafe-safe_prefix (c ∷ cs) = ground (arith, AllSafe-safe_prefix cs)

-- What was cut off.
abbrev cut : Bytes → Bytes
cut [] = []
cut (c ∷ cs) = elim (is_safe_byte c) [ true ↦ cut cs | _ ↦ c ∷ cs ]

safe_prefix-append-cut : (t : Bytes) → safe_prefix t ++ cut t ≡ t
unfolding safe_prefix
safe_prefix-append-cut [] = refl
safe_prefix-append-cut (c ∷ cs) = ground (arith, safe_prefix-append-cut cs)

-- `o'` is `o` with one more element at the end of its list: a Location that is clean and begins
-- the target, or, where the pool had no room for the value, a deleted element.
abbrev Added : Option Bytes → HeadersOut → HeadersOut → Type 0
Added target o o' =
    (value rest : Bytes) × (target ≡ some (value ++ rest))
    × AllSafe value
    × ((o' ≡ record o {
      headers = o.headers ++ (record { hash = 1; key = location_key; value = value } ∷ []);
      location = some (length o.headers);
    })
        ⊎ (o' ≡ record o {
          headers = o.headers ++ (record { hash = 0; key = location_key; value = [] } ∷ []);
        }))

-- What a poll may do to the response's headers.
abbrev pub Redirects : Option Intervention → HeadersOut → HeadersOut → Type 0
Redirects none o o' = o' ≡ o
Redirects (some it) o o' = (o' ≡ o) ⊎ ((is_redirect_status it.status ≡ true) × Added it.target o o')

-- The branches that a denial with a target may take.
abbrev Outcome : ℤ → Bytes → HeadersOut → HeadersOut → Type 0
Outcome status t o o' =
    (o' ≡ o)
    ⊎ ((is_redirect_status status ≡ true)
        × ((o' ≡ push_location true (safe_prefix t) o)
            ⊎ (o' ≡ push_location false (safe_prefix t) o)))

settle-Outcome :
    (env : Env) (early_log : Bool) (it : Intervention) (t : Bytes) (s : State)
    → it.target ≡ some t
    → Outcome it.status t s.req.out (settle env early_log (some it) s).1.req.out
unfolding settle deny install_location log_handler
settle-Outcome env early_log it t s e = ground arith

settle-no_target :
    (env : Env) (early_log : Bool) (it : Intervention) (s : State)
    → it.target ≡ none
    → (settle env early_log (some it) s).1.req.out ≡ s.req.out
unfolding settle deny install_location log_handler
settle-no_target env early_log it s e = ground arith

Outcome-Redirects :
    (it : Intervention) (t : Bytes) (o o' : HeadersOut)
    → it.target ≡ some t
    → Outcome it.status t o o'
    → Redirects (some it) o o'
Outcome-Redirects it t o o' e (inl same) = inl same
Outcome-Redirects it t o o' e (inr (r, p)) = inr (
  r,
  (safe_prefix t, cut t, e ∙ ap some (sym (safe_prefix-append-cut t)), AllSafe-safe_prefix t, p),
)

settle-Redirects :
    (env : Env) (early_log : Bool) (it : Option Intervention) (s : State)
    → Redirects it s.req.out (settle env early_log it s).1.req.out
unfolding settle
settle-Redirects env early_log none s = refl
settle-Redirects env early_log (some it) s = elim (Option-cases it.target) [
  | inl e ↦ inl (settle-no_target env early_log it s e)
  | inr (t, e) ↦ Outcome-Redirects it t _ _ e (settle-Outcome env early_log it t s e)
]

-- A poll leaves the response's headers as they are, or, for a redirect status only, adds at most
-- one element at the end: a Location without control bytes that is the beginning of the engine's
-- target, or a deleted element if there was no memory. Nothing else of the headers changes.
pub process_intervention-Redirects :
    (env : Env) (early_log : Bool) (s : State)
    → Redirects (fetched env s) s.req.out (process_intervention env early_log s).1.req.out
unfolding process_intervention
process_intervention-Redirects env early_log s = settle-Redirects env early_log (fetched env s) _
