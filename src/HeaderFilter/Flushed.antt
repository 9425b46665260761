-- ===== src/HeaderFilter/Flushed.antt =====
-- What the engine has seen once `ngx_http_coraza_header_filter` has flushed what it collected.
use coraza_nginx.Common.{
  ℕ, ◌≤◌, ◌≡◌, refl, sym, ap, subst, ◌∙◌, ◌⊎◌, inl, inr, ℤ, Bool, ngx_ok, Option, none, some, List,
  [], ◌∷◌, ◌++◌, append-nil, map, length, if◌then◌else◌, arith,
}
use coraza_nginx.Pack.{Header, Packed, int_max, packed_size, pack_headers}
use coraza_nginx.Runtime.{Env, State, count, is_forward, is_process_response_headers, pnalloc}
use coraza_nginx.Headers.{to_int, log_pack, pack}
use coraza_nginx.Headers.Seen.{unpack, response_headers}
use coraza_nginx.Headers.Whole.{span-length, unpack-pack_headers}
use coraza_nginx.HeaderFilter.Filter.{replay, hand_over, submit_bulk, flush_pairs, flush_collected}
use coraza_nginx.HeaderFilter.Adds.{spanned, gathered, Added, Stopped}
use coraza_nginx.HeaderFilter.Submits.{replay-Adds}

-- Each string is one that an `int` length can describe.
abbrev pub EachFits : List Header → Type 0
EachFits [] = Unit {0}
EachFits (h ∷ hs) = (length h.name ≤ int_max) × (length h.value ≤ int_max) × EachFits hs

map-spanned : (hs : List Header) → EachFits hs → map spanned hs ≡ hs
map-spanned [] f = refl
map-spanned (h ∷ hs) (n, v, f) =
    ground (arith, span-length h.name n, span-length h.value v, map-spanned hs f)

-- The engine has these headers after those that it had, and the collection is over.
pub record Submitted (env : Env) (hs : List Header) (s t : State) : Type 0 where
  pub same_ctx : t.ctx ≡ record (s.ctx) { resp_hdr_collect = none }
  pub seen : response_headers env t.trace ≡ response_headers env s.trace ++ hs
  pub same_req : t.req ≡ s.req
  pub same_mcf : t.mcf ≡ s.mcf
  pub same_forwards : count is_forward t.trace ≡ count is_forward s.trace
  pub same_phases :
      count is_process_response_headers t.trace ≡ count is_process_response_headers s.trace

abbrev pub Submits : Env → List Header → State → ℤ × State → Type 0
Submits env hs s r = ((r.0 ≡ ngx_ok) × Submitted env hs s r.1) ⊎ Stopped s r

-- The collection is closed.
abbrev closed : State → State
closed s = record s { ctx = record (s.ctx) { resp_hdr_collect = none } }

Added-Submitted :
    (env : Env) (hs : List Header) (s t : State)
    → EachFits hs
    → s.ctx.resp_hdr_collect ≡ none
    → Added env hs s t
    → Submitted env hs s t
Added-Submitted env hs s t f p a = ground (arith, map-spanned hs f)

replay-Submits :
    (env : Env) (hs : List Header) (s : State)
    → EachFits hs
    → s.ctx.resp_hdr_collect ≡ none
    → Submits env hs s (replay env hs s)
replay-Submits env hs s f p = elim (replay-Adds env hs s) [
  | inr e ↦ inr e
  | inl (o, a) ↦ inl (o, Added-Submitted env hs s (replay env hs s).1 f p a)
]

-- The bulk call has given the engine all of the headers or none.
record Bulk (env : Env) (hs : List Header) (s : State) (r : Bool × State) : Type 0 where
  pub same_ctx : r.1.ctx ≡ s.ctx
  pub seen :
      response_headers env r.1.trace ≡ response_headers env s.trace ++ (if r.0 then hs else [])
  pub same_req : r.1.req ≡ s.req
  pub same_mcf : r.1.mcf ≡ s.mcf
  pub same_forwards : count is_forward r.1.trace ≡ count is_forward s.trace
  pub same_phases :
      count is_process_response_headers r.1.trace ≡ count is_process_response_headers s.trace

hand_over-Bulk :
    (env : Env) (hs : List Header) (packed : Option Packed) (s : State)
    → ((p : Packed) → packed ≡ some p → unpack p.out (to_int p.out_len) (to_int (length hs)) ≡ hs)
    → Bulk env hs s (hand_over env (length hs) packed s)
unfolding hand_over
hand_over-Bulk env hs none s f = ground (arith, append-nil (response_headers env s.trace))
hand_over-Bulk env hs (some p) s f = ground (arith, f p refl)

log_pack-Bulk :
    (env : Env) (hs : List Header) (total : Option ℕ) (s : State) (r : Bool × State)
    → Bulk env hs (log_pack total s) r
    → Bulk env hs s r
log_pack-Bulk env hs none s r b = b
log_pack-Bulk env hs (some total) s r b = ground (arith, b)

submit_bulk-Bulk : (env : Env) (hs : List Header) (s : State) → Bulk env hs s (submit_bulk env hs s)
unfolding submit_bulk pack
submit_bulk-Bulk env [] s = ground (arith, append-nil (response_headers env s.trace))
submit_bulk-Bulk env (h ∷ hs) s =
    let pool : ℕ → Bool = λ n. env.allocates (pnalloc n ∷ s.trace) in
    let packed = pack_headers pool (h ∷ hs) in
    let sized = packed_size 0 (h ∷ hs) in
    log_pack-Bulk env (h ∷ hs) sized s (hand_over env (length (h ∷ hs)) packed (log_pack sized s))
      (hand_over-Bulk env (h ∷ hs) packed (log_pack sized s) (unpack-pack_headers pool (h ∷ hs)))

flush_pairs-Submits :
    (env : Env) (hs : List Header) (s : State)
    → EachFits hs
    → Submits env hs s (flush_pairs env (some hs) s)
unfolding flush_pairs
flush_pairs-Submits env hs s f =
    let t = (submit_bulk env hs (closed s)).1 in
    let bulk = submit_bulk-Bulk env hs (closed s) in
    ground (arith, replay-Submits env hs t f, append-nil (response_headers env s.trace))

-- What was only collected has not been seen.
Added-Submits :
    (env : Env) (hs : List Header) (s t : State) (r : ℤ × State)
    → s.ctx.resp_hdr_collect ≡ some []
    → Added env hs s t
    → Submits env hs t r
    → Submits env hs s r
Added-Submits env hs s t r p a (inl (o, b)) =
    inl (o, ground (arith, append-nil (response_headers env s.trace)))
Added-Submits env hs s t r p a (inr e) = inr (ground arith)

-- The flush after a run that has gathered these headers from an empty collection, or submitted
-- them.
pub flush_collected-Submits :
    (env : Env) (hs : List Header) (s t : State)
    → EachFits hs
    → (s.ctx.resp_hdr_collect ≡ none) ⊎ (s.ctx.resp_hdr_collect ≡ some [])
    → Added env hs s t
    → Submits env hs s (flush_collected env t)
unfolding flush_collected
flush_collected-Submits env hs s t f (inl p) a =
    let same : t.ctx.resp_hdr_collect ≡ none =
      ap (λ c. c.resp_hdr_collect) a.same_ctx ∙ ap (gathered hs) p in
    subst (λ c. Submits env hs s (flush_pairs env c t)) (sym same)
      (inl (refl, Added-Submitted env hs s t f p a))
flush_collected-Submits env hs s t f (inr p) a =
    let same : t.ctx.resp_hdr_collect ≡ some hs =
      ap (λ c. c.resp_hdr_collect) a.same_ctx ∙ ap (gathered hs) p in
    subst (λ c. Submits env hs s (flush_pairs env c t)) (sym same)
      (Added-Submits env hs s t (flush_pairs env (some hs) t) p a (flush_pairs-Submits env hs t f))

replay-processed :
    (env : Env) (hs : List Header) (s : State) → (replay env hs s).1.ctx.processed ≡ s.ctx.processed
replay-processed env hs s = ground (arith, replay-Adds env hs s)

flush_pairs-processed :
    (env : Env) (c : Option (List Header)) (s : State)
    → (flush_pairs env c s).1.ctx.processed ≡ s.ctx.processed
unfolding flush_pairs
flush_pairs-processed env none s = refl
flush_pairs-processed env (some hs) s =
    let t = (submit_bulk env hs (closed s)).1 in
    ground (arith, submit_bulk-Bulk env hs (closed s), replay-processed env hs t)

pub flush_collected-processed :
    (env : Env) (s : State) → (flush_collected env s).1.ctx.processed ≡ s.ctx.processed
unfolding flush_collected
flush_collected-processed env s = flush_pairs-processed env s.ctx.resp_hdr_collect s
