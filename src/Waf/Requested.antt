-- ===== src/Waf/Requested.antt =====
-- From the start of a worker to the transactions of its requests
-- (src/ngx_http_coraza_module.c): which rules inspect a request.
use coraza_nginx.Common.{◌≡◌, ◌⊎◌, inl, inr, ℕ, true, Option, List, [], ◌∷◌, arith}
use coraza_nginx.Pack.{Bytes}
use coraza_nginx.Runtime.{Env, State, Trace, new_transaction, new_transaction_with_id}
use coraza_nginx.Transaction.{Wafs, chosen_waf, create_ctx, open_transaction, adopt, keep_id}
use coraza_nginx.Conf.{RuleEntry, LocConf, MainConf}
use coraza_nginx.Waf.{WafEnv, WafTrace, init_process}
use coraza_nginx.Waf.Turn.{Fresh, AllUnbuilt}
use coraza_nginx.Waf.Fed.{Fed}
use coraza_nginx.Waf.Settled.{AllIn}
use coraza_nginx.Waf.Served.{meant, serving, AllServed, init_process-Served}

-- The handles that transactions were asked of, the last one first.
abbrev pub asked_of : Trace → List ℕ
asked_of [] = []
asked_of (new_transaction w ∷ t) = w ∷ asked_of t
asked_of (new_transaction_with_id w id ∷ t) = w ∷ asked_of t
asked_of (_ ∷ t) = asked_of t

create_ctx-asked_of :
    (env : Env) (w : Wafs) (s : State)
    → let t = (create_ctx env w s).1.trace in
      (asked_of t ≡ asked_of s.trace) ⊎ (asked_of t ≡ chosen_waf w ∷ asked_of s.trace)
unfolding create_ctx open_transaction adopt keep_id
create_ctx-asked_of env w s = ground arith

-- A request in a location: no transaction is asked for, or one of an engine that has these rules.
pub data Inspects (wenv : WafEnv) (es : List RuleEntry) (t : WafTrace) (s s' : State) : Type 0 where
  nobody : asked_of s'.trace ≡ asked_of s.trace → Inspects wenv es t s s'
  engine :
      (w : ℕ) → asked_of s'.trace ≡ w ∷ asked_of s.trace → Fed wenv w es t → Inspects wenv es t s s'

-- For each location, whatever the request and whatever id it is given.
abbrev pub AllInspect : WafEnv → MainConf → List LocConf → List LocConf → WafTrace → Type 0
AllInspect wenv m [] [] t = Unit {0}
AllInspect wenv m (c ∷ cs) (c' ∷ cs') t =
    ((env : Env) (id : Option Bytes) (s : State)
      → Inspects wenv (meant m.rules c) t s
          (create_ctx env (record { loc_waf = c'.waf; main_waf = m.waf; transaction_id = id }) s).1)
    × AllInspect wenv m cs cs' t
AllInspect wenv m _ _ t = ⊥

Fed-Inspects :
    (wenv : WafEnv) (m : MainConf) (c' : LocConf) (es : List RuleEntry) (t : WafTrace)
    → Fed wenv (serving m c') es t
    → (env : Env) (id : Option Bytes) (s : State)
    → Inspects wenv es t s
        (create_ctx env (record { loc_waf = c'.waf; main_waf = m.waf; transaction_id = id }) s).1
Fed-Inspects wenv m c' es t f env id s =
    let w : Wafs = record { loc_waf = c'.waf; main_waf = m.waf; transaction_id = id } in
    elim (create_ctx-asked_of env w s) [ inl e ↦ nobody e | inr e ↦ engine (serving m c') e f ]

AllServed-AllInspect :
    (wenv : WafEnv) (m : MainConf) (cs cs' : List LocConf) (t : WafTrace)
    → AllServed wenv m cs cs' t
    → AllInspect wenv m cs cs' t
AllServed-AllInspect wenv m [] [] t a = tt
AllServed-AllInspect wenv m (c ∷ cs) (c' ∷ cs') t a =
    (Fed-Inspects wenv m c' (meant m.rules c) t a.0.1, AllServed-AllInspect wenv m cs cs' t a.1)
AllServed-AllInspect wenv m [] (c ∷ cs) t a = absurd a
AllServed-AllInspect wenv m (c ∷ cs) [] t a = absurd a

-- After a start that succeeds (the engine gives out no handle twice, no location has a handle
-- before, each address holds one rules array), the context of a request in any of the locations,
-- whatever the allocator and the engine then answer, asks for no transaction or for one of a
-- handle that was made of exactly the rules of that location, or of the main configuration where
-- it has none.
pub init_process-AllInspect :
    (wenv : WafEnv) (heap : ℕ → List RuleEntry) (m : MainConf) (t : WafTrace)
    → Fresh wenv
    → AllUnbuilt m.loc_confs
    → m.rules.entries ≡ heap m.rules.address
    → AllIn heap m.loc_confs
    → (init_process wenv m t).0.1 ≡ true
    → let ((m', on), t') = init_process wenv m t in AllInspect wenv m' m.loc_confs m'.loc_confs t'
init_process-AllInspect wenv heap m t f u hm i on =
    let ((m', up), t') = init_process wenv m t in
    AllServed-AllInspect wenv m' m.loc_confs m'.loc_confs t'
      (init_process-Served wenv heap m t f u hm i on)
