-- ===== src/Transaction/Examples.antt =====
-- Tests and witnesses of the life of transactions.
use coraza_nginx.Common.{refl, false}
use coraza_nginx.Runtime.{State}
use coraza_nginx.Samples.{creating, arriving, incoming}
use coraza_nginx.Transaction.Owned.{IsOwned, visit, redirect, here, next, Reach-IsOwned}
use coraza_nginx.Rewrite.{rewrite_handler}

-- The visit of the phase, an internal redirect, and a second visit, in the new location.
abbrev first : State
first = (rewrite_handler creating incoming arriving).1

abbrev moved : State
moved = record first { attached = false; mcf = arriving.mcf }

abbrev second : State
second = (rewrite_handler creating incoming moved).1

arriving-IsOwned : IsOwned creating arriving
unfolding IsOwned
arriving-IsOwned = refl

Reach-IsOwned_example : IsOwned creating second
Reach-IsOwned_example =
    Reach-IsOwned arriving-IsOwned
      (next (next (next here (visit incoming)) (redirect arriving.mcf)) (visit incoming))
