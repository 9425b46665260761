-- ===== src/Lifecycle/Examples.antt =====
-- Tests and witnesses of the life of a transaction.
use coraza_nginx.Common.{◌≡◌, refl, true, false, none, [], ◌∷◌}
use coraza_nginx.Runtime.{
  State, Trace, count, free_transaction, is_process_logging, is_free_transaction,
}
use coraza_nginx.Pack.{str_to_char, pack_headers, packed_size, refused}
use coraza_nginx.Headers.{pack}
use coraza_nginx.Logging.{cleanup}
use coraza_nginx.Intervention.{poll_after_process, process_intervention, deny, install_location}
use coraza_nginx.HeaderFilter.Examples.{head, fresh, refusing}
use coraza_nginx.Transaction.{create_ctx, open_transaction, adopt, keep_id}
use coraza_nginx.Rewrite.{
  live, to_char, addr_to_char, with_text, add_in_bulk, send_packed, add_request_headers_in,
  request_headers_phase, answer, headers_and_phase, submit_uri, submit_connection, rewrite_handler,
}
use coraza_nginx.Samples.{creating, arriving, incoming}
use coraza_nginx.Life.{rewrite, header, log, handle, run}
use coraza_nginx.Life.Whole.{run-Sound, new-Sound}
use coraza_nginx.Life.Examples.{arriving-IsNew}
use coraza_nginx.Life.Inert.{account}
use coraza_nginx.Lifecycle.{
  handled, redirect, Reach, here, next, Accounted, Sound-Accounted, cleanup-once,
}

-- The response is denied in phase 3, which arms the flag; nginx redirects to an error page in a
-- location where the connector is off, and the request comes to its log phase.
abbrev denied : State
denied = handle refusing (header head) fresh

abbrev redirected : State
redirected = record denied { attached = false; mcf = none }

moves : Reach refusing fresh (handle refusing log redirected)
moves = next (next (next here (handled (header head) refl)) (redirect none)) (handled log refl)

begins : Accounted (account refusing fresh)
begins = record { logging = refl; freeing = refl }

-- The rewrite handler leaves such a transaction behind.
abbrev made : State
made = run creating (rewrite incoming ∷ []) arriving

made-registered : (made.attached ≡ true) × (made.cleanups ≡ 1)
unfolding run handle rewrite_handler create_ctx open_transaction adopt keep_id submit_connection
    submit_uri addr_to_char to_char with_text headers_and_phase add_request_headers_in add_in_bulk
    send_packed request_headers_phase answer poll_after_process process_intervention deny
    install_location str_to_char live pack pack_headers packed_size refused
made-registered = (refl, refl)

made-Accounted : Accounted (account creating made)
made-Accounted =
    let sound =
      run-Sound creating (rewrite incoming ∷ []) arriving
        (new-Sound creating arriving arriving-IsNew) in
    Sound-Accounted (account creating made) sound made-registered.0 made-registered.1

cleanup-once_example :
    (rest : Trace) × ((cleanup (handle refusing log redirected)).1.trace ≡ free_transaction ∷ rest)
    × (count is_process_logging rest ≡ 1)
    × (count is_free_transaction rest ≡ 0)
cleanup-once_example = cleanup-once begins moves
