-- ===== src/PreAccess/Examples.antt =====
-- Tests and witnesses of the request body's inspection.
use coraza_nginx.PreAccess.Fuel.{file_loop-fuel}
use coraza_nginx.PreAccess.Served.{Serves, append_request_body_file-ok}
use coraza_nginx.Pack.{Bytes}
use coraza_nginx.Common.{
  ℕ, zero, suc, ◌+◌, ◌<◌, ◌-◌, min, inr, drop, arith, ◌≡◌, ◌≤◌, refl, pos, ngx_ok, ngx_declined, [],
  ◌∷◌, length, take, replicate,
}
use coraza_nginx.Runtime.{Env, Trace, Read, got, read_file, request_bytes}
use coraza_nginx.PreAccess.{
  walk, finish_body, react, submit_parts, submit_body, append_request_body_file, opened,
  read_file_body, file_loop, file_chunk, process_request_body_phase, inspect_body,
}
use coraza_nginx.PreAccess.FileBody.{ReadsFile, append_request_body_file-Whole}
use coraza_nginx.PreAccess.Verdict.{Armed, inspect_body-Armed}
use coraza_nginx.PreAccess.Body.{phases, body_bytes, inspect_body-request_bytes}
use coraza_nginx.PreAccess.Once.{
  Accessible, Inaccessible, Open, enters, arrives, visits, visits-once, visits_repeat,
}
use coraza_nginx.Samples.{
  content, passing, without_access, denying, passing-ReadsFile, spilled, start, two_parts,
}

file_accepted : (append_request_body_file passing (pos 3) (start spilled)).0 ≡ ngx_ok
unfolding append_request_body_file opened read_file_body file_loop file_chunk
file_accepted = refl

append_request_body_file-Whole_example :
    (request_bytes (append_request_body_file passing (pos 3) (start spilled)).1.trace
      ≡ take 3 content)
    × (3 ≤ length content)
append_request_body_file-Whole_example =
    append_request_body_file-Whole passing content 3 (start spilled) passing-ReadsFile file_accepted

body_accepted : (inspect_body passing (start two_parts)).0 ≡ ngx_declined
unfolding inspect_body submit_body submit_parts walk finish_body react process_request_body_phase
    coraza_nginx.Intervention.process_intervention coraza_nginx.Intervention.poll_after_process
body_accepted = refl

inspect_body-request_bytes_example :
    (request_bytes (inspect_body passing (start two_parts)).1.trace ≡ body_bytes content two_parts)
    × (phases (inspect_body passing (start two_parts)).1 ≡ 1)
inspect_body-request_bytes_example =
    inspect_body-request_bytes passing content two_parts (start two_parts) passing-ReadsFile refl
      refl refl refl body_accepted

inspect_body-Armed_example : Armed (inspect_body denying (start spilled))
inspect_body-Armed_example = inspect_body-Armed denying (start spilled)

passing-Accessible : Accessible passing
passing-Accessible t = refl

visits-once_example :
    phases (visits passing (enters ∷ arrives ∷ enters ∷ enters ∷ []) (start two_parts)) ≤ 1
visits-once_example =
    visits-once passing (enters ∷ arrives ∷ enters ∷ enters ∷ []) (start two_parts)
      passing-Accessible

without_access-Inaccessible : Inaccessible without_access
without_access-Inaccessible = record { closed = λ t. refl; passes = λ t. refl }

start-Open : Open (start two_parts)
start-Open = record {
  on = refl;
  context = refl;
  not_refused = refl;
  not_waiting = refl;
  not_requested = refl;
}

visits_repeat_example : phases (visits without_access (replicate 3 enters) (start two_parts)) ≡ 3
visits_repeat_example =
    visits_repeat without_access 3 (start two_parts) without_access-Inaccessible start-Open

-- A disk that gives one byte for each read.
abbrev one_byte : Trace → Read
one_byte (read_file fd size offset ∷ t) =
    got (take (min 1 (min size (3 - offset))) (drop offset content))
one_byte _ = got []

abbrev slow_disk : Env
slow_disk = record passing { reads = one_byte }

byte_at :
    (offset : ℕ)
    → offset < 3
    → (b : ℕ) × (bs : Bytes) × (got (take 1 (drop offset content)) ≡ got (b ∷ bs))
byte_at zero l = (97, [], refl)
byte_at (suc zero) l = (98, [], refl)
byte_at (suc (suc zero)) l = (99, [], refl)
byte_at (suc (suc (suc n))) l = absurd (omega (arith, l))

gives_byte :
    (size offset : ℕ)
    → 0 < size
    → offset < 3
    → (b : ℕ) × (bs : Bytes) × (got (take (min 1 (min size (3 - offset))) (drop offset content))
        ≡ got (b ∷ bs))
gives_byte size offset p l =
    let one : min 1 (min size (3 - offset)) ≡ 1 = omega arith in rw one (byte_at offset l)

slow_disk-Serves : Serves slow_disk 3
slow_disk-Serves = record {
  opens = λ t. (7, refl);
  gives = λ fd size offset t p l. gives_byte size offset p l;
  takes = λ bs t. refl;
  lets_pass = λ t. refl;
}

slow_disk-ReadsFile : (n : ℕ) → ReadsFile slow_disk n content
slow_disk-ReadsFile n = record {
  reads_prefix =
      λ size offset t. inr (min 1 (min size (3 - offset)), omega arith, omega arith, refl);
}

append_request_body_file-ok_example :
    let r = append_request_body_file slow_disk (pos 3) (start spilled) in
    (r.0 ≡ ngx_ok) × (request_bytes r.1.trace ≡ take 3 content)
append_request_body_file-ok_example =
    append_request_body_file-ok slow_disk content 3 (start spilled) slow_disk-Serves
      slow_disk-ReadsFile (omega arith) refl

file_loop-fuel_example :
    file_loop passing 7 3 (40 + 2) 1 (start spilled) ≡ file_loop passing 7 3 2 1 (start spilled)
file_loop-fuel_example = file_loop-fuel passing 7 3 2 40 1 (start spilled) (omega arith)
