-- ===== src/BodyFilter/Examples.antt =====
-- Tests and witnesses of the body filter.
use coraza_nginx.BodyFilter.Fuel.{response_loop-fuel}
use coraza_nginx.Common.{◌≤◌, ◌≡◌, ◌+◌, ◌-◌, arith, refl, ngx_ok, ◌++◌, take, drop}
use coraza_nginx.Runtime.{response_bytes}
use coraza_nginx.Samples.{passing, content, passing-ReadsFile, file_part, holding}
use coraza_nginx.BodyFilter.File.{
  append_response_body_file, body_chunk_len, direct_loop, response_chunk, response_loop,
}
use coraza_nginx.BodyFilter.Filter.{body_filter}
use coraza_nginx.BodyFilter.Inspects.{Inspected, body_filter-Inspected}
use coraza_nginx.BodyFilter.Copies.{held_size, Counted}
use coraza_nginx.BodyFilter.Held.{Outcome, body_filter-Outcome}
use coraza_nginx.BodyFilter.Delivery.{Delivers, body_filter-Delivers}
use coraza_nginx.BodyFilter.Range.{append_response_body_file-response_bytes}

length_file_part : body_chunk_len file_part ≡ 2
unfolding body_chunk_len
length_file_part = refl

file_part_accepted : (append_response_body_file passing file_part holding).0 ≡ ngx_ok
unfolding append_response_body_file direct_loop response_loop response_chunk
file_part_accepted = refl

holding-Counted : Counted holding.ctx
unfolding held_size
holding-Counted = refl

body_filter-Outcome_example : Outcome passing holding (body_filter passing holding)
body_filter-Outcome_example =
    body_filter-Outcome passing holding refl refl refl refl refl holding-Counted

body_filter-Delivers_example : Delivers holding (body_filter passing holding)
body_filter-Delivers_example =
    body_filter-Delivers passing holding refl refl refl refl refl (refl, (refl, tt))

body_filter-Inspected_example : Inspected holding (body_filter passing holding)
body_filter-Inspected_example =
    body_filter-Inspected passing holding refl refl refl refl refl (refl, (refl, tt))

append_response_body_file-response_bytes_example :
    (response_bytes (append_response_body_file passing file_part holding).1.trace
      ≡ response_bytes holding.trace
        ++ take (file_part.file_last - file_part.file_pos) (drop file_part.file_pos content))
    × (file_part.file_pos ≤ file_part.file_last)
append_response_body_file-response_bytes_example =
    append_response_body_file-response_bytes passing content file_part holding (passing-ReadsFile 7)
      file_part_accepted

response_loop-fuel_example :
    response_loop passing 7 3 (40 + 2) 1 holding ≡ response_loop passing 7 3 2 1 holding
response_loop-fuel_example = response_loop-fuel passing 7 3 2 40 1 holding (omega arith)
