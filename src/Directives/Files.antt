-- ===== src/Directives/Files.antt =====
-- `coraza_rules_file` against `coraza_rules` (src/ngx_http_coraza_module.c).
use coraza_nginx.Common.{◌≡◌, refl, ◌∙◌, List, [], ◌∷◌, if◌then◌else◌, arith, none, some}
use coraza_nginx.Pack.{Bytes}
use coraza_nginx.Scan.{Scan, rules_scan_init, rules_scan, scan_chunks}
use coraza_nginx.Scan.Chunks.{joined, scan_chunks-joined}
use coraza_nginx.Directives.{Reads, at_end, chunk, check_reads, check_rules_file, is_refused_text}

-- The reads of a file that is read to its end in these chunks.
abbrev pub reads_of : List Bytes → Reads
reads_of [] = at_end
reads_of (p ∷ ps) = chunk p (reads_of ps)

check_reads-chunks : (ps : List Bytes) (s : Scan) → check_reads (reads_of ps) s ≡ scan_chunks ps s
unfolding check_reads scan_chunks
check_reads-chunks [] s = refl
check_reads-chunks (p ∷ ps) s = ground (arith, check_reads-chunks ps (rules_scan p s).0)

one_chunk : (text : Bytes) → scan_chunks (text ∷ []) rules_scan_init ≡ is_refused_text text
unfolding scan_chunks is_refused_text
one_chunk text = refl

-- A rules file that can be opened and is read to its end, in whatever chunks, is refused exactly
-- if its text would be as inline rules; otherwise the path that is stored is the resolved one.
pub check_rules_file-text :
    (full : Bytes) (ps : List Bytes)
    → check_rules_file (some full) (some (reads_of ps))
      ≡ (if is_refused_text (joined ps) then none else some full)
unfolding check_rules_file
check_rules_file-text full ps =
    let same =
      check_reads-chunks ps rules_scan_init
      ∙ scan_chunks-joined ps rules_scan_init
      ∙ one_chunk (joined ps) in
    rw same refl
