-- ===== src/Scan/Examples.antt =====
-- Tests and witnesses of the scan.
use coraza_nginx.Common.{◌≡◌, ◌≤◌, refl, true, false, [], ◌∷◌, ◌++◌, length, arith}
use coraza_nginx.Pack.{Bytes}
use coraza_nginx.Scan.{
  word_size, rules_scan_init, same_word, scan_word, drop_backslash, rules_scan_eol, begin_line,
  collect, scan_byte, rules_scan, rules_scan_done, scan_chunks,
}
use coraza_nginx.Scan.Chunks.{rules_scan-WordFits}
use coraza_nginx.Scan.Records.{
  lines, trim_left, trim_right, but_last, first_word, is_unsupported, take_trimmed, refuses,
  new_record, AllTidy,
}
use coraza_nginx.Scan.Refused.{is_refused_text-refuses}
use coraza_nginx.Directives.{is_refused_text}

-- "SecRemote"
abbrev head : Bytes
head = 83 ∷ 101 ∷ 99 ∷ 82 ∷ 101 ∷ 109 ∷ 111 ∷ 116 ∷ 101 ∷ []

-- "Rules x" and the end of the line.
abbrev tail : Bytes
tail = 82 ∷ 117 ∷ 108 ∷ 101 ∷ 115 ∷ 32 ∷ 120 ∷ 10 ∷ []

-- A backslash and the end of the line; and the same with a carriage return between them.
abbrev continued : Bytes
continued = 92 ∷ 10 ∷ []

abbrev continued_crlf : Bytes
continued_crlf = 92 ∷ 13 ∷ 10 ∷ []

refused_in_chunks : scan_chunks (head ∷ tail ∷ []) rules_scan_init ≡ true
unfolding scan_chunks rules_scan scan_byte rules_scan_eol begin_line collect scan_word same_word
    rules_scan_done
refused_in_chunks = refl

refused_continued : scan_chunks (head ∷ continued ∷ tail ∷ []) rules_scan_init ≡ true
unfolding scan_chunks rules_scan scan_byte rules_scan_eol begin_line collect scan_word same_word
    rules_scan_done drop_backslash
refused_continued = refl

-- The continuation is not seen through the carriage return, and the directive is not found.
missed_continued_crlf : scan_chunks (head ∷ continued_crlf ∷ tail ∷ []) rules_scan_init ≡ false
unfolding scan_chunks rules_scan scan_byte rules_scan_eol begin_line collect scan_word same_word
    rules_scan_done drop_backslash
missed_continued_crlf = refl

rules_scan-WordFits_example : length (rules_scan tail rules_scan_init).0.word ≤ word_size
rules_scan-WordFits_example = rules_scan-WordFits tail rules_scan_init (omega arith)

-- "SecRemote\\", " # x" and " Rules" (the directive is continued over a comment).
abbrev over_comment : Bytes
over_comment =
    83 ∷ 101 ∷ 99 ∷ 82 ∷ 101 ∷ 109 ∷ 111 ∷ 116 ∷ 101 ∷ 92 ∷ 10 ∷ 32 ∷ 35 ∷ 32 ∷ 120 ∷ 10 ∷ 32 ∷ 82
    ∷ 117 ∷ 108 ∷ 101 ∷ 115 ∷ 9 ∷ 120 ∷ []

over_comment_refused : refuses new_record (lines over_comment) ≡ true
unfolding refuses lines take_trimmed trim_left trim_right but_last first_word is_unsupported
    same_word
over_comment_refused = refl

-- The records see a continuation through the carriage return, which the scan does not.
crlf_refused : refuses new_record (lines (head ++ (continued_crlf ++ tail))) ≡ true
unfolding refuses lines take_trimmed trim_left trim_right but_last first_word is_unsupported
    same_word
crlf_refused = refl

over_comment_tidy : AllTidy (lines over_comment)
unfolding lines trim_left trim_right
over_comment_tidy = ground arith

is_refused_text-refuses_example :
    is_refused_text over_comment ≡ refuses new_record (lines over_comment)
is_refused_text-refuses_example = is_refused_text-refuses over_comment over_comment_tidy
