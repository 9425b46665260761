-- ===== src/Scan.antt =====
-- The streaming scan of rules text for directives that the engine refuses
-- (`ngx_http_coraza_rules_scan` and its parts in src/ngx_http_coraza_module.c).
pub mod Chunks
pub mod Records
pub mod Words
pub mod Held
pub mod Trimmed
pub mod Lines
pub mod Turn
pub mod Ends
pub mod Agrees
pub mod Split
pub mod Refused
mod Examples
use coraza_nginx.Common.{
  ℕ, suc, ◌+◌, ◌-◌, Bool, true, false, not, ◌&&◌, ◌||◌, ◌==◌, ltb, leb, Option, none, some, List,
  [], ◌∷◌, ◌++◌, length, if◌then◌else◌,
}
use coraza_nginx.Pack.{Bytes}

-- An `ngx_http_coraza_rules_scan_t`; `word` is what is collected, and its length is `wlen`.
pub record Scan : Type 0 where
  pub line : ℕ
  pub rec_line : ℕ
  pub in_record : Bool
  pub in_backticks : Bool
  pub word_done : Bool
  pub first : ℕ
  pub last : ℕ
  pub word : Bytes

-- The size of the word's array.
abbrev pub word_size : ℕ
word_size = 32

abbrev pub rules_scan_init : Scan
rules_scan_init = record {
  line = 1;
  rec_line = 0;
  in_record = false;
  in_backticks = false;
  word_done = false;
  first = 0;
  last = 0;
  word = [];
}

-- "SecRemoteRules" in small letters.
abbrev pub unsupported : Bytes
unsupported = 115 ∷ 101 ∷ 99 ∷ 114 ∷ 101 ∷ 109 ∷ 111 ∷ 116 ∷ 101 ∷ 114 ∷ 117 ∷ 108 ∷ 101 ∷ 115 ∷ []

abbrev pub lower : ℕ → ℕ
lower c = if leb 65 c && leb c 90 then c + 32 else c

-- Whether the word is the directive, letters of either size taken for the same.
unfoldable pub same_word : Bytes → Bytes → Bool
same_word [] [] = true
same_word (a ∷ as') (b ∷ bs) = lower a == b && same_word as' bs
same_word _ _ = false

unfoldable pub scan_word : Scan → Bool
scan_word s = same_word s.word unsupported

-- The word without a backslash at its end.
unfoldable pub drop_backslash : Bytes → Bytes
drop_backslash [] = []
drop_backslash (c ∷ []) = if c == 92 then [] else c ∷ []
drop_backslash (c ∷ (d ∷ ds)) = c ∷ drop_backslash (d ∷ ds)

-- The flag for an action list in backticks, at the end of a line.
abbrev pub backticks : Scan → Bool
backticks s =
    if not s.in_backticks && s.last == 96
    then true
    else if s.in_backticks && s.first == 96
    then false
    else s.in_backticks

-- The end of a line: whether the record is refused, and the scan behind it.
unfoldable pub rules_scan_eol : Scan → Scan × Bool
rules_scan_eol s =
    if s.first == 0 || s.first == 35
    then (record s { first = 0; last = 0 }, false)
    else if backticks s
    then (record s { in_backticks = true; first = 0; last = 0 }, false)
    else if s.last == 92
    then (
      record s {
        in_backticks = false;
        first = 0;
        last = 0;
        word = if s.word_done then s.word else drop_backslash s.word;
      },
      false,
    )
    else (
      record s {
        in_backticks = false;
        first = 0;
        last = 0;
        in_record = false;
        word_done = false;
        word = [];
      },
      scan_word s,
    )

abbrev pub is_blank : ℕ → Bool
is_blank c = c == 32 || (c == 9 || (c == 13 || (c == 11 || c == 12)))

abbrev pub has_bytes : Bytes → Bool
has_bytes [] = false
has_bytes (c ∷ cs) = true

-- A byte that begins the line begins a record, if it is no comment and none is open.
unfoldable pub begin_line : ℕ → Scan → Scan
begin_line c s =
    if s.first == 0
    then (if not (c == 35) && not s.in_record
        then record s { first = c; in_record = true; rec_line = s.line }
        else record s { first = c })
    else s

-- A byte of a line that is not blank.
unfoldable pub collect : ℕ → Scan → Scan
collect c s =
    if s.first == 35 || s.word_done
    then s
    else if ltb (length s.word) word_size
    then record s { word = s.word ++ (c ∷ []) }
    else record s { word = []; word_done = true }

-- One byte: whether its record is refused, and the scan behind it. The line's number goes up only
-- behind a record that is not refused.
unfoldable pub scan_byte : ℕ → Scan → Scan × Bool
scan_byte c s =
    if c == 10
    then (let (t, bad) = rules_scan_eol s in
        if bad then (t, true) else (record t { line = t.line + 1 }, false))
    else if is_blank c
    then (if not (s.first == 0) && (not (s.first == 35) && has_bytes s.word)
        then (record s { word_done = true }, false)
        else (s, false))
    else (collect c (record (begin_line c s) { last = c }), false)

-- A chunk; the scan stops at a refused directive.
unfoldable pub rules_scan : Bytes → Scan → Scan × Bool
rules_scan [] s = (s, false)
rules_scan (c ∷ cs) s =
    let (t, bad) = scan_byte c s in let rest = rules_scan cs t in if bad then (t, true) else rest

-- The end of the input.
unfoldable pub rules_scan_done : Scan → Bool
rules_scan_done s = let (t, bad) = rules_scan_eol s in bad || (t.in_backticks && scan_word t)

-- The scan of a file that is read to its end, in the chunks that the reads give: the answer is
-- whether it is refused.
unfoldable pub scan_chunks : List Bytes → Scan → Bool
scan_chunks [] s = rules_scan_done s
scan_chunks (p ∷ ps) s =
    let (t, bad) = rules_scan p s in let rest = scan_chunks ps t in if bad then true else rest
