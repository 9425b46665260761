-- ===== src/Scan/Chunks.antt =====
-- The scan over chunks (`ngx_http_coraza_rules_scan` of src/ngx_http_coraza_module.c).
use coraza_nginx.Common.{
  ℕ, ◌≤◌, ◌≡◌, refl, List, [], ◌∷◌, ◌++◌, length, length-append, if◌then◌else◌, arith,
}
use coraza_nginx.Pack.{Bytes}
use coraza_nginx.Scan.{
  Scan, word_size, drop_backslash, rules_scan_eol, begin_line, collect, scan_byte, rules_scan,
  scan_chunks,
}

-- The text that the chunks make up.
unfoldable pub joined : List Bytes → Bytes
joined [] = []
joined (p ∷ ps) = p ++ joined ps

-- A scan of two chunks one after the other is the scan of both at once.
pub rules_scan-append :
    (p q : Bytes) (s : Scan)
    → rules_scan (p ++ q) s
      ≡ (if (rules_scan p s).1 then rules_scan p s else rules_scan q (rules_scan p s).0)
unfolding rules_scan
rules_scan-append [] q s = refl
rules_scan-append (c ∷ p) q s = ground (arith, rules_scan-append p q (scan_byte c s).0)

-- However a rules text is cut into chunks, it is refused exactly if its scan in one piece refuses
-- it: a directive that is split between two reads is found, and no cut makes one appear.
pub scan_chunks-joined :
    (ps : List Bytes) (s : Scan) → scan_chunks ps s ≡ scan_chunks (joined ps ∷ []) s
unfolding scan_chunks joined rules_scan
scan_chunks-joined [] s = refl
scan_chunks-joined (p ∷ ps) s =
    ground (arith, rules_scan-append p (joined ps) s, scan_chunks-joined ps (rules_scan p s).0)

length-drop_backslash : (w : Bytes) → length (drop_backslash w) ≤ length w
unfolding drop_backslash
length-drop_backslash [] = omega arith
length-drop_backslash (c ∷ []) = ground arith
length-drop_backslash (c ∷ (d ∷ ds)) = omega (arith, length-drop_backslash (d ∷ ds))

-- A scan whose word fits its array.
abbrev pub WordFits : Scan → Type 0
WordFits s = length s.word ≤ word_size

scan_byte-WordFits : (c : ℕ) (s : Scan) → WordFits s → WordFits (scan_byte c s).0
unfolding scan_byte rules_scan_eol collect begin_line
scan_byte-WordFits c s f =
    ground (arith, length-drop_backslash s.word, length-append s.word (c ∷ []))

-- Whatever text is scanned, the word that is collected stays within its 32 bytes.
pub rules_scan-WordFits : (p : Bytes) (s : Scan) → WordFits s → WordFits (rules_scan p s).0
unfolding rules_scan
rules_scan-WordFits [] s f = f
rules_scan-WordFits (c ∷ p) s f =
    let h = scan_byte-WordFits c s f in ground (arith, h, rules_scan-WordFits p (scan_byte c s).0 h)
