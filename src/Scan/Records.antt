-- ===== src/Scan/Records.antt =====
-- The records of a rules text, as the comment above `ngx_http_coraza_rules_scan_t` of
-- src/ngx_http_coraza_module.c says that the engine assembles them: line by line, each one trimmed.
use coraza_nginx.Common.{
  ℕ, ◌≡◌, Bool, true, false, not, ◌&&◌, ◌==◌, List, [], ◌∷◌, ◌++◌, if◌then◌else◌,
}
use coraza_nginx.Pack.{Bytes}
use coraza_nginx.Scan.{is_blank, same_word, unsupported}

-- A byte at the front of the first line.
abbrev pub on_first : ℕ → List Bytes → List Bytes
on_first c [] = (c ∷ []) ∷ []
on_first c (l ∷ ls) = (c ∷ l) ∷ ls

-- The lines of a text, without the newlines.
unfoldable pub lines : Bytes → List Bytes
lines [] = [] ∷ []
lines (c ∷ cs) = if c == 10 then [] ∷ lines cs else on_first c (lines cs)

unfoldable pub trim_left : Bytes → Bytes
trim_left [] = []
trim_left (c ∷ cs) = if is_blank c then trim_left cs else c ∷ cs

-- A byte before what is left of its end of the line.
abbrev pub keep : ℕ → Bytes → Bytes
keep c [] = if is_blank c then [] else c ∷ []
keep c (d ∷ ds) = c ∷ (d ∷ ds)

unfoldable pub trim_right : Bytes → Bytes
trim_right [] = []
trim_right (c ∷ cs) = keep c (trim_right cs)

abbrev pub trim : Bytes → Bytes
trim l = trim_right (trim_left l)

-- The first and the last byte, 0 if there is none, and the text without its last byte.
abbrev pub starts : Bytes → ℕ
starts [] = 0
starts (c ∷ cs) = c

abbrev pub ends : Bytes → ℕ
ends [] = 0
ends (c ∷ []) = c
ends (c ∷ (d ∷ ds)) = ends (d ∷ ds)

unfoldable pub but_last : Bytes → Bytes
but_last [] = []
but_last (c ∷ []) = []
but_last (c ∷ (d ∷ ds)) = c ∷ but_last (d ∷ ds)

unfoldable pub first_word : Bytes → Bytes
first_word [] = []
first_word (c ∷ cs) = if is_blank c then [] else c ∷ first_word cs

-- Whether the directive of a record is one that the engine refuses.
unfoldable pub is_unsupported : Bytes → Bool
is_unsupported text = same_word (first_word text) unsupported

-- The record that is being assembled, and whether an action list in backticks is open.
pub record Record : Type 0 where
  pub opened : Bool
  pub text : Bytes

abbrev pub new_record : Record
new_record = record { opened = false; text = [] }

-- A line that is blank or a comment.
abbrev pub is_ignored : Bytes → Bool
is_ignored [] = true
is_ignored (c ∷ cs) = c == 35

-- A trimmed line: whether an action list is open behind it.
abbrev pub opens : Bool → Bytes → Bool
opens opened l =
    if not opened && ends l == 96 then true else if opened && starts l == 96 then false else opened

-- One trimmed line: the record behind it, and whether a record that it ends is refused.
unfoldable pub take_trimmed : Record → Bytes → Record × Bool
take_trimmed r l =
    if is_ignored l
    then (r, false)
    else if opens r.opened l
    then (record { opened = true; text = r.text ++ l }, false)
    else if ends l == 92
    then (record { opened = false; text = r.text ++ but_last l }, false)
    else (new_record, is_unsupported (r.text ++ l))

abbrev pub take_line : Record → Bytes → Record × Bool
take_line r line = take_trimmed r (trim line)

-- Whether a record of the lines is refused. At the end an open action list is judged on what it
-- has, and a record that waits for its continuation is not.
unfoldable pub refuses : Record → List Bytes → Bool
refuses r [] = r.opened && is_unsupported r.text
refuses r (l ∷ ls) =
    let (r', bad) = take_line r l in let rest = refuses r' ls in if bad then true else rest

abbrev pub NoZero : Bytes → Type 0
NoZero [] = Unit {0}
NoZero (c ∷ cs) = ((c == 0) ≡ false) × NoZero cs

-- No blank (nor carriage return) stands behind a backslash at the end of the line, and no zero
-- byte in it.
abbrev pub IsTidy : Bytes → Type 0
IsTidy l = (ends (trim l) ≡ 92 → trim l ≡ trim_left l) × NoZero l

abbrev pub AllTidy : List Bytes → Type 0
AllTidy [] = Unit {0}
AllTidy (l ∷ ls) = IsTidy l × AllTidy ls
