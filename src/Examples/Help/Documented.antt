-- ===== src/Examples/Help/Documented.antt =====
-- The options that a help text documents, read off the text: a line that begins, behind its spaces,
-- with `-x` or `--name`, and perhaps goes on with `, --name`.
use zenoh_flat_c.Base.{ℕ, ◌==◌, ◌||◌, Bool, true, false, List, [], ◌∷◌, ◌++◌, if◌then◌else◌}
use zenoh_flat_c.Base.Text.{Str, codes, starts_with, str_eq}
use zenoh_flat_c.Args.{Form, other, form}

abbrev on_first : ℕ → List Str → List Str
on_first c [] = (c ∷ []) ∷ []
on_first c (line ∷ rest) = (c ∷ line) ∷ rest

abbrev lines : Str → List Str
lines [] = []
lines (c ∷ text) = let rest = lines text in if c == b'\n' then [] ∷ rest else on_first c rest

abbrev without_spaces : Str → Str
without_spaces [] = []
without_spaces (c ∷ text) = let rest = without_spaces text in if c == b' ' then rest else c ∷ text

abbrev word : Str → Str
word [] = []
word (c ∷ text) =
    let rest = word text in if (c == b' ') || (c == b',') || (c == b':') then [] else c ∷ rest

abbrev after_word : Str → Str
after_word [] = []
after_word (c ∷ text) =
    let rest = after_word text in
    if (c == b' ') || (c == b',') || (c == b':') then c ∷ text else rest

abbrev without_dash : Str → Str
without_dash [] = []
without_dash (c ∷ text) = if c == b'-' then text else c ∷ text

-- `-x` or `--name` at the beginning of the text.
abbrev option_name : Str → List Str
option_name text =
    if starts_with text (codes "-") then without_dash (without_dash (word text)) ∷ [] else []

abbrev second_name : Str → List Str
second_name [] = []
second_name (c ∷ text) = if c == b',' then option_name (without_spaces text) else []

abbrev line_options : Str → List Str
line_options line = option_name line ++ second_name (after_word line)

abbrev all_options : List Str → List Str
all_options [] = []
all_options (line ∷ rest) = line_options (without_spaces line) ++ all_options rest

unfoldable pub documented : Str → List Str
documented text = all_options (lines text)

abbrev is_other : Form → Bool
is_other other = true
is_other _ = false

-- The argument names one of the options, as `parse_opt` compares them.
abbrev pub names_one : List Str → Str → Bool
names_one [] a = false
names_one (opt ∷ opts) a = if is_other (form opt a) then names_one opts a else true

abbrev pub contains : List Str → Str → Bool
contains [] text = false
contains (t ∷ ts) text = str_eq t text || contains ts text
