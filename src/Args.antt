-- ===== src/Args.antt =====
-- examples/parse_args.h, the functions that read `argv`: `parse_opt`, `check_unknown_opts`,
-- `parse_pos_args` and the macros over them.
pub mod Names
pub mod Outcome
pub mod Help
pub mod Pull
pub mod Steps
use zenoh_flat_c.Base.{
  ℕ, zero, suc, Bool, true, false, ◌&&◌, ◌||◌, Option, none, some, List, [], ◌∷◌, ◌++◌, ltb, ◌==◌,
  if◌then◌else◌, length,
}
use zenoh_flat_c.Base.Text.{Str, codes, starts_with, split_char}
use zenoh_flat_c.Process.{
  Argv, Process, Exit, help_shown, complaint, Run, ok, exits, Cmd, pure, exit_with, ◌>>=◌, ◌>>◌,
  allocate, free, Block,
}

-- What the loop of `parse_opt` finds for one option in `argv`.
pub data Scan : Type 0 where
  not_found : Scan
  found : Str → Argv → Scan
  no_value : Str → Scan

abbrev pub keep : Option Str → Scan → Scan
keep slot not_found = not_found
keep slot (found v rest) = found v (slot ∷ rest)
keep slot (no_value message) = no_value message

-- `a[0] == '-' && a[1] == opt[0] && a[2] == 0`
unfoldable pub is_short : Str → Str → Bool
is_short (o ∷ []) (x ∷ y ∷ []) = (x == b'-') && (y == o)
is_short _ _ = false

-- `a[0] == '-' && a[1] == '-' && strncmp(a + 2, opt, optlen) == 0`
unfoldable pub is_long : Str → Str → Bool
is_long opt (x ∷ y ∷ rest) = (x == b'-') && (y == b'-') && starts_with rest opt
is_long opt _ = false

pub data Form : Type 0 where
  other short long : Form

-- Which of the two branches of the loop takes the argument `a`, if one does.
unfoldable pub form : Str → Str → Form
unfolding is_short is_long
form opt a =
    if ltb (length a) 2
    then other
    else if length opt == 1
    then (if is_short opt a then short else other)
    else if ltb 1 (length opt) && ltb 3 (length a) && is_long opt a
    then long
    else other

-- `argv[i + 1]`, if it is there and not NULL; both entries become NULL.
abbrev pub next_value : Str → Argv → Scan
next_value message [] = no_value message
next_value message (none ∷ rest) = no_value message
next_value message (some v ∷ rest) = found v (none ∷ none ∷ rest)

abbrev pub short_without_value : Str → Str
short_without_value opt = codes "Option -" ++ (opt ++ codes " given without a value\n")

abbrev pub long_without_value : Str → Str
long_without_value opt = codes "Option --" ++ (opt ++ codes " given without a value\n")

abbrev pub take_short : Str → Bool → Argv → Scan
take_short opt false rest = found opt (none ∷ rest)
take_short opt true rest = next_value (short_without_value opt) rest

abbrev pub take_long : Str → Bool → Str → Argv → Scan
take_long opt false a rest = found opt (none ∷ rest)
take_long opt true a rest = elim (split_char b'=' a) [
  | none ↦ next_value (long_without_value opt) rest
  | some (_, value) ↦ found value (none ∷ rest)
]

-- The loop over `argv[1..]`.
unfoldable pub scan : Str → Bool → Argv → Scan
scan opt has_value [] = not_found
scan opt has_value (none ∷ rest) = keep none (scan opt has_value rest)
scan opt has_value (some a ∷ rest) =
    let later = keep (some a) (scan opt has_value rest) in
    elim (form opt a) [
      | other ↦ later
      | short ↦ take_short opt has_value rest
      | long ↦ take_long opt has_value a rest
    ]

abbrev pub after_scan : Option Str → Process → Scan → Run (Option Str)
after_scan name p not_found = ok none p
after_scan name p (found v rest) = ok (some v) (record p { argv = name ∷ rest })
after_scan name p (no_value message) = exits (complaint message)

abbrev pub parse_opt_in : Str → Bool → Process → Argv → Run (Option Str)
parse_opt_in opt has_value p [] = ok none p
parse_opt_in opt has_value p (name ∷ rest) = after_scan name p (scan opt has_value rest)

-- `none` is NULL: the option is not there. A flag that is there yields its own name.
unfoldable pub parse_opt : Str → Bool → Cmd (Option Str)
parse_opt opt has_value p = parse_opt_in opt has_value p p.argv

-- `_Z_PARSE_ARG` up to the conversion of the value: the short name first, then the long one.
unfoldable pub parse_arg_text : Str → Str → Cmd (Option Str)
parse_arg_text id_short id_long = do
  arg_val ← parse_opt id_short true
  elim arg_val [ none ↦ parse_opt id_long true | some v ↦ pure (some v) ]

-- `_Z_PARSE_ARG` and `_Z_PARSE_ARG_SINGLE_OPT`: the conversion may exit.
unfoldable pub parse_arg : {A : Type 0} → Str → Str → (Str → Cmd A) → A → Cmd A
parse_arg id_short id_long func default_value = do
  arg_val ← parse_arg_text id_short id_long
  elim arg_val [ none ↦ pure default_value | some v ↦ func v ]

-- `_Z_CHECK_FLAG`
unfoldable pub check_flag : Str → Cmd Bool
check_flag id = do
  arg_val ← parse_opt id false
  pure (elim arg_val [ none ↦ false | some _ ↦ true ])

-- `_Z_CHECK_HELP`: the second test is made only where the first fails.
unfoldable pub check_help : Cmd (Unit {0})
check_help = do
  h ← check_flag (codes "h")
  elim h [
    | true ↦ exit_with help_shown
    | false ↦ do
      help ← check_flag (codes "help")
      elim help [ true ↦ exit_with help_shown | false ↦ pure tt ]
  ]

-- The loop of `check_unknown_opts`, over `argv[1..]`.
unfoldable pub first_option : Argv → Option Str
first_option [] = none
first_option (none ∷ rest) = first_option rest
first_option (some [] ∷ rest) = first_option rest
first_option (some (c ∷ a) ∷ rest) =
    let later = first_option rest in if c == b'-' then some (c ∷ a) else later

abbrev pub arguments : Argv → Argv
arguments [] = []
arguments (name ∷ rest) = rest

unfoldable pub check_unknown_opts : Argv → Option Str
check_unknown_opts argv = first_option (arguments argv)

abbrev pub nulls : ℕ → Argv
nulls zero = []
nulls (suc n) = none ∷ nulls n

abbrev pub prepend : Option Str → Option Argv → Option Argv
prepend slot none = none
prepend slot (some l) = some (slot ∷ l)

-- The loop of `parse_pos_args`; the first argument is the number of entries still to fill.
unfoldable pub positions : ℕ → Argv → Option Argv
positions room [] = some (nulls room)
positions room (none ∷ rest) = positions room rest
positions zero (some a ∷ rest) = none
positions (suc room) (some a ∷ rest) = prepend (some a) (positions room rest)

-- The array that is returned; it is freed first where there are too many arguments.
abbrev pub returned : Block → Option Argv → Cmd (Option (Block × Argv))
returned block none = do free block; pure none
returned block (some pos_argv) = pure (some (block, pos_argv))

-- The array and its block; `none` is NULL.
unfoldable pub parse_pos_args : ℕ → Cmd (Option (Block × Argv))
parse_pos_args nb_args = do
  block ← allocate
  λ p. returned block (positions nb_args (arguments p.argv)) p
