-- ===== src/Examples.antt =====
-- What the example programs of examples/ share: the end of each `parse_args`, and the steps at the
-- beginning of each `main`.
pub mod Leftovers
pub mod Consumed
pub mod Endpoints
pub mod Parsing
pub mod Put
pub mod Delete
pub mod Pub
pub mod Sub
pub mod Queryable
pub mod Info
pub mod Get
pub mod Scout
pub mod Programs
pub mod Runs
pub mod Typed
pub mod Owned
pub mod Help
pub mod ShutDown
pub mod OptionPairs
pub mod Delivery
pub mod Answered
pub mod EndToEnd
pub mod PubThr
pub mod SubThr
use zenoh_flat_c.Base.{ℕ, Bool, true, false, Option, none, some, [], ◌∷◌, ◌++◌, if◌then◌else◌}
use zenoh_flat_c.Base.Int.{ℤ, negsuc}
use zenoh_flat_c.Base.Text.{Str, codes}
use zenoh_flat_c.Process.{
  Argv, Process, Exit, complaint, Run, ok, exits, fault, out_of_fuel, Cmd, pure, exit_with, ◌>>=◌,
  ◌>>◌, free, Block,
}
use zenoh_flat_c.Args.{parse_arg, check_unknown_opts, parse_pos_args}
use zenoh_flat_c.Trace.{
  Trace, calls, prints, returns, config, session, ke, z_open, z_session_drop, z_keyexpr_try_from,
}

-- `_Z_PARSE_ARG` with a cast as conversion: the text itself.
unfoldable pub text_arg : Str → Str → Str → Cmd Str
text_arg id_short id_long default_value = parse_arg id_short id_long pure default_value

-- The same where the default is NULL.
unfoldable pub optional_arg : Str → Str → Cmd (Option Str)
optional_arg id_short id_long = parse_arg id_short id_long (λ v. pure (some v)) none

abbrev pub unknown_option : Str → Str
unknown_option arg = codes "Unknown option " ++ (arg ++ codes "\n")

unfoldable pub reject_unknown : Cmd (Unit {0})
reject_unknown p = elim (check_unknown_opts p.argv) [
  | none ↦ ok tt p
  | some arg ↦ exits (complaint (unknown_option arg))
]

-- `!pos_args || pos_args[0]`
abbrev pub is_unexpected : Option Argv → Bool
is_unexpected none = true
is_unexpected (some []) = false
is_unexpected (some (none ∷ _)) = false
is_unexpected (some (some _ ∷ _)) = true

-- `free(pos_args)`, which does nothing at NULL.
abbrev pub free_array : Option (Block × Argv) → Cmd (Unit {0})
free_array none = pure tt
free_array (some (block, _)) = free block

abbrev pub array_of : Option (Block × Argv) → Option Argv
array_of none = none
array_of (some (_, pos_argv)) = some pos_argv

unfoldable pub reject_positional : Cmd (Unit {0})
reject_positional = do
  pos_args ← parse_pos_args 1
  let unexpected = (do
    free_array pos_args
    exit_with (complaint (codes "Unexpected positional arguments\n")))
  let fine = free_array pos_args
  if is_unexpected (array_of pos_args) then unexpected else fine

-- What the library answers to the calls of a program.
pub record Answers : Type 0 where
  pub opens : Bool
  pub is_keyexpr : Str → Bool
  pub declares : Bool
  pub succeeds : Bool

abbrev pub failed : ℤ
failed = negsuc 0

-- `z_open`, and the return where it fails.
unfoldable pub open_session : Answers → Trace → Trace
open_session answers rest =
    calls (z_open config session answers.opens)
    ∷ (if answers.opens
        then rest
        else prints (codes "Unable to open session!\n") ∷ returns failed ∷ [])

-- `z_keyexpr_try_from`, and the return where the text is no key expression.
unfoldable pub make_keyexpr : Answers → Str → Trace → Trace
make_keyexpr answers text rest =
    calls (z_keyexpr_try_from text ke (answers.is_keyexpr text))
    ∷ (if answers.is_keyexpr text
        then rest
        else prints (text ++ codes " is not a valid key expression\n")
          ∷ calls (z_session_drop session)
          ∷ returns failed
          ∷ [])

-- A run of a program: `main` after `parse_args`, or an exit within it.
pub data Ran : Type 0 where
  ran : Trace → Ran
  exited : Exit → Ran
  broken : Ran

abbrev pub run_with : {A : Type 0} → (A → Trace) → Run A → Ran
run_with main (ok args p) = ran (main args)
run_with main (exits e) = exited e
run_with main fault = broken
run_with main out_of_fuel = broken
