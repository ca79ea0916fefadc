-- ===== src/Args/Help.antt =====
-- `_Z_CHECK_FLAG` and `_Z_CHECK_HELP` of examples/parse_args.h.
use zenoh_flat_c.Base.{◌≡◌, refl, ◌∙◌, ◌⊎◌, inl, inr, true, false, Option, some, ◌∷◌, ◌++◌, All}
use zenoh_flat_c.Base.Text.{Str, codes}
use zenoh_flat_c.Process.{Argv, Process, ok, exits, help_shown}
use zenoh_flat_c.Args.{Scan, not_found, found, scan, check_flag, check_help}
use zenoh_flat_c.Args.Names.{ShortOf, LongOf}
use zenoh_flat_c.Args.Outcome.{Outcome, Skipped, absent, flag, attached, next, missing}
use zenoh_flat_c.Args.Outcome.Sound.{scan-Outcome}
use zenoh_flat_c.Args.Outcome.Complete.{Outcome-scan}
use zenoh_flat_c.Args.Pull.{parse_opt-scan_argv}

-- An argument is a name of the flag.
abbrev pub Mentions : Str → Argv → Type 0
Mentions opt xs =
    (before : Argv) × (a : Str) × (after : Argv) × (xs ≡ before ++ some a ∷ after)
    × (ShortOf opt a ⊎ LongOf opt a)

-- What the loop finds for a flag.
abbrev pub FlagCases : Str → Argv → Type 0
FlagCases opt xs =
    (Mentions opt xs × ((rest : Argv) × (scan opt false xs ≡ found opt rest)))
    ⊎ (All (Skipped opt) xs × (scan opt false xs ≡ not_found))

pub scan-FlagCases : (opt : Str) (xs : Argv) → FlagCases opt xs
scan-FlagCases opt xs = go (scan opt false xs) refl (scan-Outcome opt false xs)
  where
    go : (r : Scan) → scan opt false xs ≡ r → Outcome opt false xs r → FlagCases opt xs
    go r e (absent all er) = inr (all, e ∙ er)
    go r e (flag before after a all n hf ex er) = inl ((before, a, after, ex, n), (_, e ∙ er))
    go r e (attached before after a value all n ht ex er) = absurd (cc)
    go r e (next before after a value m all n ht ex er) = absurd (cc)
    go r e (missing before after a m all n ht no_arg ex er) = absurd (cc)

module _ (p : Process) (name : Option Str) (xs : Argv) (argv_is : p.argv ≡ name ∷ xs) where
  pub check_flag_set :
      (opt : Str) (rest : Argv)
      → scan opt false xs ≡ found opt rest
      → check_flag opt p ≡ ok true (record p { argv = name ∷ rest })
  unfolding check_flag
  check_flag_set opt rest e = rw (parse_opt-scan_argv opt false p, argv_is, e)

  pub check_flag_unset : (opt : Str) → scan opt false xs ≡ not_found → check_flag opt p ≡ ok false p
  unfolding check_flag
  check_flag_unset opt e = rw (parse_opt-scan_argv opt false p, argv_is, e)

  -- Without such an argument the check for help changes nothing.
  pub check_help_absent :
      All (Skipped (codes "h")) xs → All (Skipped (codes "help")) xs → check_help p ≡ ok tt p
  unfolding check_help
  check_help_absent no_h no_help = rw (
    check_flag_unset (codes "h") (Outcome-scan (codes "h") false xs not_found (absent no_h refl)),
    check_flag_unset (codes "help")
        (Outcome-scan (codes "help") false xs not_found (absent no_help refl)),
  )

  -- The help is shown and the process exits exactly if some argument is `-h`, or begins with `--help`;
  -- on every other command line nothing happens, and nothing is taken out of `argv`.
  pub check_help_cases :
      ((Mentions (codes "h") xs ⊎ Mentions (codes "help") xs) × (check_help p ≡ exits help_shown))
      ⊎ ((All (Skipped (codes "h")) xs × All (Skipped (codes "help")) xs)
          × (check_help p ≡ ok tt p))
  unfolding check_help
  check_help_cases = elim (scan-FlagCases (codes "h") xs) [
    | inl (m, (rest, e)) ↦ inl (inl m, rw (check_flag_set (codes "h") rest e))
    | inr (all, e) ↦ elim (scan-FlagCases (codes "help") xs) [
      | inl (m, (rest, f)) ↦
          inl (inr m, rw (check_flag_unset (codes "h") e, check_flag_set (codes "help") rest f))
      | inr (none_left, f) ↦
          inr (
            (all, none_left),
            rw (check_flag_unset (codes "h") e, check_flag_unset (codes "help") f),
          )
    ]
  ]
