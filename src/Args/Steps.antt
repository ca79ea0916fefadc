-- ===== src/Args/Steps.antt =====
-- How the functions of examples/parse_args.h that read `argv` end, and what they leave.
use zenoh_flat_c.Base.{ℕ, ◌+◌, ◌≤◌, ◌≡◌, refl, Bool, true, false, Option, none, some, arith, length}
use zenoh_flat_c.Base.Text.{Str, codes}
use zenoh_flat_c.Process.{Argv, Process, ok, Cmd, help_shown, exit_with, ◌>>=◌}
use zenoh_flat_c.Process.Ensures.{Ensures, returns, quits, bind, mono}
use zenoh_flat_c.Args.{
  Scan, not_found, found, no_value, parse_opt, parse_arg_text, parse_arg, check_flag, check_help,
}
use zenoh_flat_c.Args.Pull.{
  live, pull, scan_argv, from_scan, parse_opt-scan_argv, parse_arg_text-pull, scan_argv-Shrinks,
  pull-Shrinks,
}

-- `k` blocks more, in an array as long, with no more arguments.
pub record Leads (k : ℕ) (p q : Process) : Type 0 where
  pub blocks_are : length q.blocks ≡ length p.blocks + k
  pub as_long : length q.argv ≡ length p.argv
  pub no_more : live q.argv ≤ live p.argv

pub Leads-refl : (p : Process) → Leads 0 p p
Leads-refl p = omega arith

pub Leads-trans : {j k : ℕ} {p q r : Process} → Leads j p q → Leads k q r → Leads (j + k) p r
Leads-trans a b = omega arith

-- One step and then another that keeps the blocks.
pub Leads-step : {p q r : Process} → Leads 0 p q → Leads 0 q r → Leads 0 p r
Leads-step a b = omega arith

from_scan-Ensures :
    (p : Process) (r : Scan)
    → ((v : Str) (rest : Argv) → r ≡ found v rest → Leads 0 p (record p { argv = rest }))
    → Ensures (λ _ q. Leads 0 p q) (from_scan p r)
from_scan-Ensures p not_found h = returns (Leads-refl p)
from_scan-Ensures p (found v rest) h = returns (h v rest refl)
from_scan-Ensures p (no_value m) h = quits

pub parse_opt-Ensures :
    (opt : Str) (has_value : Bool) (p : Process)
    → Ensures (λ _ q. Leads 0 p q) (parse_opt opt has_value p)
parse_opt-Ensures opt hv p = rw (parse_opt-scan_argv opt hv p) (
    from_scan-Ensures p (scan_argv opt hv p.argv)
      (λ v rest e. let s = scan_argv-Shrinks opt hv p.argv v rest e in omega arith))

pub parse_arg_text-Ensures :
    (s l : Str) (p : Process) → Ensures (λ _ q. Leads 0 p q) (parse_arg_text s l p)
parse_arg_text-Ensures s l p = rw (parse_arg_text-pull s l p) (
    from_scan-Ensures p (pull s l p.argv)
      (λ v rest e. let h = pull-Shrinks s l p.argv v rest e in omega arith))

-- A conversion that does not touch the process.
pub parse_arg-Ensures :
    {A : Type 0} (s l : Str) (func : Str → Cmd A) (default_value : A) (p : Process)
    → ((v : Str) (q : Process) → Ensures (λ _ r. r ≡ q) (func v q))
    → Ensures (λ _ q. Leads 0 p q) (parse_arg s l func default_value p)
unfolding parse_arg
parse_arg-Ensures {A} s l func default_value p keeps = bind (parse_arg_text-Ensures s l p) convert
  where
    convert :
        (o : Option Str) (q : Process)
        → Leads 0 p q
        → Ensures
            (λ _ r. Leads 0 p r)
            ((let c : Cmd A = elim o [ none ↦ ok default_value | some v ↦ func v ] in c) q)
    convert none q h = returns h
    convert (some v) q h = mono (keeps v q) (λ a r e. rw e h)

pub check_flag-Ensures : (id : Str) (p : Process) → Ensures (λ _ q. Leads 0 p q) (check_flag id p)
unfolding check_flag
check_flag-Ensures id p = bind (parse_opt-Ensures id false p) (λ o q h. returns h)

pub check_help-Ensures : (p : Process) → Ensures (λ _ q. Leads 0 p q) (check_help p)
unfolding check_help
check_help-Ensures p = bind (check_flag-Ensures (codes "h") p) after_h
  where
    after_help :
        (b : Bool) (r : Process)
        → Leads 0 p r
        → Ensures
            (λ _ q. Leads 0 p q)
            ((let c : Cmd (Unit {0}) = elim b [ true ↦ exit_with help_shown | false ↦ ok tt ] in c)
              r)
    after_help true r h = quits
    after_help false r h = returns h

    after_h :
        (b : Bool) (q : Process)
        → Leads 0 p q
        → Ensures
            (λ _ q. Leads 0 p q)
            ((let c : Cmd (Unit {0}) = elim b [
              | true ↦ exit_with help_shown
              | false ↦
                  check_flag (codes "help")
                  >>= (λ help. elim help [ true ↦ exit_with help_shown | false ↦ ok tt ])
            ] in
                c)
              q)
    after_h true q h = quits
    after_h false q h =
        bind (check_flag-Ensures (codes "help") q) (λ b r k. after_help b r (Leads-step h k))
