-- ===== src/Config/Choices.antt =====
-- `parse_priority` and `parse_query_target` of examples/parse_args.h.
use zenoh_flat_c.Base.{
  ℕ, ◌<◌, ◌^◌, ◌≡◌, refl, sym, ap, ◌∙◌, ◌↔◌, ◌⊎◌, inl, inr, true, arith, if◌then◌else◌, Bool-cases,
  Option-cases, ◌++◌,
}
use zenoh_flat_c.Base.Int.{ℤ, pos, negsuc}
use zenoh_flat_c.Base.Text.{eq_of_str_eq, Str, codes, atoi, str_eq}
use zenoh_flat_c.Base.Decimal.{decimal, atoi-decimal}
use zenoh_flat_c.Enums.{
  Priority, real_time, interactive_high, interactive_low, data_high, data_normal, data_low,
  background, priority_value, priority_of, QueryTarget, best_matching, all, all_complete,
}
use zenoh_flat_c.Process.{Process, Run, ok, exits, complaint, exit_with}
use zenoh_flat_c.Process.Ensures.{Ensures, returns, quits}
use zenoh_flat_c.Config.{
  parse_priority, is_no_priority, as_priority, unsupported_priority, parse_query_target,
}

-- What the function does with a number.
abbrev pub chosen : ℤ → Str → Process → Run Priority
chosen n arg p =
    (if is_no_priority n then exit_with (complaint (unsupported_priority arg)) else as_priority n) p

chosen_value :
    (q : Priority) (arg : Str) (p : Process) → chosen (pos (priority_value q)) arg p ≡ ok q p
unfolding is_no_priority priority_value priority_of
chosen_value real_time arg p = refl
chosen_value interactive_high arg p = refl
chosen_value interactive_low arg p = refl
chosen_value data_high arg p = refl
chosen_value data_normal arg p = refl
chosen_value data_low arg p = refl
chosen_value background arg p = refl

priority_cases :
    (n : ℕ) → ((q : Priority) × (n ≡ priority_value q)) ⊎ (is_no_priority (pos n) ≡ true)
unfolding is_no_priority priority_value priority_of
priority_cases n = elim (Option-cases (priority_of n)) [
  | inl e ↦ inr (ground arith)
  | inr (q, e) ↦ inl (q, ground arith)
]

same_priority : {q r : Priority} {p : Process} → ok q p ≡ ok r p → q ≡ r
same_priority e = cc

-- A number is the value of a priority, or it is refused.
abbrev IsValue : ℤ → Str → Process → Type 0
IsValue n arg p =
    ((q : Priority) × (n ≡ pos (priority_value q)))
    ⊎ (chosen n arg p ≡ exits (complaint (unsupported_priority arg)))

chosen-IsValue : (n : ℤ) (arg : Str) (p : Process) → IsValue n arg p
unfolding is_no_priority priority_value
chosen-IsValue (negsuc n) arg p = inr refl
chosen-IsValue (pos n) arg p = elim (priority_cases n) [
  | inl (q, e) ↦ inl (q, rw e)
  | inr out ↦ inr (rw (out, is_no_priority))
]

-- The argument is accepted exactly if `atoi` reads the number of a priority, which is then returned;
-- the process is not touched.
pub parse_priority_iff :
    (arg : Str) (q : Priority) (p : Process)
    → (parse_priority arg p ≡ ok q p) ↔ (atoi arg ≡ pos (priority_value q))
unfolding parse_priority
parse_priority_iff arg q p = (accepted, λ e. rw e (chosen_value q arg p))
  where
    accepted : chosen (atoi arg) arg p ≡ ok q p → atoi arg ≡ pos (priority_value q)
    accepted h = elim (chosen-IsValue (atoi arg) arg p) [
      | inl (r, e) ↦
          e
          ∙ ap (λ t. pos (priority_value t))
              (same_priority (sym (chosen_value r arg p) ∙ (rw (← e) h)))
      | inr refused ↦ absurd (cc)
    ]

pub parse_priority-Ensures :
    (arg : Str) (p : Process) → Ensures (λ _ q. q ≡ p) (parse_priority arg p)
unfolding parse_priority
parse_priority-Ensures arg p = elim (chosen-IsValue (atoi arg) arg p) [
  | inl (q, e) ↦ rw (e, chosen_value q arg p) (returns refl)
  | inr refused ↦ rw refused quits
]

priority_small : (q : Priority) → priority_value q < 2 ^ 31
unfolding priority_value
priority_small q = ground arith

-- The number of a priority, in decimal, is accepted as that priority.
pub parse_priority-decimal :
    (q : Priority) (p : Process) → parse_priority (decimal (priority_value q)) p ≡ ok q p
parse_priority-decimal q p =
    (parse_priority_iff (decimal (priority_value q)) q p).1
      (atoi-decimal (priority_value q) (priority_small q))

abbrev pub target_name : QueryTarget → Str
target_name best_matching = codes "BEST_MATCHING"
target_name all = codes "ALL"
target_name all_complete = codes "ALL_COMPLETE"

pub parse_query_target-Ensures :
    (arg : Str) (p : Process) → Ensures (λ _ q. q ≡ p) (parse_query_target arg p)
unfolding parse_query_target
parse_query_target-Ensures arg p = elim (Bool-cases (str_eq arg (codes "BEST_MATCHING"))) [
  | inl e ↦ rw e (returns refl)
  | inr e ↦ elim (Bool-cases (str_eq arg (codes "ALL"))) [
    | inl f ↦ rw (e, f) (returns refl)
    | inr f ↦ elim (Bool-cases (str_eq arg (codes "ALL_COMPLETE"))) [
      | inl g ↦ rw (e, f, g) (returns refl)
      | inr g ↦ rw (e, f, g) quits
    ]
  ]
]

pub target_accepted :
    (t : QueryTarget) (p : Process) → parse_query_target (target_name t) p ≡ ok t p
unfolding parse_query_target str_eq
target_accepted best_matching p = refl
target_accepted all p = refl
target_accepted all_complete p = refl

-- What the function does with a text: it is the name of a target, or it is refused.
abbrev IsName : Str → Process → Type 0
IsName arg p =
    ((t : QueryTarget) × (arg ≡ target_name t))
    ⊎ (parse_query_target arg p
        ≡ exits (complaint (codes "Unsupported query target value [" ++ (arg ++ codes "]\n"))))

named_or_refused-IsName : (arg : Str) (p : Process) → IsName arg p
unfolding parse_query_target
named_or_refused-IsName arg p = elim (Bool-cases (str_eq arg (codes "BEST_MATCHING"))) [
  | inl e ↦ inl (best_matching, eq_of_str_eq arg _ e)
  | inr e ↦ elim (Bool-cases (str_eq arg (codes "ALL"))) [
    | inl f ↦ inl (all, eq_of_str_eq arg _ f)
    | inr f ↦ elim (Bool-cases (str_eq arg (codes "ALL_COMPLETE"))) [
      | inl g ↦ inl (all_complete, eq_of_str_eq arg _ g)
      | inr g ↦ inr (rw (e, f, g))
    ]
  ]
]

same_target : {t u : QueryTarget} {p : Process} → ok t p ≡ ok u p → t ≡ u
same_target e = cc

-- The argument is accepted exactly if it is the name of a target, which is then returned; every other
-- argument is refused with a message that repeats it.
pub parse_query_target_iff :
    (arg : Str) (t : QueryTarget) (p : Process)
    → (parse_query_target arg p ≡ ok t p) ↔ (arg ≡ target_name t)
parse_query_target_iff arg t p = (accepted, λ e. rw e (target_accepted t p))
  where
    accepted : parse_query_target arg p ≡ ok t p → arg ≡ target_name t
    accepted h = elim (named_or_refused-IsName arg p) [
      | inl (u, e) ↦ e ∙ ap target_name (same_target (sym (target_accepted u p) ∙ (rw e at h)))
      | inr refused ↦ absurd (cc)
    ]
