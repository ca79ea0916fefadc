-- ===== src/Examples/Help/Rejected.antt =====
-- `parse_args` of each program of examples/ against its help text: an option that the help does not
-- document is refused.
use zenoh_flat_c.Base.{◌≡◌, refl, ◌||◌, ◌++◌, Bool, true, Option, some, List, [], ◌∷◌, arith, All}
use zenoh_flat_c.Base.Text.{Str, codes, str_eq, starts_with}
use zenoh_flat_c.Base.Decimal.{decimal}
use zenoh_flat_c.Enums.{priority_value}
use zenoh_flat_c.Process.{Heap, grown, Argv, Process, Run, exits, complaint}
use zenoh_flat_c.Args.{first_option, check_unknown_opts}
use zenoh_flat_c.Config.{ConfigApi}
use zenoh_flat_c.Config.Values.{process}
use zenoh_flat_c.Examples.{unknown_option, reject_unknown, text_arg, optional_arg}
use zenoh_flat_c.Examples.Help.{
  common_help, put_help, delete_help, pub_help, sub_help, queryable_help, get_help, info_help,
  pub_thr_help, sub_thr_help,
}
use zenoh_flat_c.Examples.Help.Documented.{documented, contains}
use zenoh_flat_c.Examples.Help.Undocumented.{
  Nameless, parse_arg-Nameless, check_flag-Nameless, check_help-Nameless, common_args-Nameless,
}
use zenoh_flat_c.Examples.Put
use zenoh_flat_c.Examples.Delete
use zenoh_flat_c.Examples.Pub
use zenoh_flat_c.Examples.Sub
use zenoh_flat_c.Examples.Queryable
use zenoh_flat_c.Examples.Get
use zenoh_flat_c.Examples.Info
use zenoh_flat_c.Examples.PubThr
use zenoh_flat_c.Examples.SubThr

-- The programs that read a command line.
pub data Program : Type 0 where
  z_put z_delete z_pub z_sub z_queryable z_get z_info z_pub_thr z_sub_thr : Program

unfoldable pub help_of : Program → Str
help_of z_put = put_help
help_of z_delete = delete_help
help_of z_pub = pub_help
help_of z_sub = sub_help
help_of z_queryable = queryable_help
help_of z_get = get_help
help_of z_info = info_help
help_of z_pub_thr = pub_thr_help
help_of z_sub_thr = sub_thr_help

abbrev Refused : {A : Type 0} → Run A → Str → Type 0
Refused r a = r ≡ exits (complaint (unknown_option a))

-- `parse_args` of the program prints `Unknown option` with this argument, and exits.
abbrev pub Rejects : ConfigApi → Program → Process → Str → Type 0
Rejects api z_put line a = Refused (Put.parse_args api line) a
Rejects api z_delete line a = Refused (Delete.parse_args api line) a
Rejects api z_pub line a = Refused (Pub.parse_args api line) a
Rejects api z_sub line a = Refused (Sub.parse_args api line) a
Rejects api z_queryable line a = Refused (Queryable.parse_args api line) a
Rejects api z_get line a = Refused (Get.parse_args api line) a
Rejects api z_info line a = Refused (Info.parse_args api line) a
Rejects api z_pub_thr line a = Refused (PubThr.parse_args api line) a
Rejects api z_sub_thr line a = Refused (SubThr.parse_args api line) a

contains_behind :
    (own opts : List Str) (opt : Str) → contains opts opt ≡ true → contains (own ++ opts) opt ≡ true
contains_behind [] opts opt h = h
contains_behind (o ∷ own) opts opt h =
    let rest = contains_behind own opts opt h in
    either (str_eq o opt) (contains (own ++ opts) opt) rest
  where
    either : (a b : Bool) → b ≡ true → (a || b) ≡ true
    either a b k = ground arith

reject_unknown_refuses :
    (name : Option Str) (xs : Argv) (a : Str) (n : Heap)
    → first_option xs ≡ some a
    → reject_unknown (process (name ∷ xs) n) ≡ exits (complaint (unknown_option a))
unfolding reject_unknown check_unknown_opts
reject_unknown_refuses name xs a n unknown = rw (reject_unknown, unknown)

-- If no argument is an option that the help text documents, and some argument begins with `-`, then
-- `parse_args` of the program exits with the message `Unknown option` and the first such argument,
-- whatever the other arguments are. An argument counts as an option that is documented as `parse_opt`
-- compares it, a long one by its beginning.
pub undocumented_rejected :
    (api : ConfigApi) (program : Program) (name : Option Str) (xs : Argv) (a : Str) (n : Heap)
    → All (Nameless (documented (help_of program))) xs
    → first_option xs ≡ some a
    → Rejects api program (process (name ∷ xs) n) a
unfolding help_of documented common_help starts_with str_eq text_arg optional_arg decimal
    priority_value put_help delete_help pub_help sub_help queryable_help get_help info_help
    pub_thr_help sub_thr_help Put.parse_args Delete.parse_args Pub.parse_args Sub.parse_args
    Queryable.parse_args Get.parse_args Info.parse_args PubThr.parse_args SubThr.parse_args
undocumented_rejected api z_put name xs a n h u =
    rw
      (
        check_help-Nameless name xs (documented put_help) h n refl refl,
        parse_arg-Nameless name xs (documented put_help) h (codes "k") (codes "key") _ _ n refl refl
            refl,
        parse_arg-Nameless name xs (documented put_help) h (codes "p") (codes "payload") _ _ n refl
            refl refl,
        common_args-Nameless name xs (documented put_help) h
            (contains_behind (codes "k" ∷ codes "key" ∷ codes "p" ∷ codes "payload" ∷ [])
              (documented common_help))
            api n,
        reject_unknown_refuses name xs a (grown n) u,
      )
      refl
undocumented_rejected api z_delete name xs a n h u =
    rw
      (
        check_help-Nameless name xs (documented delete_help) h n refl refl,
        parse_arg-Nameless name xs (documented delete_help) h (codes "k") (codes "key") _ _ n refl
            refl refl,
        common_args-Nameless name xs (documented delete_help) h
            (contains_behind (codes "k" ∷ codes "key" ∷ []) (documented common_help)) api n,
        reject_unknown_refuses name xs a (grown n) u,
      )
      refl
undocumented_rejected api z_pub name xs a n h u =
    rw
      (
        check_help-Nameless name xs (documented pub_help) h n refl refl,
        parse_arg-Nameless name xs (documented pub_help) h (codes "k") (codes "key") _ _ n refl refl
            refl,
        parse_arg-Nameless name xs (documented pub_help) h (codes "p") (codes "payload") _ _ n refl
            refl refl,
        parse_arg-Nameless name xs (documented pub_help) h (codes "a") (codes "attach") _ _ n refl
            refl refl,
        check_flag-Nameless name xs (documented pub_help) h (codes "add-matching-listener") n refl,
        common_args-Nameless name xs (documented pub_help) h
            (contains_behind
              (codes "k"
                ∷ codes "key"
                ∷ codes "p"
                ∷ codes "payload"
                ∷ codes "a"
                ∷ codes "attach"
                ∷ codes "add-matching-listener"
                ∷ [])
              (documented common_help))
            api n,
        reject_unknown_refuses name xs a (grown n) u,
      )
      refl
undocumented_rejected api z_sub name xs a n h u =
    rw
      (
        check_help-Nameless name xs (documented sub_help) h n refl refl,
        parse_arg-Nameless name xs (documented sub_help) h (codes "k") (codes "key") _ _ n refl refl
            refl,
        common_args-Nameless name xs (documented sub_help) h
            (contains_behind (codes "k" ∷ codes "key" ∷ []) (documented common_help)) api n,
        reject_unknown_refuses name xs a (grown n) u,
      )
      refl
undocumented_rejected api z_queryable name xs a n h u =
    rw
      (
        check_help-Nameless name xs (documented queryable_help) h n refl refl,
        parse_arg-Nameless name xs (documented queryable_help) h (codes "k") (codes "key") _ _ n
            refl refl refl,
        parse_arg-Nameless name xs (documented queryable_help) h (codes "p") (codes "payload") _ _ n
            refl refl refl,
        check_flag-Nameless name xs (documented queryable_help) h (codes "complete") n refl,
        common_args-Nameless name xs (documented queryable_help) h
            (contains_behind
              (codes "k" ∷ codes "key" ∷ codes "p" ∷ codes "payload" ∷ codes "complete" ∷ [])
              (documented common_help))
            api n,
        reject_unknown_refuses name xs a (grown n) u,
      )
      refl
undocumented_rejected api z_get name xs a n h u =
    rw
      (
        check_help-Nameless name xs (documented get_help) h n refl refl,
        parse_arg-Nameless name xs (documented get_help) h (codes "s") (codes "selector") _ _ n refl
            refl refl,
        parse_arg-Nameless name xs (documented get_help) h (codes "p") (codes "payload") _ _ n refl
            refl refl,
        parse_arg-Nameless name xs (documented get_help) h (codes "o") (codes "timeout") _ _ n refl
            refl refl,
        parse_arg-Nameless name xs (documented get_help) h (codes "t") (codes "target") _ _ n refl
            refl refl,
        common_args-Nameless name xs (documented get_help) h
            (contains_behind
              (codes "s"
                ∷ codes "selector"
                ∷ codes "p"
                ∷ codes "payload"
                ∷ codes "t"
                ∷ codes "target"
                ∷ codes "o"
                ∷ codes "timeout"
                ∷ [])
              (documented common_help))
            api n,
        reject_unknown_refuses name xs a (grown n) u,
      )
      refl
undocumented_rejected api z_info name xs a n h u =
    rw
      (
        check_help-Nameless name xs (documented info_help) h n refl refl,
        common_args-Nameless name xs (documented info_help) h
            (contains_behind ([]) (documented common_help)) api n,
        reject_unknown_refuses name xs a (grown n) u,
      )
      refl
undocumented_rejected api z_pub_thr name xs a n h u =
    rw
      (
        check_help-Nameless name xs (documented pub_thr_help) h n refl refl,
        parse_arg-Nameless name xs (documented pub_thr_help) h (codes "p") (codes "priority") _ _ n
            refl refl refl,
        check_flag-Nameless name xs (documented pub_thr_help) h (codes "express") n refl,
        common_args-Nameless name xs (documented pub_thr_help) h
            (contains_behind (codes "p" ∷ codes "priority" ∷ codes "express" ∷ [])
              (documented common_help))
            api n,
        reject_unknown_refuses name xs a (grown n) u,
      )
      refl
undocumented_rejected api z_sub_thr name xs a n h u =
    rw
      (
        check_help-Nameless name xs (documented sub_thr_help) h n refl refl,
        parse_arg-Nameless name xs (documented sub_thr_help) h (codes "s") (codes "samples") _ _ n
            refl refl refl,
        parse_arg-Nameless name xs (documented sub_thr_help) h (codes "n") (codes "number") _ _ n
            refl refl refl,
        common_args-Nameless name xs (documented sub_thr_help) h
            (contains_behind (codes "s" ∷ codes "samples" ∷ codes "n" ∷ codes "number" ∷ [])
              (documented common_help))
            api n,
        reject_unknown_refuses name xs a (grown n) u,
      )
      refl
