-- ===== src/Tests/Programs.antt =====
-- Runs of the example programs, and the theorems about them at concrete data.
use zenoh_flat_c.Base.{◌≡◌, refl, true, false, not, ◌&&◌, some, List, [], ◌∷◌, if◌then◌else◌}
use zenoh_flat_c.Base.Text.{Str, codes, str_eq}
use zenoh_flat_c.Enums.{data_high, all, put, sample_kind_value, peer, router, whatami_value}
use zenoh_flat_c.Process.{Process}
use zenoh_flat_c.Process.Ensures.{Ensures}
use zenoh_flat_c.Config.Values.{process}
use zenoh_flat_c.Trace.{
  config, session, publisher, subscriber, queryable, argument, payload, value_buffer,
}
use zenoh_flat_c.Trace.Ledger.{ledger}
use zenoh_flat_c.Examples.{Answers}
use zenoh_flat_c.Examples.Runs.{Clean, Safe, runs_clean}
use zenoh_flat_c.Examples.Programs.{
  put_program, delete_program, get_program, info_program, pub_program, sub_program,
  queryable_program, pub_thr_program, sub_thr_program,
}
use zenoh_flat_c.Examples.Parsing.{AllParsed, programs_parse_all}
use zenoh_flat_c.Examples.Put
use zenoh_flat_c.Examples.Put.{PutArgs}
use zenoh_flat_c.Examples.Delete
use zenoh_flat_c.Examples.Delete.{DeleteArgs}
use zenoh_flat_c.Examples.Pub
use zenoh_flat_c.Examples.Pub.{PubArgs}
use zenoh_flat_c.Examples.Sub
use zenoh_flat_c.Examples.Sub.{SubArgs, Sample, data_handler}
use zenoh_flat_c.Examples.Queryable
use zenoh_flat_c.Examples.Queryable.{QueryableArgs, Query, query_handler}
use zenoh_flat_c.Examples.Get
use zenoh_flat_c.Examples.Get.{GetArgs, Reply, reply_ok, reply_handler}
use zenoh_flat_c.Examples.Info
use zenoh_flat_c.Examples.Scout
use zenoh_flat_c.Examples.Scout.{Hello}
use zenoh_flat_c.Examples.PubThr
use zenoh_flat_c.Examples.PubThr.{PubThrArgs}
use zenoh_flat_c.Examples.SubThr
use zenoh_flat_c.Examples.SubThr.{SubThrArgs}
use zenoh_flat_c.Examples.Owned.{handlers_ownership, endless_ownership}
use zenoh_flat_c.Tests.{list_api, arg}

abbrev pub answers : Answers
answers = record {
  opens = true;
  is_keyexpr = λ text. not (str_eq text (codes "//"));
  declares = true;
  succeeds = false;
}

abbrev text : Str
text = codes "demo/a"

abbrev pub put_args : PutArgs
put_args = record { keyexpr = text; value = codes "v" }

abbrev pub pub_args : PubArgs
pub_args = record {
  keyexpr = text;
  value = codes "v";
  attachment_text = some (codes "a");
  add_matching_listener = true;
}

abbrev pub sub_args : SubArgs
sub_args = record { keyexpr = text }

abbrev pub sample : Sample
sample = record {
  key_expr = text;
  kind = sample_kind_value put;
  payload = 1 ∷ 0 ∷ [];
  attachment = some (2 ∷ []);
}

abbrev pub queryable_args : QueryableArgs
queryable_args = record { keyexpr = text; value = codes "v"; complete = true }

abbrev pub query : Query
query = record { keyexpr = text; parameters = codes "x=1"; payload_given = some (7 ∷ []) }

abbrev pub get_args : GetArgs
get_args = record {
  selector = codes "d?x=1";
  value = some (codes "v");
  target = all;
  timeout_ms = 10000;
}

abbrev pub hellos : List Hello
hellos =
    record {
      zid = codes "1";
      whatami = whatami_value peer;
      locator_texts = codes "tcp/a:1" ∷ codes "tcp/b:2" ∷ [];
    }
    ∷ record { zid = codes "2"; whatami = whatami_value router; locator_texts = [] }
    ∷ []

abbrev pub pub_thr_args : PubThrArgs
pub_thr_args = record { size = 8; priority = data_high; express = true }

abbrev pub sub_thr_args : SubThrArgs
sub_thr_args = record { samples = 10; num_messages = 1000 }

abbrev line : Process
line = process (arg (codes "prog") ∷ arg (codes "-k") ∷ arg text ∷ arg (codes "-x") ∷ []) []

programs_parse_all_example :
    Ensures (λ _ q. AllParsed line q) (Put.parse_args list_api line)
    × Ensures (λ _ q. AllParsed line q) (Delete.parse_args list_api line)
    × Ensures (λ _ q. AllParsed line q) (Pub.parse_args list_api line)
    × Ensures (λ _ q. AllParsed line q) (Sub.parse_args list_api line)
    × Ensures (λ _ q. AllParsed line q) (Queryable.parse_args list_api line)
    × Ensures (λ _ q. AllParsed line q) (Get.parse_args list_api line)
    × Ensures (λ _ q. AllParsed line q) (Info.parse_args list_api line)
    × Ensures (λ _ q. AllParsed line q) (SubThr.parse_args list_api line)
programs_parse_all_example = programs_parse_all list_api line

runs_clean_example :
    Clean (put_program list_api answers line)
    × Clean (delete_program list_api answers line)
    × Clean (get_program list_api answers line)
    × Clean (info_program list_api answers (codes "1") [] (codes "2" ∷ []) line)
    × Safe (pub_program list_api answers 2 line)
    × Safe (sub_program list_api answers 2 line)
    × Safe (queryable_program list_api answers 2 line)
    × Safe (pub_thr_program list_api answers 2 line)
    × Safe (sub_thr_program list_api answers 2 line)
unfolding str_eq
runs_clean_example = runs_clean list_api answers (codes "1") [] (codes "2" ∷ []) 2 line refl

handlers_ownership_example :
    (ledger (data_handler sample) (argument ∷ []) ≡ some (argument ∷ []))
    × (ledger (query_handler query (codes "v")) (argument ∷ []) ≡ some (argument ∷ []))
    × (ledger (reply_handler (reply_ok text (1 ∷ []))) (argument ∷ []) ≡ some (argument ∷ []))
    × (ledger (Scout.main true hellos) (argument ∷ []) ≡ some (argument ∷ []))
handlers_ownership_example =
    handlers_ownership sample query (codes "v") (reply_ok text (1 ∷ [])) true hellos

endless_ownership_example :
    (ledger (Pub.main answers pub_args 3) (config ∷ [])
      ≡ some (
          if answers.opens && (answers.is_keyexpr text && answers.declares)
          then publisher ∷ session ∷ []
          else []))
    × (ledger (Sub.main answers sub_args 3) (config ∷ [])
        ≡ some (
            if answers.opens && (answers.is_keyexpr text && answers.declares)
            then subscriber ∷ session ∷ []
            else []))
    × (ledger (Queryable.main answers queryable_args 3) (config ∷ [])
        ≡ some (
            if answers.opens && (answers.is_keyexpr text && answers.declares)
            then queryable ∷ session ∷ []
            else []))
    × (ledger (PubThr.main answers pub_thr_args 3) (config ∷ [])
        ≡ some (
            if answers.opens && answers.declares
            then payload ∷ publisher ∷ session ∷ value_buffer ∷ []
            else []))
    × (ledger (SubThr.main answers sub_thr_args 3) (config ∷ [])
        ≡ some (if answers.opens && answers.declares then subscriber ∷ session ∷ [] else []))
unfolding str_eq
endless_ownership_example =
    endless_ownership answers pub_args sub_args queryable_args pub_thr_args sub_thr_args 3 refl
