-- ===== src/Tests/Deliveries.antt =====
-- z_pub with z_sub, and z_get with z_queryable, at concrete data.
use zenoh_flat_c.Base.{◌≡◌, refl, ◌&&◌, false, none, [], arith, if◌then◌else◌}
use zenoh_flat_c.Base.Text.{Str, codes}
use zenoh_flat_c.Enums.{put, sample_kind_value}
use zenoh_flat_c.Trace.{Place}
use zenoh_flat_c.Trace.Printed.{printed_text}
use zenoh_flat_c.Trace.Published.{empty, published}
use zenoh_flat_c.Trace.Replied.{replied}
use zenoh_flat_c.Examples.Pub
use zenoh_flat_c.Examples.Pub.{PubArgs}
use zenoh_flat_c.Examples.Sub.{Sample}
use zenoh_flat_c.Examples.Get.{Reply, reply_ok}
use zenoh_flat_c.Examples.Queryable.{query_handler}
use zenoh_flat_c.Examples.Delivery.{IsFaithful, handled, lines, pub_to_sub}
use zenoh_flat_c.Examples.Answered.{shown, answer_line, get_from_queryable}
use zenoh_flat_c.Tests.Programs.{query}
use zenoh_flat_c.Tests.Effects.{willing}

abbrev plain_args : PubArgs
plain_args = record {
  keyexpr = codes "demo/a";
  value = codes "v";
  attachment_text = none;
  add_matching_listener = false;
}

abbrev sample_of : Str × Str → Sample
sample_of p = record {
  key_expr = p.0;
  kind = sample_kind_value put;
  payload = p.1;
  attachment = none;
}

sample_of-IsFaithful : IsFaithful sample_of
sample_of-IsFaithful = record {
  same_key = λ p. refl;
  is_put = λ p. refl;
  same_bytes = λ p. refl;
  no_attachment = λ p. refl;
}

pub_to_sub_example :
    printed_text (handled sample_of (published empty (Pub.main willing plain_args 2))) ≡ (
      if willing.opens && (willing.is_keyexpr plain_args.keyexpr && willing.declares)
      then lines plain_args.keyexpr plain_args.value 0 2
      else [])
pub_to_sub_example =
    pub_to_sub sample_of sample_of-IsFaithful willing plain_args 2 ((λ e. omega arith), tt)
      (omega arith) (omega arith)

abbrev key_text : Place → Str
key_text place = query.keyexpr

abbrev reply_of : Str × Str → Reply
reply_of p = reply_ok p.0 p.1

get_from_queryable_example :
    printed_text (shown reply_of (replied key_text empty (query_handler query (codes "v"))))
    ≡ answer_line query.keyexpr (codes "v")
get_from_queryable_example =
    get_from_queryable key_text reply_of query (codes "v") refl (λ p. refl) ((λ e. omega arith), tt)
