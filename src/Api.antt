-- ===== src/Api.antt =====
-- include/zenoh_flat.h: the types of the flat API, and the prototype of each function as data. The
-- functions themselves are the Rust library's.
pub mod Config
pub mod Encoding
pub mod Hello
pub mod Keyexpr
pub mod Library
pub mod Liveliness
pub mod Publisher
pub mod Querier
pub mod Query
pub mod Queryable
pub mod Reply
pub mod Sample
pub mod Scout
pub mod Session
pub mod Subscriber
pub mod Timestamp
pub mod Zbytes
pub mod ZenohId
pub mod All
use zenoh_flat_c.Base.{ℕ, Option, none, some, List}
use zenoh_flat_c.Base.Text.{Str, codes}

-- The structs that stand for objects, without those of the closures.
pub data Object : Type 0 where
  config_t encoding_t hello_t zenoh_id_t keyexpr_t subscriber_t session_t sample_t
        liveliness_token_t reply_t publisher_t zbytes_t querier_t query_t queryable_t reply_error_t
        timestamp_t scout_t :
      Object

-- A struct with no bytes is only ever behind a pointer; the others have bytes and an alignment.
pub data Layout : Type 0 where
  opaque : Layout
  inline : ℕ → ℕ → Layout

unfoldable pub layout : Object → Layout
layout config_t = opaque
layout encoding_t = inline 40 8
layout hello_t = inline 48 8
layout zenoh_id_t = inline 16 1
layout keyexpr_t = opaque
layout subscriber_t = opaque
layout session_t = opaque
layout sample_t = inline 184 8
layout liveliness_token_t = opaque
layout reply_t = inline 184 8
layout publisher_t = opaque
layout zbytes_t = inline 32 8
layout querier_t = opaque
layout query_t = inline 136 8
layout queryable_t = opaque
layout reply_error_t = inline 72 8
layout timestamp_t = inline 24 8
layout scout_t = opaque

-- The name between `z_` and `_t`.
unfoldable pub object_name : Object → Str
object_name config_t = codes "config"
object_name encoding_t = codes "encoding"
object_name hello_t = codes "hello"
object_name zenoh_id_t = codes "zenoh_id"
object_name keyexpr_t = codes "keyexpr"
object_name subscriber_t = codes "subscriber"
object_name session_t = codes "session"
object_name sample_t = codes "sample"
object_name liveliness_token_t = codes "liveliness_token"
object_name reply_t = codes "reply"
object_name publisher_t = codes "publisher"
object_name zbytes_t = codes "zbytes"
object_name querier_t = codes "querier"
object_name query_t = codes "query"
object_name queryable_t = codes "queryable"
object_name reply_error_t = codes "reply_error"
object_name timestamp_t = codes "timestamp"
object_name scout_t = codes "scout"

pub data Closure : Type 0 where
  sample_closure drop_closure reply_closure hello_closure query_closure : Closure

-- What the function `call` of a closure receives besides the context.
unfoldable pub call_argument : Closure → Option Object
call_argument sample_closure = some sample_t
call_argument drop_closure = none
call_argument reply_closure = some reply_t
call_argument hello_closure = some hello_t
call_argument query_closure = some query_t

pub data Enumeration : Type 0 where
  whatami_t congestion_control_t priority_t sample_kind_t query_target_t consolidation_mode_t
        reply_key_expr_t :
      Enumeration

pub data CType : Type 0 where
  void boolean int32 int64 uintptr char byte : CType
  object : Object → CType
  closure : Closure → CType
  enumeration : Enumeration → CType
  -- `T *` and `const T *`
  pointer_to : CType → CType
  const_pointer_to : CType → CType

-- `char **e`
abbrev pub error_out : CType
error_out = pointer_to (pointer_to char)

pub record Prototype : Type 0 where
  pub name : Str
  pub result : CType
  pub parameters : List CType

abbrev pub prototype : Str → CType → List CType → Prototype
prototype name result parameters = record { name = name; result = result; parameters = parameters }
