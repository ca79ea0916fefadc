-- ===== src/Trace.antt =====
-- What a program does to the outside, as a list of events: the calls that it makes of the flat API
-- of include/zenoh_flat.h, what it prints, and how it ends. Whether a call succeeds, and what it
-- returns, is an answer of the library and a parameter of the program's model.
pub mod Invocation
pub mod Ledger
pub mod Typing
pub mod Published
pub mod Printed
pub mod Replied
use zenoh_flat_c.Base.{ℕ, ◌+◌, Bool, List, Option}
use zenoh_flat_c.Base.Int.{ℤ}
use zenoh_flat_c.Base.Text.{Str}
use zenoh_flat_c.Api.{Prototype}
use zenoh_flat_c.Enums.{QueryTarget, Priority, CongestionControl}

-- The variable that holds an object: the names below, one for each variable of the programs.
abbrev pub Handle : Type 0
Handle = ℕ

abbrev pub config : Handle
config = 0

abbrev pub session : Handle
session = 1

abbrev pub ke : Handle
ke = 2

abbrev pub payload : Handle
payload = 3

abbrev pub attachment : Handle
attachment = 4

abbrev pub publisher : Handle
publisher = 5

abbrev pub subscriber : Handle
subscriber = 6

abbrev pub queryable : Handle
queryable = 7

abbrev pub scout : Handle
scout = 8

abbrev pub value_buffer : Handle
value_buffer = 9

abbrev pub zid_text : Handle
zid_text = 10

abbrev pub zid_array : Handle
zid_array = 11

abbrev pub keyexpr_text : Handle
keyexpr_text = 12

abbrev pub payload_bytes : Handle
payload_bytes = 13

abbrev pub attachment_bytes : Handle
attachment_bytes = 14

abbrev pub params_text : Handle
params_text = 15

abbrev pub context : Handle
context = 16

-- What the caller of a callback owns: the sample, reply, query or hello.
abbrev pub argument : Handle
argument = 17

abbrev pub other_ke : Handle
other_ke = 18

abbrev pub other_session : Handle
other_session = 19

abbrev pub locators : Handle
locators = 20

abbrev pub to_send : Handle
to_send = 21

-- The i-th string of an array of owned strings.
abbrev pub locator : ℕ → Handle
locator i = 30 + i

-- An object that a call is given: a variable, or what an accessor returns of an object, which is
-- borrowed as long as that object lives.
pub data Place : Type 0 where
  whole : Handle → Place
  part : Prototype → Place → Place

-- The variable that must live.
abbrev pub owner : Place → Handle
owner (whole h) = h
owner (part _ p) = owner p

-- A call, with the handles that it is given, the handle for its result, and whether it succeeds.
pub data Call : Type 0 where
  z_config_default : Handle → Call
  z_config_drop : Handle → Call
  z_open : Handle → Handle → Bool → Call
  z_session_drop : Handle → Call
  z_keyexpr_try_from : Str → Handle → Bool → Call
  z_keyexpr_autocanonize : Str → Handle → Bool → Call
  z_keyexpr_join : Handle → Str → Handle → Bool → Call
  z_keyexpr_intersects : Handle → Handle → Call
  z_keyexpr_includes : Handle → Handle → Call
  z_keyexpr_drop : Handle → Call
  z_keyexpr_to_string : Place → Handle → Call
  z_zbytes_from_slice : Str → Handle → Call
  z_zbytes_clone : Handle → Handle → Call
  z_zbytes_to_bytes : Place → Handle → Call
  z_zbytes_drop : Handle → Call
  z_session_put : Handle → Handle → Handle → Bool → Call
  z_session_delete : Handle → Handle → Bool → Call
  -- with the parameters, the timeout, the target, and the payload where it is given
  z_session_get : Handle → Handle → Option Str → ℤ → QueryTarget → Option Handle → Bool → Call
  -- with the congestion control, the priority and the express flag, where they are given
  z_session_declare_publisher :
      Handle → Handle → Option (CongestionControl × Priority × Bool) → Handle → Bool → Call
  z_session_declare_subscriber : Handle → Handle → List Handle → Handle → Bool → Call
  -- with the `complete` flag
  z_session_declare_queryable : Handle → Handle → Bool → Handle → Bool → Call
  -- with the payload, and the attachment where it is given
  z_publisher_put : Handle → Handle → Option Handle → Call
  z_publisher_drop : Handle → Call
  z_subscriber_drop : Handle → Call
  z_queryable_drop : Handle → Call
  z_query_parameters : Handle → Handle → Call
  z_query_reply_success : Handle → Place → Handle → Call
  z_session_zid : Handle → Call
  z_zenoh_id_to_string : Handle → Call
  z_session_routers_zid : Handle → Handle → Call
  z_session_peers_zid : Handle → Handle → Call
  z_hello_locators : Handle → List Handle → Call
  -- with the kinds of nodes that are looked for, a set of bits
  z_scout : ℕ → Handle → Handle → Bool → Call
  z_scout_drop : Handle → Call
  z_free : Handle → Call
  malloc : Handle → Call
  free : Handle → Call

pub data Event : Type 0 where
  calls : Call → Event
  prints : Str → Event
  sleeps : Event
  -- `return` from `main`
  returns : ℤ → Event
  -- an assertion that fails
  aborts : Event

abbrev pub Trace : Type 0
Trace = List Event
