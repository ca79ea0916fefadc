-- ===== src/Lib.antt =====
-- zenoh-flat-c, the C side of the flat API for zenoh: the command-line parser and the example
-- programs of examples/, as functions, with the theorems about them.
--
-- The program's parts, and the file for each:
--   * examples/parse_args.h reads the command line. Every function takes its options out of `argv`
--     by putting NULL in their place, so what one leaves is what the next one sees.
--     Process.antt has the process that the functions work on: `argv`, where an entry is a text or
--     NULL, and the blocks from malloc and calloc that are not freed. A command returns,
--     exits with a message, frees a block that is not allocated (`fault`), or is out of fuel.
--     Args.antt has parse_opt, check_unknown_opts, parse_pos_args and the macros. Args/Names.antt
--     and Args/Outcome.antt describe what a command line means, without a loop, and the modules
--     below Args/Outcome compare the loop with this. Args/Pull.antt and Args/Steps.antt are about
--     the macros, Args/Help.antt about the flags and the check for help.
--     Config.antt has parse_zenoh_common_args with all that it calls, parse_query_target and
--     parse_priority. The configuration library (z_config_default, z_config_from_file,
--     z_config_insert_json5) is the parameter `ConfigApi`. Config/Common.antt has the settings that
--     a command line gives, and the configuration that the settings make.
--   * include/zenoh_flat.h declares the flat API. Api.antt has its types, and the modules below it the
--     prototype of each function as data (name, result, parameters), a module for each object;
--     Api/All.antt has them all.
--     Enums.antt has the enumerations.
--   * Trace.antt has the calls that the programs make of the API, as events, and Trace/Invocation.antt
--     each call as an invocation of a prototype with its arguments. Trace/Ledger.antt has the
--     ownership rules: an object behind a `const` pointer is borrowed, one that is passed otherwise is
--     consumed, and what is returned is owned. Trace/Typing.antt has the types along a trace. What the library answers is a
--     parameter (`Answers` of Examples.antt).
--   * examples/z_put.c, z_delete.c, z_pub.c, z_sub.c, z_queryable.c, z_get.c, z_info.c, z_scout.c,
--     z_pub_thr.c and z_sub_thr.c are the programs: Examples/Put.antt and so on, with `parse_args`
--     as a command and `main` as the trace of what it does after `parse_args`. The module Ownership
--     below each follows the trace with the ledger, and a module Effect reads off the trace what is
--     published (Trace/Published.antt) or asked for; Trace/Replied.antt and Trace/Printed.antt read
--     off replies and printed text. Examples/Parsing.antt is about what
--     `parse_args` leaves, CommandLine.antt below Put and Get about a whole command line,
--     Examples/Programs.antt has `parse_args` and `main` together, which Examples/Runs.antt is
--     about. Examples/Get/Completion.antt has
--     the wait of z_get as the steps of two threads, and Latch.antt below it what the wait is for.
--     Examples/SubThr/Rounds.antt has the rounds that z_sub_thr counts, Examples/SubThr/Report.antt
--     the times and rates that it prints. Examples/Typed.antt is about the types of the calls,
--     Examples/Owned.antt about ownership in several programs, Examples/ShutDown.antt about the code
--     behind the endless loops. Examples/Help.antt has the help texts, and the modules below it
--     compare them with what `parse_args` takes. Examples/Delivery.antt has z_pub and z_sub together,
--     Examples/Answered.antt z_get and z_queryable; that the library delivers what is published and
--     replied is a hypothesis there. Examples/EndToEnd.antt has z_put and z_get from the command
--     line to what they publish or ask for.
--   * tests/ has three tests of the flat API: ApiTests.antt, in the same way, with the assertions.
--
-- Bounds and fuel: the loops over -e, -l and --cfg have one unit of fuel more than `argv` has
-- entries, and one for the last test; each round takes an argument out of `argv`, so this is
-- enough. An endless loop of a `main` is cut after any given number of rounds. A long has 64 bits, an
-- int 32; `atoi` keeps 32 bits of what strtol reads, as glibc does, and the round number of z_pub
-- wraps around. A double is any type with the operations of Base/Double.antt; what
-- is relied on of their rounding are the named laws there, which Tests/Doubles.antt meets. A text
-- is a list of character codes without the null byte; snprintf cuts it to the size of its buffer.
--
-- Not modelled: the reading of the clock, z_init_zenoh_logs_from_env_or, a failing
-- malloc, and the Rust library with its generator.
pub mod Base
pub mod Process
pub mod Args
pub mod Enums
pub mod Config
pub mod Trace
pub mod Examples
pub mod Api
pub mod ApiTests
pub mod Tests
