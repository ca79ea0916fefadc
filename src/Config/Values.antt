-- ===== src/Config/Values.antt =====
-- The loop of `parse_zenoh_json_list_config` of examples/parse_args.h: the buffers and the values.
use zenoh_flat_c.Base.{
  ℕ, zero, suc, ◌+◌, ◌<◌, ◌≡◌, ap, List, [], ◌∷◌, ◌++◌, arith, length, length-append,
}
use zenoh_flat_c.Base.Text.{Str, snprintf_fits}
use zenoh_flat_c.Process.{
  Block, Heap, fresh, without-second, Argv, Process, complaint, ok, exits, and_then,
}
use zenoh_flat_c.Args.Pull.{live, pull, from_scan, parse_arg_text-pull, pull-Shrinks}
use zenoh_flat_c.Config.{append_value, values_loop, collect_values}
use zenoh_flat_c.Config.Drain.{Drains, done, more, Stops, now, later, live-le-length}

abbrev pub process : Argv → Heap → Process
process a n = record { argv = a; blocks = n }

abbrev pub with_comma : Str → Str
with_comma v = b'\'' ∷ (v ++ (b'\'' ∷ b',' ∷ []))

abbrev pub joined : Str → List Str → Str
joined buf [] = buf
joined buf (v ∷ vs) = joined (buf ++ with_comma v) vs

append_value_lem :
    (c : Block) (buf v : Str) (a : Argv) (n : Heap)
    → append_value (c, buf) v (process a (c ∷ n))
      ≡ ok (fresh (c ∷ n), buf ++ with_comma v) (process a (fresh (c ∷ n) ∷ n))
unfolding append_value
append_value_lem c buf v a n =
    rw (without-second c n)
      (ap (λ t. ok (fresh (c ∷ n), t) (process a (fresh (c ∷ n) ∷ n))) (snprintf_fits _ _ room))
  where
    room : length (buf ++ with_comma v) < length buf + length v + 4
    room = omega (arith, length-append buf (with_comma v), length-append v (b'\'' ∷ b',' ∷ []))

-- The buffer after some values, from the buffer `c` in front of them.
abbrev pub last_block : Block → Heap → List Str → Block
last_block c n [] = c
last_block c n (v ∷ vs) = last_block (fresh (c ∷ n)) n vs

module _ (s l : Str) (n : Heap) where
  values_loop_drained :
      (fuel : ℕ) (c : Block) {a b : Argv} {vs : List Str} (buf : Str)
      → live a < fuel
      → Drains (pull s l) a vs b
      → and_then (from_scan (process a (c ∷ n)) (pull s l a)) (values_loop fuel s l (c, buf))
        ≡ ok (last_block c n vs, joined buf vs) (process b (last_block c n vs ∷ n))
  unfolding values_loop
  values_loop_drained zero c buf h d = absurd (omega arith)
  values_loop_drained (suc fuel) c buf h (done e) = rw e
  values_loop_drained (suc fuel) c {a} buf h (more {ys = ys} {v = v} e d) =
      let fewer = pull-Shrinks s l a v ys e in
      rw
        (e, append_value_lem c buf v ys n, parse_arg_text-pull s l (process ys (fresh (c ∷ n) ∷ n)))
        (values_loop_drained fuel (fresh (c ∷ n)) (buf ++ with_comma v) (omega arith) d)

  values_loop_stopped :
      (fuel : ℕ) (c : Block) {a : Argv} {m : Str} (buf : Str)
      → live a < fuel
      → Stops (pull s l) m a
      → and_then (from_scan (process a (c ∷ n)) (pull s l a)) (values_loop fuel s l (c, buf))
        ≡ exits (complaint m)
  unfolding values_loop
  values_loop_stopped zero c buf h d = absurd (omega arith)
  values_loop_stopped (suc fuel) c buf h (now e) = rw e
  values_loop_stopped (suc fuel) c {a} buf h (later {ys = ys} {v = v} e d) =
      let fewer = pull-Shrinks s l a v ys e in
      rw
        (e, append_value_lem c buf v ys n, parse_arg_text-pull s l (process ys (fresh (c ∷ n) ∷ n)))
        (values_loop_stopped fuel (fresh (c ∷ n)) (buf ++ with_comma v) (omega arith) d)

  pub collect_values_drained :
      (c : Block) {a b : Argv} {vs : List Str}
      → Drains (pull s l) a vs b
      → collect_values s l c (process a (c ∷ n))
        ≡ ok (last_block c n vs, joined [] vs) (process b (last_block c n vs ∷ n))
  unfolding collect_values values_loop
  collect_values_drained c {a} (done e) = rw (parse_arg_text-pull s l (process a (c ∷ n)), e)
  collect_values_drained c {a} (more {ys = ys} {v = v} e d) =
      rw
        (
          parse_arg_text-pull s l (process a (c ∷ n)),
          e,
          append_value_lem c [] v ys n,
          parse_arg_text-pull s l (process ys (fresh (c ∷ n) ∷ n)),
        )
        (values_loop_drained (suc (length ys)) (fresh (c ∷ n)) (with_comma v)
          (omega (arith, live-le-length ys)) d)

  pub collect_values_stopped :
      (c : Block) {a : Argv} {m : Str}
      → Stops (pull s l) m a
      → collect_values s l c (process a (c ∷ n)) ≡ exits (complaint m)
  unfolding collect_values values_loop
  collect_values_stopped c {a} (now e) = rw (parse_arg_text-pull s l (process a (c ∷ n)), e)
  collect_values_stopped c {a} (later {ys = ys} {v = v} e d) =
      rw
        (
          parse_arg_text-pull s l (process a (c ∷ n)),
          e,
          append_value_lem c [] v ys n,
          parse_arg_text-pull s l (process ys (fresh (c ∷ n) ∷ n)),
        )
        (values_loop_stopped (suc (length ys)) (fresh (c ∷ n)) (with_comma v)
          (omega (arith, live-le-length ys)) d)
