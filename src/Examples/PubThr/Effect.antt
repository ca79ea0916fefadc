-- ===== src/Examples/PubThr/Effect.antt =====
-- What examples/z_pub_thr.c publishes.
use zenoh_flat_c.Base.{
  none, some, ltb, ◌%◌, ℕ, zero, suc, ◌≡◌, refl, ap, ◌&&◌, List, [], ◌∷◌, arith, if◌then◌else◌,
}
use zenoh_flat_c.Base.Text.{Str, codes}
use zenoh_flat_c.Trace.{ke, payload, publisher}
use zenoh_flat_c.Trace.Published.{Contents, empty, holding, published}
use zenoh_flat_c.Examples.{Answers}
use zenoh_flat_c.Examples.PubThr.Fill.{byte_at, byte_at-fill}
use zenoh_flat_c.Examples.PubThr.{PubThrArgs, fill, put_rounds, main}

-- The same message, some times.
abbrev pub repeated : Str → Str → ℕ → List (Str × Str)
repeated key value zero = []
repeated key value (suc n) = (key, value) ∷ repeated key value n

published-put_rounds_thr :
    (key value : Str) (n : ℕ) (contents : Contents)
    → contents publisher ≡ key
    → contents payload ≡ value
    → published contents (put_rounds n) ≡ repeated key value n
unfolding published put_rounds
published-put_rounds_thr key value zero contents e f = refl
published-put_rounds_thr key value (suc n) contents e f =
    rw (e, f) (ap (λ l. (key, value) ∷ l) (published-put_rounds_thr key value n _ e f))

published-main :
    (answers : Answers) (args : PubThrArgs) (rounds : ℕ)
    → published empty (main answers args rounds) ≡ (
        if answers.opens && answers.declares
        then repeated (codes "test/thr") (fill 0 args.size) rounds
        else [])
unfolding published main
published-main answers args rounds = ground (
  arith,
  published-put_rounds_thr (codes "test/thr") (fill 0 args.size) rounds
      (holding payload (fill 0 args.size)
        (holding publisher (codes "test/thr") (holding ke (codes "test/thr") empty)))
      refl refl,
)

-- In its first `rounds` rounds z_pub_thr publishes one payload that many times under `test/thr`: its
-- byte at k is k modulo 10 if k is below the size, and it has no other. It publishes nothing if the
-- session did not open or the publisher was not declared.
pub pub_thr_publishes :
    (answers : Answers) (args : PubThrArgs) (rounds : ℕ)
    → (bytes : List ℕ) × (published empty (main answers args rounds) ≡ (
        if answers.opens && answers.declares then repeated (codes "test/thr") bytes rounds else []))
      × ((k : ℕ) → byte_at k bytes ≡ (if ltb k args.size then some (k % 10) else none))
pub_thr_publishes answers args rounds = (
  fill 0 args.size,
  published-main answers args rounds,
  λ k. let byte = byte_at-fill k 0 args.size in ground (arith, byte),
)
