-- ===== src/Process/Ensures.antt =====
-- A command ends: it returns, with a postcondition, or exits with a message. It neither frees what is
-- not allocated nor runs out of fuel.

use zenoh_flat_c.Process.{Process, Run, ok, exits, Cmd, and_then, Exit}

pub data Ensures {A : Type 0} (Q : A → Process → Type 0) : Run A → Type 0 where
  returns : {a : A} {p : Process} → Q a p → Ensures Q (ok a p)
  quits : {e : Exit} → Ensures Q (exits e)

module _ {A : Type 0} {Q : A → Process → Type 0} where
  pub bind :
      {B : Type 0} {R : B → Process → Type 0} {r : Run A} {k : A → Cmd B}
      → Ensures Q r
      → ((a : A) (p : Process) → Q a p → Ensures R (k a p))
      → Ensures R (and_then r k)
  bind (returns q) rest = rest _ _ q
  bind quits rest = quits

  pub mono :
      {R : A → Process → Type 0} {r : Run A}
      → Ensures Q r
      → ((a : A) (p : Process) → Q a p → R a p)
      → Ensures R r
  mono (returns q) weaken = returns (weaken _ _ q)
  mono quits weaken = quits
