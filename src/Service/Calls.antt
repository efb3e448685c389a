-- ===== src/Service/Calls.antt =====
-- The remote calls of a client, and its loops over them.
use mit_distributed_system.Prelude.{ℕ, Option}

-- What `servers[s].Call` gives when it is the client's call number `t`: `calls t s`, with `none` when
-- Call returns false.
abbrev pub Calls : Type 0 → Type 0
Calls R = ℕ → ℕ → Option R

-- A loop on fuel: it has not ended yet, it panicked, or it ended with a result.
pub data Loop (R : Type 0) : Type 0 where
  running panicked : Loop R
  ended : R → Loop R
