-- ===== src/Mr/Worker/Order.antt =====
-- The order of the keys by which src/mr/worker.go sorts: Go's order of strings.
use mit_distributed_system.Prelude.{
  ◌≡◌, refl, Bool, true, false, List, [], ◌∷◌, ltb, ◌==◌, if◌then◌else◌, arith,
}
use mathlib.Core.List.{Perm}
use mit_distributed_system.Gob.{Bytes}
use mit_distributed_system.Mr.Worker.{KeyValue}

unfoldable pub bytes_less : Bytes → Bytes → Bool
bytes_less [] [] = false
bytes_less [] (b ∷ bs) = true
bytes_less (a ∷ as') [] = false
bytes_less (a ∷ as') (b ∷ bs) = if a == b then bytes_less as' bs else ltb a b

-- Of two different strings one is less than the other.
pub bytes_less_total : (a b : Bytes) → bytes_less a b ≡ false → bytes_less b a ≡ false → a ≡ b
unfolding bytes_less
bytes_less_total [] [] h g = refl
bytes_less_total [] (b ∷ bs) h g = cc
bytes_less_total (a ∷ as') [] h g = cc
bytes_less_total (a ∷ as') (b ∷ bs) h g = ground (arith, bytes_less_total as' bs)

-- No key of the list is less.
abbrev pub NoneBelow : Bytes → List KeyValue → Type 0
NoneBelow key [] = Unit
NoneBelow key (kv ∷ kvs) = (bytes_less kv.key key ≡ false) × NoneBelow key kvs

abbrev pub Sorted : List KeyValue → Type 0
Sorted [] = Unit
Sorted (kv ∷ kvs) = NoneBelow kv.key kvs × Sorted kvs

-- What sort.Sort(ByKey(...)) of Go's library does.
pub record Sorts (sort : List KeyValue → List KeyValue) : Type 0 where
  pub sorted : (kvs : List KeyValue) → Sorted (sort kvs)
  pub same : (kvs : List KeyValue) → Perm (sort kvs) kvs
