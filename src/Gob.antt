-- ===== src/Gob.antt =====
-- The binary encoding that labgob takes from Go's encoding/gob, as a parameter: a stream encoder
-- and decoder for one type. The laws are what the users of src/labgob/labgob.go rely on.
pub mod Samples
use mit_distributed_system.Prelude.{ℕ, ◌≡◌, ◌≢◌, Option, some, List, [], ◌++◌}

-- []byte
abbrev pub Bytes : Type 0
Bytes = List ℕ

-- `encode a` is what one Encode call appends to the buffer; `decode` reads one value off the front.
pub record Coder {ℓ} (A : Type ℓ) : Type ℓ where
  pub encode : A → Bytes
  pub decode : Bytes → Option (A × Bytes)
  pub decode_encode : (a : A) (rest : Bytes) → decode (encode a ++ rest) ≡ some (a, rest)
  pub encode_nonempty : (a : A) → encode a ≢ []
