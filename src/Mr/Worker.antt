-- ===== src/Mr/Worker.antt =====
-- The map task and the reduce task of src/mr/worker.go, and src/main/mrsequential.go. The hash function,
-- the JSON encoder and the sorting of Go's library are parameters.
pub mod Order
pub mod Grouping
pub mod Buckets
pub mod Equivalence
pub mod Samples
use mit_distributed_system.Prelude.{
  ◌≡◌, ◌≢◌, ℕ, zero, suc, Bool, true, false, Option, none, some, List, [], ◌∷◌, ◌++◌, length,
  get_elem?, set, replicate, ◌==◌, if◌then◌else◌, Outcome, ok, fatal, ◌>>=◌,
}
use Prim.Native.Nat.{◌%◌}
use mit_distributed_system.Gob.{Bytes}
use mit_distributed_system.Assoc.{bytes_beq}

pub record KeyValue : Type 0 where
  pub key : Bytes
  pub value : Bytes

module _ (sum32 : Bytes → ℕ) where
  -- h.Sum32() & 0x7fffffff
  unfoldable pub ihash : Bytes → ℕ
  ihash key = sum32 key % 2147483648

  -- ihash(keyValue.Key) % reply.NReduce, a division by zero when there is no reduce task.
  unfoldable pub reduce_id : ℕ → Bytes → Outcome ℕ
  unfolding ihash
  reduce_id n_reduce key = if n_reduce == 0 then fatal else ok (ihash key % n_reduce)

  -- middleResult[i] = append(middleResult[i], keyValue)
  unfoldable pub append_to : List (List KeyValue) → ℕ → KeyValue → Outcome (List (List KeyValue))
  append_to middle_result i kv = elim (get_elem? middle_result i) [
    | none ↦ fatal
    | some bucket ↦ ok (set middle_result i (bucket ++ kv ∷ []))
  ]

  unfoldable pub distribute :
      ℕ → List KeyValue → List (List KeyValue) → Outcome (List (List KeyValue))
  distribute n_reduce [] middle_result = ok middle_result
  distribute n_reduce (kv ∷ kvs) middle_result = do
    i ← reduce_id n_reduce kv.key
    next ← append_to middle_result i kv
    distribute n_reduce kvs next

-- encoding/json for a KeyValue. Encode replaces what is not valid UTF-8, so only strings that are `valid`,
-- by utf8.ValidString, are read back.
pub record Json : Type 0 where
  pub encode : KeyValue → Bytes
  pub decode : Bytes → Option (KeyValue × Bytes)
  pub valid : Bytes → Bool
  pub decode_encode :
      (kv : KeyValue) (rest : Bytes)
      → valid kv.key ≡ true
      → valid kv.value ≡ true
      → decode (encode kv ++ rest) ≡ some (kv, rest)
  pub encode_nonempty : (kv : KeyValue) → encode kv ≢ []

module _ (json : Json) where
  -- What the Encode calls write.
  unfoldable pub write_file : List KeyValue → Bytes
  write_file [] = []
  write_file (kv ∷ kvs) = json.encode kv ++ write_file kvs

  unfoldable pub write_files : List (List KeyValue) → List Bytes
  write_files [] = []
  write_files (bucket ∷ middle_result) = write_file bucket ∷ write_files middle_result

  -- The Decode calls up to the first error, on fuel.
  unfoldable pub decode_all : ℕ → Bytes → List KeyValue
  decode_all zero bytes = []
  decode_all (suc fuel) bytes = elim (json.decode bytes) [
    | none ↦ []
    | some (kv, rest) ↦ kv ∷ decode_all fuel rest
  ]

  -- A file that does not open is read like an empty one; each value takes at least one byte.
  unfoldable pub read_file : Option Bytes → List KeyValue
  read_file none = decode_all 1 []
  read_file (some bytes) = decode_all (suc (length bytes)) bytes

  -- The values of the files mr-0-r, ..., of the map tasks; `file` has the files from the next one on.
  unfoldable pub gather : (ℕ → Option Bytes) → ℕ → List KeyValue
  gather file zero = []
  gather file (suc n_map) = read_file (file 0) ++ gather (λ i. file (suc i)) n_map

-- The values behind the one at i, as long as they have its key, and what follows them.
unfoldable pub run_of : Bytes → List KeyValue → List Bytes × List KeyValue
run_of key [] = ([], [])
run_of key (kv ∷ kvs) =
    let (values, rest) = run_of key kvs in
    if bytes_beq kv.key key then (kv.value ∷ values, rest) else ([], kv ∷ kvs)

module _ (reducef : Bytes → List Bytes → Bytes) where
  -- The loop over a sorted list, on fuel; a line of the output is a key with its result.
  unfoldable pub reduce_loop : ℕ → List KeyValue → List (Bytes × Bytes)
  reduce_loop zero kvs = []
  reduce_loop (suc fuel) [] = []
  reduce_loop (suc fuel) (kv ∷ kvs) =
      (kv.key, reducef kv.key (kv.value ∷ (run_of kv.key kvs).0))
      ∷ reduce_loop fuel (run_of kv.key kvs).1

  -- Each round takes at least one element.
  abbrev pub reduce_sorted : List KeyValue → List (Bytes × Bytes)
  reduce_sorted kvs = reduce_loop (length kvs) kvs

-- A map task: the contents of the files mr-id-0-tmp, mr-id-1-tmp, ...
unfoldable pub map_task :
    (Bytes → ℕ) → Json → (Bytes → Bytes → List KeyValue) → ℕ → Bytes × Bytes → Outcome (List Bytes)
map_task sum32 json mapf n_reduce (filename, content) = do
  middle_result ← distribute sum32 n_reduce (mapf filename content) (replicate n_reduce [])
  ok (write_files json middle_result)

-- A reduce task: the lines of the file mr-out-r-tmp.
unfoldable pub reduce_task :
    Json
    → (List KeyValue → List KeyValue)
    → (Bytes → List Bytes → Bytes)
    → ℕ
    → (ℕ → Option Bytes)
    → List (Bytes × Bytes)
reduce_task json sort reducef n_map file = reduce_sorted reducef (sort (gather json file n_map))

-- The sequential program: all that Map gives for the files, in order.
unfoldable pub intermediate : (Bytes → Bytes → List KeyValue) → List (Bytes × Bytes) → List KeyValue
intermediate mapf [] = []
intermediate mapf ((filename, content) ∷ files) = mapf filename content ++ intermediate mapf files

-- Its loop over the sorted list is the one of a reduce task.
unfoldable pub sequential :
    (List KeyValue → List KeyValue)
    → (Bytes → Bytes → List KeyValue)
    → (Bytes → List Bytes → Bytes)
    → List (Bytes × Bytes)
    → List (Bytes × Bytes)
sequential sort mapf reducef files = reduce_sorted reducef (sort (intermediate mapf files))
