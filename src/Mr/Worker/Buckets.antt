-- ===== src/Mr/Worker/Buckets.antt =====
-- The files of a map task of src/mr/worker.go, and how a reduce task reads them.
use mit_distributed_system.Prelude.{
  ℕ, zero, suc, ◌<◌, ◌≡◌, ◌≢◌, refl, Bool, true, false, inl, inr, none, some, List, [], ◌∷◌, ◌++◌,
  append-nil, length, length-append, length-set, length-replicate, get_elem?, get_elem?_total, set,
  replicate, append-snoc, ◌==◌, if◌then◌else◌, arith, Bool-cases, ok, ◌>>=◌,
}
use Prim.Native.Nat.{◌%◌}
use mit_distributed_system.Gob.{Bytes}
use mit_distributed_system.Mr.Worker.{
  KeyValue, Json, ihash, reduce_id, append_to, distribute, write_file, decode_all, read_file,
  map_task, write_files,
}

module _ (sum32 : Bytes → ℕ) (n_reduce : ℕ) where
  -- The reduce task of a key.
  abbrev pub task_of : Bytes → ℕ
  task_of key = ihash sum32 key % n_reduce

  -- The values for the reduce task `r`, in order.
  unfoldable pub for_task : ℕ → List KeyValue → List KeyValue
  for_task r [] = []
  for_task r (kv ∷ kvs) =
      let rest = for_task r kvs in if task_of kv.key == r then kv ∷ rest else rest

pub get_elem?-set :
    {A : Type 0} (xs : List A) (i j : ℕ) (a : A)
    → i < length xs
    → get_elem? (set xs i a) j ≡ (if i == j then some a else get_elem? xs j)
get_elem?-set [] i j a h = absurd (omega arith)
get_elem?-set (x ∷ xs) zero zero a h = refl
get_elem?-set (x ∷ xs) zero (suc j) a h = ground arith
get_elem?-set (x ∷ xs) (suc i) zero a h = ground arith
get_elem?-set (x ∷ xs) (suc i) (suc j) a h = ground (arith, get_elem?-set xs i j a (omega arith))

get_elem?-replicate : {A : Type 0} (n i : ℕ) (a : A) → i < n → get_elem? (replicate n a) i ≡ some a
get_elem?-replicate zero i a h = absurd (omega arith)
get_elem?-replicate (suc n) zero a h = refl
get_elem?-replicate (suc n) (suc i) a h = get_elem?-replicate n i a (omega arith)

get_elem?-write_files :
    (json : Json) (xs : List (List KeyValue)) (i : ℕ) (kvs : List KeyValue)
    → get_elem? xs i ≡ some kvs
    → get_elem? (write_files json xs) i ≡ some (write_file json kvs)
unfolding write_files
get_elem?-write_files json [] i a e = absurd (ground arith)
get_elem?-write_files json (x ∷ xs) zero a e = ground arith
get_elem?-write_files json (x ∷ xs) (suc i) a e = get_elem?-write_files json xs i a e

length_positive : (bytes : Bytes) → bytes ≢ [] → 0 < length bytes
length_positive [] h = absurd (h refl)
length_positive (b ∷ bytes) h = omega arith

module _ (sum32 : Bytes → ℕ) (n_reduce : ℕ) (some_task : 0 < n_reduce) where
  -- The middle result `next` has what `old` has, and behind it the values of `kvs` for each task.
  record Extends (old next : List (List KeyValue)) (kvs : List KeyValue) : Type 0 where
    pub size : length next ≡ n_reduce
    pub bucket :
        (r : ℕ) (b : List KeyValue)
        → r < n_reduce
        → get_elem? old r ≡ some b
        → get_elem? next r ≡ some (b ++ for_task sum32 n_reduce r kvs)

module _ (sum32 : Bytes → ℕ) (n_reduce : ℕ) (some_task : 0 < n_reduce) where
  reduce_id_total : (key : Bytes) → reduce_id sum32 n_reduce key ≡ ok (task_of sum32 n_reduce key)
  unfolding reduce_id ihash
  reduce_id_total key = ground arith

  task_of_bounds : (key : Bytes) → task_of sum32 n_reduce key < n_reduce
  task_of_bounds key = omega arith

  later_bucket :
      (kv : KeyValue) (kvs : List KeyValue) (old next : List (List KeyValue)) (b c : List KeyValue)
      (r : ℕ)
      → length old ≡ n_reduce
      → get_elem? old (task_of sum32 n_reduce kv.key) ≡ some b
      → Extends sum32 n_reduce some_task
          (set old (task_of sum32 n_reduce kv.key) (b ++ kv ∷ []))
          next
          kvs
      → r < n_reduce
      → get_elem? old r ≡ some c
      → get_elem? next r ≡ some (c ++ for_task sum32 n_reduce r (kv ∷ kvs))
  unfolding for_task
  later_bucket kv kvs old next b c r size at e h held =
      let bound = task_of_bounds kv.key in
      let i = task_of sum32 n_reduce kv.key in
      let now = get_elem?-set old i r (b ++ kv ∷ []) (omega arith) in
      elim (Bool-cases (i == r)) [
        | inl same ↦ ground (
          arith,
          now,
          e.bucket r (b ++ kv ∷ []) h,
          append-snoc b (for_task sum32 n_reduce r kvs) kv,
        )
        | inr differs ↦ ground (arith, now, e.bucket r c h)
      ]

  distribute_total :
      (kvs : List KeyValue) (old : List (List KeyValue))
      → length old ≡ n_reduce
      → (next : List (List KeyValue)) × (distribute sum32 n_reduce kvs old ≡ ok next)
        × Extends sum32 n_reduce some_task old next kvs
  unfolding distribute for_task append_to
  distribute_total [] old size =
      (old, refl, record { size = size; bucket = λ r b h e. ground (arith, append-nil b) })
  distribute_total (kv ∷ kvs) old size =
      let i = task_of sum32 n_reduce kv.key in
      let bound = task_of_bounds kv.key in
      let (b, at) = get_elem?_total old i (omega arith) in
      let added = set old i (b ++ kv ∷ []) in
      let same = length-set old i (b ++ kv ∷ []) in
      let (next, goes, e) = distribute_total kvs added (omega arith) in
      (
        next,
        rw (reduce_id_total kv.key, ◌>>=◌, at, ◌>>=◌) goes,
        record {
          size = e.size;
          bucket = λ r c h held. later_bucket kv kvs old next b c r size at e h held;
        },
      )

  -- A map task returns with a file for each reduce task, which holds the values for that task, in order.
  pub map_task_total :
      (json : Json) (mapf : Bytes → Bytes → List KeyValue) (input : Bytes × Bytes)
      → (files : List Bytes) × (map_task sum32 json mapf n_reduce input ≡ ok files)
        × ((r : ℕ)
            → r < n_reduce
            → get_elem? files r
              ≡ some (write_file json (for_task sum32 n_reduce r (mapf input.0 input.1))))
  unfolding map_task
  map_task_total json mapf (name, content) =
      let empty : List (List KeyValue) = replicate n_reduce [] in
      let (next, goes, e) =
        distribute_total (mapf name content) empty (length-replicate n_reduce []) in
      (
        write_files json next,
        rw (goes, ◌>>=◌) refl,
        λ r h.
            get_elem?-write_files json next r _
              (e.bucket r [] h (get_elem?-replicate n_reduce r [] h)),
      )

-- All keys and values are valid strings.
abbrev pub AllValid : Json → List KeyValue → Type 0
AllValid json [] = Unit
AllValid json (kv ∷ kvs) =
    (json.valid kv.key ≡ true) × (json.valid kv.value ≡ true) × AllValid json kvs

pub for_task-AllValid :
    (json : Json) (sum32 : Bytes → ℕ) (n r : ℕ) (kvs : List KeyValue)
    → AllValid json kvs
    → AllValid json (for_task sum32 n r kvs)
unfolding for_task
for_task-AllValid json sum32 n r [] v = tt
for_task-AllValid json sum32 n r (kv ∷ kvs) v =
    by_task (task_of sum32 n kv.key == r) (for_task-AllValid json sum32 n r kvs v.2)
  where
    by_task :
        (b : Bool)
        → AllValid json (for_task sum32 n r kvs)
        → AllValid json (if b then kv ∷ for_task sum32 n r kvs else for_task sum32 n r kvs)
    by_task true rest = (v.0, v.1, rest)
    by_task false rest = rest

module _ (json : Json) (at_end : json.decode [] ≡ none) where
  decode_all-write_file :
      (kvs : List KeyValue) (fuel : ℕ)
      → AllValid json kvs
      → length (write_file json kvs) < fuel
      → decode_all json fuel (write_file json kvs) ≡ kvs
  unfolding decode_all write_file
  decode_all-write_file [] zero v h = absurd (omega arith)
  decode_all-write_file [] (suc fuel) v h = ground arith
  decode_all-write_file (kv ∷ kvs) zero v h = absurd (omega arith)
  decode_all-write_file (kv ∷ kvs) (suc fuel) v h =
      let long = length-append (json.encode kv) (write_file json kvs) in
      let some_byte = length_positive (json.encode kv) (json.encode_nonempty kv) in
      ground (
        arith,
        json.decode_encode kv (write_file json kvs) v.0 v.1,
        decode_all-write_file kvs fuel v.2 (omega arith),
      )

  -- What was written is read back, and a missing file is empty.
  pub read_file-write_file :
      (kvs : List KeyValue) → AllValid json kvs → read_file json (some (write_file json kvs)) ≡ kvs
  unfolding read_file
  read_file-write_file kvs v = decode_all-write_file kvs _ v (omega arith)
