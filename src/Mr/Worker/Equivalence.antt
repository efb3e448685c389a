-- ===== src/Mr/Worker/Equivalence.antt =====
-- The distributed work of src/mr/worker.go against the sequential program src/main/mrsequential.go.
use mit_distributed_system.Prelude.{
  ℕ, ◌<◌, ◌≡◌, refl, ap, ◌∙◌, Option, none, some, List, [], ◌∷◌, ◌++◌, length, get_elem?, ◌==◌,
  if◌then◌else◌, arith, Outcome, ok, ◌>>=◌,
}
use mathlib.Core.List.{Perm, filter_map}
use mathlib.Core.List.Perm
use mit_distributed_system.Gob.{Bytes}
use mit_distributed_system.Assoc.{bytes_beq, bytes_beq_iff}
use mit_distributed_system.Mr.Worker.{
  KeyValue, Json, read_file, gather, reduce_sorted, map_task, reduce_task, intermediate, sequential,
}
use mit_distributed_system.Mr.Worker.Order.{Sorts}
use mit_distributed_system.Mr.Worker.Grouping.{values_of, lines, result_of, lines-reduce_sorted}
use mit_distributed_system.Mr.Worker.Buckets.{
  AllValid, for_task-AllValid, task_of, for_task, map_task_total, read_file-write_file,
}

-- All map tasks, one after the other: the files of each.
unfoldable pub map_tasks :
    (Bytes → ℕ)
    → Json
    → (Bytes → Bytes → List KeyValue)
    → ℕ
    → List (Bytes × Bytes)
    → Outcome (List (List Bytes))
map_tasks sum32 json mapf n_reduce [] = ok []
map_tasks sum32 json mapf n_reduce (input ∷ inputs) = do
  files ← map_task sum32 json mapf n_reduce input
  others ← map_tasks sum32 json mapf n_reduce inputs
  ok (files ∷ others)

-- mr-i-r
abbrev pub file_at : List (List Bytes) → ℕ → ℕ → Option Bytes
file_at all r i = elim (get_elem? all i) [ none ↦ none | some files ↦ get_elem? files r ]

-- A reduce function that does not look at the order of the values.
abbrev pub Unordered : (Bytes → List Bytes → Bytes) → Type 0
Unordered reducef =
    (key : Bytes) (vs ws : List Bytes) → Perm vs ws → reducef key vs ≡ reducef key ws

value_if : Bytes → KeyValue → Option Bytes
value_if key kv = if bytes_beq kv.key key then some kv.value else none

values_of-filter_map :
    (key : Bytes) (kvs : List KeyValue) → values_of key kvs ≡ filter_map (value_if key) kvs
unfolding values_of value_if filter_map
values_of-filter_map key [] = refl
values_of-filter_map key (kv ∷ kvs) = ground (arith, values_of-filter_map key kvs)

pub values_of-append :
    (key : Bytes) (xs ys : List KeyValue)
    → values_of key (xs ++ ys) ≡ values_of key xs ++ values_of key ys
unfolding values_of
values_of-append key [] ys = refl
values_of-append key (kv ∷ xs) ys = ground (arith, values_of-append key xs ys)

values_of-for_task :
    (sum32 : Bytes → ℕ) (n r : ℕ) (key : Bytes) (kvs : List KeyValue)
    → values_of key (for_task sum32 n r kvs)
      ≡ (if task_of sum32 n key == r then values_of key kvs else [])
unfolding values_of for_task
values_of-for_task sum32 n r key [] = ground arith
values_of-for_task sum32 n r key (kv ∷ kvs) =
    ground (arith, values_of-for_task sum32 n r key kvs, bytes_beq_iff kv.key key)

-- The values of a key after sorting are a permutation of those before.
values_of-Perm :
    (sort : List KeyValue → List KeyValue) (key : Bytes) (kvs : List KeyValue)
    → Sorts sort
    → Perm (values_of key (sort kvs)) (values_of key kvs)
values_of-Perm sort key kvs sorts =
    rw (values_of-filter_map key (sort kvs), values_of-filter_map key kvs)
      (Perm.filter_map (value_if key) (sorts.same kvs))

result_of-Perm :
    (reducef : Bytes → List Bytes → Bytes) (key : Bytes) (vs ws : List Bytes)
    → Unordered reducef
    → Perm vs ws
    → result_of reducef key vs ≡ result_of reducef key ws
result_of-Perm reducef key [] [] u p = refl
result_of-Perm reducef key [] (w ∷ ws) u p = absurd (ground (arith, Perm.eq-nil (Perm.symm p)))
result_of-Perm reducef key (v ∷ vs) [] u p = absurd (ground (arith, Perm.eq-nil p))
result_of-Perm reducef key (v ∷ vs) (w ∷ ws) u p = ap (λ r. r ∷ []) (u key (v ∷ vs) (w ∷ ws) p)

-- The lines of a key depend on its values only, in whichever order they came.
pub lines_of_values :
    (sort : List KeyValue → List KeyValue) (reducef : Bytes → List Bytes → Bytes) (key : Bytes)
    (kvs : List KeyValue)
    → Sorts sort
    → Unordered reducef
    → lines key (reduce_sorted reducef (sort kvs)) ≡ result_of reducef key (values_of key kvs)
lines_of_values sort reducef key kvs sorts u =
    lines-reduce_sorted sort reducef key kvs sorts
    ∙ result_of-Perm reducef key _ _ u (values_of-Perm sort key kvs sorts)

module _ (sum32 : Bytes → ℕ) (json : Json) (mapf : Bytes → Bytes → List KeyValue) (n : ℕ)
    (some_task : 0 < n) (at_end : json.decode [] ≡ none)
    (valid : (name content : Bytes) → AllValid json (mapf name content)) where
  -- All map tasks return, and a reduce task gathers from their files the values of its keys, in the order
  -- in which the sequential program has them.
  gather_total :
      (inputs : List (Bytes × Bytes))
      → (all : List (List Bytes)) × (map_tasks sum32 json mapf n inputs ≡ ok all)
        × ((r : ℕ)
            → r < n
            → (key : Bytes)
            → values_of key (gather json (file_at all r) (length inputs))
              ≡ (if task_of sum32 n key == r then values_of key (intermediate mapf inputs) else []))
  unfolding map_tasks gather intermediate values_of
  gather_total [] = ([], refl, λ r h key. ground arith)
  gather_total ((name, content) ∷ inputs) =
      let (files, done, held) = map_task_total sum32 n some_task json mapf (name, content) in
      let (others, rest_done, gathered) = gather_total inputs in
      (
        files ∷ others,
        rw (done, ◌>>=◌, rest_done, ◌>>=◌) refl,
        λ r h key. ground (
          arith,
          held r h,
          read_file-write_file json at_end (for_task sum32 n r (mapf name content))
              (for_task-AllValid json sum32 n r (mapf name content) (valid name content)),
          values_of-append key (read_file json (get_elem? files r))
              (gather json (file_at others r) (length inputs)),
          values_of-append key (mapf name content) (intermediate mapf inputs),
          values_of-for_task sum32 n r key (mapf name content),
          gathered r h key,
        ),
      )

-- With at least one reduce task, and a map function whose keys and values are valid UTF-8, which the JSON
-- encoder keeps as they are, all map tasks return; and if the reduce function does not look at the order
-- of the values, the reduce task that a key is hashed to writes for the key the line that the sequential
-- program writes, and no other reduce task writes a line for it.
pub reduce_task-sequential :
    (sum32 : Bytes → ℕ) (json : Json) (sort : List KeyValue → List KeyValue)
    (mapf : Bytes → Bytes → List KeyValue) (reducef : Bytes → List Bytes → Bytes) (n : ℕ)
    (inputs : List (Bytes × Bytes))
    → 0 < n
    → json.decode [] ≡ none
    → ((name content : Bytes) → AllValid json (mapf name content))
    → Sorts sort
    → Unordered reducef
    → (all : List (List Bytes)) × (map_tasks sum32 json mapf n inputs ≡ ok all)
      × ((r : ℕ)
          → r < n
          → (key : Bytes)
          → lines key (reduce_task json sort reducef (length inputs) (file_at all r)) ≡ (
              if task_of sum32 n key == r
              then lines key (sequential sort mapf reducef inputs)
              else []))
unfolding reduce_task sequential
reduce_task-sequential sum32 json sort mapf reducef n inputs some_task at_end valid sorts u =
    let (all, done, gathered) = gather_total sum32 json mapf n some_task at_end valid inputs in
    (
      all,
      done,
      λ r h key. ground (
        arith,
        gathered r h key,
        lines_of_values sort reducef key (gather json (file_at all r) (length inputs)) sorts u,
        lines_of_values sort reducef key (intermediate mapf inputs) sorts u,
      ),
    )
