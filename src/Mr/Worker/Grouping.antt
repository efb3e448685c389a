-- ===== src/Mr/Worker/Grouping.antt =====
-- The grouping loop of src/mr/worker.go and src/main/mrsequential.go over a sorted list.
use mit_distributed_system.Prelude.{
  ℕ, zero, suc, ◌≤◌, ◌≡◌, refl, sym, subst, inl, inr, true, false, List, [], ◌∷◌, length,
  if◌then◌else◌, arith, Bool-cases,
}
use mit_distributed_system.Gob.{Bytes}
use mit_distributed_system.Assoc.{bytes_beq, bytes_beq_iff}
use mit_distributed_system.Mr.Worker.{KeyValue, run_of, reduce_loop, reduce_sorted}
use mit_distributed_system.Mr.Worker.Order.{bytes_less, bytes_less_total, NoneBelow, Sorted, Sorts}

-- The values of a key, in order.
unfoldable pub values_of : Bytes → List KeyValue → List Bytes
values_of key [] = []
values_of key (kv ∷ kvs) =
    let rest = values_of key kvs in if bytes_beq kv.key key then kv.value ∷ rest else rest

-- The results on the lines of a key.
unfoldable pub lines : Bytes → List (Bytes × Bytes) → List Bytes
lines key [] = []
lines key ((k, result) ∷ out) =
    let rest = lines key out in if bytes_beq k key then result ∷ rest else rest

values_of-NoneBelow :
    (key least : Bytes) (kvs : List KeyValue)
    → NoneBelow least kvs
    → bytes_less key least ≡ true
    → values_of key kvs ≡ []
unfolding values_of
values_of-NoneBelow key least [] n h = refl
values_of-NoneBelow key least (kv ∷ kvs) n h =
    ground (arith, values_of-NoneBelow key least kvs n.1 h, n.0, bytes_beq_iff kv.key key)

-- In a sorted list a run has all the values of its key.
record Run (key : Bytes) (kvs : List KeyValue) (run : List Bytes × List KeyValue) : Type 0 where
  pub all : run.0 ≡ values_of key kvs
  pub gone : values_of key run.1 ≡ []
  pub others : (k : Bytes) → bytes_beq key k ≡ false → values_of k run.1 ≡ values_of k kvs
  pub shorter : length run.1 ≤ length kvs
  pub sorted : Sorted run.1

module _ (key : Bytes) (kv : KeyValue) (kvs : List KeyValue) where
  run_of_same :
      bytes_beq kv.key key ≡ true
      → run_of key (kv ∷ kvs) ≡ (kv.value ∷ (run_of key kvs).0, (run_of key kvs).1)
  unfolding run_of
  run_of_same h = ground arith

  run_of_other : bytes_beq kv.key key ≡ false → run_of key (kv ∷ kvs) ≡ ([], kv ∷ kvs)
  unfolding run_of
  run_of_other h = ground arith

  -- Behind another key that is not less, the key does not occur.
  values_of_behind :
      bytes_beq kv.key key ≡ false
      → bytes_less kv.key key ≡ false
      → NoneBelow kv.key kvs
      → values_of key (kv ∷ kvs) ≡ []
  unfolding values_of
  values_of_behind h n below = elim (Bool-cases (bytes_less key kv.key)) [
    | inl less ↦ ground (arith, values_of-NoneBelow key kv.key kvs below less)
    | inr not_less ↦
        absurd (ground (arith, bytes_less_total kv.key key n not_less, bytes_beq_iff kv.key key))
  ]

run_of-nil : (key : Bytes) → Run key [] (run_of key [])
unfolding run_of values_of
run_of-nil key = record {
  all = refl;
  gone = refl;
  others = λ k h. refl;
  shorter = omega arith;
  sorted = tt;
}

run_of-Run :
    (key : Bytes) (kvs : List KeyValue)
    → NoneBelow key kvs
    → Sorted kvs
    → Run key kvs (run_of key kvs)
unfolding values_of
run_of-Run key [] n s = run_of-nil key
run_of-Run key (kv ∷ kvs) n s =
    let r = run_of-Run key kvs n.1 s.1 in
    elim (Bool-cases (bytes_beq kv.key key)) [
      | inl same ↦ subst (Run key (kv ∷ kvs)) (sym (run_of_same key kv kvs same)) (record {
        all = ground (arith, r.all);
        gone = r.gone;
        others = λ k h. ground (
          arith,
          r.others k h,
          bytes_beq_iff kv.key key,
          bytes_beq_iff kv.key k,
          bytes_beq_iff key k,
        );
        shorter = omega (arith, r.shorter);
        sorted = r.sorted;
      })
      | inr differs ↦
          let gone = values_of_behind key kv kvs differs n.0 s.0 in
          subst (Run key (kv ∷ kvs)) (sym (run_of_other key kv kvs differs)) (record {
            all = sym gone;
            gone = gone;
            others = λ k h. refl;
            shorter = omega arith;
            sorted = s;
          })
    ]

module _ (reducef : Bytes → List Bytes → Bytes) where
  -- One line for a key that has values.
  abbrev pub result_of : Bytes → List Bytes → List Bytes
  result_of key [] = []
  result_of key (v ∷ vs) = reducef key (v ∷ vs) ∷ []

  lines-reduce_loop :
      (key : Bytes) (fuel : ℕ) (kvs : List KeyValue)
      → length kvs ≤ fuel
      → Sorted kvs
      → lines key (reduce_loop reducef fuel kvs) ≡ result_of key (values_of key kvs)
  unfolding lines reduce_loop values_of
  lines-reduce_loop key zero [] enough s = refl
  lines-reduce_loop key zero (kv ∷ kvs) enough s = absurd (omega arith)
  lines-reduce_loop key (suc fuel) [] enough s = refl
  lines-reduce_loop key (suc fuel) (kv ∷ kvs) enough s =
      let r = run_of-Run kv.key kvs s.0 s.1 in
      let shorter = r.shorter in
      let rest = lines-reduce_loop key fuel (run_of kv.key kvs).1 (omega arith) r.sorted in
      elim (Bool-cases (bytes_beq kv.key key)) [
        | inl same ↦
            let at : kv.key ≡ key = (bytes_beq_iff kv.key key).0 same in
            ground (arith, rest, r.all, r.gone)
        | inr differs ↦ ground (arith, rest, r.others key differs)
      ]

-- When Go's sort has done its work, the grouping loop writes for each key with values exactly one line,
-- with the result of the reduce function on all values of the key, in the sorted order; it writes no line
-- for another key.
pub lines-reduce_sorted :
    (sort : List KeyValue → List KeyValue) (reducef : Bytes → List Bytes → Bytes) (key : Bytes)
    (kvs : List KeyValue)
    → Sorts sort
    → lines key (reduce_sorted reducef (sort kvs))
      ≡ result_of reducef key (values_of key (sort kvs))
lines-reduce_sorted sort reducef key kvs sorts =
    lines-reduce_loop reducef key (length (sort kvs)) (sort kvs) (omega arith) (sorts.sorted kvs)
