-- ===== src/Mr/Turns/Finish.antt =====
-- A worker alone (src/mr/worker.go) brings the coordinator (src/mr/coordinator.go) to its end.
use mit_distributed_system.Prelude.{
  ℕ, zero, suc, ◌+◌, ◌<◌, ◌≡◌, refl, subst, ap, true, List, [], ◌∷◌, arith, ◌==◌, length, replicate,
  ok, ◌>>=◌,
}
use mit_distributed_system.Gob.{Bytes}
use mit_distributed_system.Mr.Coordinator.{
  unassigned, Task, Coordinator, all_finished, ask, all_done, done, ask_map, ask_reduce,
  rpc_handler, map_tasks_of, make_coordinator,
}
use mit_distributed_system.Mr.Turns.{report_of, turn, turns}
use mit_distributed_system.Mr.Turns.Progress.{
  idle, unfinished, unfinished-all_finished, hand_out-report,
}

-- Between two rounds of a worker alone, `m` map tasks and `r` reduce tasks are left.
pub record Left (m r : ℕ) (c : Coordinator) : Type 0 where
  pub maps_idle : idle c.map_tasks ≡ true
  pub reduces_idle : idle c.reduce_tasks ≡ true
  pub maps : unfinished c.map_tasks ≡ m
  pub reduces : unfinished c.reduce_tasks ≡ r
  pub map_flag : c.is_map_finished ≡ (m == 0)
  pub flag : c.is_finished ≡ (r == 0)

turn-map :
    (m r : ℕ) (c : Coordinator)
    → 0 < r
    → Left (suc m) r c
    → (c' : Coordinator) × (turn c ≡ ok c') × Left m r c'
unfolding turn rpc_handler ask_map report_of
turn-map m r c some_left p =
    let (i, t, handed, after, gives, reports, fewer, still) =
      hand_out-report c.map_tasks p.maps_idle (omega (arith, p.maps)) in
    let left : unfinished after ≡ m = omega (arith, fewer, p.maps) in
    let flagged = unfinished-all_finished after in
    (
      record c { map_tasks = after; is_map_finished = all_finished after },
      ground (arith, gives, reports, p.map_flag, p.flag),
      record {
        maps_idle = still;
        reduces_idle = p.reduces_idle;
        maps = left;
        reduces = p.reduces;
        map_flag = ground (arith, flagged, left);
        flag = p.flag;
      },
    )

turn-reduce :
    (r : ℕ) (c : Coordinator)
    → Left 0 (suc r) c
    → (c' : Coordinator) × (turn c ≡ ok c') × Left 0 r c'
unfolding turn rpc_handler ask_reduce report_of
turn-reduce r c p =
    let (i, t, handed, after, gives, reports, fewer, still) =
      hand_out-report c.reduce_tasks p.reduces_idle (omega (arith, p.reduces)) in
    let left : unfinished after ≡ r = omega (arith, fewer, p.reduces) in
    let flagged = unfinished-all_finished after in
    (
      record c { reduce_tasks = after; is_finished = all_finished after },
      ground (arith, gives, reports, p.map_flag, p.flag),
      record {
        maps_idle = p.maps_idle;
        reduces_idle = still;
        maps = p.maps;
        reduces = left;
        map_flag = p.map_flag;
        flag = ground (arith, flagged, left);
      },
    )

turns-reduce :
    (r : ℕ) (c : Coordinator) → Left 0 r c → (c' : Coordinator) × (turns r c ≡ ok c') × Left 0 0 c'
unfolding turns
turns-reduce zero c p = (c, refl, p)
turns-reduce (suc r) c p =
    let (next, goes, q) = turn-reduce r c p in
    let (c', rest, last) = turns-reduce r next q in (c', rw (goes, ◌>>=◌) rest, last)

turns-map :
    (n m r : ℕ) (c : Coordinator)
    → n ≡ m + r
    → 0 < r
    → Left m r c
    → (c' : Coordinator) × (turns n c ≡ ok c') × Left 0 0 c'
unfolding turns
turns-map zero m r c e some_left p = absurd (omega arith)
turns-map (suc n) zero r c e some_left p =
    turns-reduce (suc n) c (subst (λ k. Left 0 k c) (omega arith) p)
turns-map (suc n) (suc m) r c e some_left p =
    let (next, goes, q) = turn-map m r c some_left p in
    let (c', rest, last) = turns-map n m r next (omega arith) some_left q in
    (c', rw (goes, ◌>>=◌) rest, last)

unfinished-map_tasks_of :
    (files : List Bytes)
    → (unfinished (map_tasks_of files) ≡ length files) × (idle (map_tasks_of files) ≡ true)
unfolding map_tasks_of
unfinished-map_tasks_of [] = (refl, refl)
unfinished-map_tasks_of (f ∷ files) =
    let (all, still) = unfinished-map_tasks_of files in (ap suc all, still)

unfinished-replicate :
    (n : ℕ) (t : Task Unit)
    → t.phase ≡ unassigned
    → (unfinished (replicate n t) ≡ n) × (idle (replicate n t) ≡ true)
unfinished-replicate zero t h = (refl, refl)
unfinished-replicate (suc n) t h =
    let (all, still) = unfinished-replicate n t h in (ground arith, ground arith)

make_coordinator-Left :
    (files : List Bytes) (n_reduce : ℕ)
    → 0 < length files
    → 0 < n_reduce
    → Left (length files) n_reduce (make_coordinator files n_reduce)
unfolding make_coordinator
make_coordinator-Left files n_reduce some_file some_task =
    let (maps, maps_idle) = unfinished-map_tasks_of files in
    let (reduces, reduces_idle) =
      unfinished-replicate n_reduce (record { phase = unassigned; file = tt; task_number = 0 })
        refl in
    record {
      maps_idle = maps_idle;
      reduces_idle = reduces_idle;
      maps = maps;
      reduces = reduces;
      map_flag = ground arith;
      flag = ground arith;
    }

-- With at least one file and one reduce task, a worker that is alone and never late, whose calls and whose
-- files' renaming succeed, finishes the whole job in one round for each task: then Done is true, every map
-- task is finished, and the worker that asks again is told that all is finished.
pub turns-done :
    (files : List Bytes) (n_reduce : ℕ)
    → 0 < length files
    → 0 < n_reduce
    → (c : Coordinator) × (turns (length files + n_reduce) (make_coordinator files n_reduce) ≡ ok c)
      × (all_finished c.map_tasks ≡ true)
      × (done c ≡ true)
      × (rpc_handler c ask true ≡ ok (c, all_done))
unfolding done rpc_handler
turns-done files n_reduce some_file some_task =
    let (c, goes, p) =
      turns-map (length files + n_reduce) (length files) n_reduce (make_coordinator files n_reduce)
        refl some_task (make_coordinator-Left files n_reduce some_file some_task) in
    (
      c,
      goes,
      ground (arith, unfinished-all_finished c.map_tasks, p.maps),
      ground (arith, unfinished-all_finished c.reduce_tasks, p.reduces),
      ground (arith, p.flag),
    )
