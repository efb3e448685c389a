-- ===== src/Mr/Coordinator/Truth.antt =====
-- The flags of src/mr/coordinator.go, and what the reports have read, are true of the tasks at each step.
use mit_distributed_system.Prelude.{
  ℕ, ◌≡◌, refl, subst, ◌>>=◌, if◌then◌else◌, Bool, true, false, Option, none, some, List, [], ◌∷◌,
  get_elem?, ok, arith, Outcome-cases, inl, inr,
}
use mit_distributed_system.Gob.{Bytes}
use mit_distributed_system.Mr.Coordinator.{
  Task, check_task, all_finished, hand_out, report, all_done, done, ask_map, ask_reduce,
  rpc_handler, map_task_checker, reduce_task_checker, make_coordinator,
}
use mit_distributed_system.Mr.Coordinator.Steps.{
  Scan, scanning, found, returned, Server, write_map, write_reduce, Event, asks, map_reported,
  reduce_reported, map_scans, reduce_scans, map_writes, reduce_writes, map_checked, reduce_checked,
  step, run, start,
}
use mit_distributed_system.Mr.Coordinator.Scans.{
  Keeps, SoundScans, SoundScans-Keeps, SoundScans-append, SoundScans-set, SoundScans-get_elem?,
  scan_at-SoundScans, hand_out-Keeps, check_task-Keeps, report-Keeps,
}
use mit_distributed_system.Mr.Coordinator.Finished.{
  hand_out-all_finished, check_task-all_finished, report-all_finished,
}

-- A flag that is set tells the truth about the tasks, and so does what a report has read.
pub record Truthful (s : Server) : Type 0 where
  pub maps : s.coordinator.is_map_finished ≡ true → all_finished s.coordinator.map_tasks ≡ true
  pub reduces : s.coordinator.is_finished ≡ true → done s.coordinator ≡ true
  pub map_scans_sound : SoundScans s.coordinator.map_tasks s.map_reports
  pub reduce_scans_sound : SoundScans s.coordinator.reduce_tasks s.reduce_reports

-- Other map tasks, in which no finished task is lost.
new_maps-Truthful :
    (s : Server) (ts : List (Task Bytes))
    → Truthful s
    → Keeps s.coordinator.map_tasks ts
    → (all_finished s.coordinator.map_tasks ≡ true → all_finished ts ≡ true)
    → Truthful (record s { coordinator = record s.coordinator { map_tasks = ts } })
unfolding done
new_maps-Truthful s ts p keeps all = record {
  maps = λ h. all (p.maps h);
  reduces = p.reduces;
  map_scans_sound =
      SoundScans-Keeps s.coordinator.map_tasks ts s.map_reports keeps all p.map_scans_sound;
  reduce_scans_sound = p.reduce_scans_sound;
}

new_reduces-Truthful :
    (s : Server) (ts : List (Task Unit))
    → Truthful s
    → Keeps s.coordinator.reduce_tasks ts
    → (all_finished s.coordinator.reduce_tasks ≡ true → all_finished ts ≡ true)
    → Truthful (record s { coordinator = record s.coordinator { reduce_tasks = ts } })
unfolding done
new_reduces-Truthful s ts p keeps all = record {
  maps = p.maps;
  reduces = λ h. all (p.reduces h);
  map_scans_sound = p.map_scans_sound;
  reduce_scans_sound =
      SoundScans-Keeps s.coordinator.reduce_tasks ts s.reduce_reports keeps all
        p.reduce_scans_sound;
}

-- Other readings of the reports, which are true of the tasks.
map_reports-Truthful :
    (s : Server) (reports : List Scan)
    → Truthful s
    → SoundScans s.coordinator.map_tasks reports
    → Truthful (record s { map_reports = reports })
map_reports-Truthful s reports p sound = record {
  maps = p.maps;
  reduces = p.reduces;
  map_scans_sound = sound;
  reduce_scans_sound = p.reduce_scans_sound;
}

reduce_reports-Truthful :
    (s : Server) (reports : List Scan)
    → Truthful s
    → SoundScans s.coordinator.reduce_tasks reports
    → Truthful (record s { reduce_reports = reports })
reduce_reports-Truthful s reports p sound = record {
  maps = p.maps;
  reduces = p.reduces;
  map_scans_sound = p.map_scans_sound;
  reduce_scans_sound = sound;
}

ask_map-Truthful :
    (s t : Server)
    → Truthful s
    → (do next ← ask_map s.coordinator; ok (record s { coordinator = next.0 })) ≡ ok t
    → Truthful t
unfolding ask_map
ask_map-Truthful s t p e = elim (Outcome-cases (hand_out s.coordinator.map_tasks)) [
  | inl stops ↦ absurd (ground arith)
  | inr (m, goes) ↦
      subst (λ u. Truthful u) (ground arith)
        (new_maps-Truthful s m.0 p (hand_out-Keeps s.coordinator.map_tasks goes)
          (hand_out-all_finished s.coordinator.map_tasks goes))
]

ask_reduce-Truthful :
    (s t : Server)
    → Truthful s
    → (do next ← ask_reduce s.coordinator; ok (record s { coordinator = next.0 })) ≡ ok t
    → Truthful t
unfolding ask_reduce
ask_reduce-Truthful s t p e = elim (Outcome-cases (hand_out s.coordinator.reduce_tasks)) [
  | inl stops ↦ absurd (ground arith)
  | inr (m, goes) ↦
      subst (λ u. Truthful u) (ground arith)
        (new_reduces-Truthful s m.0 p (hand_out-Keeps s.coordinator.reduce_tasks goes)
          (hand_out-all_finished s.coordinator.reduce_tasks goes))
]

asks-Truthful : (s t : Server) → Truthful s → step s asks ≡ ok t → Truthful t
unfolding step rpc_handler
asks-Truthful s t p e = by_flags s.coordinator.is_finished s.coordinator.is_map_finished e
  where
    by_flags :
        (f m : Bool)
        → (do
          next ←
              (if f
                then ok (s.coordinator, all_done)
                else if m
                then ask_reduce s.coordinator
                else ask_map s.coordinator)
          ok (record s { coordinator = next.0 }))
          ≡ ok t
        → Truthful t
    by_flags true m g = subst (λ u. Truthful u) (ground arith) p
    by_flags false true g = ask_reduce-Truthful s t p g
    by_flags false false g = ask_map-Truthful s t p g

map_reported-Truthful :
    (s t : Server) (i number : ℕ) (renamed : Bool)
    → Truthful s
    → step s (map_reported i number renamed) ≡ ok t
    → Truthful t
unfolding step
map_reported-Truthful s t i number renamed p e =
    elim (Outcome-cases (report s.coordinator.map_tasks i number renamed)) [
      | inl stops ↦ absurd (ground arith)
      | inr (none, late) ↦ subst (λ u. Truthful u) (ground arith) p
      | inr (some ts, goes) ↦
          (let q =
              new_maps-Truthful s ts p (report-Keeps s.coordinator.map_tasks i number renamed goes)
                (report-all_finished s.coordinator.map_tasks i number renamed goes) in
            subst (λ u. Truthful u) (ground arith)
              (map_reports-Truthful _ _ q (SoundScans-append ts s.map_reports q.map_scans_sound)))
    ]

reduce_reported-Truthful :
    (s t : Server) (i number : ℕ) (renamed : Bool)
    → Truthful s
    → step s (reduce_reported i number renamed) ≡ ok t
    → Truthful t
unfolding step
reduce_reported-Truthful s t i number renamed p e =
    elim (Outcome-cases (report s.coordinator.reduce_tasks i number renamed)) [
      | inl stops ↦ absurd (ground arith)
      | inr (none, late) ↦ subst (λ u. Truthful u) (ground arith) p
      | inr (some ts, goes) ↦
          (let q =
              new_reduces-Truthful s ts p
                (report-Keeps s.coordinator.reduce_tasks i number renamed goes)
                (report-all_finished s.coordinator.reduce_tasks i number renamed goes) in
            subst (λ u. Truthful u) (ground arith)
              (reduce_reports-Truthful _ _ q
                (SoundScans-append ts s.reduce_reports q.reduce_scans_sound)))
    ]

write_map-Truthful :
    (s : Server) (j : ℕ) (r : Option Scan)
    → get_elem? s.map_reports j ≡ r
    → Truthful s
    → Truthful (write_map s j r)
unfolding done
write_map-Truthful s j none e p = p
write_map-Truthful s j (some (scanning k)) e p = p
write_map-Truthful s j (some returned) e p = p
write_map-Truthful s j (some (found b)) e p = record {
  maps = SoundScans-get_elem? s.coordinator.map_tasks s.map_reports j (found b) p.map_scans_sound e;
  reduces = p.reduces;
  map_scans_sound =
      SoundScans-set s.coordinator.map_tasks s.map_reports j returned tt p.map_scans_sound;
  reduce_scans_sound = p.reduce_scans_sound;
}

write_reduce-Truthful :
    (s : Server) (j : ℕ) (r : Option Scan)
    → get_elem? s.reduce_reports j ≡ r
    → Truthful s
    → Truthful (write_reduce s j r)
unfolding done
write_reduce-Truthful s j none e p = p
write_reduce-Truthful s j (some (scanning k)) e p = p
write_reduce-Truthful s j (some returned) e p = p
write_reduce-Truthful s j (some (found b)) e p = record {
  maps = p.maps;
  reduces =
      SoundScans-get_elem? s.coordinator.reduce_tasks s.reduce_reports j (found b)
        p.reduce_scans_sound e;
  map_scans_sound = p.map_scans_sound;
  reduce_scans_sound =
      SoundScans-set s.coordinator.reduce_tasks s.reduce_reports j returned tt p.reduce_scans_sound;
}

step-Truthful : (s t : Server) (e : Event) → Truthful s → step s e ≡ ok t → Truthful t
unfolding step map_task_checker reduce_task_checker
step-Truthful s t asks p e = asks-Truthful s t p e
step-Truthful s t (map_reported i number renamed) p e =
    map_reported-Truthful s t i number renamed p e
step-Truthful s t (reduce_reported i number renamed) p e =
    reduce_reported-Truthful s t i number renamed p e
step-Truthful s t (map_scans j) p e =
    subst (λ u. Truthful u) (ground arith)
      (map_reports-Truthful s _ p
        (scan_at-SoundScans s.coordinator.map_tasks s.map_reports j p.map_scans_sound))
step-Truthful s t (reduce_scans j) p e =
    subst (λ u. Truthful u) (ground arith)
      (reduce_reports-Truthful s _ p
        (scan_at-SoundScans s.coordinator.reduce_tasks s.reduce_reports j p.reduce_scans_sound))
step-Truthful s t (map_writes j) p e =
    subst (λ u. Truthful u) (ground arith) (write_map-Truthful s j _ refl p)
step-Truthful s t (reduce_writes j) p e =
    subst (λ u. Truthful u) (ground arith) (write_reduce-Truthful s j _ refl p)
step-Truthful s t (map_checked i) p e =
    elim (Outcome-cases (check_task s.coordinator.map_tasks i)) [
      | inl stops ↦ absurd (ground arith)
      | inr (ts, goes) ↦
          subst (λ u. Truthful u) (ground arith)
            (new_maps-Truthful s ts p (check_task-Keeps s.coordinator.map_tasks i goes)
              (check_task-all_finished s.coordinator.map_tasks i goes))
    ]
step-Truthful s t (reduce_checked i) p e =
    elim (Outcome-cases (check_task s.coordinator.reduce_tasks i)) [
      | inl stops ↦ absurd (ground arith)
      | inr (ts, goes) ↦
          subst (λ u. Truthful u) (ground arith)
            (new_reduces-Truthful s ts p (check_task-Keeps s.coordinator.reduce_tasks i goes)
              (check_task-all_finished s.coordinator.reduce_tasks i goes))
    ]

pub run-Truthful :
    (s t : Server) (events : List Event) → Truthful s → run s events ≡ ok t → Truthful t
unfolding run
run-Truthful s t [] p e = subst (λ u. Truthful u) (ground arith) p
run-Truthful s t (x ∷ events) p e = elim (Outcome-cases (step s x)) [
  | inl stops ↦ absurd (ground arith)
  | inr (u, goes) ↦ run-Truthful u t events (step-Truthful s u x p goes) (ground arith)
]

pub start-Truthful : (files : List Bytes) (n_reduce : ℕ) → Truthful (start files n_reduce)
unfolding start make_coordinator
start-Truthful files n_reduce = record {
  maps = λ h. ground arith;
  reduces = λ h. ground arith;
  map_scans_sound = tt;
  reduce_scans_sound = tt;
}
