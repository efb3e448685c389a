-- ===== src/Mr/WorkerTests.antt =====
-- The theorems about the worker and the sequential program at a concrete input.
use mit_distributed_system.Prelude.{
  ℕ, true, ◌+◌, ltb, ◌&&◌, ◌<◌, ◌≡◌, List, [], ◌∷◌, ok, arith, ◌==◌, if◌then◌else◌,
}
use mit_distributed_system.Gob.{Bytes}
use mit_distributed_system.Mr.Coordinator.{
  Coordinator, all_finished, done, rpc_handler, ask, all_done, make_coordinator,
}
use mit_distributed_system.Mr.Turns.{turns}
use mit_distributed_system.Mr.Turns.Finish.{turns-done}
use mit_distributed_system.Mr.Worker.{KeyValue, reduce_task, sequential}
use mit_distributed_system.Mr.Worker.Grouping.{lines}
use mit_distributed_system.Mr.Worker.Buckets.{AllValid, task_of}
use mit_distributed_system.Mr.Worker.Equivalence.{map_tasks, file_at, reduce_task-sequential}
use mit_distributed_system.Mr.WordCount.{
  AllWords, wc_map, wc_reduce, occurrences, all_words, wc_reduce-Unordered, reduce_task-wc,
}
use mit_distributed_system.Mr.Worker.Samples.{
  insertion_sort, insertion_sort-Sorts, sample_json, sample_json_valid, sample_json_at_end,
}

one_digit : ℕ → Bytes
one_digit n = n ∷ []

-- Each byte of a file is a word.
words : Bytes → Bytes → List KeyValue
words name [] = []
words name (b ∷ bytes) = record { key = b ∷ []; value = 1 ∷ [] } ∷ words name bytes

words_valid : (name content : Bytes) → AllValid sample_json (words name content)
unfolding words
words_valid name [] = tt
words_valid name (b ∷ content) =
    (sample_json_valid (b ∷ []), sample_json_valid (1 ∷ []), words_valid name content)

first_byte : Bytes → ℕ
first_byte [] = 0
first_byte (b ∷ bytes) = b

abbrev inputs : List (Bytes × Bytes)
inputs = ([], 5 ∷ 4 ∷ 5 ∷ []) ∷ ([], 4 ∷ 5 ∷ []) ∷ []

reduce_task-sequential_example :
    (all : List (List Bytes)) × (map_tasks first_byte sample_json words 2 inputs ≡ ok all)
    × ((r : ℕ)
        → r < 2
        → (key : Bytes)
        → lines key (reduce_task sample_json insertion_sort (wc_reduce one_digit) 2 (file_at all r))
          ≡ (if task_of first_byte 2 key == r
              then lines key (sequential insertion_sort words (wc_reduce one_digit) inputs)
              else []))
reduce_task-sequential_example =
    reduce_task-sequential first_byte sample_json insertion_sort words (wc_reduce one_digit) 2
      inputs (omega arith) sample_json_at_end words_valid insertion_sort-Sorts
      (wc_reduce-Unordered one_digit)

-- Each byte is a word.
single_bytes : Bytes → List Bytes
single_bytes [] = []
single_bytes (b ∷ bytes) = (b ∷ []) ∷ single_bytes bytes

letters : (content : Bytes) → AllWords sample_json (single_bytes content)
unfolding single_bytes
letters [] = tt
letters (b ∷ content) = (sample_json_valid (b ∷ []), letters content)

reduce_task-wc_example :
    (all : List (List Bytes)) × (map_tasks first_byte sample_json (wc_map single_bytes) 2 inputs
      ≡ ok all)
    × ((r : ℕ)
        → r < 2
        → (word : Bytes)
        → lines word
            (reduce_task sample_json insertion_sort (wc_reduce one_digit) 2 (file_at all r))
          ≡ (if task_of first_byte 2 word == r
                && ltb 0 (occurrences word (all_words single_bytes inputs))
              then one_digit (occurrences word (all_words single_bytes inputs)) ∷ []
              else []))
reduce_task-wc_example =
    reduce_task-wc first_byte sample_json insertion_sort single_bytes one_digit 2 inputs
      (omega arith) sample_json_at_end (sample_json_valid (49 ∷ [])) letters insertion_sort-Sorts

turns-done_example :
    (c : Coordinator) × (turns (2 + 1) (make_coordinator ((1 ∷ []) ∷ (2 ∷ []) ∷ []) 1) ≡ ok c)
    × (all_finished c.map_tasks ≡ true)
    × (done c ≡ true)
    × (rpc_handler c ask true ≡ ok (c, all_done))
turns-done_example = turns-done ((1 ∷ []) ∷ (2 ∷ []) ∷ []) 1 (omega arith) (omega arith)
