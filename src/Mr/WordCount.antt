-- ===== src/Mr/WordCount.antt =====
-- The word count application src/mrapps/wc.go, run by the workers. Splitting into words and the decimal
-- notation are Go's library, and parameters.
use mit_distributed_system.Prelude.{
  ℕ, true, suc, ◌+◌, ◌<◌, ◌≡◌, refl, ap, sym, ◌∙◌, none, List, [], ◌∷◌, ◌++◌, length, length-append,
  arith, ◌==◌, if◌then◌else◌, ◌&&◌, ltb, ok,
}
use mathlib.Core.List.{Perm}
use mathlib.Core.List
use mathlib.Core.List.Perm
use mathlib.Core.Nat
use mit_distributed_system.Gob.{Bytes}
use mit_distributed_system.Assoc.{bytes_beq}
use mit_distributed_system.Mr.Worker.{KeyValue, Json, reduce_task, intermediate, sequential}
use mit_distributed_system.Mr.Worker.Order.{Sorts}
use mit_distributed_system.Mr.Worker.Grouping.{values_of, lines, result_of}
use mit_distributed_system.Mr.Worker.Buckets.{AllValid, task_of}
use mit_distributed_system.Mr.Worker.Equivalence.{
  map_tasks, file_at, Unordered, reduce_task-sequential, values_of-append, lines_of_values,
}

-- The loop over the words, each with the value "1".
unfoldable pub word_pairs : List Bytes → List KeyValue
word_pairs [] = []
word_pairs (w ∷ words) = record { key = w; value = 49 ∷ [] } ∷ word_pairs words

-- Map, where `fields` is strings.FieldsFunc at the characters that are no letters.
unfoldable pub wc_map : (Bytes → List Bytes) → Bytes → Bytes → List KeyValue
wc_map fields filename contents = word_pairs (fields contents)

-- Reduce, where `itoa` is strconv.Itoa.
unfoldable pub wc_reduce : (ℕ → Bytes) → Bytes → List Bytes → Bytes
wc_reduce itoa key values = itoa (length values)

-- All words of the files.
unfoldable pub all_words : (Bytes → List Bytes) → List (Bytes × Bytes) → List Bytes
all_words fields [] = []
all_words fields ((filename, contents) ∷ files) = fields contents ++ all_words fields files

-- How often a word occurs.
unfoldable pub occurrences : Bytes → List Bytes → ℕ
occurrences word [] = 0
occurrences word (w ∷ words) =
    let rest = occurrences word words in if bytes_beq w word then suc rest else rest

occurrences-append :
    (word : Bytes) (xs ys : List Bytes)
    → occurrences word (xs ++ ys) ≡ occurrences word xs + occurrences word ys
unfolding occurrences
occurrences-append word [] ys = omega arith
occurrences-append word (w ∷ xs) ys = ground (arith, occurrences-append word xs ys)

native : mathlib.Core.Nat.ℕ → ℕ
native mathlib.Core.Nat.zero = 0
native (mathlib.Core.Nat.suc n) = suc (native n)

native-length : (xs : List Bytes) → native (mathlib.Core.List.length xs) ≡ length xs
unfolding native
native-length [] = refl
native-length (x ∷ xs) = ap suc (native-length xs)

length-Perm : (xs ys : List Bytes) → Perm xs ys → length xs ≡ length ys
length-Perm xs ys p = sym (native-length xs) ∙ ap native (Perm.length-eq p) ∙ native-length ys

-- Reduce of wc.go does not look at the order of the values.
pub wc_reduce-Unordered : (itoa : ℕ → Bytes) → Unordered (wc_reduce itoa)
unfolding wc_reduce
wc_reduce-Unordered itoa key vs ws p = ap itoa (length-Perm vs ws p)

length-values_of-word_pairs :
    (word : Bytes) (words : List Bytes)
    → length (values_of word (word_pairs words)) ≡ occurrences word words
unfolding values_of word_pairs occurrences
length-values_of-word_pairs word [] = refl
length-values_of-word_pairs word (w ∷ words) =
    ground (arith, length-values_of-word_pairs word words)

length-values_of-intermediate :
    (fields : Bytes → List Bytes) (word : Bytes) (files : List (Bytes × Bytes))
    → length (values_of word (intermediate (wc_map fields) files))
      ≡ occurrences word (all_words fields files)
unfolding intermediate all_words wc_map values_of occurrences
length-values_of-intermediate fields word [] = refl
length-values_of-intermediate fields word ((filename, contents) ∷ files) = ground (
  arith,
  values_of-append word (word_pairs (fields contents)) (intermediate (wc_map fields) files),
  length-append (values_of word (word_pairs (fields contents)))
      (values_of word (intermediate (wc_map fields) files)),
  occurrences-append word (fields contents) (all_words fields files),
  length-values_of-word_pairs word (fields contents),
  length-values_of-intermediate fields word files,
)

result_of-wc_reduce :
    (itoa : ℕ → Bytes) (word : Bytes) (values : List Bytes)
    → result_of (wc_reduce itoa) word values
      ≡ (if ltb 0 (length values) then itoa (length values) ∷ [] else [])
unfolding wc_reduce
result_of-wc_reduce itoa word [] = refl
result_of-wc_reduce itoa word (v ∷ values) = ground arith

lines-sequential :
    (sort : List KeyValue → List KeyValue) (fields : Bytes → List Bytes) (itoa : ℕ → Bytes)
    (files : List (Bytes × Bytes)) (word : Bytes)
    → Sorts sort
    → lines word (sequential sort (wc_map fields) (wc_reduce itoa) files) ≡ (
        if ltb 0 (occurrences word (all_words fields files))
        then itoa (occurrences word (all_words fields files)) ∷ []
        else [])
unfolding sequential
lines-sequential sort fields itoa files word sorts = ground (
  arith,
  lines_of_values sort (wc_reduce itoa) word (intermediate (wc_map fields) files) sorts
      (wc_reduce-Unordered itoa),
  result_of-wc_reduce itoa word (values_of word (intermediate (wc_map fields) files)),
  length-values_of-intermediate fields word files,
)

-- All words are valid for the JSON encoder.
abbrev pub AllWords : Json → List Bytes → Type 0
AllWords json [] = Unit
AllWords json (w ∷ words) = (json.valid w ≡ true) × AllWords json words

word_pairs-AllValid :
    (json : Json) (words : List Bytes)
    → json.valid (49 ∷ []) ≡ true
    → AllWords json words
    → AllValid json (word_pairs words)
unfolding word_pairs
word_pairs-AllValid json [] digit v = tt
word_pairs-AllValid json (w ∷ words) digit v =
    (v.0, digit, word_pairs-AllValid json words digit v.1)

-- With at least one reduce task, and when the words and the string "1" are valid UTF-8, as runs of letters
-- are, all map tasks of the word count return; the reduce task that a word is hashed to writes for it one
-- line, with the number of its occurrences in all files, if it occurs at all; the other reduce tasks write
-- no line for it.
pub reduce_task-wc :
    (sum32 : Bytes → ℕ) (json : Json) (sort : List KeyValue → List KeyValue)
    (fields : Bytes → List Bytes) (itoa : ℕ → Bytes) (n : ℕ) (files : List (Bytes × Bytes))
    → 0 < n
    → json.decode [] ≡ none
    → json.valid (49 ∷ []) ≡ true
    → ((content : Bytes) → AllWords json (fields content))
    → Sorts sort
    → (all : List (List Bytes)) × (map_tasks sum32 json (wc_map fields) n files ≡ ok all)
      × ((r : ℕ)
          → r < n
          → (word : Bytes)
          → lines word (reduce_task json sort (wc_reduce itoa) (length files) (file_at all r)) ≡ (
              if task_of sum32 n word == r && ltb 0 (occurrences word (all_words fields files))
              then itoa (occurrences word (all_words fields files)) ∷ []
              else []))
unfolding wc_map
reduce_task-wc sum32 json sort fields itoa n files some_task at_end digit letters sorts =
    let (all, done, same) =
      reduce_task-sequential sum32 json sort (wc_map fields) (wc_reduce itoa) n files some_task
        at_end (λ name content. word_pairs-AllValid json (fields content) digit (letters content))
        sorts (wc_reduce-Unordered itoa) in
    (
      all,
      done,
      λ r h word. ground (arith, same r h word, lines-sequential sort fields itoa files word sorts),
    )
