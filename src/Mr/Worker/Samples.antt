-- ===== src/Mr/Worker/Samples.antt =====
-- A sort and an encoder that meet the hypotheses on those of src/mr/worker.go, for the
-- tests.
use mit_distributed_system.Prelude.{
  ◌≡◌, refl, Bool, true, false, none, List, [], ◌∷◌, if◌then◌else◌, arith,
}
use mathlib.Core.List.{Perm}
use mathlib.Core.List.Perm
use mit_distributed_system.Gob.{Bytes, Coder}
use mit_distributed_system.Gob.Samples.{
  nat_coder, list_coder, pair_coder, coder_as, list_coder_at_end, pair_coder_at_end,
  coder_as_at_end,
}
use mit_distributed_system.Mr.Worker.{KeyValue, Json}
use mit_distributed_system.Mr.Worker.Order.{bytes_less, NoneBelow, Sorted, Sorts}

bytes_less_between :
    (a b c : Bytes) → bytes_less a b ≡ false → bytes_less b c ≡ false → bytes_less a c ≡ false
unfolding bytes_less
bytes_less_between [] [] c h g = g
bytes_less_between [] (b ∷ bs) c h g = cc
bytes_less_between (a ∷ as') b [] h g = refl
bytes_less_between (a ∷ as') [] (c ∷ cs) h g = cc
bytes_less_between (a ∷ as') (b ∷ bs) (c ∷ cs) h g = ground (arith, bytes_less_between as' bs cs)

NoneBelow-mono :
    (a b : Bytes) (kvs : List KeyValue) → bytes_less b a ≡ false → NoneBelow b kvs → NoneBelow a kvs
NoneBelow-mono a b [] h n = tt
NoneBelow-mono a b (kv ∷ kvs) h n =
    (bytes_less_between kv.key b a n.0 h, NoneBelow-mono a b kvs h n.1)

insert : KeyValue → List KeyValue → List KeyValue
insert x [] = x ∷ []
insert x (y ∷ ys) =
    let rest = insert x ys in if bytes_less y.key x.key then y ∷ rest else x ∷ y ∷ ys

pub insertion_sort : List KeyValue → List KeyValue
insertion_sort [] = []
insertion_sort (x ∷ xs) = insert x (insertion_sort xs)

NoneBelow-insert :
    (key : Bytes) (x : KeyValue) (ys : List KeyValue)
    → bytes_less x.key key ≡ false
    → NoneBelow key ys
    → NoneBelow key (insert x ys)
unfolding insert
NoneBelow-insert key x [] h n = (h, tt)
NoneBelow-insert key x (y ∷ ys) h n =
    by_test (bytes_less y.key x.key) (NoneBelow-insert key x ys h n.1)
  where
    by_test :
        (b : Bool)
        → NoneBelow key (insert x ys)
        → NoneBelow key (if b then y ∷ insert x ys else x ∷ y ∷ ys)
    by_test true rest = (n.0, rest)
    by_test false rest = (h, n)

bytes_less-flip : (a b : Bytes) → bytes_less a b ≡ true → bytes_less b a ≡ false
unfolding bytes_less
bytes_less-flip [] [] h = cc
bytes_less-flip [] (b ∷ bs) h = refl
bytes_less-flip (a ∷ as') [] h = cc
bytes_less-flip (a ∷ as') (b ∷ bs) h = ground (arith, bytes_less-flip as' bs)

Sorted-insert : (x : KeyValue) (ys : List KeyValue) → Sorted ys → Sorted (insert x ys)
unfolding insert
Sorted-insert x [] s = (tt, tt)
Sorted-insert x (y ∷ ys) s = by_test (bytes_less y.key x.key) refl (Sorted-insert x ys s.1)
  where
    by_test :
        (b : Bool)
        → bytes_less y.key x.key ≡ b
        → Sorted (insert x ys)
        → Sorted (if b then y ∷ insert x ys else x ∷ y ∷ ys)
    by_test true less rest =
        (NoneBelow-insert y.key x ys (bytes_less-flip y.key x.key less) s.0, rest)
    by_test false not_less rest = ((not_less, NoneBelow-mono x.key y.key ys not_less s.0), s)

insert-Perm : (x : KeyValue) (ys : List KeyValue) → Perm (insert x ys) (x ∷ ys)
unfolding insert
insert-Perm x [] = Perm.refl (x ∷ [])
insert-Perm x (y ∷ ys) = by_test (bytes_less y.key x.key) (insert-Perm x ys)
  where
    by_test :
        (b : Bool)
        → Perm (insert x ys) (x ∷ ys)
        → Perm (if b then y ∷ insert x ys else x ∷ y ∷ ys) (x ∷ y ∷ ys)
    by_test true p = Perm.trans (Perm.cons y p) (Perm.swap x y ys)
    by_test false p = Perm.refl (x ∷ y ∷ ys)

insertion_sort-Sorted : (kvs : List KeyValue) → Sorted (insertion_sort kvs)
unfolding insertion_sort
insertion_sort-Sorted [] = tt
insertion_sort-Sorted (x ∷ xs) = Sorted-insert x (insertion_sort xs) (insertion_sort-Sorted xs)

insertion_sort-Perm : (kvs : List KeyValue) → Perm (insertion_sort kvs) kvs
unfolding insertion_sort
insertion_sort-Perm [] = Perm.refl []
insertion_sort-Perm (x ∷ xs) =
    Perm.trans (insert-Perm x (insertion_sort xs)) (Perm.cons x (insertion_sort-Perm xs))

pub insertion_sort-Sorts : Sorts insertion_sort
insertion_sort-Sorts = record { sorted = insertion_sort-Sorted; same = insertion_sort-Perm }

strings : Coder Bytes
strings = list_coder nat_coder

key_value_coder : Coder KeyValue
key_value_coder =
    coder_as (pair_coder strings strings) (λ kv. (kv.key, kv.value))
      (λ (k, v). record { key = k; value = v }) (λ kv. refl)

key_value_coder_at_end : key_value_coder.decode [] ≡ none
unfolding key_value_coder strings
key_value_coder_at_end =
    coder_as_at_end (pair_coder strings strings) (λ kv. (kv.key, kv.value))
      (λ (k, v). record { key = k; value = v }) (λ kv. refl)
      (pair_coder_at_end strings strings (list_coder_at_end nat_coder))

pub sample_json : Json
sample_json = record {
  encode = key_value_coder.encode;
  decode = key_value_coder.decode;
  valid = λ bytes. true;
  decode_encode = λ kv rest valid_key valid_value. key_value_coder.decode_encode kv rest;
  encode_nonempty = key_value_coder.encode_nonempty;
}

pub sample_json_at_end : sample_json.decode [] ≡ none
unfolding sample_json
sample_json_at_end = key_value_coder_at_end

pub sample_json_valid : (bytes : Bytes) → sample_json.valid bytes ≡ true
unfolding sample_json
sample_json_valid bytes = refl
