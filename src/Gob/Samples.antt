-- ===== src/Gob/Samples.antt =====
-- Small encodings that meet the laws of `Coder`, for the tests.
use mit_distributed_system.Prelude.{
  ℕ, zero, suc, ℤ, pos, negsuc, ◌≡◌, refl, Option, none, some, List, [], ◌∷◌, ◌++◌, length, arith,
  append_assoc,
}
use mathlib.Core.List.{append-eq-nil_iff}
use mit_distributed_system.Gob.{Bytes, Coder}

encode_int : ℤ → Bytes
encode_int (pos n) = 0 ∷ n ∷ []
encode_int (negsuc n) = 1 ∷ n ∷ []

decode_int : Bytes → Option (ℤ × Bytes)
decode_int (zero ∷ n ∷ rest) = some (pos n, rest)
decode_int (suc k ∷ n ∷ rest) = some (negsuc n, rest)
decode_int _ = none

decode_encode_int : (a : ℤ) (rest : Bytes) → decode_int (encode_int a ++ rest) ≡ some (a, rest)
unfolding decode_int encode_int
decode_encode_int (pos n) rest = refl
decode_encode_int (negsuc n) rest = refl

int_nonempty : (a : ℤ) → encode_int a ≡ [] → ⊥
unfolding encode_int
int_nonempty (pos n) e = cc
int_nonempty (negsuc n) e = cc

pub int_coder : Coder ℤ
int_coder = record {
  encode = encode_int;
  decode = decode_int;
  decode_encode = decode_encode_int;
  encode_nonempty = int_nonempty;
}

encode_nat : ℕ → Bytes
encode_nat n = n ∷ []

decode_nat : Bytes → Option (ℕ × Bytes)
decode_nat [] = none
decode_nat (n ∷ rest) = some (n, rest)

decode_encode_nat : (n : ℕ) (rest : Bytes) → decode_nat (encode_nat n ++ rest) ≡ some (n, rest)
unfolding decode_nat encode_nat
decode_encode_nat n rest = refl

nat_nonempty : (n : ℕ) → encode_nat n ≡ [] → ⊥
unfolding encode_nat
nat_nonempty n e = cc

pub nat_coder : Coder ℕ
nat_coder = record {
  encode = encode_nat;
  decode = decode_nat;
  decode_encode = decode_encode_nat;
  encode_nonempty = nat_nonempty;
}

module _ {A : Type 0} (c : Coder A) where
  encode_many : List A → Bytes
  encode_many [] = []
  encode_many (x ∷ xs) = c.encode x ++ encode_many xs

  decode_many : ℕ → Bytes → Option (List A × Bytes)
  decode_many zero bytes = some ([], bytes)
  decode_many (suc n) bytes = elim (c.decode bytes) [
    | none ↦ none
    | some (x, rest) ↦ elim (decode_many n rest) [
      | none ↦ none
      | some (xs, rest') ↦ some (x ∷ xs, rest')
    ]
  ]

  decode_encode_many :
      (xs : List A) (rest : Bytes)
      → decode_many (length xs) (encode_many xs ++ rest) ≡ some (xs, rest)
  unfolding encode_many decode_many
  decode_encode_many [] rest = refl
  decode_encode_many (x ∷ xs) rest = ground (
    arith,
    append_assoc (c.encode x) (encode_many xs) rest,
    c.decode_encode x (encode_many xs ++ rest),
    decode_encode_many xs rest,
  )

  encode_list : List A → Bytes
  encode_list xs = length xs ∷ encode_many xs

  decode_list : Bytes → Option (List A × Bytes)
  decode_list [] = none
  decode_list (n ∷ bytes) = decode_many n bytes

  decode_encode_list :
      (xs : List A) (rest : Bytes) → decode_list (encode_list xs ++ rest) ≡ some (xs, rest)
  unfolding decode_list encode_list
  decode_encode_list xs rest = decode_encode_many xs rest

  list_nonempty : (xs : List A) → encode_list xs ≡ [] → ⊥
  unfolding encode_list
  list_nonempty xs e = cc

pub list_coder : {A : Type 0} → Coder A → Coder (List A)
list_coder c = record {
  encode = encode_list c;
  decode = decode_list c;
  decode_encode = decode_encode_list c;
  encode_nonempty = list_nonempty c;
}

module _ {A B : Type 0} (a : Coder A) (b : Coder B) where
  encode_pair : A × B → Bytes
  encode_pair (x, y) = a.encode x ++ b.encode y

  decode_pair : Bytes → Option ((A × B) × Bytes)
  decode_pair bytes = elim (a.decode bytes) [
    | none ↦ none
    | some (x, rest) ↦ elim (b.decode rest) [ none ↦ none | some (y, rest') ↦ some ((x, y), rest') ]
  ]

  decode_encode_pair :
      (p : A × B) (rest : Bytes) → decode_pair (encode_pair p ++ rest) ≡ some (p, rest)
  unfolding decode_pair encode_pair
  decode_encode_pair (x, y) rest = ground (
    arith,
    append_assoc (a.encode x) (b.encode y) rest,
    a.decode_encode x (b.encode y ++ rest),
    b.decode_encode y rest,
  )

  pair_nonempty : (p : A × B) → encode_pair p ≡ [] → ⊥
  unfolding encode_pair
  pair_nonempty (x, y) e = a.encode_nonempty x ((append-eq-nil_iff.0 e).0)

pub pair_coder : {A B : Type 0} → Coder A → Coder B → Coder (A × B)
pair_coder a b = record {
  encode = encode_pair a b;
  decode = decode_pair a b;
  decode_encode = decode_encode_pair a b;
  encode_nonempty = pair_nonempty a b;
}

module _ {A B : Type 0} (c : Coder A) (f : B → A) (g : A → B) (g-f : (b : B) → g (f b) ≡ b) where
  decode_as : Bytes → Option (B × Bytes)
  decode_as bytes = elim (c.decode bytes) [ none ↦ none | some (x, rest) ↦ some (g x, rest) ]

  decode_encode_as : (b : B) (rest : Bytes) → decode_as (c.encode (f b) ++ rest) ≡ some (b, rest)
  unfolding decode_as
  decode_encode_as b rest = ground (arith, c.decode_encode (f b) rest, g-f b)

  -- A coder for a type that stands for `A`.
  pub coder_as : Coder B
  coder_as = record {
    encode = λ b. c.encode (f b);
    decode = decode_as;
    decode_encode = decode_encode_as;
    encode_nonempty = λ b. c.encode_nonempty (f b);
  }

-- What the decoders do at the end of the bytes.
pub list_coder_at_end : {A : Type 0} (c : Coder A) → (list_coder c).decode [] ≡ none
unfolding list_coder decode_list
list_coder_at_end c = refl

pub pair_coder_at_end :
    {A B : Type 0} (a : Coder A) (b : Coder B)
    → a.decode [] ≡ none
    → (pair_coder a b).decode [] ≡ none
unfolding pair_coder decode_pair
pair_coder_at_end a b e = ground (arith, e)

pub coder_as_at_end :
    {A B : Type 0} (c : Coder A) (f : B → A) (g : A → B) (g-f : (b : B) → g (f b) ≡ b)
    → c.decode [] ≡ none
    → (coder_as c f g g-f).decode [] ≡ none
unfolding coder_as decode_as
coder_as_at_end c f g g-f e = ground (arith, e)
