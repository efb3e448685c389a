-- ===== src/Assoc.antt =====
-- Go maps as association lists: a read of a missing key gives `none`, a write replaces or adds.
use text.Mathlib.Text.{◌==◌ as str_eq}
use text.Mathlib.TextEquality.{eq_iff}
use Prim.Native.String.{String}
use mit_distributed_system.Prelude.{
  ℕ, ◌≡◌, refl, ◌↔◌, Bool, true, false, Option, none, some, List, [], ◌∷◌, arith, ==_iff,
  if◌then◌else◌, ◌==◌, ◌&&◌, subst,
}

-- Keys that can be compared.
pub record Key (K : Type 0) : Type 0 where
  pub beq : K → K → Bool
  pub beq_iff : (a b : K) → (beq a b ≡ true) ↔ (a ≡ b)

abbrev nat_beq : ℕ → ℕ → Bool
nat_beq a b = a == b

instance abbrev pub nat_key : Key ℕ
nat_key = record { beq = nat_beq; beq_iff = ==_iff }

instance abbrev pub string_key : Key String
string_key = record { beq = str_eq; beq_iff = eq_iff }

abbrev pub Assoc : Type 0 → Type 0 → Type 0
Assoc K V = List (K × V)

module _ {K V : Type 0} ⦃k : Key K⦄ where
  unfoldable pub lookup : K → Assoc K V → Option V
  lookup a [] = none
  lookup a ((b, v) ∷ m) = if k.beq b a then some v else lookup a m

  unfoldable pub put : K → V → Assoc K V → Assoc K V
  put a v [] = (a, v) ∷ []
  put a v ((b, w) ∷ m) = if k.beq b a then (a, v) ∷ m else (b, w) ∷ put a v m

  unfoldable pub remove : K → Assoc K V → Assoc K V
  remove a [] = []
  remove a ((b, w) ∷ m) = let rest = remove a m in if k.beq b a then rest else (b, w) ∷ rest

  pub lookup-put :
      (a b : K) (v : V) (m : Assoc K V)
      → lookup b (put a v m) ≡ (if k.beq a b then some v else lookup b m)
  unfolding lookup put
  lookup-put a b v [] = refl
  lookup-put a b v ((c, w) ∷ m) =
      ground (arith, k.beq_iff c a, k.beq_iff c b, k.beq_iff a b, lookup-put a b v m)

  pub lookup-remove :
      (a b : K) (m : Assoc K V) → lookup b (remove a m) ≡ (if k.beq a b then none else lookup b m)
  unfolding lookup remove
  lookup-remove a b [] = ground arith
  lookup-remove a b ((c, w) ∷ m) =
      ground (arith, k.beq_iff c a, k.beq_iff c b, k.beq_iff a b, lookup-remove a b m)

pub beq_refl : {K : Type 0} ⦃k : Key K⦄ (a : K) → k.beq a a ≡ true
beq_refl ⦃k⦄ a = (k.beq_iff a a).1 refl

unfoldable pub bytes_beq : List ℕ → List ℕ → Bool
bytes_beq [] [] = true
bytes_beq [] (b ∷ bs) = false
bytes_beq (a ∷ as') [] = false
bytes_beq (a ∷ as') (b ∷ bs) = (a == b) && bytes_beq as' bs

bytes_beq_refl : (a : List ℕ) → bytes_beq a a ≡ true
unfolding bytes_beq
bytes_beq_refl [] = refl
bytes_beq_refl (a ∷ as') = ground (arith, bytes_beq_refl as')

bytes_beq_eq : (a b : List ℕ) → bytes_beq a b ≡ true → a ≡ b
unfolding bytes_beq
bytes_beq_eq [] [] h = refl
bytes_beq_eq [] (b ∷ bs) h = cc
bytes_beq_eq (a ∷ as') [] h = cc
bytes_beq_eq (a ∷ as') (b ∷ bs) h = ground (arith, bytes_beq_eq as' bs)

pub bytes_beq_iff : (a b : List ℕ) → (bytes_beq a b ≡ true) ↔ (a ≡ b)
bytes_beq_iff a b = (bytes_beq_eq a b, λ e. subst (λ c. bytes_beq a c ≡ true) e (bytes_beq_refl a))

-- Go strings, as their bytes.
instance abbrev pub bytes_key : Key (List ℕ)
bytes_key = record { beq = bytes_beq; beq_iff = bytes_beq_iff }
