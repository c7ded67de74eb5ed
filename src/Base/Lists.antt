-- ===== src/Base/Lists.antt =====
-- Lists over the native numbers, predicates on all elements, and dictionaries keyed by text.
use Prim.Native.Nat.{ℕ, suc}
use Prim.Native.String
use Prim.Native.String.{String}
use mathlib.Core.Path.{◌≡◌, refl}
use mathlib.Core.Logic.{◌⊎◌}
use mathlib.Core.Option.{Option, none, some}
use mathlib.Core.List.{List, [], ◌∷◌, ◌++◌}
use native.Mathlib.Omega.{arith}
use text.Mathlib.Text.{◌==◌ as str_eq}
use text.Mathlib.TextEquality.{eq_iff}
use billing_platform.Base.Tests.{if◌then◌else◌}

module _ {ℓ} {A : Type ℓ} where
  abbrev pub length : List A → ℕ
  length [] = 0
  length (x ∷ xs) = suc (length xs)

  abbrev pub All {κ} : (A → Type κ) → List A → Type κ
  All P (x ∷ xs) = P x × All P xs
  All P [] = Unit

  pub All-append {κ} :
      (P : A → Type κ) (front back : List A) → All P front → All P back → All P (front ++ back)
  All-append P (x ∷ front) back (head, tail) rest = (head, All-append P front back tail rest)
  All-append P [] back none_left rest = rest

module _ {A : Type 0} where
  abbrev pub IsAmong : A → List A → Type 0
  IsAmong a [] = ⊥
  IsAmong a (x ∷ xs) = (a ≡ x) ⊎ IsAmong a xs

  -- A relation between the elements at each place of two lists of one length.
  abbrev pub Pairs : {B : Type 0} → (A → B → Type 0) → List A → List B → Type 0
  Pairs R [] [] = Unit
  Pairs R (x ∷ xs) (y ∷ ys) = R x y × Pairs R xs ys
  Pairs R _ _ = ⊥

  pub All-mono {κ ι} :
      (P : A → Type κ) (Q : A → Type ι) (xs : List A) → ((x : A) → P x → Q x) → All P xs → All Q xs
  All-mono P Q [] f h = tt
  All-mono P Q (x ∷ xs) f h = (f x h.0, All-mono P Q xs f h.1)

-- Texts one after the other.
infixr 65 ◌<>◌
abbrev pub ◌<>◌ : String → String → String
s <> t = String.◌++◌ s t

-- A Go map keyed by strings: the entries, of which the first with the key counts.
abbrev pub Dict : Type 0 → Type 0
Dict V = List (String × V)

module _ {V : Type 0} where
  abbrev pub lookup : String → Dict V → Option V
  lookup k [] = none
  lookup k ((j, v) ∷ m) = if str_eq j k then some v else lookup k m

  abbrev pub insert : String → V → Dict V → Dict V
  insert k v [] = (k, v) ∷ []
  insert k v ((j, w) ∷ m) = if str_eq j k then (k, v) ∷ m else (j, w) ∷ insert k v m

  pub lookup-insert :
      (k j : String) (v : V) (m : Dict V)
      → lookup j (insert k v m) ≡ (if str_eq k j then some v else lookup j m)
  lookup-insert k j v [] = refl
  lookup-insert k j v ((i, w) ∷ m) =
      ground (arith, eq_iff k j, eq_iff i k, eq_iff i j, lookup-insert k j v m)
