-- ===== src/Storage/Backend.antt =====
-- `StorageBackend` of src/storage/mod.rs, and what the code built on a backend relies on.
use acmex.Base.{
  ℕ, String, ◌≡◌, ◌⊎◌, subst, Bool, true, false, ◌==◌, ◌||◌, Option, none, some, List, [], ◌∷◌,
  if◌then◌else◌,
}
use acmex.Act.{Act, ok}
use acmex.Act.Triple.{After}
use text.Mathlib.Text.{starts_with}

-- The operations, on a state of the backend's own.
pub record Backend (S : Type 0) : Type 0 where
  pub store : String → List ℕ → Act S (Unit {0})
  pub load : String → Act S (Option (List ℕ))
  pub delete : String → Act S (Unit {0})
  pub list : String → Act S (List String)

abbrev pub contains : List String → String → Bool
contains [] k = false
contains (j ∷ ks) k = j == k || contains ks k

-- The prefixes that the program asks for.
abbrev pub IsListed : String → Type 0
IsListed prefix = (prefix ≡ "") ⊎ (prefix ≡ "cert:")

-- A backend that is a map as far as it answers: what fails changes nothing.
pub record IsMap {S : Type 0} (b : Backend S) (view : S → String → Option (List ℕ)) : Type 0 where
  pub stores :
      (k : String) (v : List ℕ) (s : S)
      → After
          (λ _ t. (j : String) → view t j ≡ (if k == j then some v else view s j))
          (λ t. (j : String) → view t j ≡ view s j)
          (Backend.store b k v s).0
          (Backend.store b k v s).1
  pub loads :
      (k : String) (s : S)
      → After
          (λ o t. (o ≡ view s k) × ((j : String) → view t j ≡ view s j))
          (λ t. (j : String) → view t j ≡ view s j)
          (Backend.load b k s).0
          (Backend.load b k s).1
  pub deletes :
      (k : String) (s : S)
      → After
          (λ _ t. (j : String) → view t j ≡ (if k == j then none else view s j))
          (λ t. (j : String) → view t j ≡ view s j)
          (Backend.delete b k s).0
          (Backend.delete b k s).1
  -- under the prefixes that the program lists, every key with a value is listed
  pub lists :
      (prefix : String) (s : S)
      → IsListed prefix
      → After
          (λ ks t.
            ((j : String) → view t j ≡ view s j)
            × ((j : String) (v : List ℕ)
                → view s j ≡ some v
                → starts_with j prefix ≡ true
                → contains ks j ≡ true))
          (λ t. (j : String) → view t j ≡ view s j)
          (Backend.list b prefix s).0
          (Backend.list b prefix s).1

-- what a load that has returned has found
pub loaded_view :
    {S : Type 0} {b : Backend S} {view : S → String → Option (List ℕ)}
    → IsMap b view
    → (k : String) (s : S) (o : Option (List ℕ)) (t : S) → Backend.load b k s ≡ (ok o, t)
    → o ≡ view s k
loaded_view {view} laws k s o t e =
    (subst
      (λ out.
        After (λ o t. (o ≡ view s k) × ((j : String) → view t j ≡ view s j))
          (λ t. (j : String) → view t j ≡ view s j) out.0 out.1)
      e (laws.loads k s)).0
