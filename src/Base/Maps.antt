-- ===== src/Base/Maps.antt =====
-- Go maps with numbers as keys: lists of entries with at most one for a key.
use Prim.Native.Nat.{ℕ}
use native.Mathlib.Decide.{ℕ_discrete}
use mathlib.Core.Path.{◌≡◌, refl, sym, ap₂, subst}
use mathlib.Core.Logic.{◌≢◌}
use mathlib.Core.List.{List, [], ◌∷◌}
use mathlib.Core.Option.{Option, none, some}
use qtalk_go.Base.Words.{All, All-weaken}

pub record Entry {ℓ} (A : Type ℓ) : Type ℓ where
  pub key : ℕ
  pub value : A

abbrev if_same {ℓ} : {B : Type ℓ} {a b : ℕ} → Dec (a ≡ b) → B → B → B
if_same (yes e) x y = x
if_same (no n) x y = y

module _ {ℓ} {A : Type ℓ} where
  abbrev pub lookup : ℕ → List (Entry A) → Option A
  lookup k [] = none
  lookup k (x ∷ xs) = if_same (ℕ_discrete k x.key) (some x.value) (lookup k xs)

  abbrev pub delete : ℕ → List (Entry A) → List (Entry A)
  delete k [] = []
  delete k (x ∷ xs) = let rest = delete k xs in if_same (ℕ_discrete k x.key) rest (x ∷ rest)

  abbrev pub insert : ℕ → A → List (Entry A) → List (Entry A)
  insert k v xs = record { key = k; value = v } ∷ delete k xs

  -- No two entries have the same key.
  abbrev pub Distinct : List (Entry A) → Type ℓ
  Distinct [] = Unit
  Distinct (x ∷ xs) = All (λ (y : Entry A). x.key ≢ y.key) xs × Distinct xs

  module _ {κ} (P : Entry A → Type κ) where
    pub All-delete :
        (k : ℕ) (xs : List (Entry A))
        → All P xs
        → All (λ (x : Entry A). (k ≢ x.key) × P x) (delete k xs)
    All-delete k [] h = tt
    All-delete k (x ∷ xs) h =
        let rest = All-delete k xs h.1 in
        elim (ℕ_discrete k x.key)
          as (λ d.
            All (λ (y : Entry A). (k ≢ y.key) × P y) (if_same d (delete k xs) (x ∷ delete k xs))) [
              | yes e ↦ rest
              | no n ↦ ((n, h.0), rest)
            ]

    pub All-lookup :
        (k : ℕ) (v : A) (xs : List (Entry A))
        → All P xs
        → lookup k xs ≡ some v
        → P (record { key = k; value = v })
    All-lookup k v [] h = λ e. absurd (cc)
    All-lookup k v (x ∷ xs) h =
        let rest = All-lookup k v xs h.1 in
        elim (ℕ_discrete k x.key)
          as (λ d.
            if_same d (some x.value) (lookup k xs) ≡ some v → P (record { key = k; value = v })) [
              | yes e ↦ λ f.
                  let g : x.value ≡ v = cc in
                  subst P (ap₂ (λ a b. record { key = a; value = b }) (sym e) g) h.0
              | no n ↦ rest
            ]

  All-trivial : (xs : List (Entry A)) → All (λ (y : Entry A). Unit {0}) xs
  All-trivial [] = tt
  All-trivial (x ∷ xs) = (tt, All-trivial xs)

  pub Distinct-delete : (k : ℕ) (xs : List (Entry A)) → Distinct xs → Distinct (delete k xs)
  Distinct-delete k [] h = tt
  Distinct-delete k (x ∷ xs) h =
      let rest = Distinct-delete k xs h.1 in
      let apart =
        All-weaken (λ y. (k ≢ y.key) × (x.key ≢ y.key)) (λ y. x.key ≢ y.key) (λ y p. p.1)
          (delete k xs) (All-delete (λ y. x.key ≢ y.key) k xs h.0) in
      elim (ℕ_discrete k x.key) as (λ d. Distinct (if_same d (delete k xs) (x ∷ delete k xs))) [
        | yes e ↦ rest
        | no n ↦ (apart, rest)
      ]

  pub Distinct-insert :
      (k : ℕ) (v : A) (xs : List (Entry A)) → Distinct xs → Distinct (insert k v xs)
  Distinct-insert k v xs h = (
    All-weaken (λ y. (k ≢ y.key) × Unit {0}) (λ y. k ≢ y.key) (λ y p. p.0) (delete k xs)
        (All-delete (λ y. Unit) k xs (All-trivial xs)),
    Distinct-delete k xs h,
  )

  pub lookup-insert : (k : ℕ) (v : A) (xs : List (Entry A)) → lookup k (insert k v xs) ≡ some v
  lookup-insert k v xs =
      elim (ℕ_discrete k k) as (λ d. if_same d (some v) (lookup k (delete k xs)) ≡ some v) [
        | yes e ↦ refl
        | no n ↦ absurd (n refl)
      ]
