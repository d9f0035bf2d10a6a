-- ===== src/Base/Dict.antt =====
-- A Go map keyed by numbers (or by pointers, which are numbers here): an association list.
use Prim.Native.Nat.{ℕ}
use mathlib.Core.Path.{◌≡◌, refl, subst₂}
use mathlib.Core.Option.{Option, none, some, some-injective}
use mathlib.Core.Logic.{inl, inr}
use ydb_go_sdk.Base.Lists.{All}
use mathlib.Core.Bool.{Bool, true, false}
use mathlib.Core.List.{List, [], ◌∷◌}
use native.Mathlib.Omega.{arith}
use ydb_go_sdk.Base.Tests.{==_iff, Bool-cases, if◌then◌else◌, ◌==◌}

abbrev pub Dict {ℓ} : Type ℓ → Type ℓ
Dict V = List (ℕ × V)

module _ {ℓ} {V : Type ℓ} where
  abbrev pub lookup : ℕ → Dict V → Option V
  lookup k [] = none
  lookup k (e ∷ d) = if e.0 == k then some e.1 else lookup k d

  -- `_, ok := d[k]`
  abbrev pub contains : ℕ → Dict V → Bool
  contains k d = elim (lookup k d) [ none ↦ false | some _ ↦ true ]

  -- `d[k] = v`
  unfoldable pub insert : ℕ → V → Dict V → Dict V
  insert k v [] = (k, v) ∷ []
  insert k v (e ∷ d) = if e.0 == k then (k, v) ∷ d else e ∷ insert k v d

  -- `delete(d, k)`
  unfoldable pub erase : ℕ → Dict V → Dict V
  erase k [] = []
  erase k (e ∷ d) = if e.0 == k then erase k d else e ∷ erase k d

  pub lookup-insert :
      (k j : ℕ) (v : V) (d : Dict V)
      → lookup j (insert k v d) ≡ (if k == j then some v else lookup j d)
  unfolding insert
  lookup-insert k j v [] = refl
  lookup-insert k j v (e ∷ d) = ground (arith, lookup-insert k j v d)

  pub lookup-erase :
      (k j : ℕ) (d : Dict V) → lookup j (erase k d) ≡ (if k == j then none else lookup j d)
  unfolding erase
  lookup-erase k j [] = ground arith
  lookup-erase k j (e ∷ d) = ground (arith, lookup-erase k j d)

  -- What holds of all entries holds of one that is found.
  pub All-lookup {κ} :
      (P : ℕ × V → Type κ) (d : Dict V) (k : ℕ) {v : V} → All P d → lookup k d ≡ some v → P (k, v)
  All-lookup P [] k h e = cc
  All-lookup P ((j, w) ∷ d) k {v} (p, ps) e = elim (Bool-cases (j == k)) [
    | inl same ↦
        let there : some w ≡ some v = rw same at e in
        subst₂ (λ i u. P (i, u)) ((==_iff j k).0 same) (some-injective w v there) p
    | inr other ↦ All-lookup P d k ps (rw other at e)
  ]

  pub insert-All {κ} :
      (P : ℕ × V → Type κ) (k : ℕ) (v : V) (d : Dict V) → All P d → P (k, v) → All P (insert k v d)
  unfolding insert
  insert-All P k v [] h p = (p, tt)
  insert-All P k v (e ∷ d) (q, qs) p = elim (Bool-cases (e.0 == k)) [
    | inl same ↦ rw same (p, qs)
    | inr other ↦ rw other (q, insert-All P k v d qs p)
  ]

  pub erase-All {κ} : (P : ℕ × V → Type κ) (k : ℕ) (d : Dict V) → All P d → All P (erase k d)
  unfolding erase
  erase-All P k [] h = tt
  erase-All P k (e ∷ d) (q, qs) = elim (Bool-cases (e.0 == k)) [
    | inl same ↦ rw same (erase-All P k d qs)
    | inr other ↦ rw other (q, erase-All P k d qs)
  ]
