-- ===== src/Table/Pool/Idle.antt =====
-- Sizes of a map after a write, and a dictionary that grows at its end.
use ydb_go_sdk.Base.{
  ==_iff, All, Bool-cases, [], arith, if◌then◌else◌, inl, inr, length, none, refl, some, suc, ℕ,
  ◌++◌, ◌+◌, ◌<◌, ◌==◌, ◌∷◌, ◌≡◌, ◌≢◌, ◌≤◌,
}
use ydb_go_sdk.Base.Dict.{Dict, erase, insert, lookup}

module _ {ℓ} {V : Type ℓ} where
  length-erase : (k : ℕ) (d : Dict V) → length (erase k d) ≤ length d
  unfolding erase
  length-erase k [] = omega arith
  length-erase k (e ∷ d) = ground (arith, length-erase k d)

  -- Where the key is, the erased map is smaller.
  pub length-erase_known :
      (k : ℕ) (d : Dict V) {v : V} → lookup k d ≡ some v → length (erase k d) < length d
  unfolding erase
  length-erase_known k [] e = cc
  length-erase_known k (x ∷ d) {v} e = elim (Bool-cases (x.0 == k)) [
    | inl same ↦ ground (arith, same, length-erase k d)
    | inr other ↦
        let there : lookup k d ≡ some v = ground arith in
        let less = length-erase_known k d there in ground (arith, other, less)
  ]

  pub length-insert : (k : ℕ) (v : V) (d : Dict V) → length (insert k v d) ≤ length d + 1
  unfolding insert
  length-insert k v [] = omega arith
  length-insert k v (e ∷ d) = ground (arith, length-insert k v d)

  pub length-insert_known :
      (k : ℕ) (v : V) (d : Dict V) {w : V} → lookup k d ≡ some w → length (insert k v d) ≡ length d
  unfolding insert
  length-insert_known k v [] e = cc
  length-insert_known k v (x ∷ d) {w} e = elim (Bool-cases (x.0 == k)) [
    | inl same ↦ ground (arith, same)
    | inr other ↦
        let there : lookup k d ≡ some w = ground arith in
        ground (arith, other, length-insert_known k v d there)
  ]

  pub lookup-append :
      (k j : ℕ) (v : V) (d : Dict V)
      → lookup j (d ++ (k, v) ∷ [])
        ≡ elim (lookup j d) [ some w ↦ some w | none ↦ if k == j then some v else none ]
  lookup-append k j v [] = ground arith
  lookup-append k j v (e ∷ d) = ground (arith, lookup-append k j v d)

  -- What holds of the entries that an erasure leaves, and of those of a longer list.
  pub erase-All_ne {κ} :
      {P Q : ℕ × V → Type κ} (k : ℕ) (d : Dict V)
      → ((e : ℕ × V) → e.0 ≢ k → P e → Q e)
      → All P d
      → All Q (erase k d)
  unfolding erase
  erase-All_ne k [] f h = tt
  erase-All_ne k (e ∷ d) f (p, ps) = elim (Bool-cases (e.0 == k)) [
    | inl same ↦ rw same (erase-All_ne k d f ps)
    | inr other ↦ rw other (f e (λ q. cc ((==_iff e.0 k).1 q, other)) p, erase-All_ne k d f ps)
  ]

  pub All-push {κ} :
      {P Q : ℕ × V → Type κ} (d : Dict V) (x : ℕ × V)
      → ((e : ℕ × V) → P e → Q e)
      → All P d
      → Q x
      → All Q (d ++ x ∷ [])
  All-push [] x f h q = (q, tt)
  All-push (e ∷ d) x f (p, ps) q = (f e p, All-push d x f ps q)

  -- The keys go up, from `lo` on and below `hi`.
  abbrev pub Rises : ℕ → Dict V → ℕ → Type 0
  Rises lo [] hi = lo ≤ hi
  Rises lo (e ∷ d) hi = (lo ≤ e.0) × Rises (suc e.0) d hi

  Rises-bound : (lo hi : ℕ) (d : Dict V) → Rises lo d hi → lo ≤ hi
  Rises-bound lo hi [] h = h
  Rises-bound lo hi (x ∷ d) (p, h) = omega (arith, Rises-bound (suc x.0) hi d h)

  pub Rises-below :
      (lo hi k : ℕ) (d : Dict V) {v : V} → Rises lo d hi → lookup k d ≡ some v → (lo ≤ k) × (k < hi)
  Rises-below lo hi k [] h e = cc
  Rises-below lo hi k (x ∷ d) {v} (p, h) e = elim (Bool-cases (x.0 == k)) [
    | inl same ↦ ground (arith, same, Rises-bound (suc x.0) hi d h)
    | inr other ↦
        let there : lookup k d ≡ some v = ground arith in
        let below = Rises-below (suc x.0) hi k d h there in omega (arith, below)
  ]

  Rises-weaken : (lo lo' hi : ℕ) (d : Dict V) → lo ≤ lo' → Rises lo' d hi → Rises lo d hi
  Rises-weaken lo lo' hi [] l h = omega arith
  Rises-weaken lo lo' hi (x ∷ d) l (p, h) = (omega arith, h)

  pub Rises-push :
      (lo hi : ℕ) (v : V) (d : Dict V) → Rises lo d hi → Rises lo (d ++ (hi, v) ∷ []) (hi + 1)
  Rises-push lo hi v [] h = (h, omega arith)
  Rises-push lo hi v (x ∷ d) (p, h) = (p, Rises-push (suc x.0) hi v d h)

  pub Rises-erase : (k lo hi : ℕ) (d : Dict V) → Rises lo d hi → Rises lo (erase k d) hi
  unfolding erase
  Rises-erase k lo hi [] h = h
  Rises-erase k lo hi (x ∷ d) (p, h) = elim (Bool-cases (x.0 == k)) [
    | inl same ↦
        rw same
          (Rises-weaken lo (suc x.0) hi (erase k d) (omega arith) (Rises-erase k (suc x.0) hi d h))
    | inr other ↦ rw other (p, Rises-erase k (suc x.0) hi d h)
  ]

  -- Nothing to erase below the first key.
  pub erase-Rises : (k lo hi : ℕ) (d : Dict V) → Rises lo d hi → k < lo → erase k d ≡ d
  unfolding erase
  erase-Rises k lo hi [] h l = refl
  erase-Rises k lo hi (x ∷ d) (p, h) l =
      ground (arith, ==_iff x.0 k, erase-Rises k (suc x.0) hi d h (omega arith))

  pub erase_head : (k : ℕ) (v : V) (d : Dict V) → erase k ((k, v) ∷ d) ≡ erase k d
  unfolding erase
  erase_head k v d = ground arith
