-- ===== src/Bind/Numeric/Slots.antt =====
-- The new arguments while they are filled in.
use mathlib.Core.Path.{subst}
use ydb_go_sdk.Base.{
  Bool, List, Option, [], ap, arith, false, get_elem?, inl, inr, length, none, ok, refl, replicate,
  set, some, suc, true, zero, ℕ, ◌+◌, ◌<◌, ◌==◌, ◌||◌, ◌∙◌, ◌∷◌, ◌≡◌, ◌⊎◌,
}
use ydb_go_sdk.Bind.Numeric.{all_used}
use ydb_go_sdk.Bind.Positional.Laws.{Converted, Result-cases}
use ydb_go_sdk.Bind.Args.{Arg, Param, auto_name, to_ydb_param}

-- Each slot is empty or has the parameter of its argument; the first argument has number `i`.
abbrev pub IsPartial : ℕ → List Arg → List (Option Param) → Type 0
IsPartial i [] [] = Unit
IsPartial i [] (o ∷ os) = ⊥
IsPartial i (a ∷ rest) [] = ⊥
IsPartial i (a ∷ rest) (none ∷ os) = IsPartial (suc i) rest os
IsPartial i (a ∷ rest) (some p ∷ os) =
    (to_ydb_param (auto_name i) a ≡ ok p) × IsPartial (suc i) rest os

abbrev pub filled : List (Option Param) → ℕ → Bool
filled [] k = false
filled (none ∷ os) zero = false
filled (some p ∷ os) zero = true
filled (o ∷ os) (suc k) = filled os k

pub empty-IsPartial : (i : ℕ) (args : List Arg) → IsPartial i args (replicate (length args) none)
empty-IsPartial i [] = tt
empty-IsPartial i (a ∷ rest) = empty-IsPartial (suc i) rest

pub filled-empty : (n k : ℕ) → filled (replicate n none) k ≡ false
filled-empty zero k = refl
filled-empty (suc n) zero = refl
filled-empty (suc n) (suc k) = filled-empty n k

-- What stands at an index that is in range, whose argument has number `j`.
abbrev At : ℕ → ℕ → List Arg → List (Option Param) → Type 0
At j k args os =
    (a : Arg) × (get_elem? args k ≡ some a)
    × ((get_elem? os k ≡ some none)
        ⊎ ((p : Param) × (get_elem? os k ≡ some (some p))
            × (to_ydb_param (auto_name j) a ≡ ok p)
            × (filled os k ≡ true)))

pub IsPartial-At :
    (i j k : ℕ) (args : List Arg) (os : List (Option Param))
    → j ≡ k + i
    → IsPartial i args os
    → k < length args
    → At j k args os
IsPartial-At i j zero (a ∷ rest) (none ∷ os) e h l = (a, refl, inl refl)
IsPartial-At i j zero (a ∷ rest) (some p ∷ os) e (h, hs) l =
    let same : j ≡ i = omega (arith, e) in
    (a, refl, inr (p, refl, ap (λ n. to_ydb_param (auto_name n) a) same ∙ h, refl))
IsPartial-At i j (suc k) (a ∷ rest) (none ∷ os) e h l =
    IsPartial-At (suc i) j k rest os (omega (arith, e)) h (omega (arith, l))
IsPartial-At i j (suc k) (a ∷ rest) (some p ∷ os) e (h, hs) l =
    IsPartial-At (suc i) j k rest os (omega (arith, e)) hs (omega (arith, l))
IsPartial-At i j zero [] os e h l = elim l [ ]
IsPartial-At i j zero (a ∷ rest) [] e h l = elim h [ ]
IsPartial-At i j (suc k) [] os e h l = elim l [ ]
IsPartial-At i j (suc k) (a ∷ rest) [] e h l = elim h [ ]

same_param :
    (i j : ℕ) (b a : Arg) (p : Param)
    → i ≡ j
    → b ≡ a
    → to_ydb_param (auto_name j) a ≡ ok p
    → to_ydb_param (auto_name i) b ≡ ok p
same_param i j b a p e f c = rw (e, f) c

-- A parameter that is put at its index.
pub set-IsPartial :
    (i j k : ℕ) (args : List Arg) (os : List (Option Param)) (a : Arg) (p : Param)
    → j ≡ k + i
    → IsPartial i args os
    → get_elem? args k ≡ some a
    → to_ydb_param (auto_name j) a ≡ ok p
    → IsPartial i args (set os k (some p))
set-IsPartial i j k [] [] a p e h f c = tt
set-IsPartial i j k [] (o ∷ os) a p e h f c = elim h [ ]
set-IsPartial i j k (b ∷ rest) [] a p e h f c = elim h [ ]
set-IsPartial i j zero (b ∷ rest) (none ∷ os) a p e h f c =
    (same_param i j b a p (omega (arith, e)) (ground (arith, f)) c, h)
set-IsPartial i j zero (b ∷ rest) (some q ∷ os) a p e (h, hs) f c =
    (same_param i j b a p (omega (arith, e)) (ground (arith, f)) c, hs)
set-IsPartial i j (suc k) (b ∷ rest) (none ∷ os) a p e h f c =
    set-IsPartial (suc i) j k rest os a p (omega (arith, e)) h f c
set-IsPartial i j (suc k) (b ∷ rest) (some q ∷ os) a p e (h, hs) f c =
    (h, set-IsPartial (suc i) j k rest os a p (omega (arith, e)) hs f c)

pub filled-set :
    (os : List (Option Param)) (k m : ℕ) (p : Param)
    → k < length os
    → filled (set os k (some p)) m ≡ (k == m) || filled os m
filled-set [] k m p l = elim l [ ]
filled-set (none ∷ os) zero zero p l = refl
filled-set (some q ∷ os) zero zero p l = refl
filled-set (none ∷ os) zero (suc m) p l = ground arith
filled-set (some q ∷ os) zero (suc m) p l = ground arith
filled-set (none ∷ os) (suc k) zero p l = ground arith
filled-set (some q ∷ os) (suc k) zero p l = ground arith
filled-set (none ∷ os) (suc k) (suc m) p l = ground (arith, filled-set os k m p (omega (arith, l)))
filled-set (some q ∷ os) (suc k) (suc m) p l =
    ground (arith, filled-set os k m p (omega (arith, l)))

pub IsPartial-length :
    (i : ℕ) (args : List Arg) (os : List (Option Param))
    → IsPartial i args os
    → length os ≡ length args
IsPartial-length i [] [] h = refl
IsPartial-length i [] (o ∷ os) h = elim h [ ]
IsPartial-length i (a ∷ rest) [] h = elim h [ ]
IsPartial-length i (a ∷ rest) (none ∷ os) h = omega (arith, IsPartial-length (suc i) rest os h)
IsPartial-length i (a ∷ rest) (some p ∷ os) (h, hs) =
    omega (arith, IsPartial-length (suc i) rest os hs)

-- The parameters are all there exactly if every slot is filled.
pub all_used-Converted :
    (i : ℕ) (args : List Arg) (os : List (Option Param)) (ns : List Param)
    → IsPartial i args os
    → all_used os ≡ ok ns
    → Converted i args ns × ((k : ℕ) → k < length args → filled os k ≡ true)
unfolding all_used
all_used-Converted i [] [] [] h e = (tt, λ k l. elim l [ ])
all_used-Converted i [] [] (n ∷ ns) h e = absurd (ground (arith, e))
all_used-Converted i [] (o ∷ os) ns h e = elim h [ ]
all_used-Converted i (a ∷ rest) [] ns h e = elim h [ ]
all_used-Converted i (a ∷ rest) (none ∷ os) ns h e = absurd (ground (arith, e))
all_used-Converted i (a ∷ rest) (some p ∷ os) ns (h, hs) e = elim (Result-cases (all_used os)) [
  | inr (inl (x, f)) ↦ absurd (ground (arith, e, f))
  | inr (inr f) ↦ absurd (ground (arith, e, f))
  | inl (qs, f) ↦
      let (c, all) = all_used-Converted (suc i) rest os qs hs f in
      let same : p ∷ qs ≡ ns = ground (arith, e, f) in
      (subst (Converted i (a ∷ rest)) same (h, c), shift p os all)
]
  where
    shift :
        (p : Param) (os : List (Option Param)) {n : ℕ}
        → ((k : ℕ) → k < n → filled os k ≡ true)
        → (k : ℕ) → k < suc n
        → filled (some p ∷ os) k ≡ true
    shift p os f zero l = refl
    shift p os f (suc k) l = f k (omega (arith, l))

pub all_used-ok :
    (os : List (Option Param))
    → ((k : ℕ) → k < length os → filled os k ≡ true)
    → (ns : List Param) × (all_used os ≡ ok ns)
unfolding all_used
all_used-ok [] h = ([], refl)
all_used-ok (none ∷ os) h = absurd (ground (arith, h 0 (omega arith)))
all_used-ok (some p ∷ os) h =
    let (ns, e) = all_used-ok os (λ k l. h (suc k) (omega (arith, l))) in (p ∷ ns, rw e refl)
