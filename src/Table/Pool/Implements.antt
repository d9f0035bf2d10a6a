-- ===== src/Table/Pool/Implements.antt =====
-- When a pool is in the state that the specification has.
use ydb_go_sdk.Base.{
  ==_iff, All, Bool, Bool-cases, List, Option-cases, [], ap, arith, false, if◌then◌else◌, inl, inr,
  map, none, refl, some, sym, true, ℕ, ◌++◌, ◌==◌, ◌||◌, ◌∙◌, ◌∷◌, ◌≡◌,
}
use ydb_go_sdk.Base.Dict.{Dict, erase, insert, lookup, lookup-erase, lookup-insert}
use ydb_go_sdk.Table.Pool.{Pool, PoolInfo}
use ydb_go_sdk.Table.Pool.Invariant.{Held, IsConsistent, element_in}
use ydb_go_sdk.Table.Pool.Spec.{Spec, among, less}

-- The session is in the index, with no element.
abbrev is_held : Dict PoolInfo → ℕ → Bool
is_held index s = elim (lookup s index) [
  | none ↦ false
  | some i ↦ elim i.element [ none ↦ true | some _ ↦ false ]
]

abbrev pub sessions : Dict ℕ → List ℕ
sessions = map λ e. e.1

pub record Implements (p : Pool) (a : Spec) : Type 0 where
  pub consistent : IsConsistent p
  pub queued : sessions p.idle ≡ a.queue
  pub used : (s : ℕ) → is_held p.index s ≡ a.busy s

pub is_held-insert :
    (s t : ℕ) (i : PoolInfo) (d : Dict PoolInfo)
    → is_held (insert s i d) t
      ≡ (if s == t then elim i.element [ none ↦ true | some _ ↦ false ] else is_held d t)
is_held-insert s t i d = ground (arith, lookup-insert s t i d)

pub is_held-erase :
    (s t : ℕ) (d : Dict PoolInfo) → is_held (erase s d) t ≡ (if s == t then false else is_held d t)
is_held-erase s t d = ground (arith, lookup-erase s t d)

pub sessions-push : (d : Dict ℕ) (k s : ℕ) → sessions (d ++ (k, s) ∷ []) ≡ sessions d ++ s ∷ []
sessions-push [] k s = refl
sessions-push (x ∷ d) k s = rw (sessions-push d k s) refl

among-listed :
    (s : ℕ) (index : Dict PoolInfo) (d : Dict ℕ)
    → All (λ x. element_in index x.1 ≡ some x.0) d
    → among s (sessions d) ≡ true
    → (e : ℕ) × (element_in index s ≡ some e)
among-listed s index [] h m = absurd (ground arith)
among-listed s index (x ∷ d) (p, ps) m = elim (Bool-cases (x.1 == s)) [
  | inl same ↦ (x.0, ap (λ t. element_in index t) (sym ((==_iff x.1 s).0 same)) ∙ p)
  | inr other ↦ among-listed s index d ps (ground arith)
]

lookup-among : (e s : ℕ) (d : Dict ℕ) → lookup e d ≡ some s → among s (sessions d) ≡ true
lookup-among e s [] h = cc
lookup-among e s (x ∷ d) h = ground (arith, lookup-among e s d, ==_iff x.1 s)

pub sessions-erase :
    (el s : ℕ) (d : Dict ℕ)
    → All (λ x. (x.0 == el) ≡ (x.1 == s)) d
    → sessions (erase el d) ≡ less s (sessions d)
unfolding erase
sessions-erase el s [] h = refl
sessions-erase el s (x ∷ d) (p, ps) = ground (arith, p, sessions-erase el s d ps)

pub less-absent :
    (s : ℕ) (d : Dict ℕ) → All (λ x. (x.1 == s) ≡ false) d → less s (sessions d) ≡ sessions d
less-absent s [] h = refl
less-absent s (x ∷ d) (p, ps) = ground (arith, p, less-absent s d ps)

-- A session that is known has an entry in the index.
pub known :
    (p : Pool) (a : Spec) (s : ℕ)
    → Implements p a
    → a.busy s || among s a.queue ≡ true
    → (i : PoolInfo) × (lookup s p.index ≡ some i)
known p a s v h = elim (Option-cases (lookup s p.index)) [
  | inr (i, f) ↦ (i, f)
  | inl f ↦ elim (Bool-cases (among s a.queue)) [
    | inl m ↦
        let (e, q) =
          among-listed s p.index p.idle v.consistent.listed (ap (among s) v.queued ∙ m) in
        absurd (ground (arith, q, f))
    | inr m ↦ absurd (ground (arith, v.used s, f, m, h))
  ]
]

pub unknown :
    (p : Pool) (a : Spec) (s : ℕ)
    → Implements p a
    → a.busy s ≡ false
    → among s a.queue ≡ false
    → lookup s p.index ≡ none
unknown p a s v idle_ absent = elim (Option-cases (lookup s p.index)) [
  | inl f ↦ f
  | inr (i, f) ↦ elim (Option-cases i.element) [
    | inl m ↦ absurd (ground (arith, v.used s, f, m))
    | inr (e, m) ↦
        let there = (v.consistent.matched e s).1 (ground (arith, f, m)) in
        let here = ap (among s) (sym v.queued) ∙ lookup-among e s p.idle there in
        absurd (ground (arith, here))
  ]
]

pub held : (p : Pool) (a : Spec) (s : ℕ) → Implements p a → a.busy s ≡ true → Held s p
held p a s v b = elim (Option-cases (lookup s p.index)) [
  | inl f ↦ absurd (ground (arith, v.used s, f))
  | inr (i, f) ↦ elim (Option-cases i.element) [
    | inl m ↦ (i, f, m)
    | inr (e, m) ↦ absurd (ground (arith, v.used s, f, m))
  ]
]
