-- ===== src/Topic/Writer/Queue/Cycle.antt =====
-- The cyclic order of message indexes, which goes on past the overflow of an `int`.
use mathlib.Core.Path.{subst}
use ydb_go_sdk.Base.{
  All, Bool-cases, [], arith, false, if◌then◌else◌, inl, inr, sym, true, ℕ, ◌%◌, ◌+◌, ◌<◌, ◌^◌, ◌∷◌,
  ◌≡◌, ◌≤◌,
}
use ydb_go_sdk.Base.Dict.{Dict}
use ydb_go_sdk.Base.Word.{IsWord, modulus}
use ydb_go_sdk.Topic.Writer.Queue.{Message, cycled_less, distance, min_key}

-- An index stands before every index up to 2 ^ 62 steps ahead of it, and no such index stands before
-- it, also where the steps go over the overflow from the largest to the smallest `int`.
cycled_less_ahead :
    (a d : ℕ)
    → IsWord a
    → 0 < d
    → d ≤ 2 ^ 62
    → let b = (a + d) % modulus in (cycled_less a b ≡ true) × (cycled_less b a ≡ false)
unfolding cycled_less
cycled_less_ahead a d w p q = ground arith

-- Within 2 ^ 62 steps behind `end`, the cyclic order is the order of the steps that are left.
cycled_less-distance :
    (a b end : ℕ)
    → IsWord a
    → IsWord b
    → IsWord end
    → distance a end < 2 ^ 62
    → distance b end < 2 ^ 62
    → (cycled_less a b ≡ true → distance b end < distance a end)
      × (cycled_less a b ≡ false → distance a end ≤ distance b end)
unfolding cycled_less
cycled_less-distance a b end wa wb we ha hb = ground arith

module _ {A : Type 0} where
  -- The index is a pattern, fewer than 2 ^ 62 steps behind `end`.
  abbrev pub InWindow : ℕ → ℕ × Message A → Type 0
  InWindow end e = IsWord e.0 × (distance e.0 end < 2 ^ 62)

  -- The index is in the window, and neither `least` nor a key is further behind.
  abbrev IsLeast : ℕ → ℕ → Dict (Message A) → ℕ → Type 0
  IsLeast least end d r =
      IsWord r
      × (distance r end < 2 ^ 62)
      × (distance least end ≤ distance r end)
      × All (λ e. distance e.0 end ≤ distance r end) d

  -- The least key that `ResetSentProgress` finds.
  pub min_key-IsLeast :
      (least end : ℕ) (d : Dict (Message A))
      → IsWord end
      → IsWord least
      → distance least end < 2 ^ 62
      → All (InWindow end) d
      → IsLeast least end d (min_key least d)
  unfolding min_key
  min_key-IsLeast least end [] we wl hl h = (wl, hl, omega arith, tt)
  min_key-IsLeast least end ((k, m) ∷ d) we wl hl ((wk, hk), h) =
      let (below, above) = cycled_less-distance k least end wk wl we hk hl in
      elim (Bool-cases (cycled_less k least)) [
        | inl before ↦
            let (w, b, l, all) = min_key-IsLeast k end d we wk hk h in
            subst (λ c. IsLeast least end ((k, m) ∷ d) (min_key (if c then k else least) d))
              (sym before) (w, b, omega (arith, below before), (l, all))
        | inr behind ↦
            let (w, b, l, all) = min_key-IsLeast least end d we wl hl h in
            subst (λ c. IsLeast least end ((k, m) ∷ d) (min_key (if c then k else least) d))
              (sym behind) (w, b, l, (omega (arith, above behind), all))
      ]
