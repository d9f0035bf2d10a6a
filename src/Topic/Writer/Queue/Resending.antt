-- ===== src/Topic/Writer/Queue/Resending.antt =====
-- What `ResetSentProgress` makes the queue send again.
use ydb_go_sdk.Base.{
  ==_iff, All, Bool-cases, List, Option, arith, get_elem?, inl, inr, none, refl, some, suc, zero, ℕ,
  ◌<◌, ◌==◌, ◌↔◌, ◌≡◌, ◌≢◌, ◌≤◌, ◌⊎◌,
}
use ydb_go_sdk.Base.Word.{IsWord, incr}
use ydb_go_sdk.Base.Dict.{All-lookup, Dict, lookup}
use ydb_go_sdk.Topic.Writer.Queue.{
  Message, MessageQueue, distance, get_messages, push_found, reset_sent_progress,
}
use ydb_go_sdk.Topic.Writer.Queue.Cycle.{InWindow, min_key-IsLeast}
use ydb_go_sdk.Topic.Writer.Queue.Sending.{Indexed, collect, get_messages_total, unsent}

module _ {A : Type 0} where
  -- The message stands somewhere in the list.
  abbrev pub Occurs : Message A → List (Message A) → Type 0
  Occurs m ms = (i : ℕ) × (get_elem? ms i ≡ some m)

  -- The message is stored at some index: it was added, and has not been acknowledged.
  abbrev pub Stored : Message A → MessageQueue A → Type 0
  Stored m q = (k : ℕ) × (lookup k q.messages ≡ some m)

  push_found-Occurs :
      (o : Option (Message A)) (m : Message A) (ms : List (Message A))
      → Occurs m ms
      → Occurs m (push_found o ms)
  push_found-Occurs none m ms h = h
  push_found-Occurs (some n) m ms (i, e) = (suc i, e)

  collect-Occurs :
      (n sent k : ℕ) (d : Dict (Message A)) {m : Message A}
      → IsWord k
      → IsWord sent
      → lookup k d ≡ some m
      → 0 < distance sent k
      → distance sent k ≤ n
      → Occurs m (collect n sent d)
  unfolding collect
  collect-Occurs zero sent k d wk ws e lo hi = absurd (omega arith)
  collect-Occurs (suc n) sent k d {m} wk ws e lo hi = elim (Bool-cases (distance sent k == 1)) [
    | inl here ↦
        let one : distance sent k ≡ 1 = (==_iff _ _).0 here in
        let same : incr sent ≡ k = omega arith in rw (same, e) (0, refl)
    | inr further ↦
        let more : distance sent k ≢ 1 = λ q. cc ((==_iff (distance sent k) 1).1 q, further) in
        push_found-Occurs (lookup (incr sent) d) m (collect n (incr sent) d)
          (collect-Occurs n (incr sent) k d wk (omega arith) e (omega arith) (omega arith))
  ]

  Occurs-push_found :
      (o : Option (Message A)) (m : Message A) (ms : List (Message A))
      → Occurs m (push_found o ms)
      → (o ≡ some m) ⊎ Occurs m ms
  Occurs-push_found none m ms h = inr h
  Occurs-push_found (some n) m ms (zero, e) = inl e
  Occurs-push_found (some n) m ms (suc i, e) = inr (i, e)

  collect-lookup :
      (n sent : ℕ) (d : Dict (Message A)) (m : Message A)
      → Occurs m (collect n sent d)
      → (k : ℕ) × (lookup k d ≡ some m)
  unfolding collect
  collect-lookup zero sent d m (i, e) = cc
  collect-lookup (suc n) sent d m h =
      elim (Occurs-push_found (lookup (incr sent) d) m (collect n (incr sent) d) h) [
        | inl e ↦ (incr sent, e)
        | inr h' ↦ collect-lookup n (incr sent) d m h'
      ]

  -- After `ResetSentProgress` the next call hands out exactly the messages that were added and not
  -- acknowledged, if no stored index is 2 ^ 62 or more behind the last one written.
  pub reset-resends :
      (q : MessageQueue A) (m : Message A)
      → Indexed q
      → All (InWindow q.last_written) q.messages
      → let q' = reset_sent_progress q in
        (get_messages q' ≡ some (unsent q', record q' { last_sent = q'.last_written }))
        × (Stored m q ↔ Occurs m (unsent q'))
  unfolding reset_sent_progress unsent
  reset-resends q m (w, s) window =
      let (wr, br, _, all) =
        min_key-IsLeast q.last_written q.last_written q.messages w w (omega arith) window in
      (
        get_messages_total (reset_sent_progress q) (w, omega arith),
        (
          (λ h.
              let behind = All-lookup _ q.messages h.0 all h.1 in
              let (wk, _) = All-lookup _ q.messages h.0 window h.1 in
              collect-Occurs _ _ h.0 q.messages wk (omega arith) h.1 (omega arith) (omega arith)),
          (λ h. collect-lookup _ _ q.messages m h),
        ),
      )
