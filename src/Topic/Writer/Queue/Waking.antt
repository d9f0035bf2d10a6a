-- ===== src/Topic/Writer/Queue/Waking.antt =====
-- No call of `GetMessagesForSend` or of `Wait` sleeps on.
use mathlib.Core.Option.{some-injective, none-ne-some}
use mathlib.Core.Bool.{true≢false}
use ydb_go_sdk.Base.{
  Bool, Bool-cases, List, Option-cases, Result, [], ap, arith, false, inl, inr, not, refl, some,
  suc, sym, true, ℕ, ◌<◌, ◌==◌, ◌||◌, ◌∙◌, ◌∷◌, ◌≡◌, ◌≢◌, ◌≤◌, ◌⊎◌,
}
use ydb_go_sdk.Topic.Writer.Queue.{
  Message, MessageQueue, QueueError, acks_received, close, distance, get_messages,
  reset_sent_progress, send_loop,
}
use ydb_go_sdk.Topic.Writer.Queue.Effects.{
  Acked, Adds, Told, acks_received-Told, add_messages-Adds, send_loop-meets,
}
use ydb_go_sdk.Topic.Writer.Queue.Waiting.{
  Cause, QueueReach, QueueRun, QueueStep, Sender, Waiter, acknowledges, adds, asks, asks_for,
  awaits, by_close, by_context, by_other, checks, checks_for, fails, gives_up, here, is_ok, looks,
  looks_up, new_queue_run, next, resets, resumes, sender_look, sender_wake, sends, shuts,
  skip_acked, sleeps, start_sender, start_waiter, starts_sending, starts_waiting, waited,
  waiter_check, waiter_wake, wakes_up,
}
use mathlib.Core.Path.{subst}
use ydb_go_sdk.Base.Dict.{Dict, contains}

module _ {A : Type 0} where
  -- A sender that sleeps has the signal, or nothing to send.
  SenderOk : QueueRun A → Type 0
  SenderOk s =
      s.sender ≡ sleeps
      → (s.queue.has_new_messages ≡ true) ⊎ (s.queue.last_written ≡ s.queue.last_sent)

  sender_look-Ok :
      (q p : MessageQueue A) (x : Sender A)
      → sender_look q ≡ some (x, p)
      → p.last_written ≡ p.last_sent
  unfolding sender_look get_messages
  sender_look-Ok q p x e =
      elim (Option-cases (
        send_loop (suc (distance q.last_sent q.last_written)) q.last_written q.last_sent
          q.messages)) [
            | inl n ↦ absurd (none-ne-some _ (rw n at e))
            | inr ((ms, last), n) ↦
                let r = some-injective _ _ (rw n at e) in
                sym (ap (λ z. z.1.last_written) r)
                ∙ sym (
                    send_loop-meets (suc (distance q.last_sent q.last_written)) q.last_written
                      q.last_sent q.messages ms last n)
                ∙ ap (λ z. z.1.last_sent) r
          ]

  abbrev is_asleep : Sender A → Bool
  is_asleep sleeps = true
  is_asleep looks = false
  is_asleep (sends ms) = false
  is_asleep (fails e) = false

  start_sender-awake : (done : Bool) (q : MessageQueue A) → start_sender done q ≢ sleeps
  unfolding start_sender
  start_sender-awake done q e = true≢false (
      sym (ap is_asleep e) ∙ (elim (Bool-cases done) [
        | inl d ↦ rw d refl
        | inr d ↦ elim (Bool-cases q.closed) [ inl c ↦ rw (d, c) refl | inr c ↦ rw (d, c) refl ]
      ]))

  sender_wake-awake :
      (c : Cause) (q p : MessageQueue A) (x : Sender A) → sender_wake c q ≡ some (x, p) → x ≢ sleeps
  unfolding sender_wake
  sender_wake-awake by_context q p x e n = cc
  sender_wake-awake by_close q p x e n = elim (Bool-cases q.closed) [
    | inl c ↦ cc
    | inr c ↦ absurd (none-ne-some _ (rw c at e))
  ]
  sender_wake-awake by_other q p x e n = elim (Bool-cases q.has_new_messages) [
    | inl c ↦ cc
    | inr c ↦ absurd (none-ne-some _ (rw c at e))
  ]

  -- `Close` changes nothing that they read but that it is closed.
  record Shut (q p : MessageQueue A) : Type 0 where
    acked : Acked q p
    broadcasts : p.ack_broadcasts ≡ q.ack_broadcasts
    stored : p.messages ≡ q.messages

  close-Shut : (q : MessageQueue A) → Shut q (close q).1.1
  unfolding close
  close-Shut q = elim (Bool-cases q.closed) [
    | inl c ↦ simp c (record {
      acked = record { flag = refl; written = refl; sent = refl };
      broadcasts = refl;
      stored = refl;
    })
    | inr c ↦ simp c (record {
      acked = record { flag = refl; written = refl; sent = refl };
      broadcasts = refl;
      stored = refl;
    })
  ]

  Step-SenderOk : {s t : QueueRun A} → SenderOk s → QueueStep s t → SenderOk t
  unfolding SenderOk reset_sent_progress
  Step-SenderOk {s} h (adds ms e) n =
      let (a, same) = add_messages-Adds ms s.queue e in
      elim same [ inl eq ↦ rw eq (h n) | inr flag ↦ inl flag ]
  Step-SenderOk {s} h (acknowledges ss) n =
      let (a, _) = acks_received-Told ss s.queue in rw (a.flag, a.written, a.sent) (h n)
  Step-SenderOk h resets n = inl refl
  Step-SenderOk {s} h shuts n =
      let a = (close-Shut s.queue).acked in rw (a.flag, a.written, a.sent) (h n)
  Step-SenderOk {s} h (starts_sending done) n = absurd (start_sender-awake done s.queue n)
  Step-SenderOk {s} h (looks_up {x} {q} l e) n = inr (sender_look-Ok s.queue q x e)
  Step-SenderOk {s} h (wakes_up {x} {q} c l e) n = absurd (sender_wake-awake c s.queue q x e n)
  Step-SenderOk h (starts_waiting done is) n = h n
  Step-SenderOk h (asks_for is l) n = h n
  Step-SenderOk h (checks_for since is l) n = h n
  Step-SenderOk h (resumes c since is l e) n = h n

  -- A waiter that sleeps will be woken, or has a message that is not acknowledged.
  abbrev pub head_stored : List ℕ → Dict (Message A) → Bool
  head_stored [] d = false
  head_stored (i ∷ is) d = contains i d

  abbrev Fine : Waiter → MessageQueue A → Bool → Type 0
  Fine (asks is) q bad = Unit {0}
  Fine (checks since is) q bad = since ≤ q.ack_broadcasts
  Fine (awaits since is) q bad =
      (since ≤ q.ack_broadcasts)
      × ((bad ≡ true) ⊎ ((since < q.ack_broadcasts) ⊎ (head_stored is q.messages ≡ true)))
  Fine waited q bad = Unit {0}
  Fine (gives_up e) q bad = Unit {0}

  head_stored-kept :
      (q p : MessageQueue A) (is : List ℕ)
      → Adds q p
      → head_stored is q.messages ≡ true
      → head_stored is p.messages ≡ true
  head_stored-kept q p [] a h = h
  head_stored-kept q p (i ∷ is) a h = a.kept i h

  Adds-Fine :
      (w : Waiter) (q p : MessageQueue A) (bad : Bool) → Adds q p → Fine w q bad → Fine w p bad
  Adds-Fine (asks is) q p bad a f = f
  Adds-Fine (checks since is) q p bad a f = omega (arith, f, a.broadcast)
  Adds-Fine (awaits since is) q p bad a (l, f) = (
    omega (arith, l, a.broadcast),
    elim f [
      | inl b ↦ inl b
      | inr (inl b) ↦ inr (inl (omega (arith, b, a.broadcast)))
      | inr (inr b) ↦ inr (inr (head_stored-kept q p is a b))
    ],
  )
  Adds-Fine waited q p bad a f = f
  Adds-Fine (gives_up e) q p bad a f = f

  Told-Fine :
      (w : Waiter) (q : MessageQueue A) (bad : Bool)
      → (r : Result QueueError (Unit {0}) × MessageQueue A) → Told q r
      → Fine w q bad
      → Fine w r.1 (bad || not (is_ok r.0))
  Told-Fine (asks is) q bad r t f = f
  Told-Fine (checks since is) q bad r (a, t) f = elim t [
    | inl (_, b) ↦ omega (arith, f, b)
    | inr (_, b) ↦ omega (arith, f, b)
  ]
  Told-Fine (awaits since is) q bad r (a, t) (l, f) = elim t [
    | inl (o, b) ↦ (omega (arith, l, b), inr (inl (omega (arith, l, b))))
    | inr (o, b) ↦ (omega (arith, l, b), inl (rw o (ground arith)))
  ]
  Told-Fine waited q bad r t f = f
  Told-Fine (gives_up e) q bad r t f = f

  waiter_check-Fine :
      (since : ℕ) (is : List ℕ) (q : MessageQueue A) (bad : Bool)
      → since ≤ q.ack_broadcasts
      → Fine (waiter_check since is q) q bad
  unfolding waiter_check skip_acked
  waiter_check-Fine since [] q bad l = tt
  waiter_check-Fine since (i ∷ is) q bad l = elim (Bool-cases (contains i q.messages)) [
    | inl c ↦ rw c (l, inr (inr c))
    | inr c ↦ rw c (waiter_check-Fine since is q bad l)
  ]

  waiter_wake-Fine :
      (c : Cause) (since : ℕ) (is : List ℕ) (q : MessageQueue A) (w : Waiter) (bad : Bool)
      → waiter_wake c since is q ≡ some w
      → Fine w q bad
  unfolding waiter_wake
  waiter_wake-Fine by_context since is q w bad e =
      subst (λ x. Fine x q bad) (some-injective _ _ e) tt
  waiter_wake-Fine by_close since is q w bad e = elim (Bool-cases q.closed) [
    | inl c ↦ subst (λ x. Fine x q bad) (some-injective _ _ (rw c at e)) tt
    | inr c ↦ absurd (none-ne-some _ (rw c at e))
  ]
  waiter_wake-Fine by_other since is q w bad e = elim (Bool-cases (q.ack_broadcasts == since)) [
    | inl c ↦ absurd (none-ne-some _ (rw c at e))
    | inr c ↦ subst (λ x. Fine x q bad) (some-injective _ _ (rw c at e)) tt
  ]

  -- What a sender does to the queue is nothing to a waiter.
  sender_look-Adds : (q p : MessageQueue A) (x : Sender A) → sender_look q ≡ some (x, p) → Adds q p
  unfolding sender_look get_messages
  sender_look-Adds q p x e =
      elim (Option-cases (
        send_loop (suc (distance q.last_sent q.last_written)) q.last_written q.last_sent
          q.messages)) [
            | inl n ↦ absurd (none-ne-some _ (rw n at e))
            | inr ((ms, last), n) ↦
                let r = ap (λ z. z.1) (some-injective _ _ (rw n at e)) in
                subst (λ z. Adds q z) r (record { broadcast = refl; kept = λ i h. h })
          ]

  sender_wake-Adds :
      (c : Cause) (q p : MessageQueue A) (x : Sender A) → sender_wake c q ≡ some (x, p) → Adds q p
  unfolding sender_wake
  sender_wake-Adds by_context q p x e =
      subst (λ z. Adds q z) (ap (λ z. z.1) (some-injective _ _ e))
        (record { broadcast = refl; kept = λ i h. h })
  sender_wake-Adds by_close q p x e = elim (Bool-cases q.closed) [
    | inl c ↦
        subst (λ z. Adds q z) (ap (λ z. z.1) (some-injective _ _ (simp c at e)))
          (record { broadcast = refl; kept = λ i h. h })
    | inr c ↦ absurd (none-ne-some _ (rw c at e))
  ]
  sender_wake-Adds by_other q p x e = elim (Bool-cases q.has_new_messages) [
    | inl c ↦
        subst (λ z. Adds q z) (ap (λ z. z.1) (some-injective _ _ (simp c at e)))
          (record { broadcast = refl; kept = λ i h. h })
    | inr c ↦ absurd (none-ne-some _ (rw c at e))
  ]

  WaiterOk : QueueRun A → Type 0
  WaiterOk s = Fine s.waiter s.queue s.bad_ack

  Step-WaiterOk : {s t : QueueRun A} → WaiterOk s → QueueStep s t → WaiterOk t
  unfolding WaiterOk reset_sent_progress start_waiter
  Step-WaiterOk {s} h (adds ms e) =
      Adds-Fine s.waiter s.queue _ s.bad_ack (add_messages-Adds ms s.queue e).0 h
  Step-WaiterOk {s} h (acknowledges ss) =
      Told-Fine s.waiter s.queue s.bad_ack (acks_received ss s.queue).1
        (acks_received-Told ss s.queue) h
  Step-WaiterOk {s} h resets =
      Adds-Fine s.waiter s.queue _ s.bad_ack (record { broadcast = refl; kept = λ i c. c }) h
  Step-WaiterOk {s} h shuts =
      let a = close-Shut s.queue in
      Adds-Fine s.waiter s.queue _ s.bad_ack
        (record { broadcast = a.broadcasts; kept = λ i c. rw (contains, a.stored) c }) h
  Step-WaiterOk h (starts_sending done) = h
  Step-WaiterOk {s} h (looks_up {x} {q} l e) =
      Adds-Fine s.waiter s.queue q s.bad_ack (sender_look-Adds s.queue q x e) h
  Step-WaiterOk {s} h (wakes_up {x} {q} c l e) =
      Adds-Fine s.waiter s.queue q s.bad_ack (sender_wake-Adds c s.queue q x e) h
  Step-WaiterOk h (starts_waiting done is) = elim (Bool-cases done) [
    | inl d ↦ rw d tt
    | inr d ↦ rw d tt
  ]
  Step-WaiterOk h (asks_for is l) = omega arith
  Step-WaiterOk {s} h (checks_for since is l) =
      waiter_check-Fine since is s.queue s.bad_ack (rw l at h)
  Step-WaiterOk {s} h (resumes {w} c since is l e) =
      waiter_wake-Fine c since is s.queue w s.bad_ack e

  Reach-Ok : (s : QueueRun A) → QueueReach new_queue_run s → SenderOk s × WaiterOk s
  unfolding SenderOk WaiterOk
  Reach-Ok s here = ((λ n. cc), tt)
  Reach-Ok u (next {t} steps step) =
      let (a, b) = Reach-Ok t steps in (Step-SenderOk a step, Step-WaiterOk b step)

  -- Whatever the goroutines do and in whatever order, as long as no call that adds messages panics:
  -- a call of `GetMessagesForSend` that sleeps has its signal, or there is nothing to send; and a
  -- call of `Wait` that sleeps has a broadcast to receive, or the first index that it waits for is
  -- one of a message that is not acknowledged, unless a call of `AcksReceived` failed.
  pub Reach-awake :
      (s : QueueRun A)
      → QueueReach new_queue_run s
      → (s.sender ≡ sleeps
          → (s.queue.has_new_messages ≡ true) ⊎ (s.queue.last_written ≡ s.queue.last_sent))
        × ((since : ℕ) (is : List ℕ)
            → s.waiter ≡ awaits since is
            → s.bad_ack ≡ false
            → (since < s.queue.ack_broadcasts) ⊎ (head_stored is s.queue.messages ≡ true))
  unfolding SenderOk WaiterOk
  Reach-awake s steps =
      let (a, b) = Reach-Ok s steps in
      (
        a,
        λ since is w good. elim (rw w at b).1 [
          | inl bad ↦ absurd (true≢false (sym bad ∙ good))
          | inr c ↦ c
        ],
      )
