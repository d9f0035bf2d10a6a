-- ===== src/Topic/Writer/Queue/Effects.antt =====
-- What the methods leave as it was, and whom they tell.
use mathlib.Core.Option.{some-injective, none-ne-some}
use ydb_go_sdk.Base.{
  ==_iff, Bool-cases, List, Option-cases, Result, [], ap, arith, err, false, inl, inr, ok, panic,
  refl, some, suc, sym, true, zero, ℕ, ◌&&◌, ◌==◌, ◌∙◌, ◌∷◌, ◌≡◌, ◌⊎◌,
}
use ydb_go_sdk.Base.Word.{incr, sign_bit}
use ydb_go_sdk.Base.Dict.{Dict, contains, insert, lookup-insert}
use ydb_go_sdk.Topic.Writer.Queue.{
  Message, MessageQueue, QueueError, Returns, acks_received, add_all, add_message, add_messages,
  add_to_closed, and_then, check_new_messages, has_small_index, note_index, notified, send_loop,
  unordered_messages,
}
use ydb_go_sdk.Topic.Writer.Queue.Waiting.{is_error, is_ok, is_panic}
use ydb_go_sdk.Topic.Writer.Queue.Acks.{ack_received-cases, without}

contains-insert :
    {V : Type 0} (k j : ℕ) (v : V) (d : Dict V)
    → contains j d ≡ true
    → contains j (insert k v d) ≡ true
contains-insert k j v d h =
    rw (contains, lookup-insert k j v d)
      (elim (Bool-cases (k == j)) [ inl e ↦ rw e refl | inr e ↦ rw e h ])

module _ {A : Type 0} where
  -- What adding leaves as it was.
  pub record Adds (q p : MessageQueue A) : Type 0 where
    pub broadcast : p.ack_broadcasts ≡ q.ack_broadcasts
    pub kept : (i : ℕ) → contains i q.messages ≡ true → contains i p.messages ≡ true

  Adds-refl : (q : MessageQueue A) → Adds q q
  Adds-refl q = record { broadcast = refl; kept = λ i h. h }

  add_message-Adds : (m : Message A) (q : MessageQueue A) → Adds q (add_message m q).1
  unfolding add_message
  add_message-Adds m q =
      let i = incr q.last_written in
      elim (Bool-cases (i == sign_bit && has_small_index q.messages)) [
        | inl a ↦ rw a (record { broadcast = refl; kept = λ j h. h })
        | inr a ↦ elim (Bool-cases (contains i q.messages)) [
          | inl b ↦ rw (a, b) (record { broadcast = refl; kept = λ j h. h })
          | inr b ↦
              rw (a, b)
                (record { broadcast = refl; kept = λ j h. contains-insert i j m q.messages h })
        ]
      ]

  add_message-not_error :
      (m : Message A) (q : MessageQueue A) → is_error (add_message m q).0 ≡ false
  unfolding add_message
  add_message-not_error m q =
      let i = incr q.last_written in
      elim (Bool-cases (i == sign_bit && has_small_index q.messages)) [
        | inl a ↦ rw a refl
        | inr a ↦ elim (Bool-cases (contains i q.messages)) [
          | inl b ↦ rw (a, b) refl
          | inr b ↦ rw (a, b) refl
        ]
      ]

  Adds-trans : {q p r : MessageQueue A} → Adds q p → Adds p r → Adds q r
  Adds-trans a b = record {
    broadcast = b.broadcast ∙ a.broadcast;
    kept = λ i h. b.kept i (a.kept i h);
  }

  note_index-same :
      (i : ℕ) (r : Returns A (List ℕ))
      → ((note_index i r).1 ≡ r.1) × (is_error (note_index i r).0 ≡ is_error r.0)
  note_index-same i (ok is, q) = (refl, refl)
  note_index-same i (err e, q) = (refl, refl)
  note_index-same i (panic, q) = (refl, refl)

  -- Adding a message, and then others.
  and_then-Adds :
      (q : MessageQueue A) (r : Returns A ℕ) (rest : MessageQueue A → Returns A (List ℕ))
      → Adds q r.1
      → is_error r.0 ≡ false
      → ((p : MessageQueue A) → Adds p (rest p).1 × (is_error (rest p).0 ≡ false))
      → Adds q (and_then rest r).1 × (is_error (and_then rest r).0 ≡ false)
  and_then-Adds q (ok i, p) rest a e h =
      let (b, f) = h p in let (s, t) = note_index-same i (rest p) in (rw s (Adds-trans a b), t ∙ f)
  and_then-Adds q (err x, p) rest a e h = cc
  and_then-Adds q (panic, p) rest a e h = (a, refl)

  add_all-Adds :
      (ms : List (Message A)) (q : MessageQueue A)
      → Adds q (add_all ms q).1 × (is_error (add_all ms q).0 ≡ false)
  unfolding add_all
  add_all-Adds [] q = (Adds-refl q, refl)
  add_all-Adds (m ∷ ms) q =
      and_then-Adds q (add_message m q) (add_all ms) (add_message-Adds m q)
        (add_message-not_error m q) (add_all-Adds ms)

  notified-Adds :
      (q : MessageQueue A) (r : Returns A (List ℕ))
      → Adds q r.1
      → is_error r.0 ≡ false
      → is_panic (notified r).0 ≡ false
      → Adds q (notified r).1 × ((notified r).1.has_new_messages ≡ true)
  notified-Adds q (ok is, p) a e h = (record { broadcast = a.broadcast; kept = a.kept }, refl)
  notified-Adds q (err x, p) a e h = cc
  notified-Adds q (panic, p) a e h = cc

  add_messages-cases :
      (ms : List (Message A)) (q : MessageQueue A)
      → ((x : QueueError) × (add_messages ms q ≡ (err x, q)))
        ⊎ (add_messages ms q ≡ notified (add_all ms q))
  unfolding add_messages
  add_messages-cases ms q = elim (Bool-cases q.closed) [
    | inl c ↦ inl (add_to_closed, simp c refl)
    | inr c ↦ elim (Bool-cases (check_new_messages q.last_seq_no ms)) [
      | inl n ↦ inr (simp (c, n) refl)
      | inr n ↦ inl (unordered_messages, simp (c, n) refl)
    ]
  ]

  -- A call that does not panic changes nothing, or gives the signal.
  pub add_messages-Adds :
      (ms : List (Message A)) (q : MessageQueue A)
      → is_panic (add_messages ms q).0 ≡ false
      → Adds q (add_messages ms q).1
        × (((add_messages ms q).1 ≡ q) ⊎ ((add_messages ms q).1.has_new_messages ≡ true))
  add_messages-Adds ms q h = elim (add_messages-cases ms q) [
    | inl (x, e) ↦ rw e (Adds-refl q, inl refl)
    | inr e ↦
        let (a, f) = add_all-Adds ms q in
        let (b, g) = notified-Adds q (add_all ms q) a f (rw e at h) in rw e (b, inr g)
  ]

  -- The loop stops where the two indexes meet.
  pub send_loop-meets :
      (fuel written sent : ℕ) (d : Dict (Message A)) (ms : List (Message A)) (last : ℕ)
      → send_loop fuel written sent d ≡ some (ms, last)
      → last ≡ written
  unfolding send_loop
  send_loop-meets zero written sent d ms last e = absurd (none-ne-some _ e)
  send_loop-meets (suc fuel) written sent d ms last e = elim (Bool-cases (written == sent)) [
    | inl y ↦
        let r = some-injective _ _ (rw y at e) in
        sym (ap (λ z. z.1) r) ∙ ground (arith, y, ==_iff written sent)
    | inr y ↦ elim (Option-cases (send_loop fuel written (incr sent) d)) [
      | inl n ↦ absurd (none-ne-some _ (rw (y, n) at e))
      | inr ((xs, x), n) ↦
          let r = some-injective _ _ (rw (y, n) at e) in
          sym (ap (λ z. z.1) r) ∙ send_loop-meets fuel written (incr sent) d xs x n
    ]
  ]

  -- What `AcksReceived` leaves as it was; only where it fails, the waiters are not told.
  pub record Acked (q p : MessageQueue A) : Type 0 where
    pub flag : p.has_new_messages ≡ q.has_new_messages
    pub written : p.last_written ≡ q.last_written
    pub sent : p.last_sent ≡ q.last_sent

  Acked-trans : {q p r : MessageQueue A} → Acked q p → Acked p r → Acked q r
  Acked-trans a b = record {
    flag = b.flag ∙ a.flag;
    written = b.written ∙ a.written;
    sent = b.sent ∙ a.sent;
  }

  -- A call that succeeds makes one broadcast, and else there is none.
  abbrev pub Told : MessageQueue A → Result QueueError (Unit {0}) × MessageQueue A → Type 0
  Told q r =
      Acked q r.1
      × (((is_ok r.0 ≡ true) × (r.1.ack_broadcasts ≡ suc q.ack_broadcasts))
          ⊎ ((is_ok r.0 ≡ false) × (r.1.ack_broadcasts ≡ q.ack_broadcasts)))

  pub acks_received-Told : (acks : List ℕ) (q : MessageQueue A) → Told q (acks_received acks q).1
  unfolding acks_received
  acks_received-Told [] q = (record { flag = refl; written = refl; sent = refl }, inl (refl, refl))
  acks_received-Told (s ∷ acks) q = elim (ack_received-cases s q) [
    | inl e ↦
        rw (acks_received, e)
          (record { flag = refl; written = refl; sent = refl }, inr (refl, refl))
    | inr (i, found, e) ↦
        let (a, told) = acks_received-Told acks (without s i q) in
        rw (acks_received, e) (record { flag = a.flag; written = a.written; sent = a.sent }, told)
  ]
