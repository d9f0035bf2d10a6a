-- ===== src/Topic/Writer/Queue/Acks.antt =====
-- What an acknowledgement takes out of the queue.
use mathlib.Core.Path.{subst}
use ydb_go_sdk.Base.{
  All, List, Option-cases, Result, [], ap, arith, err, inl, inr, length, ok, refl, some, suc, sym,
  ℕ, ◌↔◌, ◌∷◌, ◌≡◌, ◌≢◌, ◌⊎◌,
}
use ydb_go_sdk.Base.Dict.{erase, erase-All, lookup, lookup-erase}
use ydb_go_sdk.Topic.Writer.Queue.{
  Message, MessageQueue, QueueError, Returns, ack_received, acks_received, unexpected_ack,
}
use ydb_go_sdk.Topic.Writer.Queue.Resending.{Stored}
use ydb_go_sdk.Topic.Writer.Queue.Invariant.{IsValid}

module _ {A : Type 0} where
  -- The queue without one message.
  abbrev pub without : ℕ → ℕ → MessageQueue A → MessageQueue A
  without s i q = record q { order_of = erase s q.order_of; messages = erase i q.messages }

  module _ (s i : ℕ) (q : MessageQueue A) (v : IsValid q)
      (found : lookup s q.order_of ≡ some i) where
    without-stored :
        (k : ℕ) (m : Message A)
        → lookup k (without s i q).messages ≡ some m
        → (lookup k q.messages ≡ some m)
          × (m.seq_no ≢ s)
          × (lookup m.seq_no (without s i q).order_of ≡ some k)
    without-stored k m e =
        ground
          (arith, lookup-erase i k q.messages, lookup-erase s m.seq_no q.order_of, v.stored k m)

    without-ordered :
        (t k : ℕ)
        → lookup t (without s i q).order_of ≡ some k
        → (m : Message A) × (lookup k (without s i q).messages ≡ some m) × (m.seq_no ≡ t)
    without-ordered t k e =
        let (o, there, number) = v.ordered t k (ground (arith, lookup-erase s t q.order_of)) in
        let (o', there', number') = v.ordered s i found in
        (o, ground (arith, lookup-erase i k q.messages, lookup-erase s t q.order_of), number)

    without-IsValid : IsValid (without s i q)
    without-IsValid = record {
      indexed = v.indexed;
      window = erase-All _ i q.messages v.window;
      stored = λ k m e. (without-stored k m e).2;
      ordered = without-ordered;
      bounded = λ t k e. v.bounded t k (ground (arith, lookup-erase s t q.order_of));
    }

    -- Exactly the message with that number is gone.
    without-Stored : (m : Message A) → Stored m (without s i q) ↔ (Stored m q × (m.seq_no ≢ s))
    without-Stored m = (
      (λ h. let (e, other, _) = without-stored h.0 m h.1 in ((h.0, e), other)),
      (λ h.
          let (o, there, number) = v.ordered s i found in
          (h.0.0, ground (arith, lookup-erase i h.0.0 q.messages, v.stored h.0.0 m h.0.1))),
    )

  pub ack_received-cases :
      (s : ℕ) (q : MessageQueue A)
      → (ack_received s q ≡ (err unexpected_ack, q))
        ⊎ ((i : ℕ) × (lookup s q.order_of ≡ some i) × (ack_received s q ≡ (ok tt, without s i q)))
  unfolding ack_received
  ack_received-cases s q = elim (Option-cases (lookup s q.order_of)) [
    | inl e ↦ inl (rw (ack_received, e))
    | inr (i, e) ↦ inr (i, e, rw (ack_received, e))
  ]

  -- Every call of `AcksReceived` leaves a valid queue valid, also one that fails half-way.
  acks_received-IsValid :
      (acks : List ℕ) (q : MessageQueue A) → IsValid q → IsValid (acks_received acks q).1.1
  unfolding acks_received
  acks_received-IsValid [] q v = record {
    indexed = v.indexed;
    window = v.window;
    stored = v.stored;
    ordered = v.ordered;
    bounded = v.bounded;
  }
  acks_received-IsValid (s ∷ acks) q v = elim (ack_received-cases s q) [
    | inl e ↦ rw (acks_received, e) v
    | inr (i, found, e) ↦
        rw (acks_received, e)
          (acks_received-IsValid acks (without s i q) (without-IsValid s i q v found))
  ]

  acks_received-cons :
      (s : ℕ) (acks : List ℕ) (q : MessageQueue A) (i : ℕ)
      → ack_received s q ≡ (ok tt, without s i q)
      → acks_received (s ∷ acks) q
        ≡ (suc (acks_received acks (without s i q)).0, (acks_received acks (without s i q)).1)
  unfolding acks_received
  acks_received-cons s acks q i e = rw (acks_received, e)

  acks_received-fails :
      (s : ℕ) (acks : List ℕ) (q : MessageQueue A)
      → ack_received s q ≡ (err unexpected_ack, q)
      → acks_received (s ∷ acks) q ≡ (0, (err unexpected_ack, q))
  unfolding acks_received
  acks_received-fails s acks q e = rw (acks_received, e)

  abbrev Keeps : Message A → List ℕ → MessageQueue A → ℕ × Returns A (Unit {0}) → Type 0
  Keeps m acks q x =
      (x.0 ≡ length acks) × (Stored m x.1.1 ↔ (Stored m q × All (λ s. m.seq_no ≢ s) acks))

  -- A call of `AcksReceived` that succeeds counts every acknowledgement, and keeps exactly the
  -- messages whose numbers are not acknowledged.
  pub acks_received-Stored :
      (acks : List ℕ) (q : MessageQueue A) (m : Message A)
      → IsValid q
      → (acks_received acks q).1.0 ≡ ok tt
      → ((acks_received acks q).0 ≡ length acks)
        × (Stored m (acks_received acks q).1.1 ↔ (Stored m q × All (λ s. m.seq_no ≢ s) acks))
  acks_received-Stored [] q m v h = unfold acks_received in (refl, ((λ st. (st, tt)), (λ st. st.0)))
  acks_received-Stored (s ∷ acks) q m v h = elim (ack_received-cases s q) [
    | inl e ↦
        let wrong : ◌≡◌ {A = Result QueueError (Unit {0})} (err unexpected_ack) (ok tt) =
          rw (acks_received-fails s acks q e) at h in
        cc
    | inr (i, found, e) ↦
        let step = acks_received-cons s acks q i e in
        let (k, iff) =
          acks_received-Stored acks (without s i q) m (without-IsValid s i q v found)
            (rw step at h) in
        let (gone, kept) = without-Stored s i q v found m in
        subst (Keeps m (s ∷ acks) q) (sym step) (
          ap suc k,
          (
            (λ st. let (st', all) = iff.0 st in let (old, other) = gone st' in (old, (other, all))),
            (λ st. iff.1 (kept (st.0, st.1.0), st.1.1)),
          ),
        )
  ]
