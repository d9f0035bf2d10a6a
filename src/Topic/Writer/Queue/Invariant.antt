-- ===== src/Topic/Writer/Queue/Invariant.antt =====
-- The two maps of the queue are inverse to one another, and adding to the queue never panics.
use mathlib.Core.Path.{subst}
use ydb_go_sdk.Base.{
  ==_iff, All, Bool-cases, List, Option-cases, [], ap, arith, err, false, inl, inr, length, ok,
  panic, refl, some, suc, sym, true, ℕ, ◌+◌, ◌<◌, ◌==◌, ◌^◌, ◌↔◌, ◌∙◌, ◌∷◌, ◌≡◌, ◌≢◌,
}
use ydb_go_sdk.Base.Word.{IsWord, incr, sign_bit, sle, slt}
use ydb_go_sdk.Base.Dict.{All-lookup, Dict, contains, insert, insert-All, lookup, lookup-insert}
use ydb_go_sdk.Topic.Writer.Queue.{
  Message, MessageQueue, Returns, add_all, add_message, add_messages, check_new_messages, distance,
  has_small_index, new_queue, note_index, notified, notify, unordered_messages,
}
use ydb_go_sdk.Topic.Writer.Queue.Cycle.{InWindow}
use ydb_go_sdk.Topic.Writer.Queue.Sending.{Indexed, lookup-insert_self, with_message}

module _ {A : Type 0} where
  pub record IsValid (q : MessageQueue A) : Type 0 where
    pub indexed : Indexed q
    pub window : All (InWindow q.last_written) q.messages
    -- The number of a stored message leads back to its index.
    pub stored :
        (k : ℕ) (m : Message A) → lookup k q.messages ≡ some m → lookup m.seq_no q.order_of ≡ some k
    -- A number leads to a stored message that has it.
    pub ordered :
        (s k : ℕ)
        → lookup s q.order_of ≡ some k
        → (m : Message A) × (lookup k q.messages ≡ some m) × (m.seq_no ≡ s)
    -- No number is above the last one.
    pub bounded : (s k : ℕ) → lookup s q.order_of ≡ some k → sle s q.last_seq_no ≡ true

  new_queue-IsValid : IsValid new_queue
  unfolding new_queue
  new_queue-IsValid = record {
    indexed = (omega arith, omega arith);
    window = tt;
    stored = λ k m e. cc;
    ordered = λ s k e. cc;
    bounded = λ s k e. cc;
  }

  -- There is room for so many messages more in the window.
  abbrev Room : ℕ → MessageQueue A → Type 0
  Room n q = (n < 2 ^ 62) × All (λ e. distance e.0 q.last_written + n < 2 ^ 62) q.messages

  abbrev Step : ℕ → ℕ → ℕ × Message A → Type 0
  Step n end e = IsWord e.0 × (distance e.0 end + n < 2 ^ 62)

  -- Both of what the invariant and the room say of the entries.
  steps :
      (n end : ℕ) (d : Dict (Message A))
      → All (InWindow end) d
      → All (λ e. distance e.0 end + n < 2 ^ 62) d
      → All (Step n end) d
  steps n end [] w r = tt
  steps n end (e ∷ d) (w, ws) (r, rs) = ((w.0, r), steps n end d ws rs)

  steps-incr :
      (n end : ℕ) (d : Dict (Message A))
      → IsWord end
      → All (Step (suc n) end) d
      → All (Step n (incr end)) d
  steps-incr n end [] w h = tt
  steps-incr n end (e ∷ d) w (s, ss) = ((s.0, omega arith), steps-incr n end d w ss)

  Step-windows :
      (n end : ℕ) (d : Dict (Message A))
      → All (Step n end) d
      → All (InWindow end) d × All (λ e. distance e.0 end + n < 2 ^ 62) d
  Step-windows n end [] h = (tt, tt)
  Step-windows n end (e ∷ d) (s, ss) =
      let (w, r) = Step-windows n end d ss in (((s.0, omega arith), w), (s.1, r))

  module _ (m : Message A) (q : MessageQueue A) (v : IsValid q) where
    fresh : (k : ℕ) (o : Message A) → lookup k q.messages ≡ some o → k ≢ incr q.last_written
    fresh k o e same =
        let (w, near) = All-lookup _ q.messages k v.window e in
        let (wl, _) = v.indexed in absurd (omega arith)

    with_message-stored :
        (above : slt q.last_seq_no m.seq_no ≡ true) (k : ℕ) (o : Message A)
        → lookup k (with_message m q).messages ≡ some o
        → lookup o.seq_no (with_message m q).order_of ≡ some k
    with_message-stored above k o e = ground (
      arith,
      lookup-insert (incr q.last_written) k m q.messages,
      lookup-insert m.seq_no o.seq_no (incr q.last_written) q.order_of,
      v.stored k o,
      v.bounded o.seq_no k,
    )

    with_message-ordered :
        (s k : ℕ)
        → lookup s (with_message m q).order_of ≡ some k
        → (o : Message A) × (lookup k (with_message m q).messages ≡ some o) × (o.seq_no ≡ s)
    with_message-ordered s k e = elim (Bool-cases (m.seq_no == s)) [
      | inl same ↦ (
        m,
        ground (
          arith,
          lookup-insert m.seq_no s (incr q.last_written) q.order_of,
          lookup-insert_self k m q.messages,
        ),
        (==_iff _ _).0 same,
      )
      | inr other ↦
          let (o, there, number) =
            v.ordered s k
              (ground (arith, lookup-insert m.seq_no s (incr q.last_written) q.order_of)) in
          (
            o,
            ground (arith, lookup-insert (incr q.last_written) k m q.messages, fresh k o there),
            number,
          )
    ]

    with_message-bounded :
        (above : slt q.last_seq_no m.seq_no ≡ true) (s k : ℕ)
        → lookup s (with_message m q).order_of ≡ some k
        → sle s (with_message m q).last_seq_no ≡ true
    with_message-bounded above s k e =
        ground (arith, lookup-insert m.seq_no s (incr q.last_written) q.order_of, v.bounded s k)

  -- One message more keeps the invariant, if its number is above the last one.
  with_message-IsValid :
      (n : ℕ) (m : Message A) (q : MessageQueue A)
      → IsValid q
      → Room (suc n) q
      → slt q.last_seq_no m.seq_no ≡ true
      → IsValid (with_message m q) × Room n (with_message m q)
  with_message-IsValid n m q v (b, room) above =
      let (wl, ws) = v.indexed in
      let end = q.last_written in
      let all =
        insert-All (Step n (incr end)) (incr end) m q.messages
          (steps-incr n end q.messages wl (steps (suc n) end q.messages v.window room))
          (omega arith, omega arith) in
      let (windows, rooms) = Step-windows n (incr end) (insert (incr end) m q.messages) all in
      (
        record {
          indexed = (omega arith, ws);
          window = windows;
          stored = with_message-stored m q v above;
          ordered = with_message-ordered m q v;
          bounded = with_message-bounded m q v above;
        },
        (omega arith, rooms),
      )

  no_small_index :
      (end : ℕ) (d : Dict (Message A))
      → IsWord end
      → incr end ≡ sign_bit
      → All (InWindow end) d
      → has_small_index d ≡ false
  unfolding has_small_index
  no_small_index end [] w e h = refl
  no_small_index end ((k, m) ∷ d) w e ((wk, near), h) = ground (arith, no_small_index end d w e h)

  not_contained :
      (k : ℕ) (d : Dict (Message A))
      → ((m : Message A) → lookup k d ≢ some m)
      → contains k d ≡ false
  not_contained k d h = elim (Option-cases (lookup k d)) [
    | inl e ↦ rw (contains, e)
    | inr (m, e) ↦ absurd (h m e)
  ]

  -- In a valid queue neither check of `addMessageNeedLock` panics.
  add_message-succeeds :
      (m : Message A) (q : MessageQueue A)
      → IsValid q
      → add_message m q ≡ (ok (incr q.last_written), with_message m q)
  unfolding add_message
  add_message-succeeds m q v = ground (
    arith,
    not_contained (incr q.last_written) q.messages
        (λ o e. fresh m q v (incr q.last_written) o e refl),
    λ (e : incr q.last_written ≡ sign_bit).
        no_small_index q.last_written q.messages v.indexed.0 e v.window,
  )

  add_all-cons :
      (m : Message A) (ms : List (Message A)) (q : MessageQueue A)
      → IsValid q
      → add_all (m ∷ ms) q ≡ note_index (incr q.last_written) (add_all ms (with_message m q))
  unfolding add_all
  add_all-cons m ms q v = rw (add_message-succeeds m q v)

  note_index-of_ok :
      (i : ℕ) (r : Returns A (List ℕ)) {js : List ℕ}
      → r.0 ≡ ok js
      → ((note_index i r).0 ≡ ok (i ∷ js)) × ((note_index i r).1 ≡ r.1)
  note_index-of_ok i (ok is, q) h = (ground arith, refl)
  note_index-of_ok i (err e, q) h = cc
  note_index-of_ok i (panic, q) h = cc

  check-cons :
      (m : Message A) (ms : List (Message A)) (last : ℕ)
      → check_new_messages last (m ∷ ms) ≡ true
      → (slt last m.seq_no ≡ true) × (check_new_messages m.seq_no ms ≡ true)
  unfolding check_new_messages
  check-cons m ms last h = ground arith

  add_all-succeeds :
      (ms : List (Message A)) (q : MessageQueue A)
      → IsValid q
      → Room (length ms) q
      → check_new_messages q.last_seq_no ms ≡ true
      → (is : List ℕ) × ((add_all ms q).0 ≡ ok is)
        × (length is ≡ length ms)
        × IsValid (add_all ms q).1
  add_all-succeeds [] q v r c = unfold add_all in ([], refl, refl, v)
  add_all-succeeds (m ∷ ms) q v r c =
      let (above, rest) = check-cons m ms q.last_seq_no c in
      let (v', r') = with_message-IsValid (length ms) m q v r above in
      let (is, e, k, v'') = add_all-succeeds ms (with_message m q) v' r' rest in
      let (e', same) = note_index-of_ok (incr q.last_written) (add_all ms (with_message m q)) e in
      (
        incr q.last_written ∷ is,
        ap (λ x. x.0) (add_all-cons m ms q v) ∙ e',
        ap suc k,
        subst IsValid (sym (ap (λ x. x.1) (add_all-cons m ms q v) ∙ same)) v'',
      )

  -- The numbers of the messages grow, from a number on.
  abbrev Ascends : ℕ → List (Message A) → Type 0
  Ascends last [] = Unit
  Ascends last (m ∷ ms) = (slt last m.seq_no ≡ true) × Ascends m.seq_no ms

  check-Ascends :
      (last : ℕ) (ms : List (Message A)) → (check_new_messages last ms ≡ true) ↔ Ascends last ms
  unfolding check_new_messages
  check-Ascends last [] = ((λ h. tt), (λ h. refl))
  check-Ascends last (m ∷ ms) = (
    (λ h.
        let (above, rest) = check-cons m ms last h in (above, (check-Ascends m.seq_no ms).0 rest)),
    (λ h. ground (arith, (check-Ascends m.seq_no ms).1 h.1)),
  )

  notified-of_ok :
      (r : Returns A (List ℕ)) {is : List ℕ}
      → r.0 ≡ ok is
      → ((notified r).0 ≡ ok is) × ((notified r).1 ≡ notify r.1)
  notified-of_ok (ok js, q) h = (h, refl)
  notified-of_ok (err e, q) h = cc
  notified-of_ok (panic, q) h = cc

  add_messages-accepted :
      (ms : List (Message A)) (q : MessageQueue A)
      → q.closed ≡ false
      → check_new_messages q.last_seq_no ms ≡ true
      → add_messages ms q ≡ notified (add_all ms q)
  unfolding add_messages
  add_messages-accepted ms q c h = ground arith

  notify-IsValid : {q : MessageQueue A} → IsValid q → IsValid (notify q)
  notify-IsValid v = record {
    indexed = v.indexed;
    window = v.window;
    stored = v.stored;
    ordered = v.ordered;
    bounded = v.bounded;
  }

  -- An open queue that is valid, and has room, takes messages whose numbers grow from its last number
  -- on: it does not panic, gives an index for each message, and stays valid.
  pub add_messages-succeeds :
      (ms : List (Message A)) (q : MessageQueue A)
      → IsValid q
      → Room (length ms) q
      → q.closed ≡ false
      → Ascends q.last_seq_no ms
      → (is : List ℕ) × ((add_messages ms q).0 ≡ ok is)
        × (length is ≡ length ms)
        × IsValid (add_messages ms q).1
  add_messages-succeeds ms q v r c h =
      let (is, e, k, v') = add_all-succeeds ms q v r ((check-Ascends q.last_seq_no ms).1 h) in
      let accepted = add_messages-accepted ms q c ((check-Ascends q.last_seq_no ms).1 h) in
      let (e', same) = notified-of_ok (add_all ms q) e in
      (
        is,
        ap (λ x. x.0) accepted ∙ e',
        k,
        subst IsValid (sym (ap (λ x. x.1) accepted ∙ same)) (notify-IsValid v'),
      )

  -- An open queue refuses messages whose numbers do not grow, and stays as it was.
  add_messages-refuses :
      (ms : List (Message A)) (q : MessageQueue A)
      → q.closed ≡ false
      → ¬ Ascends q.last_seq_no ms
      → add_messages ms q ≡ (err unordered_messages, q)
  unfolding add_messages
  add_messages-refuses ms q c h = elim (Bool-cases (check_new_messages q.last_seq_no ms)) [
    | inl ascends ↦ absurd (h ((check-Ascends q.last_seq_no ms).0 ascends))
    | inr bad ↦ ground arith
  ]
