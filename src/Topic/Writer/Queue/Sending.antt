-- ===== src/Topic/Writer/Queue/Sending.antt =====
-- What `getMessagesForSendWithLock` hands out, as a walk over the indexes.
use mathlib.Core.Path.{ap₂}
use ydb_go_sdk.Base.{
  List, Option, [], ap, append-nil, append_assoc, arith, err, false, inr, length, none, ok, panic,
  refl, some, suc, sym, true, zero, ℕ, ◌%◌, ◌++◌, ◌+◌, ◌<◌, ◌∙◌, ◌∷◌, ◌≡◌, ◌⊎◌,
}
use ydb_go_sdk.Base.Word.{IsWord, incr, modulus}
use ydb_go_sdk.Base.Dict.{Dict, insert, lookup, lookup-insert}
use ydb_go_sdk.Topic.Writer.Queue.{
  Message, MessageQueue, Returns, add_all, add_message, add_messages, and_then, check_new_messages,
  distance, get_messages, note_index, notified, notify, push_found, send_loop,
}

next_place : (n sent : ℕ) → (incr sent + n) % modulus ≡ (sent + suc n) % modulus
next_place n sent = omega arith

module _ {A : Type 0} where
  -- The messages stored at the `n` indexes after `sent`, in their order.
  unfoldable pub collect : ℕ → ℕ → Dict (Message A) → List (Message A)
  collect zero sent d = []
  collect (suc n) sent d = push_found (lookup (incr sent) d) (collect n (incr sent) d)

  -- With fuel for the steps between, the loop finds what is stored there, and stops at `written`.
  send_loop-collect :
      (n written sent : ℕ) (d : Dict (Message A))
      → IsWord written
      → IsWord sent
      → distance sent written ≡ n
      → send_loop (suc n) written sent d ≡ some (collect n sent d, written)
  unfolding send_loop collect
  send_loop-collect zero written sent d w s e = ground arith
  send_loop-collect (suc n) written sent d w s e =
      rw (send_loop-collect n written (incr sent) d w (omega arith) (omega arith)) (ground arith)

  push_found-append :
      (o : Option (Message A)) (xs ys : List (Message A))
      → push_found o (xs ++ ys) ≡ push_found o xs ++ ys
  push_found-append none xs ys = refl
  push_found-append (some m) xs ys = refl

  -- The last index, looked up alone.
  collect-last :
      (n sent : ℕ) (d : Dict (Message A))
      → collect (suc n) sent d
        ≡ collect n sent d ++ push_found (lookup ((sent + suc n) % modulus) d) []
  unfolding collect
  collect-last zero sent d = refl
  collect-last (suc n) sent d =
      rw (collect-last n (incr sent) d, next_place (suc n) sent)
        (push_found-append (lookup (incr sent) d) (collect n (incr sent) d) _)

  -- A message stored outside the walk is not seen.
  collect-insert :
      (n sent k : ℕ) (m : Message A) (d : Dict (Message A))
      → IsWord k
      → IsWord sent
      → n < modulus
      → (distance sent k ≡ 0) ⊎ (n < distance sent k)
      → collect n sent (insert k m d) ≡ collect n sent d
  unfolding collect
  collect-insert zero sent k m d wk ws b h = refl
  collect-insert (suc n) sent k m d wk ws b h = ground (
    arith,
    lookup-insert k (incr sent) m d,
    collect-insert n (incr sent) k m d wk (omega arith) (omega arith) (inr (omega arith)),
  )

  pub lookup-insert_self :
      (k : ℕ) (m : Message A) (d : Dict (Message A)) → lookup k (insert k m d) ≡ some m
  lookup-insert_self k m d = ground (arith, lookup-insert k k m d)

  -- A message stored just behind the walk makes it longer by one.
  collect-insert_last :
      (n sent k : ℕ) (m : Message A) (d : Dict (Message A))
      → IsWord k
      → IsWord sent
      → distance sent k ≡ suc n
      → collect (suc n) sent (insert k m d) ≡ collect n sent d ++ m ∷ []
  collect-insert_last n sent k m d wk ws e =
      let place : (sent + suc n) % modulus ≡ k = omega arith in
      collect-last n sent (insert k m d)
      ∙ ap₂ (λ xs o. xs ++ push_found o [])
          (collect-insert n sent k m d wk ws (omega arith) (inr (omega arith)))
          (ap (λ j. lookup j (insert k m d)) place ∙ lookup-insert_self k m d)

  -- The indexes are 64-bit patterns.
  abbrev pub Indexed : MessageQueue A → Type 0
  Indexed q = IsWord q.last_written × IsWord q.last_sent

  -- How many indexes wait to be sent.
  abbrev backlog : MessageQueue A → ℕ
  backlog q = distance q.last_sent q.last_written

  -- What the next call hands out.
  unfoldable pub unsent : MessageQueue A → List (Message A)
  unsent q = collect (backlog q) q.last_sent q.messages

  -- The loop of `getMessagesForSendWithLock` always ends, and hands out the messages that are stored
  -- at the indexes after the last one sent, in their order; nothing else of the queue changes.
  pub get_messages_total :
      (q : MessageQueue A)
      → Indexed q
      → get_messages q ≡ some (unsent q, record q { last_sent = q.last_written })
  unfolding get_messages unsent
  get_messages_total q (w, s) =
      rw (send_loop-collect (backlog q) q.last_written q.last_sent q.messages w s refl)

  -- The queue with one message more.
  abbrev pub with_message : Message A → MessageQueue A → MessageQueue A
  with_message m q = record q {
    last_written = incr q.last_written;
    messages = insert (incr q.last_written) m q.messages;
    order_of = insert m.seq_no (incr q.last_written) q.order_of;
    last_seq_no = m.seq_no;
  }

  add_message-ok :
      (m : Message A) (q : MessageQueue A) {i : ℕ}
      → (add_message m q).0 ≡ ok i
      → add_message m q ≡ (ok (incr q.last_written), with_message m q)
  unfolding add_message
  add_message-ok m q h = ground arith

  with_message-unsent :
      (m : Message A) (q : MessageQueue A)
      → Indexed q
      → backlog q + 1 < modulus
      → Indexed (with_message m q)
        × (backlog (with_message m q) ≡ suc (backlog q))
        × (unsent (with_message m q) ≡ unsent q ++ m ∷ [])
  unfolding unsent
  with_message-unsent m q (w, s) room = (
    (omega arith, s),
    more,
    ap (λ n. collect n q.last_sent (with_message m q).messages) more
        ∙ collect-insert_last (backlog q) q.last_sent (incr q.last_written) m q.messages
            (omega arith) s (omega arith),
  )
    where
      more : backlog (with_message m q) ≡ suc (backlog q)
      more = omega arith

  note_index-ok :
      (i : ℕ) (r : Returns A (List ℕ)) {is : List ℕ}
      → (note_index i r).0 ≡ ok is
      → (js : List ℕ) × (r.0 ≡ ok js) × ((note_index i r).1 ≡ r.1)
  note_index-ok i (ok js, q) h = (js, refl, refl)
  note_index-ok i (err e, q) h = cc
  note_index-ok i (panic, q) h = cc

  -- A loop of `addMessages` that succeeds has added its first message, and succeeds on the rest.
  add_all-ok :
      (m : Message A) (ms : List (Message A)) (q : MessageQueue A) {is : List ℕ}
      → (add_all (m ∷ ms) q).0 ≡ ok is
      → (js : List ℕ) × ((add_all ms (with_message m q)).0 ≡ ok js)
        × ((add_all (m ∷ ms) q).1 ≡ (add_all ms (with_message m q)).1)
  unfolding add_all
  add_all-ok m ms q h = go (add_message m q) (λ i. add_message-ok m q {i = i}) h
    where
      go :
          (r : Returns A ℕ)
          → ((i : ℕ) → r.0 ≡ ok i → r ≡ (ok (incr q.last_written), with_message m q))
          → {is : List ℕ} → (and_then (add_all ms) r).0 ≡ ok is
          → (js : List ℕ) × ((add_all ms (with_message m q)).0 ≡ ok js)
            × ((and_then (add_all ms) r).1 ≡ (add_all ms (with_message m q)).1)
      go (ok i, q') e h' =
          let same : q' ≡ with_message m q = ap {A = Returns A ℕ} (λ r. r.1) (e i refl) in
          rw (← same) (note_index-ok i (add_all ms q') h')
      go (err e', q') e h' = cc
      go (panic, q') e h' = cc

  add_all-unsent :
      (ms : List (Message A)) (q : MessageQueue A) {is : List ℕ}
      → Indexed q
      → backlog q + length ms < modulus
      → (add_all ms q).0 ≡ ok is
      → let q' = (add_all ms q).1 in Indexed q' × (unsent q' ≡ unsent q ++ ms)
  add_all-unsent [] q x room h = unfold add_all in (x, sym (append-nil (unsent q)))
  add_all-unsent (m ∷ ms) q x room h =
      let (js, e, same) = add_all-ok m ms q h in
      let (x', more, one) = with_message-unsent m q x (omega arith) in
      let (x'', all) = add_all-unsent ms (with_message m q) x' (omega arith) e in
      rw same (x'', all ∙ ap (λ us. us ++ ms) one ∙ append_assoc (unsent q) (m ∷ []) ms)

  notified-ok :
      (r : Returns A (List ℕ)) (is : List ℕ)
      → (notified r).0 ≡ ok is
      → (r.0 ≡ ok is) × ((notified r).1 ≡ notify r.1)
  notified-ok (ok js, q) is h = (h, refl)
  notified-ok (err e, q) is h = cc
  notified-ok (panic, q) is h = cc

  unsent-notify : (q : MessageQueue A) → unsent (notify q) ≡ unsent q
  unfolding unsent
  unsent-notify q = refl

  add_messages-ok :
      (ms : List (Message A)) (q : MessageQueue A) {is : List ℕ}
      → (add_messages ms q).0 ≡ ok is
      → ((add_all ms q).0 ≡ ok is)
        × ((add_messages ms q).1 ≡ notify (add_all ms q).1)
        × (check_new_messages q.last_seq_no ms ≡ true)
        × (q.closed ≡ false)
  unfolding add_messages
  add_messages-ok ms q {is} h = ground (arith, notified-ok (add_all ms q) is)

  -- What is added is sent after all that waits to be sent, in the order given: after a call of
  -- `addMessages` that succeeds, with fewer than 2 ^ 64 indexes waiting, the next call of
  -- `getMessagesForSendWithLock` hands out what it would have handed out before, then the new messages.
  pub add_messages-get :
      (ms : List (Message A)) (q : MessageQueue A) {is : List ℕ}
      → Indexed q
      → backlog q + length ms < modulus
      → (add_messages ms q).0 ≡ ok is
      → (old : List (Message A)) × (before after : MessageQueue A) × (get_messages q
          ≡ some (old, before))
        × (get_messages (add_messages ms q).1 ≡ some (old ++ ms, after))
  add_messages-get ms q x room h =
      let (e, same, _, _) = add_messages-ok ms q h in
      let (x', all) = add_all-unsent ms q x room e in
      let sent : MessageQueue A = record (notify (add_all ms q).1) {
        last_sent = (add_all ms q).1.last_written;
      } in
      (
        unsent q,
        record q { last_sent = q.last_written },
        sent,
        get_messages_total q x,
        rw same (
            get_messages_total (notify (add_all ms q).1) x'
            ∙ ap (λ us. some (us, sent)) (unsent-notify (add_all ms q).1 ∙ all)),
      )
