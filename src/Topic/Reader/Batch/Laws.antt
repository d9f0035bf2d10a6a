-- ===== src/Topic/Reader/Batch/Laws.antt =====
-- A batch is a chain of messages: each range begins where the one before it ends.

use ydb_go_sdk.Base.{
  List, Option, [], ap, arith, drop, length, length-append, length-drop, length-take, none, ok,
  refl, some, suc, take, take-append-drop, zero, ℕ, ◌++◌, ◌<◌, ◌∙◌, ◌∷◌, ◌≡◌,
}
use ydb_go_sdk.Base.Word.{incr}
use ydb_go_sdk.Topic.Reader.CommitRange.{SessionRef, same_session_iff}
use ydb_go_sdk.Topic.Reader.Batch.{
  Batch, RawMessage, ReaderMessage, adopt, append_batch, check_messages, cut_messages, from_stream,
  last_offset, last_or, new_batch, new_batch_from_stream,
}

-- The previous end, if there is one, is where the chain begins.
abbrev Follows : Option ℕ → ℕ → Type 0
Follows none a = Unit
Follows (some e) a = e ≡ a

module _ {A : Type 0} where
  -- The messages belong to the session and cover the offsets from `start` to `end` without a gap.
  abbrev pub Chain : Option SessionRef → ℕ → List (ReaderMessage A) → ℕ → Type 0
  Chain s start [] end = start ≡ end
  Chain s start (m ∷ ms) end =
      (m.range.session ≡ s) × (m.range.start ≡ start) × Chain s m.range.end ms end

  abbrev pub IsBatch : Batch A → Type 0
  IsBatch b = Chain b.range.session b.range.start b.messages b.range.end

  Chain-append :
      (s : Option SessionRef) (a : ℕ) (xs : List (ReaderMessage A)) (b : ℕ)
      (ys : List (ReaderMessage A)) (c : ℕ)
      → Chain s a xs b
      → Chain s b ys c
      → Chain s a (xs ++ ys) c
  Chain-append s a [] b ys c h k = rw h k
  Chain-append s a (x ∷ xs) b ys c (p, q, h) k = (p, q, Chain-append s x.range.end xs b ys c h k)

  Chain-split :
      (n : ℕ) (s : Option SessionRef) (a : ℕ) (ms : List (ReaderMessage A)) (c : ℕ)
      → Chain s a ms c
      → (b : ℕ) × Chain s a (take n ms) b × Chain s b (drop n ms) c
  Chain-split zero s a ms c h = (a, refl, h)
  Chain-split (suc n) s a [] c h = (c, h, refl)
  Chain-split (suc n) s a (m ∷ ms) c (p, q, h) =
      let (b, x, y) = Chain-split n s m.range.end ms c h in (b, (p, q, x), y)

  adopt-id : (s : Option SessionRef) (m : ReaderMessage A) → m.range.session ≡ s → adopt s m ≡ m
  adopt-id s m h = ground arith

  check-Chain :
      (s : Option SessionRef) (a : ℕ) (ms : List (ReaderMessage A)) (c : ℕ) (previous : Option ℕ)
      → Chain s a ms c
      → Follows previous a
      → check_messages s previous ms ≡ ok ms
  unfolding check_messages
  check-Chain s a [] c previous h f = refl
  check-Chain s a (m ∷ ms) c none (p, q, h) f = ground (
    arith,
    adopt-id s m p,
    same_session_iff s m.range.session,
    check-Chain s m.range.end ms c (some m.range.end) h refl,
  )
  check-Chain s a (m ∷ ms) c (some e) (p, q, h) f = ground (
    arith,
    adopt-id s m p,
    same_session_iff s m.range.session,
    check-Chain s m.range.end ms c (some m.range.end) h refl,
  )

  Chain-last :
      (s : Option SessionRef) (m : ReaderMessage A) (ms : List (ReaderMessage A)) (c : ℕ)
      → Chain s m.range.end ms c
      → (last_or m ms).range.end ≡ c
  Chain-last s m [] c h = h
  Chain-last s m (x ∷ ms) c (p, q, h) = Chain-last s x ms c h

  -- The batch of a chain.
  abbrev batch_of : Option SessionRef → ℕ → List (ReaderMessage A) → ℕ → Batch A
  batch_of s a ms c = record { messages = ms; range = record { start = a; end = c; session = s } }

  new_batch-Chain :
      (s : Option SessionRef) (a : ℕ) (ms : List (ReaderMessage A)) (c : ℕ)
      → Chain s a ms c
      → 0 < length ms
      → new_batch s ms ≡ ok (batch_of s a ms c)
  unfolding new_batch
  new_batch-Chain s a [] c h pos = absurd (omega arith)
  new_batch-Chain s a (m ∷ ms) c h pos =
      rw (check-Chain s a (m ∷ ms) c none h tt) (ground (arith, Chain-last s m ms c h.2))

  append-batch_of :
      (s : Option SessionRef) (a : ℕ) (xs : List (ReaderMessage A)) (b : ℕ)
      (ys : List (ReaderMessage A)) (c : ℕ)
      → append_batch (some (batch_of s a xs b)) (batch_of s b ys c) ≡ ok (batch_of s a (xs ++ ys) c)
  unfolding append_batch
  append-batch_of s a xs b ys c = ground (arith, same_session_iff s s)

  -- The messages of `newBatchFromStream` are a chain from the offset behind the last received one.
  from_stream-Chain :
      (s : Option SessionRef) (received : ℕ) (raw : List (RawMessage A))
      → Chain s (incr received) (from_stream s received raw) (incr (last_offset received raw))
  unfolding from_stream last_offset
  from_stream-Chain s received [] = refl
  from_stream-Chain s received (r ∷ rs) = (refl, refl, from_stream-Chain s r.offset rs)

  length-from_stream :
      (s : Option SessionRef) (received : ℕ) (raw : List (RawMessage A))
      → length (from_stream s received raw) ≡ length raw
  unfolding from_stream
  length-from_stream s received [] = refl
  length-from_stream s received (r ∷ rs) = ap suc (length-from_stream s r.offset rs)

  -- The batch of messages from the stream.
  abbrev stream_batch : SessionRef → ℕ → List (RawMessage A) → Batch A
  stream_batch s received raw =
      batch_of (some s) (incr received) (from_stream (some s) received raw)
        (incr (last_offset received raw))

  new_batch_from_stream-eq :
      (s : SessionRef) (received : ℕ) (raw : List (RawMessage A))
      → 0 < length raw
      → new_batch_from_stream s received raw
        ≡ (ok (stream_batch s received raw), last_offset received raw)
  unfolding new_batch_from_stream
  new_batch_from_stream-eq s received raw pos =
      ap (λ x. (x, last_offset received raw))
        (new_batch-Chain (some s) _ (from_stream (some s) received raw) _
          (from_stream-Chain (some s) received raw)
          (rw (length-from_stream (some s) received raw) pos))

  -- `newBatch` never refuses messages from the stream. They make a batch of as many messages, which
  -- covers the offsets behind the last received one up to its last message.
  new_batch_from_stream-ok :
      (s : SessionRef) (received : ℕ) (raw : List (RawMessage A))
      → 0 < length raw
      → (b : Batch A) × (new_batch_from_stream s received raw ≡ (ok b, last_offset received raw))
        × IsBatch b
        × (b.range ≡ record {
          start = incr received;
          end = incr (last_offset received raw);
          session = some s;
        })
        × (length b.messages ≡ length raw)
  new_batch_from_stream-ok s received raw pos = (
    stream_batch s received raw,
    new_batch_from_stream-eq s received raw pos,
    from_stream-Chain (some s) received raw,
    refl,
    length-from_stream (some s) received raw,
  )

  from_stream-append :
      (s : Option SessionRef) (received : ℕ) (xs ys : List (RawMessage A))
      → (from_stream s received (xs ++ ys)
          ≡ from_stream s received xs ++ from_stream s (last_offset received xs) ys)
        × (last_offset received (xs ++ ys) ≡ last_offset (last_offset received xs) ys)
  unfolding from_stream last_offset
  from_stream-append s received [] ys = (refl, refl)
  from_stream-append s received (x ∷ xs) ys =
      let (p, q) = from_stream-append s x.offset xs ys in (rw p, q)

  -- Two batches that the stream gives one after the other always merge, into the batch that their
  -- messages would have made together.
  append-from_stream :
      (s : SessionRef) (received : ℕ) (xs ys : List (RawMessage A))
      → 0 < length xs
      → 0 < length ys
      → let (first, received') = new_batch_from_stream s received xs in
        let (second, _) = new_batch_from_stream s received' ys in
        (b c : Batch A) × (first ≡ ok b)
        × (second ≡ ok c)
        × (append_batch (some b) c ≡ (new_batch_from_stream s received (xs ++ ys)).0)
  append-from_stream s received xs ys px py =
      let (p, q) = from_stream-append (some s) received xs ys in
      rw
        (
          new_batch_from_stream-eq s received xs px,
          new_batch_from_stream-eq s (last_offset received xs) ys py,
          new_batch_from_stream-eq s received (xs ++ ys) (omega (arith, length-append xs ys)),
        )
        (
          stream_batch s received xs,
          stream_batch s (last_offset received xs) ys,
          refl,
          refl,
          rw (p, q)
              (append-batch_of (some s) _ (from_stream (some s) received xs) _
                (from_stream (some s) (last_offset received xs) ys) _),
        )

  append-ok :
      (b c d : Batch A)
      → append_batch (some b) c ≡ ok d
      → (b.range.session ≡ c.range.session)
        × (b.range.end ≡ c.range.start)
        × (d ≡ batch_of b.range.session b.range.start (b.messages ++ c.messages) c.range.end)
  unfolding append_batch
  append-ok b c d e = ground (arith, same_session_iff b.range.session c.range.session)

  -- Merging two batches keeps the chain, and all messages in their order.
  pub append-IsBatch :
      (b c d : Batch A)
      → IsBatch b
      → IsBatch c
      → append_batch (some b) c ≡ ok d
      → IsBatch d × (d.messages ≡ b.messages ++ c.messages)
  append-IsBatch b c d hb hc e =
      let (same, meet, eq) = append-ok b c d e in
      rw eq (
        Chain-append b.range.session b.range.start b.messages b.range.end c.messages c.range.end hb
            (rw (same, meet) hc),
        refl,
      )

  -- A cut inside a batch gives two batches that are chains; the first has the number of messages asked
  -- for, and merging the two gives the batch back.
  pub cut-append :
      (n : ℕ) (b : Batch A)
      → IsBatch b
      → 0 < n
      → n < length b.messages
      → (head rest : Batch A) × (cut_messages n b ≡ (some head, some rest))
        × IsBatch head
        × IsBatch rest
        × (length head.messages ≡ n)
        × (append_batch (some head) rest ≡ ok b)
  unfolding cut_messages
  cut-append n b h lo hi =
      let s = b.range.session in
      let a = b.range.start in
      let c = b.range.end in
      let (k, front, back) = Chain-split n s a b.messages c h in
      let short : length (take n b.messages) ≡ n = omega (arith, length-take n b.messages) in
      let long : 0 < length (drop n b.messages) = omega (arith, length-drop n b.messages) in
      (
        batch_of s a (take n b.messages) k,
        batch_of s k (drop n b.messages) c,
        ground (
          arith,
          new_batch-Chain s a (take n b.messages) k front (omega arith),
          new_batch-Chain s k (drop n b.messages) c back long,
        ),
        front,
        back,
        short,
        append-batch_of s a (take n b.messages) k (drop n b.messages) c
            ∙ ap (λ ms. ok (batch_of s a ms c)) (take-append-drop n b.messages),
      )
