-- ===== src/Topic/Reader/Committer/Closing.antt =====
-- The end of the loop behind `Close`.
use mathlib.Core.Bool.{true≢false}
use mathlib.Core.Option.{some-injective, none-ne-some}
use mathlib.Core.List.{Permᴰ, append_assoc, append-nil}
use ydb_go_sdk.Base.{
  All, All-of-append, Bool, List, [], ap, false, inl, inr, length, none, refl, some, sym, true, ℕ,
  ◌++◌, ◌∙◌, ◌∷◌, ◌≡◌, ◌⊎◌, Option, Option-cases, Bool-cases,
}
use ydb_go_sdk.Topic.Reader.CommitRange.{CommitRange}
use ydb_go_sdk.Topic.Reader.Committer.{
  Trigger, at_count, at_lag, at_start, listens, loop_done, take_commits, trigger_step, triggered,
  Committer, Event, lag_finished, loop_signal,
}
use ydb_go_sdk.Topic.Reader.Committer.Loop.{
  LoopReach, LoopRun, LoopState, Step, after_send, appends, begins, closes, goes_on, holds,
  is_of_loop, leaves, notifies, receive, refuses, returned, selects, sends, signals, stops, takes,
  turns, waits,
}
use ydb_go_sdk.Topic.Reader.Committer.Sending.{held, after_send-commits, receive-commits}
use ydb_go_sdk.Topic.Reader.CommitRanges.{PartitionOffsets}
use ydb_go_sdk.Topic.Reader.CommitRanges.Cover.{
  IsWritten, to_partitions_offsets-covered, optimize-covered,
}

-- Where the loop waits, the context ends the wait, unless it is over.
triggered_at :
    (lag count n : ℕ) (t : Trigger)
    → (t ≡ triggered)
      ⊎ ((listens t loop_done ≡ true) × (trigger_step lag count n t loop_done ≡ triggered))
unfolding listens trigger_step
triggered_at lag count n at_start = inr (refl, refl)
triggered_at lag count n at_lag = inr (refl, refl)
triggered_at lag count n at_count = inr (refl, refl)
triggered_at lag count n triggered = inl refl

-- The loop is not between a look at an empty buffer and its next turn.
abbrev pub comes_back : LoopState → Bool
comes_back (waits t) = true
comes_back (holds []) = false
comes_back (holds (r ∷ rs)) = true
comes_back returned = false

receive-closed :
    {E : Type 0} (e : Event) (c d : Committer E) → receive e c ≡ some d → d.closed ≡ c.closed
unfolding receive
receive-closed loop_done c d h = elim (Option-cases c.closed) [ inl n ↦ cc | inr (x, n) ↦ cc ]
receive-closed loop_signal c d h = elim (Bool-cases c.signal) [
  | inl y ↦ sym (ap (λ z. z.closed) (some-injective _ _ (rw y at h)))
  | inr y ↦ cc
]
receive-closed lag_finished c d h = sym (ap (λ z. z.closed) (some-injective _ _ h))

-- A closed committer stays closed.
after_send-closed :
    {E : Type 0} (o : Option E) (c : Committer E) (e : E)
    → c.closed ≡ some e
    → (x : E) × ((after_send o c).closed ≡ some x)
after_send-closed none c e h = (e, h)
after_send-closed (some x) c e h = (e, rw h refl)

module _ {E : Type 0} (lag count : ℕ) (sort : List CommitRange → List CommitRange) where
  LoopReach-append :
      {s t u : LoopRun E}
      → LoopReach lag count sort s t
      → LoopReach lag count sort t u
      → LoopReach lag count sort s u
  LoopReach-append a begins = a
  LoopReach-append a (turns b st own) = turns (LoopReach-append a b) st own

  -- All that was sent, is held and is in the buffer.
  all_of : LoopRun E → List CommitRange
  all_of s = s.taken ++ (held s.loop ++ s.committer.commits)

  -- The loop returns, with all that it held and that was in the buffer sent.
  Ends : LoopRun E → Type 0
  Ends s =
      (u : LoopRun E) × LoopReach lag count sort s u
      × (u.loop ≡ returned)
      × (u.committer.commits ≡ [])
      × (u.taken ≡ s.taken ++ (held s.loop ++ s.committer.commits))

  Ends-Reach :
      {s t : LoopRun E}
      → LoopReach lag count sort s t
      → t.taken ++ (held t.loop ++ t.committer.commits)
        ≡ s.taken ++ (held s.loop ++ s.committer.commits)
      → Ends t
      → Ends s
  unfolding Ends
  Ends-Reach a e (u, b, l, n, h) = (u, LoopReach-append a b, l, n, h ∙ e)

  -- With nothing left to take.
  empty-Ends :
      (s : LoopRun E) (e : E)
      → s.loop ≡ holds []
      → s.committer.closed ≡ some e
      → s.committer.commits ≡ []
      → Ends s
  unfolding Ends
  empty-Ends s e l c n = (
    record s { loop = returned },
    turns begins (stops e l c) refl,
    refl,
    n,
    rw (l, n) (sym (append-nil s.taken)),
  )

  takes-Reach :
      (s : LoopRun E) (t : Trigger) (e : E)
      → s.loop ≡ waits t
      → s.committer.closed ≡ some e
      → LoopReach lag count sort s (record s {
        committer = record s.committer { commits = [] };
        loop = holds s.committer.commits;
      })
  unfolding take_commits receive
  takes-Reach s t e l c = elim (triggered_at lag count (length s.committer.commits) t) [
    | inl r ↦ turns begins (takes (l ∙ ap waits r)) refl
    | inr (h, r) ↦
        let ready : receive loop_done s.committer ≡ some s.committer = rw c refl in
        turns (turns begins (selects t loop_done l h ready) refl) (takes (ap waits r)) refl
  ]

  module _ (perm : (cs : List CommitRange) → Permᴰ (sort cs) cs) where
    sends-Reach :
        (s : LoopRun E) (r : CommitRange) (rs : List CommitRange)
        → s.loop ≡ holds (r ∷ rs)
        → All IsWritten (r ∷ rs)
        → (ps : List PartitionOffsets) × LoopReach lag count sort s
            (record s { loop = waits at_start; taken = s.taken ++ r ∷ rs; sent = s.sent ++ ps })
    sends-Reach s r rs l w =
        let (os, d, w', _) = optimize-covered sort (r ∷ rs) (perm (r ∷ rs)) w in
        let (ps, e, _) = to_partitions_offsets-covered sort os (perm os) w' in
        (ps, turns begins (sends r rs none l d e) refl)

    -- With nothing behind what the loop holds.
    last-Ends :
        (s : LoopRun E) (cs : List CommitRange) (e : E)
        → s.loop ≡ holds cs
        → s.committer.closed ≡ some e
        → s.committer.commits ≡ []
        → All IsWritten cs
        → Ends s
    last-Ends s [] e l c n w = empty-Ends s e l c n
    last-Ends s (r ∷ rs) e l c n w =
        let (ps, reach) = sends-Reach s r rs l w in
        let t : LoopRun E = record s {
          loop = waits at_start;
          taken = s.taken ++ r ∷ rs;
          sent = s.sent ++ ps;
        } in
        let u : LoopRun E = record t {
          committer = record s.committer { commits = [] };
          loop = holds s.committer.commits;
        } in
        Ends-Reach (LoopReach-append reach (takes-Reach t at_start e refl c))
          (rw (l, n)
            (ap (λ x. (s.taken ++ r ∷ rs) ++ x) refl
              ∙ append-nil (s.taken ++ r ∷ rs)
              ∙ ap (λ x. s.taken ++ x) (sym (append-nil (r ∷ rs)))))
          (empty-Ends u e (ap holds n) c refl)

    waiting-Ends :
        (s : LoopRun E) (t : Trigger) (e : E)
        → s.loop ≡ waits t
        → s.committer.closed ≡ some e
        → All IsWritten s.committer.commits
        → Ends s
    waiting-Ends s t e l c w =
        let u : LoopRun E = record s {
          committer = record s.committer { commits = [] };
          loop = holds s.committer.commits;
        } in
        Ends-Reach (takes-Reach s t e l c)
          (rw l (ap (λ x. s.taken ++ x) (append-nil s.committer.commits)))
          (last-Ends u s.committer.commits e refl c refl w)

    sending-Ends :
        (s : LoopRun E) (r : CommitRange) (rs : List CommitRange) (e : E)
        → s.loop ≡ holds (r ∷ rs)
        → s.committer.closed ≡ some e
        → All IsWritten ((r ∷ rs) ++ s.committer.commits)
        → Ends s
    sending-Ends s r rs e l c w =
        let (held_written, rest_written) = All-of-append IsWritten (r ∷ rs) s.committer.commits w in
        let (ps, reach) = sends-Reach s r rs l held_written in
        let t : LoopRun E = record s {
          loop = waits at_start;
          taken = s.taken ++ r ∷ rs;
          sent = s.sent ++ ps;
        } in
        Ends-Reach reach (rw l (append_assoc s.taken (r ∷ rs) s.committer.commits))
          (waiting-Ends t at_start e refl c rest_written)

    -- What the loop keeps while it runs alone behind a close.
    record IsClosing (cs : List CommitRange) (s : LoopRun E) : Type 0 where
      error : E
      closed : s.committer.closed ≡ some error
      written : All IsWritten (held s.loop ++ s.committer.commits)
      kept : all_of s ≡ cs
      settled : comes_back s.loop ≡ false → s.committer.commits ≡ []

    ending :
        (cs : List CommitRange) (s : LoopRun E) (l : LoopState)
        → s.loop ≡ l
        → IsClosing cs s
        → Ends s
    unfolding Ends
    ending cs s (waits t) l h =
        let w : All IsWritten s.committer.commits = rw l at h.written in
        waiting-Ends s t h.error l h.closed w
    ending cs s (holds []) l h = empty-Ends s h.error l h.closed (h.settled (rw l refl))
    ending cs s (holds (r ∷ rs)) l h =
        let w : All IsWritten ((r ∷ rs) ++ s.committer.commits) = rw l at h.written in
        sending-Ends s r rs h.error l h.closed w
    ending cs s returned l h =
        let n = h.settled (rw l refl) in (s, begins, l, n, rw (l, n) (sym (append-nil s.taken)))

    Step-IsClosing :
        (cs : List CommitRange) {s t : LoopRun E} (st : Step lag count sort s t)
        → is_of_loop lag count sort st ≡ true
        → IsClosing cs s
        → IsClosing cs t
    unfolding all_of take_commits
    Step-IsClosing cs (appends w r e) own h = cc
    Step-IsClosing cs (refuses w r e f) own h = cc
    Step-IsClosing cs (signals n e) own h = cc
    Step-IsClosing cs (notifies session offset) own h = cc
    Step-IsClosing cs (leaves id) own h = cc
    Step-IsClosing cs (closes e) own h = cc
    Step-IsClosing cs {s} (selects {d} t e l a r) own h =
        let same = receive-commits e s.committer d r in
        record {
          error = h.error;
          closed = receive-closed e s.committer d r ∙ h.closed;
          written = rw same (rw l at h.written);
          kept = rw same (rw l at h.kept);
          settled = λ b. cc;
        }
    Step-IsClosing cs {s} (takes l) own h = record {
      error = h.error;
      closed = h.closed;
      written = rw append-nil (rw l at h.written);
      kept = ap (λ x. s.taken ++ x) (append-nil s.committer.commits) ∙ (rw l at h.kept);
      settled = λ b. refl;
    }
    Step-IsClosing cs {s} (stops e l c) own h = record {
      error = h.error;
      closed = h.closed;
      written = rw l at h.written;
      kept = rw l at h.kept;
      settled = λ b. h.settled (rw l refl);
    }
    Step-IsClosing cs {s} (goes_on l c) own h = absurd (none-ne-some _ (sym c ∙ h.closed))
    Step-IsClosing cs {s} (sends r rs answer l k m) own h =
        let same = after_send-commits answer s.committer in
        let w : All IsWritten ((r ∷ rs) ++ s.committer.commits) = rw l at h.written in
        let (error', closed') = after_send-closed answer s.committer h.error h.closed in
        record {
          error = error';
          closed = closed';
          written = rw same ((All-of-append IsWritten (r ∷ rs) s.committer.commits w).1);
          kept = rw same (append_assoc s.taken (r ∷ rs) s.committer.commits ∙ (rw l at h.kept));
          settled = λ b. cc;
        }

    LoopReach-IsClosing :
        (cs : List CommitRange) {s t : LoopRun E}
        → IsClosing cs s
        → LoopReach lag count sort s t
        → IsClosing cs t
    LoopReach-IsClosing cs h begins = h
    LoopReach-IsClosing cs h (turns steps st own) =
        Step-IsClosing cs st own (LoopReach-IsClosing cs h steps)

    -- A committer that is closed while its loop waits, or is about to send, sends all that it has:
    -- however its loop goes on by its own steps, it can still return by its own steps, and then it
    -- has sent all that it held and that was in the buffer, and the buffer is empty. So it cannot
    -- have returned before that. The ranges have sessions and begin no later than they end.
    pub closed-Ends :
        (s t : LoopRun E) (e : E)
        → s.committer.closed ≡ some e
        → comes_back s.loop ≡ true
        → All IsWritten (held s.loop ++ s.committer.commits)
        → LoopReach lag count sort s t
        → (u : LoopRun E) × LoopReach lag count sort t u
          × (u.loop ≡ returned)
          × (u.committer.commits ≡ [])
          × (u.taken ≡ s.taken ++ (held s.loop ++ s.committer.commits))
    unfolding Ends all_of
    closed-Ends s t e c b w steps =
        let h : IsClosing (all_of s) s = record {
          error = e;
          closed = c;
          written = w;
          kept = refl;
          settled = λ f. absurd (true≢false (sym b ∙ f));
        } in
        let k = LoopReach-IsClosing (all_of s) h steps in
        let (u, more, l, n, x) = ending (all_of s) t t.loop refl k in (u, more, l, n, x ∙ k.kept)
