-- ===== src/Topic/Reader/Committer/Sending.antt =====
-- What the loop has sent of what was accepted.
use mathlib.Core.List.{Permᴰ, append_assoc, append-nil}
use mathlib.Core.Path.{subst}
use mathlib.Core.Option.{some-injective, none-ne-some}
use ydb_go_sdk.Base.{
  All, All-of-append, Bool-cases, List, Option, Option-cases, [], ap, arith, inl, inr, none, ok,
  refl, some, sym, ℕ, ◌++◌, ◌||◌, ◌∙◌, ◌∷◌, ◌≡◌,
}
use ydb_go_sdk.Topic.Reader.CommitRange.{CommitRange}
use ydb_go_sdk.Topic.Reader.CommitRanges.{
  PartitionOffsets, append_ranges, optimize, to_partitions_offsets,
}
use ydb_go_sdk.Topic.Reader.CommitRanges.Cover.{
  IsWritten, covered, covers, optimize-covered, requested, to_partitions_offsets-covered,
}
use ydb_go_sdk.Topic.Reader.Committer.{
  CommitMode, CommitWaiter, Committer, Event, add_waiter, append_commit, is_sync, lag_finished,
  loop_done, loop_signal, on_commit_notify, remove_waiter, take_commits,
}
use ydb_go_sdk.Topic.Reader.Committer.Loop.{
  LoopRun, LoopState, Reach, Step, after_send, appends, closes, goes_on, here, holds, leaves,
  new_run, next, notifies, receive, refuses, returned, selects, sends, signals, stops, takes, waits,
}

abbrev pub held : LoopState → List CommitRange
held (waits t) = []
held (holds cs) = cs
held returned = []

covered-append :
    (id o : ℕ) (xs ys : List CommitRange)
    → covered id o (xs ++ ys) ≡ covered id o xs || covered id o ys
covered-append id o [] ys = refl
covered-append id o (x ∷ xs) ys = rw (covered-append id o xs ys) (ground arith)

requested-append :
    (id o : ℕ) (xs ys : List PartitionOffsets)
    → requested id o (xs ++ ys) ≡ requested id o xs || requested id o ys
requested-append id o [] ys = refl
requested-append id o (x ∷ xs) ys = rw (requested-append id o xs ys) (ground arith)

append_commit-commits :
    {E : Type 0} (w : CommitWaiter) (r : CommitRange) (c d : Committer E)
    → append_commit w r c ≡ (none, d)
    → d.commits ≡ c.commits ++ r ∷ []
unfolding append_commit append_ranges add_waiter
append_commit-commits w r c d e = elim (Option-cases c.closed) [
  | inl n ↦ elim (Bool-cases (is_sync c.mode)) [
    | inl y ↦ sym (ap (λ z. z.1.commits) (rw (n, y) at e))
    | inr y ↦ sym (ap (λ z. z.1.commits) (rw (n, y) at e))
  ]
  | inr (x, n) ↦ absurd (none-ne-some _ (sym (ap (λ z. z.0) (rw n at e))))
]

pub receive-commits :
    {E : Type 0} (e : Event) (c d : Committer E) → receive e c ≡ some d → d.commits ≡ c.commits
unfolding receive
receive-commits loop_done c d h = elim (Option-cases c.closed) [ inl n ↦ cc | inr (x, n) ↦ cc ]
receive-commits loop_signal c d h = elim (Bool-cases c.signal) [
  | inl y ↦ sym (ap (λ z. z.commits) (some-injective _ _ (rw y at h)))
  | inr y ↦ cc
]
receive-commits lag_finished c d h = sym (ap (λ z. z.commits) (some-injective _ _ h))

pub after_send-commits :
    {E : Type 0} (o : Option E) (c : Committer E) → (after_send o c).commits ≡ c.commits
after_send-commits none c = refl
after_send-commits (some e) c = refl

-- Every accepted range was sent once, or is in the hands of the loop, or in the buffer.
Ordered : {E : Type 0} → LoopRun E → Type 0
Ordered s = s.taken ++ (held s.loop ++ s.committer.commits) ≡ s.accepted

requested-sent :
    (sort : List CommitRange → List CommitRange)
    → ((cs : List CommitRange) → Permᴰ (sort cs) cs)
    → (taken cs os : List CommitRange) (sent ps : List PartitionOffsets) → All IsWritten cs
    → optimize sort cs ≡ ok os
    → to_partitions_offsets sort os ≡ ok ps
    → ((id o : ℕ) → requested id o sent ≡ covered id o taken)
    → (id o : ℕ) → requested id o (sent ++ ps) ≡ covered id o (taken ++ cs)
requested-sent sort perm taken cs os sent ps w d e h id o =
    let (rs, k, written, covers) = optimize-covered sort cs (perm cs) w in
    let eq : rs ≡ os = cc in
    let w' : All IsWritten os = subst (All IsWritten) eq written in
    let c' : covered id o os ≡ covered id o cs = ap (covered id o) (sym eq) ∙ covers id o in
    let (qs, f, asked) = to_partitions_offsets-covered sort os (perm os) w' in
    let same : qs ≡ ps = cc in
    let p : requested id o ps ≡ covered id o cs =
      ap (requested id o) (sym same) ∙ asked id o ∙ c' in
    requested-append id o sent ps ∙ ground (arith, h id o, covered-append id o taken cs, p)

-- The messages ask for what was taken for them.
Asked : {E : Type 0} → LoopRun E → Type 0
Asked s = (id o : ℕ) → requested id o s.sent ≡ covered id o s.taken

module _ {E : Type 0} (lag count : ℕ) (sort : List CommitRange → List CommitRange) where
  Step-Ordered : {s t : LoopRun E} → Ordered s → Step lag count sort s t → Ordered t
  unfolding Ordered on_commit_notify remove_waiter take_commits
  Step-Ordered {s} h (appends w r e) =
      ap (λ cs. s.taken ++ (held s.loop ++ cs)) (append_commit-commits w r s.committer _ e)
      ∙ ap (λ cs. s.taken ++ cs) (sym (append_assoc (held s.loop) s.committer.commits (r ∷ [])))
      ∙ sym (append_assoc s.taken (held s.loop ++ s.committer.commits) (r ∷ []))
      ∙ ap (λ cs. cs ++ r ∷ []) h
  Step-Ordered h (refuses w r e f) = h
  Step-Ordered h (signals n e) = h
  Step-Ordered h (notifies session offset) = h
  Step-Ordered h (leaves id) = h
  Step-Ordered h (closes e) = h
  Step-Ordered {s} h (selects t e l a r) = rw (receive-commits e s.committer _ r) (rw l at h)
  Step-Ordered {s} h (takes l) =
      ap (λ cs. s.taken ++ cs) (append-nil s.committer.commits) ∙ (rw l at h)
  Step-Ordered h (stops e l c) = rw l at h
  Step-Ordered h (goes_on l c) = rw l at h
  Step-Ordered {s} h (sends r rs answer l k m) =
      rw (after_send-commits answer s.committer)
        (append_assoc s.taken (r ∷ rs) s.committer.commits ∙ (rw l at h))

  Step-accepted :
      {s t : LoopRun E}
      → Step lag count sort s t
      → All IsWritten t.accepted
      → All IsWritten s.accepted
  Step-accepted {s} (appends w r e) h = (All-of-append IsWritten s.accepted (r ∷ []) h).0
  Step-accepted (refuses w r e f) h = h
  Step-accepted (signals n e) h = h
  Step-accepted (notifies session offset) h = h
  Step-accepted (leaves id) h = h
  Step-accepted (closes e) h = h
  Step-accepted (selects t e l a r) h = h
  Step-accepted (takes l) h = h
  Step-accepted (stops e l c) h = h
  Step-accepted (goes_on l c) h = h
  Step-accepted (sends r rs answer l k m) h = h

  module _ (perm : (cs : List CommitRange) → Permᴰ (sort cs) cs) where
    Step-Asked :
        {s t : LoopRun E}
        → Ordered s
        → All IsWritten s.accepted
        → Asked s
        → Step lag count sort s t
        → Asked t
    unfolding Asked Ordered
    Step-Asked {s} o w h (sends {os} {ps} r rs answer l k m) =
        let order : s.taken ++ ((r ∷ rs) ++ s.committer.commits) ≡ s.accepted = rw l at o in
        let all = subst (All IsWritten) (sym order) w in
        let (a, b) = All-of-append IsWritten s.taken ((r ∷ rs) ++ s.committer.commits) all in
        let (b, c) = All-of-append IsWritten (r ∷ rs) s.committer.commits b in
        requested-sent sort perm s.taken (r ∷ rs) os s.sent ps b k m h
    Step-Asked o w h (appends x r e) = h
    Step-Asked o w h (refuses x r e f) = h
    Step-Asked o w h (signals n e) = h
    Step-Asked o w h (notifies session offset) = h
    Step-Asked o w h (leaves id) = h
    Step-Asked o w h (closes e) = h
    Step-Asked o w h (selects t e l a r) = h
    Step-Asked o w h (takes l) = h
    Step-Asked o w h (stops e l c) = h
    Step-Asked o w h (goes_on l c) = h

    -- Whatever the goroutines do and in whatever order, of the ranges that were accepted, all with
    -- a session and beginning no later than they end, each was sent once, in the order in which
    -- they were accepted, or is in the hands of the loop, or in the buffer; and the messages ask
    -- for exactly the offsets that the ranges sent cover.
    pub Reach-accepted :
        (mode : CommitMode) (s : LoopRun E)
        → Reach lag count sort (new_run mode) s
        → All IsWritten s.accepted
        → (s.taken ++ (held s.loop ++ s.committer.commits) ≡ s.accepted)
          × ((id o : ℕ) → requested id o s.sent ≡ covered id o s.taken)
    unfolding Ordered Asked
    Reach-accepted mode s here w = (refl, λ id o. refl)
    Reach-accepted mode u (next {t} steps step) w =
        let w' = Step-accepted step w in
        let (o, a) = Reach-accepted mode t steps w' in (Step-Ordered o step, Step-Asked o w' a step)
