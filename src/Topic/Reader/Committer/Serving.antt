-- ===== src/Topic/Reader/Committer/Serving.antt =====
-- Who has an acknowledgement, and when.
use ydb_go_sdk.Topic.Reader.Committer.Registering.{
  IsRegistered, notify_waiters-keys, end_call-All, end_call-Memᴰ, end_call-IsRegistered,
  push_commit-registers, push_commit-id, add_call-All, Memᴰ-All,
}
use mathlib.Core.Path.{subst}
use mathlib.Core.Bool.{true≢false}
use mathlib.Core.List.{Memᴰ}
use mathlib.Core.Option.{none-ne-some, some-injective}
use ydb_go_sdk.Base.{
  All, All-append, All-imp, Bool, Bool-cases, List, Option, Option-cases, [], ap, arith, false,
  if◌then◌else◌, inl, inr, none, refl, some, suc, sym, true, ℕ, ◌++◌, ◌<◌, ◌==◌, ◌||◌, ◌∙◌, ◌∷◌,
  ◌≡◌, ◌≤◌, ◌⊎◌, map,
}
use ydb_go_sdk.Base.Word.{incr, modulus}
use ydb_go_sdk.Topic.Reader.CommitRange.{CommitRange, SessionRef, same_session, same_session_iff}
use ydb_go_sdk.Topic.Reader.Committer.{
  CommitMode, CommitWaiter, Committer, add_waiter, append_commit, check_condition, is_sync,
  new_commit_waiter, notify_waiters, on_commit_notify, push_commit, remove_from, remove_waiter,
}
use ydb_go_sdk.Topic.Reader.Committer.Acks.{
  AckReach, AckRun, AckStep, Key, blocks, here, key_of, leaves, new_ack_run, next, notifies, pushes,
  responds, set_offset, add_call, end_call, closes,
}

-- The offset of the session is one that the waiter waits for.
abbrev pub is_reached : (Option SessionRef → ℕ) → CommitWaiter → Bool
is_reached offsets w = check_condition w w.session (offsets w.session)

-- The response for the session is still on its way to the waiters.
abbrev pub is_pending : {A : Type 0} → Option (Option SessionRef × A) → Option SessionRef → Bool
is_pending none session = false
is_pending (some (s, o)) session = same_session s session

-- A response so far is one that the waiter waits for.
abbrev pub was_reached : List (Option SessionRef × ℕ) → CommitWaiter → Bool
was_reached [] w = false
was_reached ((session, offset) ∷ rs) w = check_condition w session offset || was_reached rs w

module _ (offsets : Option SessionRef → ℕ) (pending : Option (Option SessionRef × ℕ))
    (blocked : List Key) (responses : List (Option SessionRef × ℕ)) where
  -- A goroutine at its `select` has its acknowledgement, or will be given it, if its offset is
  -- reached; and it has it only if a response reached it.
  IsServed : CommitWaiter → Type 0
  IsServed w =
      (Memᴰ (key_of w) blocked
        → is_reached offsets w ≡ true
        → (w.committed ≡ true) ⊎ (is_pending pending w.session ≡ true))
      × (w.committed ≡ true → was_reached responses w ≡ true)

record IsAcknowledging {E : Type 0} (s : AckRun E) : Type 0 where
  numbered : All (λ k. k.id ≤ s.committer.last_id) s.blocked
  numbered_calls : All (λ k. k.id ≤ s.committer.last_id) s.calls
  registered : All (IsRegistered s.committer.waiters) s.blocked
  registered_calls : All (IsRegistered s.committer.waiters) s.calls
  current :
      (session : Option SessionRef) (offset : ℕ)
      → s.pending ≡ some (session, offset)
      → (s.offsets session ≡ offset)
        × (rest : List (Option SessionRef × ℕ)) × (s.responses ≡ (session, offset) ∷ rest)
  served : All (IsServed s.offsets s.pending s.blocked s.responses) s.committer.waiters

append_commit-last_id :
    {E : Type 0} (w : CommitWaiter) (r : CommitRange) (c : Committer E)
    → (append_commit w r c).1.last_id ≡ c.last_id
unfolding append_commit add_waiter
append_commit-last_id w r c = elim (Option-cases c.closed) [
  | inl n ↦ elim (Bool-cases (is_sync c.mode)) [ inl y ↦ rw (n, y) refl | inr y ↦ rw (n, y) refl ]
  | inr (x, n) ↦ rw n refl
]

append_commit-waiters :
    {E : Type 0} (w : CommitWaiter) (r : CommitRange) (c : Committer E)
    → ((append_commit w r c).1.waiters ≡ c.waiters)
      ⊎ ((append_commit w r c).1.waiters ≡ c.waiters ++ w ∷ [])
unfolding append_commit add_waiter
append_commit-waiters w r c = elim (Option-cases c.closed) [
  | inl n ↦ elim (Bool-cases (is_sync c.mode)) [
    | inl y ↦ inr (rw (n, y) refl)
    | inr y ↦ inl (rw (n, y) refl)
  ]
  | inr (x, n) ↦ inl (rw n refl)
]

-- The number that the next waiter takes.
incr-last : (n : ℕ) → suc n < modulus → incr n ≡ suc n
incr-last n h = omega (arith, h)

push_commit-last_id :
    {E : Type 0} (r : CommitRange) (c : Committer E)
    → suc c.last_id < modulus
    → (push_commit r c).1.last_id ≡ suc c.last_id
unfolding push_commit
push_commit-last_id r c h =
    append_commit-last_id _ r (record c { last_id = incr c.last_id }) ∙ incr-last c.last_id h

push_commit-waiters :
    {E : Type 0} (r : CommitRange) (c : Committer E)
    → ((push_commit r c).1.waiters ≡ c.waiters)
      ⊎ ((push_commit r c).1.waiters
          ≡ c.waiters ++ new_commit_waiter (incr c.last_id) r.session r.end ∷ [])
unfolding push_commit
push_commit-waiters r c =
    append_commit-waiters (new_commit_waiter (incr c.last_id) r.session r.end) r
      (record c { last_id = incr c.last_id })

remove_from-All :
    (P : CommitWaiter → Type 0) (id : ℕ) (ws : List CommitWaiter)
    → All P ws
    → All P (remove_from id ws)
unfolding remove_from
remove_from-All P id [] h = tt
remove_from-All P id (w ∷ ws) (h, hs) = elim (Bool-cases (w.id == id)) [
  | inl e ↦ rw e (remove_from-All P id ws hs)
  | inr e ↦ rw e (h, remove_from-All P id ws hs)
]

-- No goroutine waits with a number that was not given yet.
All-Memᴰ : (n : ℕ) (ks : List Key) (k : Key) → All (λ x. x.id ≤ n) ks → Memᴰ k ks → k.id ≤ n
All-Memᴰ n [] k h m = elim m [ ]
All-Memᴰ n (x ∷ ks) k (h, hs) (Memᴰ.head e) = omega (arith, h, ap (λ z. z.id) e)
All-Memᴰ n (x ∷ ks) k (h, hs) (Memᴰ.tail m) = All-Memᴰ n ks k hs m

new_waiter-IsServed :
    (offsets : Option SessionRef → ℕ) (pending : Option (Option SessionRef × ℕ))
    (blocked : List Key)
    → (responses : List (Option SessionRef × ℕ)) (n id end_offset : ℕ) (session : Option SessionRef)
    → All (λ k. k.id ≤ n) blocked
    → n < id
    → IsServed offsets pending blocked responses (new_commit_waiter id session end_offset)
unfolding IsServed new_commit_waiter
new_waiter-IsServed offsets pending blocked responses n id end_offset session h l =
    ((λ m r. absurd (omega (arith, l, All-Memᴰ n blocked _ h m))), (λ e. cc))

-- Where a call ends, no other one begins to wait.
fewer-IsServed :
    (offsets : Option SessionRef → ℕ) (pending : Option (Option SessionRef × ℕ))
    (blocked : List Key)
    → (responses : List (Option SessionRef × ℕ)) (w : CommitWaiter) (id : ℕ)
    → IsServed offsets pending blocked responses w
    → IsServed offsets pending (end_call id blocked) responses w
unfolding IsServed
fewer-IsServed offsets pending blocked responses w id (a, b) =
    ((λ m. a (end_call-Memᴰ id blocked (key_of w) m)), b)

-- The waiter that begins to wait had an offset that was too low.
block-IsServed :
    (offsets : Option SessionRef → ℕ) (pending : Option (Option SessionRef × ℕ))
    (blocked : List Key)
    → (responses : List (Option SessionRef × ℕ)) (x w : CommitWaiter) → is_reached offsets x ≡ false
    → IsServed offsets pending blocked responses w
    → IsServed offsets pending (key_of x ∷ blocked) responses w
unfolding IsServed check_condition
block-IsServed offsets pending blocked responses x w l (a, b) = (
  (λ m r. elim m [
    | Memᴰ.head e ↦
        let s : w.session ≡ x.session = ap (λ k. k.session) e in
        let t : w.end_offset ≡ x.end_offset = ap (λ k. k.end_offset) e in
        absurd (true≢false (sym (rw (s, t) at r) ∙ l))
    | Memᴰ.tail m ↦ a m r
  ]),
  b,
)

respond-IsServed :
    (offsets : Option SessionRef → ℕ) (blocked : List Key)
    → (responses : List (Option SessionRef × ℕ)) (w : CommitWaiter)
    → (session : Option SessionRef) (offset : ℕ) → IsServed offsets none blocked responses w
    → IsServed
        (set_offset session offset offsets)
        (some (session, offset))
        blocked
        ((session, offset) ∷ responses)
        w
unfolding IsServed
respond-IsServed offsets blocked responses w session offset (a, b) = (
  (λ m r. elim (Bool-cases (same_session session w.session)) [
    | inl e ↦ inr e
    | inr e ↦ inl (elim (a m (rw e at r)) [ inl c ↦ c | inr c ↦ cc ])
  ]),
  (λ e. ground (arith, b e)),
)

check_condition-committed :
    (w : CommitWaiter) (session : Option SessionRef) (offset : ℕ)
    → check_condition (record w { committed = true }) session offset
      ≡ check_condition w session offset
unfolding check_condition
check_condition-committed w session offset = refl

notify-IsServed :
    (offsets : Option SessionRef → ℕ) (blocked : List Key)
    → (responses rest : List (Option SessionRef × ℕ)) (w : CommitWaiter)
    → (session : Option SessionRef) (offset : ℕ) → offsets session ≡ offset
    → responses ≡ (session, offset) ∷ rest
    → IsServed offsets (some (session, offset)) blocked responses w
    → IsServed offsets none blocked responses
        (if check_condition w session offset then record w { committed = true } else w)
unfolding IsServed
notify-IsServed offsets blocked responses rest w session offset o p (a, b) =
    elim (Bool-cases (check_condition w session offset)) [
      | inl e ↦
          rw e
            ((λ m r. inl refl), (λ _. rw (p, check_condition-committed w session offset, e) refl))
      | inr e ↦
          let missed : is_reached offsets w ≡ true → same_session session w.session ≡ true → ⊥ =
            λ r q.
              let s = (same_session_iff session w.session).0 q in
              let r' = subst (λ z. check_condition w z (offsets z) ≡ true) (sym s) r in
              true≢false (sym (rw o at r') ∙ e) in
          rw e ((λ m r. elim (a m r) [ inl c ↦ inl c | inr q ↦ absurd (missed r q) ]), b)
    ]

notify_waiters-IsServed :
    (offsets : Option SessionRef → ℕ) (blocked : List Key)
    → (responses rest : List (Option SessionRef × ℕ)) (ws : List CommitWaiter)
    → (session : Option SessionRef) (offset : ℕ) → offsets session ≡ offset
    → responses ≡ (session, offset) ∷ rest
    → All (IsServed offsets (some (session, offset)) blocked responses) ws
    → All (IsServed offsets none blocked responses) (notify_waiters session offset ws)
unfolding notify_waiters
notify_waiters-IsServed offsets blocked responses rest [] session offset o p h = tt
notify_waiters-IsServed offsets blocked responses rest (w ∷ ws) session offset o p (h, hs) = (
  notify-IsServed offsets blocked responses rest w session offset o p h,
  notify_waiters-IsServed offsets blocked responses rest ws session offset o p hs,
)

same_session_refl : (s : Option SessionRef) → same_session s s ≡ true
same_session_refl s = (same_session_iff s s).1 refl

push-IsAcknowledging :
    {E : Type 0} (s : AckRun E) (r : CommitRange)
    → suc s.committer.last_id < modulus
    → IsAcknowledging s
    → IsAcknowledging (record s {
      committer = (push_commit r s.committer).1;
      calls =
          add_call
            (push_commit r s.committer).0.0
            (is_sync s.committer.mode)
            (push_commit r s.committer).0.1
            s.calls;
    })
push-IsAcknowledging s r l h =
    let last = push_commit-last_id r s.committer l in
    let w = new_commit_waiter (incr s.committer.last_id) r.session r.end in
    let (kept, added) =
      push_commit-registers r s.committer s.blocked s.calls h.registered h.registered_calls in
    record {
      numbered = All-imp s.blocked (λ k le. omega (arith, le, last)) h.numbered;
      numbered_calls =
          add_call-All _ _ _ _ s.calls
            (omega (arith, last, push_commit-id r s.committer, incr-last s.committer.last_id l))
            (All-imp s.calls (λ k le. omega (arith, le, last)) h.numbered_calls);
      registered = kept;
      registered_calls = added;
      current = h.current;
      served = elim (push_commit-waiters r s.committer) [
        | inl e ↦ rw e h.served
        | inr e ↦ rw e (
            All-append _ s.committer.waiters (w ∷ []) h.served (
              new_waiter-IsServed s.offsets s.pending s.blocked s.responses s.committer.last_id
                  (incr s.committer.last_id) r.end r.session h.numbered
                  (omega (arith, incr-last s.committer.last_id l)),
              tt,
            ))
      ];
    }

Step-IsAcknowledging :
    {E : Type 0} {s t : AckRun E} → AckStep s t → IsAcknowledging s → IsAcknowledging t
unfolding remove_waiter on_commit_notify
Step-IsAcknowledging {s} (pushes r l) h = push-IsAcknowledging s r l h
Step-IsAcknowledging {s} (closes e) h = record {
  numbered = h.numbered;
  numbered_calls = h.numbered_calls;
  registered = h.registered;
  registered_calls = h.registered_calls;
  current = h.current;
  served = h.served;
}
Step-IsAcknowledging {s} (blocks w m f) h = record {
  numbered = (All-Memᴰ s.committer.last_id s.calls (key_of w) h.numbered_calls m, h.numbered);
  numbered_calls = h.numbered_calls;
  registered = (Memᴰ-All _ s.calls (key_of w) h.registered_calls m, h.registered);
  registered_calls = h.registered_calls;
  current = h.current;
  served =
      All-imp s.committer.waiters
        (λ x. block-IsServed s.offsets s.pending s.blocked s.responses w x f) h.served;
}
Step-IsAcknowledging {s} (leaves k m) h = record {
  numbered = end_call-All _ k.id s.blocked h.numbered;
  numbered_calls = end_call-All _ k.id s.calls h.numbered_calls;
  registered = end_call-IsRegistered k.id s.committer.waiters s.blocked h.registered;
  registered_calls = end_call-IsRegistered k.id s.committer.waiters s.calls h.registered_calls;
  current = h.current;
  served =
      All-imp (remove_from k.id s.committer.waiters)
        (λ w. fewer-IsServed s.offsets s.pending s.blocked s.responses w k.id)
        (remove_from-All _ k.id s.committer.waiters h.served);
}
Step-IsAcknowledging {s} (responds session offset e) h = record {
  numbered = h.numbered;
  numbered_calls = h.numbered_calls;
  registered = h.registered;
  registered_calls = h.registered_calls;
  current = λ x y p.
      subst
        (λ z.
          (set_offset session offset s.offsets z.0 ≡ z.1)
          × (rest : List (Option SessionRef × ℕ)) × ((session, offset) ∷ s.responses ≡ z ∷ rest))
        (some-injective _ _ p) (rw (same_session_refl session) refl, s.responses, refl);
  served =
      All-imp s.committer.waiters
        (λ w k.
          respond-IsServed s.offsets s.blocked s.responses w session offset
            (subst (λ p. IsServed s.offsets p s.blocked s.responses w) e k))
        h.served;
}
Step-IsAcknowledging {s} (notifies session offset e) h =
    let (o, rest, p) = h.current session offset e in
    let keys = sym (notify_waiters-keys session offset s.committer.waiters) in
    record {
      numbered = h.numbered;
      numbered_calls = h.numbered_calls;
      registered = All-imp s.blocked (λ k. subst (Memᴰ k) keys) h.registered;
      registered_calls = All-imp s.calls (λ k. subst (Memᴰ k) keys) h.registered_calls;
      current = λ x y p. absurd (none-ne-some _ p);
      served =
          notify_waiters-IsServed s.offsets s.blocked s.responses rest s.committer.waiters session
            offset o p
            (subst (λ p. All (IsServed s.offsets p s.blocked s.responses) s.committer.waiters) e
              h.served);
    }

Reach-IsAcknowledging :
    {E : Type 0} (mode : CommitMode) (offsets : Option SessionRef → ℕ) (s : AckRun E)
    → AckReach (new_ack_run mode offsets) s
    → IsAcknowledging s
Reach-IsAcknowledging mode offsets s here = record {
  numbered = tt;
  numbered_calls = tt;
  registered = tt;
  registered_calls = tt;
  current = λ x y p. absurd (none-ne-some _ p);
  served = tt;
}
Reach-IsAcknowledging mode offsets u (next {t} steps step) =
    Step-IsAcknowledging step (Reach-IsAcknowledging mode offsets t steps)

-- Whatever the goroutines do and in whatever order, within 2 ^ 64 commits: the committer has a waiter
-- for each goroutine that waits for the acknowledgement of a commit; the waiter of such a goroutine
-- has the acknowledgement as soon as the committed offset of its session is one that it waits for and
-- the waiters of that session were notified; and a waiter has it only if a response for its session
-- gave such an offset.
pub Reach-committed :
    {E : Type 0} (mode : CommitMode) (offsets : Option SessionRef → ℕ) (s : AckRun E)
    → AckReach (new_ack_run mode offsets) s
    → All (λ k. Memᴰ k (map key_of s.committer.waiters)) s.blocked
      × All
          (λ w.
            (Memᴰ (key_of w) s.blocked
              → is_reached s.offsets w ≡ true
              → is_pending s.pending w.session ≡ false
              → w.committed ≡ true)
            × (w.committed ≡ true → was_reached s.responses w ≡ true))
          s.committer.waiters
unfolding IsServed
Reach-committed mode offsets s steps =
    let h = Reach-IsAcknowledging mode offsets s steps in
    (
      h.registered,
      All-imp s.committer.waiters
          (λ w (a, b).
            ((λ m r p. elim (a m r) [ inl c ↦ c | inr q ↦ absurd (true≢false (sym q ∙ p)) ]), b))
          h.served,
    )
