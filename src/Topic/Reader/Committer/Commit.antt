-- ===== src/Topic/Reader/Committer/Commit.antt =====
-- `Commit` with nobody beside it.
use mathlib.Core.List.{append-nil}
use ydb_go_sdk.Base.{
  ==_iff, All, Bool, Bool-cases, List, Option, Option-cases, Result, [], ap, arith, err, false,
  if◌then◌else◌, inl, inr, is_some, none, not, ok, panic, refl, some, suc, sym, true, ℕ, ◌&&◌, ◌++◌,
  ◌<◌, ◌==◌, ◌∙◌, ◌∷◌, ◌≡◌, ◌≤◌,
}
use ydb_go_sdk.Topic.Reader.CommitRange.{CommitRange}
use ydb_go_sdk.Topic.Reader.Committer.{
  CommitError, CommitWaiter, Committer, Wake, add_waiter, append_commit, commit_disabled,
  commits_enabled, context_error, is_sync, new_commit_waiter, push_commit, remove_from,
  remove_waiter, send_signal, start_commit, wait_commit_ack,
}
use ydb_go_sdk.Topic.Reader.CommitRanges.{append_ranges}
use ydb_go_sdk.Base.Word.{incr, modulus}
use mathlib.Core.Bool.{true≢false}

-- The waiter's number is above those that wait.
remove_from-above :
    (n id : ℕ) (ws : List CommitWaiter) → All (λ w. w.id ≤ n) ws → n < id → remove_from id ws ≡ ws
unfolding remove_from
remove_from-above n id [] h l = refl
remove_from-above n id (w ∷ ws) (h, hs) l =
    let e : (w.id == id) ≡ false = ground (arith, h, l, ==_iff w.id id) in
    rw e (ap (λ xs. w ∷ xs) (remove_from-above n id ws hs l))

remove_from-last :
    (n : ℕ) (x : CommitWaiter) (ws : List CommitWaiter)
    → All (λ w. w.id ≤ n) ws
    → n < x.id
    → remove_from x.id (ws ++ x ∷ []) ≡ ws
unfolding remove_from
remove_from-last n x [] h l = let e : (x.id == x.id) ≡ true = ground arith in rw e refl
remove_from-last n x (w ∷ ws) (h, hs) l =
    let e : (w.id == x.id) ≡ false = ground (arith, h, l, ==_iff w.id x.id) in
    rw e (ap (λ xs. w ∷ xs) (remove_from-last n x ws hs l))

abbrev end_commit :
    {E : Type 0}
    → Wake E
    → ℕ
    → Result (CommitError E) CommitWaiter × Committer E
    → Result (CommitError E) (Unit {0}) × Committer E
end_commit wake offset (ok w, d) = wait_commit_ack wake offset w d
end_commit wake offset (err e, d) = (err e, d)
end_commit wake offset (panic, d) = (panic, d)

-- A commit, which nothing comes between, with what its wait finds.
unfoldable pub commit :
    {E : Type 0}
    → Option E
    → Wake E
    → ℕ
    → CommitRange
    → Committer E
    → Result (CommitError E) (Unit {0}) × Committer E
commit ctx wake offset r c = end_commit wake offset (start_commit ctx r c)

abbrev is_open : {E : Type 0} → Option E → Committer E → Bool
is_open ctx c = commits_enabled c.mode && (not (is_some ctx) && not (is_some c.closed))

module _ {E : Type 0} (wake : Wake E) (offset : ℕ) (w : CommitWaiter) where
  wait_commit_ack-commits :
      (d : Committer E) → (wait_commit_ack wake offset w d).1.commits ≡ d.commits
  unfolding wait_commit_ack remove_waiter
  wait_commit_ack-commits d = elim (Bool-cases (is_sync d.mode)) [
    | inl y ↦ rw y refl
    | inr y ↦ rw y refl
  ]

  -- The waiter that was added is taken out.
  wait_commit_ack-waiters :
      (c d : Committer E)
      → All (λ x. x.id ≤ c.last_id) c.waiters
      → c.last_id < w.id
      → d.waiters ≡ (if is_sync d.mode then c.waiters ++ w ∷ [] else c.waiters)
      → (wait_commit_ack wake offset w d).1.waiters ≡ c.waiters
  unfolding wait_commit_ack remove_waiter
  wait_commit_ack-waiters c d h l e = elim (Bool-cases (is_sync d.mode)) [
    | inl y ↦ rw y (ap (remove_from w.id) (rw y at e) ∙ remove_from-last c.last_id w c.waiters h l)
    | inr y ↦ rw y (rw y at e)
  ]

option_none : {E : Type 0} (o : Option E) → is_some o ≡ false → o ≡ none
option_none none h = refl
option_none (some e) h = cc

open_parts :
    {E : Type 0} (ctx : Option E) (c : Committer E)
    → is_open ctx c ≡ true
    → (commits_enabled c.mode ≡ true) × (ctx ≡ none) × (c.closed ≡ none)
open_parts ctx c h =
    (ground arith, option_none ctx (ground arith), option_none c.closed (ground arith))

append_commit-closed :
    {E : Type 0} (w : CommitWaiter) (r : CommitRange) (c : Committer E) (e : E)
    → c.closed ≡ some e
    → append_commit w r c ≡ (some e, c)
unfolding append_commit
append_commit-closed w r c e n = rw n refl

append_commit-open :
    {E : Type 0} (w : CommitWaiter) (r : CommitRange) (c : Committer E)
    → c.closed ≡ none
    → ((append_commit w r c).0 ≡ none)
      × ((append_commit w r c).1.commits ≡ c.commits ++ r ∷ [])
      × ((append_commit w r c).1.waiters
          ≡ (if is_sync (append_commit w r c).1.mode then c.waiters ++ w ∷ [] else c.waiters))
unfolding append_commit add_waiter append_ranges
append_commit-open w r c n = elim (Bool-cases (is_sync c.mode)) [
  | inl y ↦ rw (n, y) (refl, refl, rw y refl)
  | inr y ↦ rw (n, y) (refl, refl, rw y refl)
]

start_commit-open :
    {E : Type 0} (ctx : Option E) (r : CommitRange) (c : Committer E)
    → commits_enabled c.mode ≡ true
    → ctx ≡ none
    → c.closed ≡ none
    → let w = new_commit_waiter (incr c.last_id) r.session r.end in
      start_commit ctx r c
      ≡ (ok w, send_signal (append_commit w r (record c { last_id = incr c.last_id })).1)
unfolding start_commit push_commit
start_commit-open ctx r c on live opened =
    let w = new_commit_waiter (incr c.last_id) r.session r.end in
    let (a, _, _) = append_commit-open w r (record c { last_id = incr c.last_id }) opened in
    rw (on, live, a) refl

-- A commit that is refused changes nothing that others see, but for the signal.
start_commit-refused :
    {E : Type 0} (ctx : Option E) (r : CommitRange) (c : Committer E)
    → is_open ctx c ≡ false
    → (e : CommitError E) × (d : Committer E) × (start_commit ctx r c ≡ (err e, d))
      × (d.commits ≡ c.commits)
      × (d.waiters ≡ c.waiters)
unfolding start_commit push_commit
start_commit-refused ctx r c h = elim (Bool-cases (commits_enabled c.mode)) [
  | inr off ↦ (commit_disabled, c, rw off refl, refl, refl)
  | inl on ↦ elim (Option-cases ctx) [
    | inr (e, done) ↦ (context_error e, c, rw (on, done) refl, refl, refl)
    | inl live ↦ elim (Option-cases c.closed) [
      | inr (e, closed) ↦
          let w = new_commit_waiter (incr c.last_id) r.session r.end in
          let b = record c { last_id = incr c.last_id } in
          let a = append_commit-closed w r b e closed in
          (context_error e, send_signal b, rw (on, live, a) refl, refl, refl)
      | inl opened ↦ absurd (true≢false (sym (rw (on, live, opened) refl) ∙ h))
    ]
  ]
]

module _ {E : Type 0} (wake : Wake E) (offset : ℕ) (r : CommitRange) (c : Committer E) where
  -- A commit, which nothing comes between, puts its range behind the buffer exactly if commits are
  -- enabled, its context is live and the committer is open, and changes the buffer in no other case;
  -- and whatever its wait ends with, no waiter of it stays. Fewer than 2 ^ 64 waiters were numbered.
  commit-effects :
      (ctx : Option E)
      → All (λ x. x.id ≤ c.last_id) c.waiters
      → suc c.last_id < modulus
      → ((commit ctx wake offset r c).1.commits
          ≡ c.commits ++ (if is_open ctx c then r ∷ [] else []))
        × ((commit ctx wake offset r c).1.waiters ≡ c.waiters)
  unfolding commit
  commit-effects ctx h l = elim (Bool-cases (is_open ctx c)) [
    | inr shut ↦
        let (e, d, eq, m, v) = start_commit-refused ctx r c shut in
        rw (shut, eq) (m ∙ sym (append-nil c.commits), v)
    | inl is ↦
        let (on, live, opened) = open_parts ctx c is in
        let w = new_commit_waiter (incr c.last_id) r.session r.end in
        let b : Committer E = record c { last_id = incr c.last_id } in
        let (a, m, v) = append_commit-open w r b opened in
        let d = send_signal (append_commit w r b).1 in
        rw (is, start_commit-open ctx r c on live opened)
          (
            wait_commit_ack-commits wake offset w d ∙ m,
            wait_commit_ack-waiters wake offset w c d h
                (unfold new_commit_waiter in omega (arith, l)) v,
          )
  ]
