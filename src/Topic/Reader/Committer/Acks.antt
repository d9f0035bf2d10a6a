-- ===== src/Topic/Reader/Committer/Acks.antt =====
-- The goroutines that wait for an acknowledgement in `Commit`, beside the one that reads the
-- responses of the server, with `setCommittedOffset` and `OnCommitNotify`.
use mathlib.Core.List.{Memᴰ}
use ydb_go_sdk.Base.{
  List, Option, [], false, if◌then◌else◌, none, some, suc, ℕ, ◌<◌, ◌∷◌, ◌≡◌, Bool, true, ◌==◌,
}
use ydb_go_sdk.Base.Word.{modulus}
use ydb_go_sdk.Topic.Reader.CommitRange.{CommitRange, SessionRef, same_session}
use ydb_go_sdk.Topic.Reader.Committer.{
  CommitMode, CommitWaiter, Committer, check_condition, on_commit_notify, push_commit,
  remove_waiter, is_sync,
}

-- What a waiter keeps the same.
pub record Key : Type 0 where
  pub id : ℕ
  pub session : Option SessionRef
  pub end_offset : ℕ

abbrev pub key_of : CommitWaiter → Key
key_of w = record { id = w.id; session = w.session; end_offset = w.end_offset }

-- A call of `Commit` goes on behind `pushCommit` if that gave no error, and waits in one of the modes.
abbrev pub add_call : {E : Type 0} → Option E → Bool → CommitWaiter → List Key → List Key
add_call none true w ks = key_of w ∷ ks
add_call none false w ks = ks
add_call (some e) b w ks = ks

-- The calls but the one with this number.
unfoldable pub end_call : ℕ → List Key → List Key
end_call id [] = []
end_call id (k ∷ ks) = let rest = end_call id ks in if k.id == id then rest else k ∷ rest

-- The committer, the committed offsets of the sessions, the response whose waiters are not notified
-- yet, the calls in `waitCommitAck`, those of them whose goroutines are at its `select`, and all
-- responses so far. A call is in `waitCommitAck` as soon as its `pushCommit` is behind the mutex.
pub record AckRun (E : Type 0) : Type 0 where
  pub committer : Committer E
  pub offsets : Option SessionRef → ℕ
  pub pending : Option (Option SessionRef × ℕ)
  pub calls : List Key
  pub blocked : List Key
  pub responses : List (Option SessionRef × ℕ)

-- `setCommittedOffset`
abbrev pub set_offset : Option SessionRef → ℕ → (Option SessionRef → ℕ) → Option SessionRef → ℕ
set_offset session offset offsets s = if same_session session s then offset else offsets s

module _ {E : Type 0} where
  pub data AckStep (s : AckRun E) : AckRun E → Type 0 where
    -- `pushCommit`, with fewer than 2 ^ 64 calls so far
    pushes :
        (r : CommitRange)
        → suc s.committer.last_id < modulus
        → AckStep s (record s {
          committer = (push_commit r s.committer).1;
          calls =
              add_call
                (push_commit r s.committer).0.0
                (is_sync s.committer.mode)
                (push_commit r s.committer).0.1
                s.calls;
        })
    -- the background worker is closed
    closes : (e : E) → AckStep s (record s { committer = record s.committer { closed = some e } })
    -- a call in `waitCommitAck` finds an offset that is too low
    blocks :
        (w : CommitWaiter)
        → Memᴰ (key_of w) s.calls
        → check_condition w w.session (s.offsets w.session) ≡ false
        → AckStep s (record s { blocked = key_of w ∷ s.blocked })
    -- the end of such a call, whatever the reason
    leaves :
        (k : Key)
        → Memᴰ k s.calls
        → AckStep s (record s {
          committer = remove_waiter k.id s.committer;
          calls = end_call k.id s.calls;
          blocked = end_call k.id s.blocked;
        })
    responds :
        (session : Option SessionRef) (offset : ℕ)
        → s.pending ≡ none
        → AckStep s (record s {
          offsets = set_offset session offset s.offsets;
          pending = some (session, offset);
          responses = (session, offset) ∷ s.responses;
        })
    notifies :
        (session : Option SessionRef) (offset : ℕ)
        → s.pending ≡ some (session, offset)
        → AckStep s
            (record s { committer = on_commit_notify session offset s.committer; pending = none })

  pub data AckReach (s : AckRun E) : AckRun E → Type 0 where
    here : AckReach s s
    next : {t u : AckRun E} → AckReach s t → AckStep t u → AckReach s u

-- A new committer, and sessions with any offsets.
abbrev pub new_ack_run : {E : Type 0} → CommitMode → (Option SessionRef → ℕ) → AckRun E
new_ack_run mode offsets = record {
  committer = record {
    mode = mode;
    closed = none;
    signal = false;
    waiters = [];
    commits = [];
    last_id = 0;
  };
  offsets = offsets;
  pending = none;
  calls = [];
  blocked = [];
  responses = [];
}
