-- ===== src/Topic/Reader/CommitRange.antt =====
-- `commitRange` of internal/topic/topicreaderinternal/commit_range.go. Offsets and ids are the 64-bit
-- patterns of `int64`. A pointer to a `partitionSession` is the number that stands for its address,
-- with the session's id, which never changes; `none` is the nil pointer.
use ydb_go_sdk.Base.{Bool, Option, arith, false, none, some, true, ℕ, ◌&&◌, ◌==◌, ◌↔◌, ◌≡◌}

pub record SessionRef : Type 0 where
  pub address : ℕ
  pub session_id : ℕ

pub record CommitRange : Type 0 where
  pub start : ℕ
  pub end : ℕ
  pub session : Option SessionRef

-- The pointers are the same.
abbrev pub same_session : Option SessionRef → Option SessionRef → Bool
same_session none none = true
same_session none (some b) = false
same_session (some a) none = false
same_session (some a) (some b) = a.address == b.address && a.session_id == b.session_id

pub same_session_iff : (a b : Option SessionRef) → (same_session a b ≡ true) ↔ (a ≡ b)
same_session_iff none none = ground arith
same_session_iff none (some b) = ground arith
same_session_iff (some a) none = ground arith
same_session_iff (some a) (some b) = ground arith
