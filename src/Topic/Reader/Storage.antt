-- ===== src/Topic/Reader/Storage.antt =====
-- `partitionSessionStorage` of internal/topic/topicreaderinternal/partition_session.go. A time is the
-- number of nanoseconds since Go's zero time, and times do not go back; a duration is an `int64`, at
-- which `Sub` stops.
pub mod Laws
mod Tests
use Prim.Native.Nat.{min}
use ydb_go_sdk.Base.{
  Bool, Result, [], err, if◌then◌else◌, leb, ltb, none, ok, some, ℕ, ◌%◌, ◌&&◌, ◌*◌, ◌+◌, ◌-◌, ◌||◌,
  ◌∷◌,
}
use ydb_go_sdk.Base.Dict.{Dict, contains, insert, lookup}
use ydb_go_sdk.Base.Word.{incr, modulus, sign_bit, sle, slt}
use ydb_go_sdk.Topic.Reader.CommitRange.{SessionRef}

abbrev pub hour : ℕ
hour = 3600 * 1000000000

abbrev pub compaction_removes : ℕ
compaction_removes = 10000

-- `now.Sub(then)`
abbrev pub since : ℕ → ℕ → ℕ
since now then_ = min (now - then_) (sign_bit - 1)

-- `a - b` for `int`
abbrev minus : ℕ → ℕ → ℕ
minus a b = (a + (modulus - b)) % modulus

pub record SessionInfo : Type 0 where
  pub remove_time : ℕ
  pub removed_index : ℕ
  pub session : SessionRef

pub record SessionStorage : Type 0 where
  pub sessions : Dict SessionInfo
  pub remove_index : ℕ
  pub last_compacted_time : ℕ
  pub last_compacted_remove_index : ℕ

pub data StorageError : Type 0 where
  already_existed undefined_read undefined_delete : StorageError

-- `init` of a zero storage
unfoldable pub init_storage : ℕ → SessionStorage
init_storage now = record {
  sessions = [];
  remove_index = 0;
  last_compacted_time = now;
  last_compacted_remove_index = 0;
}

-- `Add`
unfoldable pub add_session :
    SessionRef → SessionStorage → Result StorageError (Unit {0}) × SessionStorage
unfolding insert
add_session s c =
    if contains s.session_id c.sessions
    then (err already_existed, c)
    else let info : SessionInfo = record { remove_time = 0; removed_index = 0; session = s } in
      (ok tt, record c { sessions = insert s.session_id info c.sessions })

-- `Get`
unfoldable pub get_session : ℕ → SessionStorage → Result StorageError SessionRef
get_session id c = elim (lookup id c.sessions) [ none ↦ err undefined_read | some i ↦ ok i.session ]

-- `IsGarbage`
unfoldable pub is_garbage : ℕ → ℕ → SessionInfo → Bool
is_garbage remove_index_now now i =
    sle compaction_removes (minus remove_index_now i.removed_index)
    || leb hour (since now i.remove_time)

-- The loop of `doCompactionNeedLock`.
unfoldable pub keep_sessions : ℕ → ℕ → Dict SessionInfo → Dict SessionInfo
unfolding is_garbage
keep_sessions index now [] = []
keep_sessions index now ((id, i) ∷ d) =
    let kept = keep_sessions index now d in if is_garbage index now i then kept else (id, i) ∷ kept

unfoldable pub do_compaction : ℕ → SessionStorage → SessionStorage
unfolding keep_sessions
do_compaction now c = record c { sessions = keep_sessions c.remove_index now c.sessions }

-- `isNeedCompactionNeedLock`
unfoldable pub is_need_compaction : ℕ → SessionStorage → Bool
is_need_compaction now c =
    slt (minus c.remove_index c.last_compacted_remove_index) compaction_removes
    && ltb (since now c.last_compacted_time) hour

-- `compactionNeedLock`
unfoldable pub compaction : ℕ → SessionStorage → SessionStorage
unfolding is_need_compaction do_compaction
compaction now c = if is_need_compaction now c then do_compaction now c else c

-- `Remove`; the information of a known session is changed in place.
unfoldable pub remove_session :
    ℕ → ℕ → SessionStorage → Result StorageError SessionRef × SessionStorage
unfolding compaction insert
remove_session id now c =
    let counted : SessionStorage = record c { remove_index = incr c.remove_index } in
    elim (lookup id c.sessions) [
      | some i ↦ (
        ok i.session,
        record counted { sessions = insert id (record i { remove_time = now }) c.sessions },
      )
      | none ↦ (err undefined_delete, compaction now counted)
    ]
