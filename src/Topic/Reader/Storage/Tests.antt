-- ===== src/Topic/Reader/Storage/Tests.antt =====
-- A storage of two sessions: runs, and the theorems at it.
use ydb_go_sdk.Base.{[], arith, err, refl, ℕ, ◌*◌, ◌+◌, ◌∷◌, ◌≡◌}
use ydb_go_sdk.Topic.Reader.CommitRange.{SessionRef}
use ydb_go_sdk.Topic.Reader.Storage.{
  SessionStorage, add_session, get_session, hour, init_storage, remove_session, undefined_delete,
}
use ydb_go_sdk.Topic.Reader.Storage.Laws.{remove_session-drops}

abbrev ref : ℕ → SessionRef
ref id = record { address = id * 100; session_id = id }

abbrev began : ℕ
began = 2000 * hour

-- Two sessions, none of them removed.
abbrev two_sessions : SessionStorage
two_sessions = record {
  sessions =
      (1, record { remove_time = 0; removed_index = 0; session = ref 1 })
      ∷ (2, record { remove_time = 0; removed_index = 0; session = ref 2 })
      ∷ [];
  remove_index = 0;
  last_compacted_time = began;
  last_compacted_remove_index = 0;
}

adding : (add_session (ref 2) (add_session (ref 1) (init_storage began)).1).1 ≡ two_sessions
unfolding add_session init_storage
adding = refl

remove_session-drops_example :
    let (r, c') = remove_session 7 (began + 5) two_sessions in
    (r ≡ err undefined_delete) × (c'.sessions ≡ [])
remove_session-drops_example =
    remove_session-drops 7 (began + 5) two_sessions (unfold get_session in refl) (omega arith)
      (omega arith) refl (omega arith) (refl, (refl, tt))
