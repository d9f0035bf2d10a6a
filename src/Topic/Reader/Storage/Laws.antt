-- ===== src/Topic/Reader/Storage/Laws.antt =====
-- What the storage promises of `Add` and `Get`, and what `Remove` does.
use ydb_go_sdk.Base.{
  ==_iff, All, Option-cases, [], arith, err, if◌then◌else◌, inl, inr, ok, refl, true, ℕ, ◌+◌, ◌<◌,
  ◌==◌, ◌∷◌, ◌≡◌, ◌≤◌, ◌⊎◌,
}
use ydb_go_sdk.Base.Dict.{Dict, contains, lookup, lookup-insert}
use ydb_go_sdk.Base.Word.{incr}
use ydb_go_sdk.Topic.Reader.CommitRange.{SessionRef}
use ydb_go_sdk.Topic.Reader.Storage.{
  SessionInfo, SessionStorage, add_session, already_existed, compaction, compaction_removes,
  do_compaction, get_session, hour, is_garbage, is_need_compaction, keep_sessions, remove_session,
  since, undefined_delete, undefined_read,
}

-- A new session is stored under its id and no other id changes; a session whose id is stored is
-- refused, and nothing changes.
add_session-get :
    (s : SessionRef) (c : SessionStorage) (id : ℕ)
    → let (r, c') = add_session s c in
      ((get_session s.session_id c ≡ err undefined_read)
        × (r ≡ ok tt)
        × (get_session id c' ≡ (if s.session_id == id then ok s else get_session id c)))
      ⊎ ((t : SessionRef) × (get_session s.session_id c ≡ ok t)
          × (r ≡ err already_existed)
          × (c' ≡ c))
unfolding add_session get_session
add_session-get s c id = elim (Option-cases (lookup s.session_id c.sessions)) [
  | inl e ↦ inl (
    ground arith,
    ground arith,
    ground (
      arith,
      lookup-insert s.session_id id (record { remove_time = 0; removed_index = 0; session = s })
          c.sessions,
    ),
  )
  | inr (i, e) ↦ inr (i.session, ground arith, ground arith, ground arith)
]

-- `Remove` of a stored session gives it, and it stays stored: no call of `Get` gives another answer
-- afterwards, and no session with its id can be added.
remove_session-stays :
    (id now : ℕ) (c : SessionStorage) (s : SessionRef) (other : ℕ)
    → get_session id c ≡ ok s
    → let (r, c') = remove_session id now c in
      (r ≡ ok s) × (get_session other c' ≡ get_session other c) × (contains id c'.sessions ≡ true)
unfolding remove_session get_session
remove_session-stays id now c s other e = elim (Option-cases (lookup id c.sessions)) [
  | inl f ↦ absurd (ground arith)
  | inr (i, f) ↦ (
    ground arith,
    ground (
      arith,
      ==_iff id other,
      lookup-insert id other (record i { remove_time = now }) c.sessions,
    ),
    ground (arith, lookup-insert id id (record i { remove_time = now }) c.sessions),
  )
]

keep_sessions-live :
    (index now : ℕ) (d : Dict SessionInfo)
    → hour ≤ now
    → All (λ e. e.1.remove_time ≡ 0) d
    → keep_sessions index now d ≡ []
unfolding keep_sessions is_garbage
keep_sessions-live index now [] h all = refl
keep_sessions-live index now ((id, i) ∷ d) h (z, all) =
    ground (arith, keep_sessions-live index now d h all)

-- `Remove` of an id that is not stored drops every session, if none was removed so far, within an
-- hour of the storage's last compaction, and if it is one of the first 9999 removals: the clock is an
-- hour or more past its zero.
pub remove_session-drops :
    (id now : ℕ) (c : SessionStorage)
    → get_session id c ≡ err undefined_read
    → hour ≤ now
    → since now c.last_compacted_time < hour
    → c.last_compacted_remove_index ≡ 0
    → c.remove_index + 1 < compaction_removes
    → All (λ e. e.1.remove_time ≡ 0) c.sessions
    → let (r, c') = remove_session id now c in (r ≡ err undefined_delete) × (c'.sessions ≡ [])
unfolding remove_session get_session compaction do_compaction is_need_compaction
remove_session-drops id now c e late soon never few all =
    elim (Option-cases (lookup id c.sessions)) [
      | inl f ↦ (
        ground arith,
        ground (arith, keep_sessions-live (incr c.remove_index) now c.sessions late all),
      )
      | inr (i, f) ↦ absurd (ground arith)
    ]
