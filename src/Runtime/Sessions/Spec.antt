-- ===== src/Runtime/Sessions/Spec.antt =====
-- session.go: what the calls on sessions do on each of their branches.
use catgirl.Base.{
  ◌+◌, ◌≡◌, ◌≢◌, refl, true, false, [], ◌∷◌, ◌++◌, none, some, ◌⊎◌, inl, inr, Result, ok, err,
  not_found, find, any, update_where, Bool-cases, Option-cases, arith,
}
use catgirl.Models.{Uuid, Time, ConversationTurn}
use catgirl.Repository.{
  Db, fits_jsonb, inserted_history, is_session, is_history, set_history,
  get_session as select_session, add_conversation_turn as insert_turn,
}
use catgirl.Repository.Laws.{find-update_where}
use catgirl.Runtime.Sessions.{
  LiveSession, SessionState, has_id, get_session, add_conversation_turn, touch, remember,
}

-- The row of a turn is new, or the row with its number is overwritten.
abbrev pub HistorySpec : Uuid → ConversationTurn → Db → Db → Type 0
HistorySpec id turn db db' =
    ((any (is_history id turn) db.conversation_history ≡ false)
      × (db'.conversation_history
          ≡ db.conversation_history ++ (id, inserted_history db.as_jsonb turn) ∷ []))
    ⊎ ((any (is_history id turn) db.conversation_history ≡ true)
        × (db'.conversation_history
            ≡ update_where (is_history id turn) (set_history db.as_jsonb turn)
                db.conversation_history))

abbrev pub AddTurnSpec :
    Time → Uuid → ConversationTurn → SessionState → Result (Unit {0}) × SessionState → Type 0
AddTurnSpec now id turn s (ok _, s') =
    (session : LiveSession) × (find (has_id id) s.sessions ≡ some session)
    × (let numbered : ConversationTurn = record turn { turn_id = session.current_turn_id + 1 } in
        (find (has_id id) s'.sessions ≡ some (remember numbered (touch now session)))
        × HistorySpec id numbered s.db s'.db)
AddTurnSpec now id turn s (err e, s') =
    (s'.db.conversation_history ≡ s.db.conversation_history)
    × (((e ≡ not_found) × (find (has_id id) s.sessions ≡ none) × (s' ≡ s))
        ⊎ ((e ≢ not_found)
            × ((session : LiveSession) × (find (has_id id) s.sessions ≡ some session)
                × (find (has_id id) s'.sessions ≡ some (touch now session)))))

-- `AddConversationTurn` fails with nothing changed if the session is not in memory. If the INSERT
-- fails, neither the table nor the history in memory changes. Otherwise the turn gets the number
-- after the last one of the memory, joins the history, and is a new row, or replaces the row that
-- has its number.
pub add_conversation_turn-AddTurnSpec :
    (now : Time) (id : Uuid) (turn : ConversationTurn) (s : SessionState)
    → AddTurnSpec now id turn s (add_conversation_turn now id turn s)
unfolding add_conversation_turn insert_turn
add_conversation_turn-AddTurnSpec now id turn s =
    elim (Option-cases (find (has_id id) s.sessions)) [
      | inl missing ↦ rw missing (refl, inl (refl, missing, refl))
      | inr (session, found) ↦
          let numbered : ConversationTurn = record turn { turn_id = session.current_turn_id + 1 } in
          let touched : find (has_id id) (update_where (has_id id) (touch now) s.sessions)
              ≡ some (touch now session) =
            find-update_where (has_id id) (touch now) s.sessions session (λ y. refl) found in
          let kept : find (has_id id) (
                update_where (has_id id) (remember numbered)
                  (update_where (has_id id) (touch now) s.sessions))
              ≡ some (remember numbered (touch now session)) =
            find-update_where (has_id id) (remember numbered) _ (touch now session) (λ y. refl)
              touched in
          elim (Bool-cases (s.db.outage s.db.calls)) [
            | inl down ↦ rw (found, down) (refl, inr (λ e. ground arith, (session, found, touched)))
            | inr up ↦ elim (Bool-cases (fits_jsonb s.db.as_jsonb turn.result)) [
              | inr bad ↦
                  rw (found, up, bad) (refl, inr (λ e. ground arith, (session, found, touched)))
              | inl good ↦
                  elim (Bool-cases (any (is_history id numbered) s.db.conversation_history)) [
                    | inl old ↦ rw (found, up, good, old) (session, found, (kept, inr (old, refl)))
                    | inr new ↦ elim (Bool-cases (any (is_session id) s.db.sessions)) [
                      | inl known ↦
                          rw (found, up, good, new, known) (session, found, (kept, inl (new, refl)))
                      | inr unknown ↦
                          rw (found, up, good, new, unknown)
                            (refl, inr (λ e. ground arith, (session, found, touched)))
                    ]
                  ]
            ]
          ]
    ]
