-- ===== src/Runtime/Context/History.antt =====
-- The turns in memory and the rows of the table: numbers, order and what a row keeps.
use catgirl.Base.{
  ℕ, ◌+◌, ◌≡◌, refl, ap, sym, ◌∙◌, List, [], ◌∷◌, ◌++◌, Option, none, some, length, keep, ◌==◌,
  ==_iff, lt→ltb, Bool-cases, inl, inr, arith,
}
use catgirl.Models.{Uuid, Json, Turn}
use catgirl.Repository.{stored_turn, stored_json, with_json, sorted_by_id, place}

-- The turns are numbered from `k + 1` upwards, one after the other.
abbrev pub Numbered : ℕ → List Turn → Type 0
Numbered k [] = Unit
Numbered k (turn ∷ turns) = (turn.turn_id ≡ k + 1) × Numbered (k + 1) turns

-- The rows are those of the turns, in order.
abbrev pub StoredAs : (Json → Option Json) → List Turn → List Turn → Type 0
StoredAs as_jsonb [] [] = Unit
StoredAs as_jsonb (turn ∷ turns) (row ∷ rows) =
    (stored_turn as_jsonb turn ≡ some row) × StoredAs as_jsonb turns rows
StoredAs as_jsonb [] (row ∷ rows) = ⊥
StoredAs as_jsonb (turn ∷ turns) [] = ⊥

abbrev pub owned : Uuid → List Turn → List Turn
owned id rows = keep (λ row. row.owner == id) rows

-- What a row keeps of its turn.
pub stored_turn-keeps :
    (as_jsonb : Json → Option Json) (turn row : Turn)
    → stored_turn as_jsonb turn ≡ some row
    → (row.turn_id ≡ turn.turn_id)
      × (row.owner ≡ turn.owner)
      × (row.role ≡ turn.role)
      × (row.content ≡ turn.content)
      × (row.tool_call_id ≡ turn.tool_call_id)
      × (stored_json as_jsonb turn.tool_arguments ≡ some row.tool_arguments)
stored_turn-keeps as_jsonb turn row h =
    go (stored_json as_jsonb turn.tool_arguments) (stored_json as_jsonb turn.tool_result) h
  where
    go :
        (arguments result : Option (Option Json))
        → with_json turn arguments result ≡ some row
        → (row.turn_id ≡ turn.turn_id)
          × (row.owner ≡ turn.owner)
          × (row.role ≡ turn.role)
          × (row.content ≡ turn.content)
          × (row.tool_call_id ≡ turn.tool_call_id)
          × (arguments ≡ some row.tool_arguments)
    go none result e = cc
    go (some a) none e = cc
    go (some a) (some r) e =
        let same : row ≡ record turn { tool_arguments = a; tool_result = r } = cc in
        (
          ap (λ t. t.turn_id) same,
          ap (λ t. t.owner) same,
          ap (λ t. t.role) same,
          ap (λ t. t.content) same,
          ap (λ t. t.tool_call_id) same,
          ap some (sym (ap (λ t. t.tool_arguments) same)),
        )

pub Numbered-snoc :
    (k : ℕ) (turns : List Turn) (turn : Turn)
    → Numbered k turns
    → turn.turn_id ≡ k + length turns + 1
    → Numbered k (turns ++ turn ∷ [])
Numbered-snoc k [] turn n e = (omega (arith, e), tt)
Numbered-snoc k (t ∷ turns) turn n e =
    (n.0, Numbered-snoc (k + 1) turns turn n.1 (omega (arith, e)))

pub StoredAs-snoc :
    (as_jsonb : Json → Option Json) (turns rows : List Turn) (turn row : Turn)
    → StoredAs as_jsonb turns rows
    → stored_turn as_jsonb turn ≡ some row
    → StoredAs as_jsonb (turns ++ turn ∷ []) (rows ++ row ∷ [])
StoredAs-snoc as_jsonb [] [] turn row h e = (e, tt)
StoredAs-snoc as_jsonb (t ∷ turns) (r ∷ rows) turn row h e =
    (h.0, StoredAs-snoc as_jsonb turns rows turn row h.1 e)
StoredAs-snoc as_jsonb [] (r ∷ rows) turn row h e = absurd h
StoredAs-snoc as_jsonb (t ∷ turns) [] turn row h e = absurd h

pub StoredAs-Numbered :
    (as_jsonb : Json → Option Json) (k : ℕ) (turns rows : List Turn)
    → StoredAs as_jsonb turns rows
    → Numbered k turns
    → Numbered k rows
StoredAs-Numbered as_jsonb k [] [] h n = tt
StoredAs-Numbered as_jsonb k (t ∷ turns) (r ∷ rows) h n = (
  (stored_turn-keeps as_jsonb t r h.0).0 ∙ n.0,
  StoredAs-Numbered as_jsonb (k + 1) turns rows h.1 n.1,
)
StoredAs-Numbered as_jsonb k [] (r ∷ rows) h n = absurd h
StoredAs-Numbered as_jsonb k (t ∷ turns) [] h n = absurd h

pub owned-snoc :
    (id : Uuid) (rows : List Turn) (row : Turn)
    → row.owner ≡ id
    → owned id (rows ++ row ∷ []) ≡ owned id rows ++ row ∷ []
owned-snoc id [] row e = rw ((==_iff row.owner id).1 e) refl
owned-snoc id (r ∷ rows) row e = elim (Bool-cases (r.owner == id)) [
  | inl k ↦ rw k (ap (λ l. r ∷ l) (owned-snoc id rows row e))
  | inr k ↦ rw k (owned-snoc id rows row e)
]

-- Rows that are in order stay in order.
place_first :
    (k : ℕ) (turn : Turn) (rows : List Turn)
    → turn.turn_id ≡ k
    → Numbered k rows
    → place turn rows ≡ turn ∷ rows
unfolding place
place_first k turn [] e n = refl
place_first k turn (r ∷ rows) e n = rw (lt→ltb turn.turn_id r.turn_id (omega (arith, e, n.0))) refl

pub sorted-Numbered : (k : ℕ) (rows : List Turn) → Numbered k rows → sorted_by_id rows ≡ rows
unfolding sorted_by_id
sorted-Numbered k [] n = refl
sorted-Numbered k (r ∷ rows) n =
    ap (place r) (sorted-Numbered (k + 1) rows n.1) ∙ place_first (k + 1) r rows n.0 n.1
