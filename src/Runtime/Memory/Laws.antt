-- ===== src/Runtime/Memory/Laws.antt =====
-- session.go: what a pass of the consolidation adds to the long-term memories.
use catgirl.Base.{
  ◌≤◌, ℕ, ◌≡◌, true, false, List, [], ◌∷◌, ◌++◌, Option, none, some, String, any, map, ◌==◌,
}
use catgirl.Models.{Uuid, Json, WorkingMemoryEntry, LongTermMemory}
use catgirl.Repository.{Db, is_memory, vector_size}
use catgirl.Runtime.Memory.{store_entries}

-- Of the uuids that are still to be drawn none is one of the rows.
abbrev pub Unused : (ℕ → Uuid) → ℕ → List LongTermMemory → Type 0
Unused fresh drawn rows = (i : ℕ) → drawn ≤ i → any (is_memory (fresh i)) rows ≡ false

-- Any two draws differ.
abbrev pub Differ : (ℕ → Uuid) → Type 0
Differ fresh = (i j : ℕ) → fresh i ≡ fresh j → i ≡ j

abbrev pub contents : Db → List String
contents db = map (λ row. row.content) db.long_term_memories

module _ (as_text : Json → Option String) (fresh : ℕ → Uuid) (dims : ℕ) where
  -- The texts among the values, in order.
  abbrev pub text_of : Option String → List String
  text_of none = []
  text_of (some text) = text ∷ []

  abbrev pub texts : List WorkingMemoryEntry → List String
  texts [] = []
  texts (entry ∷ rest) = text_of (as_text entry.value) ++ texts rest

  -- What the statements need to succeed.
  pub record Ready (session_id : Uuid) (drawn : ℕ) (db : Db) : Type 0 where
    pub up : (n : ℕ) → db.outage n ≡ false
    pub known : any (λ row. row.id == session_id) db.sessions ≡ true
    pub unused : Unused fresh drawn db.long_term_memories

  module _ (sized : dims ≡ vector_size) (differ : Differ fresh) where
    -- What is left to store adds its texts, wherever it starts.
    abbrev Adds : Uuid → List WorkingMemoryEntry → Type 0
    Adds session_id rest =
        (drawn : ℕ) (db : Db)
        → Ready session_id drawn db
        → contents (store_entries as_text fresh dims session_id rest (drawn, db)).1
          ≡ contents db ++ texts rest
