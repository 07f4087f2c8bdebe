-- ===== src/Runtime/Memory.antt =====
-- session.go: `LongTermMemoryManager`, and the pass over the sessions that `runMemoryConsolidation`
-- makes. `filterFrequentEntries` keeps every entry. `as_text` reads a JSON text that is a string,
-- `fresh` yields the uuids that `uuid.New` draws, by the number of the draw. The time of creation is left at zero.
pub mod Laws
use catgirl.Base.{
  ℕ, zero, suc, ◌+◌, List, [], ◌∷◌, ◌++◌, Option, none, some, String, Result, ok, err, M,
}
use catgirl.Models.{Uuid, Json, WorkingMemoryEntry, LongTermMemory, LtmTier, tier1_raw, Session}
use catgirl.Repository.{Db, scan_working_memory_by_session, create_long_term_memory, list_sessions}

-- `make([]float32, dims)`
abbrev pub zeros : ℕ → List ℕ
zeros zero = []
zeros (suc n) = 0 ∷ zeros n

unfoldable pub generate_embedding : ℕ → List ℕ
generate_embedding dims = zeros dims

unfoldable pub filter_frequent_entries : List WorkingMemoryEntry → ℕ → List WorkingMemoryEntry
filter_frequent_entries entries min_access = entries

module _ (as_text : Json → Option String) (fresh : ℕ → Uuid) (dims : ℕ) where
  unfoldable pub new_memory : Uuid → ℕ → String → LongTermMemory
  unfolding generate_embedding
  new_memory session_id drawn content = record {
    id = fresh drawn;
    session_id = session_id;
    tier = LtmTier.tier1_raw;
    content = content;
    embedding = generate_embedding dims;
    access_count = 0;
    created_at = 0;
    expires_at = none;
  }

  -- An entry whose value is no text is skipped; an INSERT that fails is logged. The number counts the
  -- uuids that have been drawn.
  abbrev pub store_text : Uuid → Option String → ℕ × Db → ℕ × Db
  store_text session_id none (drawn, db) = (drawn, db)
  store_text session_id (some text) (drawn, db) =
      let (_, db') = create_long_term_memory (new_memory session_id drawn text) db in
      (drawn + 1, db')

  unfoldable pub store_entries : Uuid → List WorkingMemoryEntry → ℕ × Db → ℕ × Db
  unfolding new_memory
  store_entries session_id [] s = s
  store_entries session_id (entry ∷ rest) s =
      store_entries session_id rest (store_text session_id (as_text entry.value) s)

  abbrev pub store_scanned :
      Uuid → ℕ → Result (List WorkingMemoryEntry) × Db → Result (Unit {0}) × ℕ × Db
  store_scanned session_id drawn (err e, db) = (err e, drawn, db)
  store_scanned session_id drawn (ok entries, db) =
      let (drawn', db') =
        store_entries session_id (filter_frequent_entries entries 3) (drawn, db) in
      (ok tt, drawn', db')

  unfoldable pub consolidate_memories : Uuid → ℕ → Db → Result (Unit {0}) × ℕ × Db
  unfolding store_entries filter_frequent_entries
  consolidate_memories session_id drawn db =
      store_scanned session_id drawn (scan_working_memory_by_session session_id db)

  -- A session whose consolidation fails is logged, and the next one follows.
  abbrev pub consolidate_each : List Session → ℕ → Db → Db
  consolidate_each [] drawn db = db
  consolidate_each (session ∷ rest) drawn db =
      let (r, drawn', db') = consolidate_memories session.id drawn db in
      consolidate_each rest drawn' db'

  abbrev pub consolidate_listed : Result (List Session) × Db → Db
  consolidate_listed (err e, db) = db
  consolidate_listed (ok sessions, db) = consolidate_each sessions 0 db

  unfoldable pub run_memory_consolidation : (List Session → List Session) → Db → Db
  unfolding consolidate_memories
  run_memory_consolidation newest db = consolidate_listed (list_sessions newest 100 0 db)
