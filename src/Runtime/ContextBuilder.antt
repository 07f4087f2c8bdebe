-- ===== src/Runtime/ContextBuilder.antt =====
-- context_builder.go: the text that is put in front of a worker's messages. `by_key` is the order of
-- the database's texts and `as_text` reads a JSON text that is a string. The lengths are those of
-- ASCII texts, whose bytes are their characters; the time-out of five seconds is left out.
use Prim.Native.String.{◌++◌ as join}
use catgirl.Base.{
  ℕ, ◌-◌, List, [], ◌∷◌, ◌++◌, Option, none, some, String, str_eq, leb, M, Result, ok, err, ◌>>=◌,
  pure, length, take, drop, text_length, text_take, if◌then◌else◌,
}
use catgirl.Models.{Uuid, Json, AgentId, WorkingMemoryEntry, TaskInstance, Role, assistant, Turn}
use catgirl.Repository.{Db, get_all_working_memory, get_task_instance, get_task_instance_turns}

abbrev pub working_memory_limit : ℕ
working_memory_limit = 10

pub truncate : String → ℕ → String
truncate s max_len = if leb (text_length s) max_len then s else join (text_take max_len s) "..."

abbrev pub or_raw : Json → Option String → String
or_raw raw none = raw
or_raw raw (some text) = if str_eq text "" then raw else text

abbrev pub if_text : String → String → String
if_text text line = if str_eq text "" then "" else line

-- The lines of a turn of the parent: only what the assistant said and which tool it used.
abbrev pub activity : Role → String → Option String → String
activity assistant content none =
    if_text content (join "Parent thought: " (join (truncate content 200) "\n"))
activity assistant content (some name) =
    join (if_text content (join "Parent thought: " (join (truncate content 200) "\n")))
      (if_text name (join "Parent used tool: " (join name "\n")))
activity _ content tool_name = ""

abbrev pub all_activity : List Turn → String
all_activity [] = ""
all_activity (turn ∷ turns) =
    join (activity turn.role turn.content turn.tool_name) (all_activity turns)

abbrev pub join_parts : List String → String
join_parts [] = ""
join_parts (part ∷ []) = part
join_parts (part ∷ other ∷ parts) = join part (join "\n\n" (join_parts (other ∷ parts)))

abbrev pub parent_text : TaskInstance → List Turn → String
parent_text parent [] =
    join "<parent_task>\nParent task: " (join parent.description "\n</parent_task>")
parent_text parent (turn ∷ turns) =
    let recent = drop (length (turn ∷ turns) - 3) (turn ∷ turns) in
    join "<parent_task>\nParent task: " (
      join parent.description
        (join "\n\nRecent parent activity:\n" (join (all_activity recent) "</parent_task>")))

abbrev pub parent_of : Uuid → Option TaskInstance → M Db String
parent_of id none = pure ""
parent_of id (some parent) = do turns ← get_task_instance_turns id; pure (parent_text parent turns)

unfoldable pub build_parent_task_context : Uuid → M Db String
build_parent_task_context id = do found ← get_task_instance id; parent_of id found

-- A part that cannot be built is logged and left out, and so is an empty one.
abbrev pub add_part : List String → Result String × Db → List String × Db
add_part parts (err e, db) = (parts, db)
add_part parts (ok text, db) = ((if str_eq text "" then parts else parts ++ text ∷ []), db)

abbrev pub add_parent : Option Uuid → List String × Db → List String × Db
add_parent none (parts, db) = (parts, db)
add_parent (some id) (parts, db) = add_part parts (build_parent_task_context id db)

abbrev pub context_text : List String → String
context_text [] = ""
context_text (part ∷ parts) = join "<context>\n" (join (join_parts (part ∷ parts)) "\n</context>")

module _ (by_key : List WorkingMemoryEntry → List WorkingMemoryEntry)
    (as_text : Json → Option String) where
  abbrev pub entry_lines : List WorkingMemoryEntry → String
  entry_lines [] = ""
  entry_lines (entry ∷ entries) = join "- " (
      join entry.key (
        join ": "
          (join (or_raw entry.value (as_text entry.value)) (join "\n" (entry_lines entries)))))

  abbrev pub memory_text : List WorkingMemoryEntry → String
  memory_text [] = ""
  memory_text (entry ∷ entries) =
      join "<working_memory>\nYour stored notes and data:\n\n"
        (join (entry_lines (take working_memory_limit (entry ∷ entries))) "</working_memory>")

  unfoldable pub build_working_memory_context : AgentId → M Db String
  build_working_memory_context agent_id = do
    entries ← get_all_working_memory by_key agent_id
    pure (memory_text entries)

  unfoldable pub build_worker_context : AgentId → Option Uuid → Db → String × Db
  unfolding build_working_memory_context build_parent_task_context truncate
  build_worker_context agent_id parent db =
      let (parts, db') =
        add_parent parent (add_part [] (build_working_memory_context agent_id db)) in
      (context_text parts, db')
