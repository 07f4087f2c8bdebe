-- ===== src/Tests/Workers.antt =====
-- The pool of agents at work.
use mathlib.Core.List.Perm
use catgirl.Base.{◌≤◌, ◌≡◌, ◌++◌, [], ◌∷◌, length, arith}
use catgirl.Models.{general_purpose, any_type, Priority, reasoner}
use catgirl.Repository.{inserted_agent}
use catgirl.Workers.Agent.{AgentInput, WorkerAgent, InputType, new_worker_agent, input_capacity}
use catgirl.Workers.Inputs.{sends, receives, play, play_fifo}
use catgirl.Workers.Pool.{PoolState, spawn_agent, remove_agent, get_idle_agent, agent_row}
use catgirl.Workers.Pool.Spec.{
  SpawnSpec, spawn_agent-SpawnSpec, RemoveSpec, remove_agent-RemoveSpec,
}
use catgirl.Workers.Pool.Invariant.{PoolIsValid, spawns, assigns, removes, run, run-PoolIsValid}
use catgirl.Workers.Pool.Idle.{IdleSpec, get_idle_agent-IdleSpec}
use catgirl.Tests.Fixtures.{a_task, a_db, an_id}

abbrev an_agent : WorkerAgent
an_agent = new_worker_agent an_id general_purpose 2

abbrev a_pool : PoolState
a_pool = record {
  db = record a_db { agents = inserted_agent (agent_row an_agent 2) ∷ [] };
  agents = an_agent ∷ [];
}

abbrev an_input : AgentInput
an_input = record { kind = InputType.message; content = "hello"; tool_id = ""; tool_name = "" }

run-PoolIsValid_example : PoolIsValid 2 (
    run 2
      (record { db = a_db; agents = [] })
      (spawns 2 general_purpose 4 ∷ assigns 3 an_id (a_task 1 Priority.low 3) ∷ removes an_id ∷ []))
run-PoolIsValid_example =
    run-PoolIsValid 2 a_db
      (spawns 2 general_purpose 4 ∷ assigns 3 an_id (a_task 1 Priority.low 3) ∷ removes an_id ∷ [])
      (λ id. omega arith)

spawn_agent-SpawnSpec_example : SpawnSpec 2 3 reasoner 6 a_pool (spawn_agent 2 3 reasoner 6 a_pool)
spawn_agent-SpawnSpec_example = spawn_agent-SpawnSpec 2 3 reasoner 6 a_pool

remove_agent-RemoveSpec_example : RemoveSpec an_id a_pool (remove_agent an_id a_pool)
remove_agent-RemoveSpec_example = remove_agent-RemoveSpec an_id a_pool

get_idle_agent-IdleSpec_example :
    IdleSpec any_type a_pool (get_idle_agent any_type (an_agent ∷ []) a_pool)
get_idle_agent-IdleSpec_example =
    get_idle_agent-IdleSpec any_type (an_agent ∷ []) a_pool (Perm.refl (an_agent ∷ []))

play_fifo_example :
    let (accepted, given, last) = play an_agent (sends an_input ∷ receives ∷ []) in
    (an_agent.input_queue ++ accepted ≡ given ++ last.input_queue)
    × (length last.input_queue ≤ input_capacity)
play_fifo_example = play_fifo an_agent (sends an_input ∷ receives ∷ []) (omega arith)
