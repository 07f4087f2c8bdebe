-- ===== src/Workers/Inputs.antt =====
-- agent_pool.go: the inputs of a worker agent, over any history of `SendInput` and `GetInput`.
use catgirl.Base.{
  ◌≤◌, ◌≡◌, refl, ap, ◌∙◌, sym, Bool, List, [], ◌∷◌, ◌++◌, Option, none, some, ltb, length, arith,
  Bool-cases, ltb→lt, length-append, append_assoc, append-nil, inl, inr, if◌then◌else◌,
}
use catgirl.Workers.Agent.{AgentInput, WorkerAgent, input_capacity, send_input, get_input}

-- A receive that finds the queue empty waits, so it is no event here.
pub data Event : Type 0 where
  sends : AgentInput → Event
  receives : Event

abbrev accepted_by : AgentInput → Bool → List AgentInput
accepted_by input b = if b then input ∷ [] else []

-- The inputs that `SendInput` accepted, those that `GetInput` gave out, and the agent at the end.
abbrev after_receive :
    WorkerAgent → Option (AgentInput × WorkerAgent) → List AgentInput × WorkerAgent
after_receive agent none = ([], agent)
after_receive agent (some (input, agent')) = (input ∷ [], agent')

pub play : WorkerAgent → List Event → List AgentInput × List AgentInput × WorkerAgent
play agent [] = ([], [], agent)
play agent (sends input ∷ events) =
    let (sent, agent') = send_input input agent in
    let (accepted, given, last) = play agent' events in
    (accepted_by input sent ++ accepted, given, last)
play agent (receives ∷ events) =
    let (got, agent') = after_receive agent (get_input agent) in
    let (accepted, given, last) = play agent' events in (accepted, got ++ given, last)

send_input-fifo :
    (input : AgentInput) (agent : WorkerAgent)
    → (length agent.input_queue ≤ input_capacity)
    → let (sent, agent') = send_input input agent in
      (agent'.input_queue ≡ agent.input_queue ++ accepted_by input sent)
      × (length agent'.input_queue ≤ input_capacity)
unfolding send_input
send_input-fifo input agent fits = elim (Bool-cases (ltb (length agent.input_queue) 100)) [
  | inl e ↦ rw e (refl, omega (arith, length-append agent.input_queue (input ∷ []), ltb→lt _ _ e))
  | inr e ↦ rw e (sym (append-nil agent.input_queue), fits)
]

get_input-fifo :
    (agent : WorkerAgent) (queue : List AgentInput)
    → agent.input_queue ≡ queue
    → (length agent.input_queue ≤ input_capacity)
    → let (got, agent') = after_receive agent (get_input agent) in
      (agent.input_queue ≡ got ++ agent'.input_queue) × (length agent'.input_queue ≤ input_capacity)
unfolding get_input
get_input-fifo agent [] e fits = rw e (refl, omega (arith, fits, ap length e))
get_input-fifo agent (input ∷ rest) e fits = rw e (refl, omega (arith, fits, ap length e))

-- Inputs come out in the order in which they were accepted: what the queue held and what was
-- accepted are what was given out and what the queue holds. It never holds more than its capacity.
pub play_fifo :
    (agent : WorkerAgent) (events : List Event)
    → (length agent.input_queue ≤ input_capacity)
    → let (accepted, given, last) = play agent events in
      (agent.input_queue ++ accepted ≡ given ++ last.input_queue)
      × (length last.input_queue ≤ input_capacity)
unfolding play
play_fifo agent [] fits = (append-nil agent.input_queue, fits)
play_fifo agent (sends input ∷ events) fits =
    let sent = (send_input input agent).0 in
    let agent' = (send_input input agent).1 in
    let s = send_input-fifo input agent fits in
    let p = play_fifo agent' events s.1 in
    (
      sym (append_assoc agent.input_queue (accepted_by input sent) (play agent' events).0)
          ∙ ap (λ q. q ++ (play agent' events).0) (sym s.0)
          ∙ p.0,
      p.1,
    )
play_fifo agent (receives ∷ events) fits =
    let got = (after_receive agent (get_input agent)).0 in
    let agent' = (after_receive agent (get_input agent)).1 in
    let s = get_input-fifo agent agent.input_queue refl fits in
    let p = play_fifo agent' events s.1 in
    (
      ap (λ q. q ++ (play agent' events).0) s.0
          ∙ append_assoc got agent'.input_queue (play agent' events).0
          ∙ ap (λ q. got ++ q) p.0
          ∙ sym (append_assoc got (play agent' events).1 (play agent' events).2.input_queue),
      p.1,
    )
