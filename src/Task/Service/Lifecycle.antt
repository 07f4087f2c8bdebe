-- ===== src/Task/Service/Lifecycle.antt =====
-- `UpdateTaskStatus`: what it writes into the row of a task, and what it leaves.
use catgirl.Base.{
  false, true, ◌==◌, invalid_json, ◌+◌, ◌≡◌, refl, Option, none, some, ◌⊎◌, inl, inr, Result, ok,
  err, String, find, arith, Bool-cases, Option-cases, not_found, unavailable, ◌∙◌, ap, List,
  update_where, ==_iff,
}
use catgirl.Models.{Uuid, Time, Json, TaskInstance, TaskStatus}
use catgirl.Repository.{
  fits_jsonb, as_column, is_instance, set_instance, get_task_instance, update_task_instance,
}
use catgirl.Repository.Laws.{find-update_where, find-update_where_others, find_passes}
use catgirl.Task.Service.{TaskState, finish, end_task, start_task, with_status, update_task_status}

abbrev pub or_kept : {A : Type 0} → Option A → A → A
or_kept none old = old
or_kept (some new) old = new

abbrev pub or_old : {A : Type 0} → Option A → Option A → Option A
or_old none old = old
or_old (some new) old = some new

-- The first value for a status that ends a task, the second for any other.
abbrev pub if_over : {A : Type 0} → TaskStatus → A → A → A
if_over TaskStatus.completed new old = new
if_over TaskStatus.failed new old = new
if_over _ new old = old

abbrev pub or_now : Time → Option Time → Option Time
or_now now none = some now
or_now now (some t) = some t

-- The start of a task: the first time that it is in progress.
abbrev pub start_of : TaskStatus → Time → Option Time → Option Time
start_of TaskStatus.in_progress now old = or_now now old
start_of _ now old = old

-- What a task that ends has written.
abbrev EndSpec :
    Time → TaskStatus → Option Json → Option String → TaskInstance → TaskInstance → Type 0
EndSpec now status result err_msg task task' = task' ≡ record task {
  completed_at = if_over status (some now) task.completed_at;
  result = if_over status (or_kept result task.result) task.result;
  error = if_over status (or_old err_msg task.error) task.error;
}

finish-ends :
    (now : Time) (r : Option Json) (e : Option String) (task : TaskInstance)
    → EndSpec now TaskStatus.completed r e task (finish now r e task)
finish-ends now none none task = refl
finish-ends now none (some e) task = refl
finish-ends now (some r) none task = refl
finish-ends now (some r) (some e) task = refl

end_task-EndSpec :
    (now : Time) (status : TaskStatus) (result : Option Json) (err_msg : Option String)
    (task : TaskInstance)
    → EndSpec now status result err_msg task (end_task now status result err_msg task)
unfolding end_task
end_task-EndSpec now TaskStatus.unset r e task = refl
end_task-EndSpec now TaskStatus.pending r e task = refl
end_task-EndSpec now TaskStatus.assigned r e task = refl
end_task-EndSpec now TaskStatus.in_progress r e task = refl
end_task-EndSpec now TaskStatus.completed r e task = finish-ends now r e task
end_task-EndSpec now TaskStatus.failed r e task = finish-ends now r e task
end_task-EndSpec now TaskStatus.exited r e task = refl

start_task-starts :
    (now : Time) (status : TaskStatus) (task : TaskInstance)
    → start_task now status task ≡ record task { started_at = start_of status now task.started_at }
unfolding start_task
start_task-starts now TaskStatus.unset task = refl
start_task-starts now TaskStatus.pending task = refl
start_task-starts now TaskStatus.assigned task = refl
start_task-starts now TaskStatus.in_progress task = elim (Option-cases task.started_at) [
  | inl e ↦ rw e refl
  | inr (t, e) ↦ rw e refl
]
start_task-starts now TaskStatus.completed task = refl
start_task-starts now TaskStatus.failed task = refl
start_task-starts now TaskStatus.exited task = refl

-- The columns of the row after the call; the ones that are not named are as before.
abbrev pub RowSpec :
    Time
    → TaskStatus
    → Option Json
    → Option String
    → (Json → Option Json)
    → TaskInstance
    → TaskInstance
    → Type 0
RowSpec now status result err_msg as_jsonb row row' = row' ≡ record row {
  status = status;
  completed_at = if_over status (some now) row.completed_at;
  started_at = start_of status now row.started_at;
  result = as_column as_jsonb (if_over status (or_kept result row.result) row.result);
  error = if_over status (or_old err_msg row.error) row.error;
}

with_status-RowSpec :
    (now : Time) (status : TaskStatus) (result : Option Json) (err_msg : Option String)
    (as_jsonb : Json → Option Json) (row : TaskInstance)
    → RowSpec now status result err_msg as_jsonb row
        (set_instance as_jsonb (with_status now status result err_msg row) row)
unfolding with_status
with_status-RowSpec now status result err_msg as_jsonb row =
    let moved : TaskInstance = record row { status = status } in
    ap (λ t. set_instance as_jsonb t row)
      (ap (start_task now status) (end_task-EndSpec now status result err_msg moved)
        ∙ start_task-starts now status _)

with_status-id :
    (now : Time) (status : TaskStatus) (result : Option Json) (err_msg : Option String)
    (row : TaskInstance)
    → (with_status now status result err_msg row).instance_id ≡ row.instance_id
unfolding with_status
with_status-id now status result err_msg row =
    let moved : TaskInstance = record row { status = status } in
    ap (λ t. t.instance_id)
      (ap (start_task now status) (end_task-EndSpec now status result err_msg moved)
        ∙ start_task-starts now status _)

-- Every other id finds what it found.
abbrev pub OthersStay : Uuid → List TaskInstance → List TaskInstance → Type 0
OthersStay id rows rows' =
    (other : Uuid) → (other ≡ id) ⊎ (find (is_instance other) rows' ≡ find (is_instance other) rows)

-- What becomes of the table of instances and the channel.
abbrev pub UpdateSpec :
    Time
    → Uuid
    → TaskStatus
    → Option Json
    → Option String
    → TaskState
    → Result (Unit {0}) × TaskState
    → Type 0
UpdateSpec now id status result err_msg s (ok _, s') =
    (row : TaskInstance) × (find (is_instance id) s.db.task_instances ≡ some row)
    × ((row' : TaskInstance) × (find (is_instance id) s'.db.task_instances ≡ some row')
        × RowSpec now status result err_msg s.db.as_jsonb row row')
    × OthersStay id s.db.task_instances s'.db.task_instances
    × (s'.enqueue_ch ≡ s.enqueue_ch)
UpdateSpec now id status result err_msg s (err e, s') =
    (s'.db.task_instances ≡ s.db.task_instances)
    × (s'.enqueue_ch ≡ s.enqueue_ch)
    × (((e ≡ not_found) × (find (is_instance id) s.db.task_instances ≡ none))
        ⊎ ((e ≡ unavailable)
            × ((s.db.outage s.db.calls ≡ true) ⊎ (s.db.outage (s.db.calls + 1) ≡ true)))
        ⊎ ((e ≡ invalid_json)
            × ((row : TaskInstance) × (find (is_instance id) s.db.task_instances ≡ some row)
                × (fits_jsonb s.db.as_jsonb (with_status now status result err_msg row).result
                    ≡ false))))

-- The row that was found is the row that is rewritten.
find-rewritten :
    (as_jsonb : Json → Option Json) (id : Uuid) (task : TaskInstance) (rows : List TaskInstance)
    (row : TaskInstance)
    → task.instance_id ≡ id
    → find (is_instance id) rows ≡ some row
    → find
        (is_instance id)
        (update_where (is_instance task.instance_id) (set_instance as_jsonb task) rows)
      ≡ some (set_instance as_jsonb task row)
find-rewritten as_jsonb id task rows row e found =
    rw e
      (find-update_where (is_instance id) (set_instance as_jsonb task) rows row (λ y. refl) found)

update-OthersStay :
    (as_jsonb : Json → Option Json) (id : Uuid) (task : TaskInstance) (rows : List TaskInstance)
    → task.instance_id ≡ id
    → OthersStay id rows
        (update_where (is_instance task.instance_id) (set_instance as_jsonb task) rows)
update-OthersStay as_jsonb id task rows e other = elim (Bool-cases (other == id)) [
  | inl same ↦ inl ((==_iff other id).0 same)
  | inr apart ↦ inr (
      find-update_where_others (is_instance other) (is_instance task.instance_id)
        (set_instance as_jsonb task) rows
        (λ x here. (ground (arith, here, e, apart), ground (arith, here, e, apart))))
]

-- If `UpdateTaskStatus` succeeds, the row of the task has the new status; its time of completion,
-- result and error if the status ends a task, and its start if the status is the first to be in
-- progress; every other column and every other row is as before. If it fails the table is as before,
-- and there is no such task, the database did not answer one of the two statements, or the result is
-- no JSON. The channel is never touched.
pub update_task_status-UpdateSpec :
    (now : Time) (id : Uuid) (status : TaskStatus) (result : Option Json) (err_msg : Option String)
    (s : TaskState)
    → UpdateSpec now id status result err_msg s (update_task_status now id status result err_msg s)
unfolding update_task_status get_task_instance update_task_instance
update_task_status-UpdateSpec now id status result err_msg s =
    elim (Bool-cases (s.db.outage s.db.calls)) [
      | inl down ↦ rw down (refl, refl, inr (inl (refl, inl down)))
      | inr up ↦ elim (Option-cases (find (is_instance id) s.db.task_instances)) [
        | inl missing ↦ rw (up, missing) (refl, refl, inl (refl, missing))
        | inr (row, found) ↦
            let task = with_status now status result err_msg row in
            let same : task.instance_id ≡ id =
              with_status-id now status result err_msg row
              ∙ (==_iff row.instance_id id).0
                  (find_passes (is_instance id) s.db.task_instances row found) in
            elim (Bool-cases (s.db.outage (s.db.calls + 1))) [
              | inl down ↦ rw (up, found, down) (refl, refl, inr (inl (refl, inr down)))
              | inr still ↦ elim (Bool-cases (fits_jsonb s.db.as_jsonb task.result)) [
                | inr bad ↦
                    rw (up, found, still, bad) (refl, refl, inr (inr (refl, (row, found, bad))))
                | inl good ↦
                    rw (up, found, still, good)
                      (
                        row,
                        found,
                        (
                          set_instance s.db.as_jsonb task row,
                          find-rewritten s.db.as_jsonb id task s.db.task_instances row same found,
                          with_status-RowSpec now status result err_msg s.db.as_jsonb row,
                        ),
                        update-OthersStay s.db.as_jsonb id task s.db.task_instances same,
                        refl,
                      )
              ]
            ]
      ]
    ]
