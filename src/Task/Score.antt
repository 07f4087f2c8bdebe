-- ===== src/Task/Score.antt =====
-- task_queue.go: `CalculatePriorityScore` and `CalculateMembershipBoost`.
-- A score is a float64 of hours in the source. Here it is an integer, the score times the number of
-- nanoseconds in an hour: a priority level is worth one hour, and the age of a task, as
-- `time.Since` gives it in nanoseconds, at most one. The rounding of float64 is not modelled.
use catgirl.Base.{
  ℕ, ◌+◌, ◌*◌, ◌≤◌, ◌<◌, ◌≡◌, ℤ, pos, sub_ℕ, ◌+ℤ◌, ◌≤ℤ◌, ◌<ℤ◌, ltb_ℤ, +ℤ_parts, String, str_eq,
  if◌then◌else◌, arith,
}
use catgirl.Models.{Time, Priority, low, normal, high, critical, TaskInstance}

abbrev pub hour : ℕ
hour = 3_600_000_000_000

abbrev pub base_priority : Priority → ℕ
base_priority low = 0
base_priority normal = 1
base_priority high = 2
base_priority critical = 3
base_priority (Priority.other text) = 0

-- `min(ageMinutes/60, 1)`; a task from the future has a negative age.
unfoldable pub age_boost : Time → Time → ℤ
age_boost now created_at =
    let age = sub_ℕ now created_at in if ltb_ℤ age (pos hour) then age else pos hour

unfoldable pub calculate_priority_score : Time → TaskInstance → ℤ → ℤ
calculate_priority_score now task session_boost =
    pos (base_priority task.priority * hour) +ℤ session_boost +ℤ age_boost now task.created_at

-- In the unit of the scores: half an hour is 0.5.
unfoldable pub calculate_membership_boost : String → ℕ
calculate_membership_boost membership =
    if str_eq membership "free"
    then 0
    else if str_eq membership "basic"
    then 1_800_000_000_000
    else if str_eq membership "pro"
    then hour
    else if str_eq membership "enterprise"
    then 2 * hour
    else 0

pub age_boost-le-hour : (now created_at : Time) → age_boost now created_at ≤ℤ pos hour
unfolding age_boost
age_boost-le-hour now created_at = ground arith

pub age_boost_pos : (now created_at : Time) → created_at ≤ now → pos 0 ≤ℤ age_boost now created_at
unfolding age_boost
age_boost_pos now created_at h = ground arith

pub age_boost_mono :
    (now later earlier : Time) → later ≤ earlier → age_boost now earlier ≤ℤ age_boost now later
unfolding age_boost
age_boost_mono now later earlier h = ground arith

-- A task from the past that is two levels above another one has the higher score, however long the
-- other has waited.
pub score-lt_of_gap :
    (now : Time) (low_task high_task : TaskInstance) (boost : ℤ)
    → base_priority low_task.priority + 1 < base_priority high_task.priority
    → high_task.created_at ≤ now
    → calculate_priority_score now low_task boost <ℤ calculate_priority_score now high_task boost
unfolding calculate_priority_score
score-lt_of_gap now a b boost gap past =
    omega (arith, +ℤ_parts, age_boost-le-hour now a.created_at, age_boost_pos now b.created_at past)

-- With equal priorities the older task has at least the score of the younger one.
pub score-le_of_older :
    (now : Time) (older younger : TaskInstance) (boost : ℤ)
    → older.priority ≡ younger.priority
    → older.created_at ≤ younger.created_at
    → calculate_priority_score now younger boost ≤ℤ calculate_priority_score now older boost
unfolding calculate_priority_score
score-le_of_older now a b boost same h =
    rw same (omega (arith, +ℤ_parts, age_boost_mono now a.created_at b.created_at h))
