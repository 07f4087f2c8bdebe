-- ===== src/Task.antt =====
-- internal/services/task/task_queue.go
pub mod Score
pub mod PriorityQueue
pub mod GlobalQueue
pub mod Service
