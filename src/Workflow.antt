-- ===== src/Workflow.antt =====
-- packages/workflow: the predicates of decision points and the durable task queue.
pub mod Predicate
pub mod Playbook
pub mod Queue
pub mod State
pub mod Instances
pub mod Engine
pub mod Tick
pub mod Resume
pub mod Listener
pub mod ListenerPass
pub mod Scheduler
