-- ===== src/TaskQueue.antt =====
-- The class Queue of lib/compressed_protocol.js: tasks that are run one after another, each when the
-- one before has called `done`. A callback that process.nextTick has still to call, or zlib, is the
-- phase: `scheduled` for a call of `_next`, `working` for a task that is not done yet. A task that fails
-- never calls `done`, and leaves the queue `stalled`.
pub mod Serial
pub mod Pipe
use node_mysql.Prelude.{ℕ, Bool, true, false, List, [], ◌∷◌, ◌++◌}

pub data Phase {ℓ} (A : Type ℓ) : Type ℓ where
  idle scheduled stalled : Phase A
  working : A → Phase A

pub record TaskQueue {ℓ} (A : Type ℓ) : Type ℓ where
  pub queue : List A
  pub phase : Phase A

module _ {ℓ} {A : Type ℓ} where
  -- `_running`
  abbrev pub phase_running : Phase A → Bool
  phase_running idle = false
  phase_running _ = true

  abbrev pub is_running : TaskQueue A → Bool
  is_running q = phase_running q.phase

  unfoldable pub new_queue : TaskQueue A
  new_queue = record { queue = []; phase = idle }

  abbrev pub begun : Phase A → Phase A
  begun idle = scheduled
  begun scheduled = scheduled
  begun stalled = stalled
  begun (working a) = working a

  unfoldable pub push : A → TaskQueue A → TaskQueue A
  push a q = record { queue = q.queue ++ (a ∷ []); phase = begun q.phase }

  abbrev pub take_task : List A → TaskQueue A
  take_task [] = record { queue = []; phase = idle }
  take_task (a ∷ rest) = record { queue = rest; phase = working a }

  abbrev pub at_tick : Phase A → List A → TaskQueue A
  at_tick idle rest = record { queue = rest; phase = idle }
  at_tick scheduled rest = take_task rest
  at_tick stalled rest = record { queue = rest; phase = stalled }
  at_tick (working a) rest = record { queue = rest; phase = working a }

  -- `_next()`, when it is scheduled.
  unfoldable pub next : TaskQueue A → TaskQueue A
  next q = at_tick q.phase q.queue
