-- ===== src/TaskQueue/Pipe.antt =====
-- lib/compressed_protocol.js: work that is done at once while the queue does not run, and is queued
-- otherwise. `out` is what has come of it, in order; `failed` is set when zlib gives an error.
pub mod Order
pub mod Drain
use node_mysql.Prelude.{
  ℕ, zero, suc, Bool, true, false, Option, none, some, List, [], ◌∷◌, ◌++◌, if◌then◌else◌,
}
use node_mysql.TaskQueue.{
  Phase, idle, scheduled, stalled, working, TaskQueue, is_running, new_queue, push, next,
}

pub record Pipe (A B : Type 0) : Type 0 where
  pub tasks : TaskQueue A
  pub out : List B
  pub failed : Bool

module _ {A B : Type 0} where
  unfoldable pub new_pipe : Pipe A B
  unfolding new_queue
  new_pipe = record { tasks = new_queue; out = []; failed = false }

  -- What zlib answers.
  abbrev pub emit : Option B → Pipe A B → Pipe A B
  emit none p = record p { failed = true }
  emit (some b) p = record p { out = p.out ++ (b ∷ []) }

  abbrev pub enqueue : A → Pipe A B → Pipe A B
  enqueue a p = record p { tasks = push a p.tasks }

  abbrev pub inline_or_queue : Option (Option B) → A → Pipe A B → Pipe A B
  inline_or_queue none a p = enqueue a p
  inline_or_queue (some r) a p = emit r p

  -- Some work is never done at once: the first argument is none for it.
  unfoldable pub submit : Option (Option B) → A → Pipe A B → Pipe A B
  submit inline a p = if is_running p.tasks then enqueue a p else inline_or_queue inline a p

  unfoldable pub tick : Pipe A B → Pipe A B
  tick p = record p { tasks = next p.tasks }

  abbrev pub completed : Option B → Pipe A B → Pipe A B
  completed none p = record p {
    failed = true;
    tasks = record { queue = p.tasks.queue; phase = stalled };
  }
  completed (some b) p = record p {
    out = p.out ++ (b ∷ []);
    tasks = record { queue = p.tasks.queue; phase = scheduled };
  }

  abbrev pub complete_phase : (A → Option B) → Phase A → Pipe A B → Pipe A B
  complete_phase work (working a) p = completed (work a) p
  complete_phase work _ p = p

  -- zlib is done with the task.
  unfoldable pub complete : (A → Option B) → Pipe A B → Pipe A B
  complete work p = complete_phase work p.tasks.phase p
