-- ===== src/TaskQueue/Serial.antt =====
-- What waits in the queue of lib/compressed_protocol.js, in order.
use node_mysql.Prelude.{
  ◌≡◌, refl, sym, ap, ◌∙◌, true, false, List, [], ◌∷◌, ◌++◌, append_assoc, arith,
}
use node_mysql.TaskQueue.{
  Phase, idle, scheduled, stalled, working, TaskQueue, phase_running, is_running, push, next, begun,
}

module _ {ℓ} {A : Type ℓ} where
  abbrev pub current : Phase A → List A
  current (working a) = a ∷ []
  current _ = []

  -- The task that is worked on, and those behind it.
  abbrev pub waiting : TaskQueue A → List A
  waiting q = current q.phase ++ q.queue

  -- Between the calls of an event loop a queue with tasks is running.
  abbrev pub IsServed : TaskQueue A → Type ℓ
  IsServed q = is_running q ≡ false → q.queue ≡ []

  current-begun : (p : Phase A) → current (begun p) ≡ current p
  current-begun idle = refl
  current-begun scheduled = refl
  current-begun stalled = refl
  current-begun (working a) = refl

  pub waiting-push : (a : A) (q : TaskQueue A) → waiting (push a q) ≡ waiting q ++ (a ∷ [])
  unfolding push
  waiting-push a q =
      ap (λ l. l ++ (q.queue ++ (a ∷ []))) (current-begun q.phase)
      ∙ sym (append_assoc (current q.phase) q.queue (a ∷ []))

  running-begun : (p : Phase A) → phase_running (begun p) ≡ true
  running-begun idle = refl
  running-begun scheduled = refl
  running-begun stalled = refl
  running-begun (working a) = refl

  pub push-IsServed : (a : A) (q : TaskQueue A) → IsServed (push a q)
  unfolding push
  push-IsServed a q h = absurd (cc (running-begun q.phase))

  pub not_running-waiting : (q : TaskQueue A) → IsServed q → is_running q ≡ false → waiting q ≡ []
  not_running-waiting q s h = ground (arith, s h)

  pub waiting-next : (q : TaskQueue A) → waiting (next q) ≡ waiting q
  unfolding next
  waiting-next q = ground arith

  pub next-IsServed : (q : TaskQueue A) → IsServed q → IsServed (next q)
  unfolding next
  next-IsServed q s = ground arith
