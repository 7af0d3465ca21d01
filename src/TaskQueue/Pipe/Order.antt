-- ===== src/TaskQueue/Pipe/Order.antt =====
-- The order of what comes out of a queue of lib/compressed_protocol.js.
use node_mysql.Prelude.{
  ◌≡◌, refl, sym, ap, ◌∙◌, false, Option, none, some, List, [], ◌∷◌, ◌++◌, map, append-nil,
  append_assoc, if-elim,
}
use mathlib.Core.List.{map-append}
use node_mysql.TaskQueue.{Phase, idle, scheduled, stalled, working, is_running}
use node_mysql.TaskQueue.Serial.{
  waiting, IsServed, waiting-push, push-IsServed, not_running-waiting, waiting-next, next-IsServed,
}
use node_mysql.TaskQueue.Pipe.{
  Pipe, new_pipe, emit, enqueue, submit, tick, completed, complete_phase, complete,
}

-- `seen` is what a result stands for, `value` what a task does.
module _ {A B C : Type 0} (seen : B → C) (value : A → C) where
  -- What came out and what waits is all that was put in, in order, unless zlib has failed.
  pub record IsOrdered (p : Pipe A B) (sent : List A) : Type 0 where
    pub order : p.failed ≡ false → map seen p.out ++ map value (waiting p.tasks) ≡ map value sent
    pub served : IsServed p.tasks

  pub new_pipe-IsOrdered : IsOrdered new_pipe []
  unfolding new_pipe
  new_pipe-IsOrdered = record { order = λ e. refl; served = λ e. refl }

  enqueue-IsOrdered :
      (a : A) (p : Pipe A B) (sent : List A)
      → IsOrdered p sent
      → IsOrdered (enqueue a p) (sent ++ (a ∷ []))
  enqueue-IsOrdered a p sent h = record {
    order = λ e.
        ap (λ l. map seen p.out ++ map value l) (waiting-push a p.tasks)
        ∙ ap (map seen p.out ++◌) (map-append value (waiting p.tasks) (a ∷ []))
        ∙ sym (append_assoc (map seen p.out) (map value (waiting p.tasks)) (value a ∷ []))
        ∙ ap (◌++ value a ∷ []) (h.order e)
        ∙ sym (map-append value sent (a ∷ []));
    served = push-IsServed a p.tasks;
  }

  -- One more result, of the next task.
  out-order :
      (out : List B) (b : B) (a : A) (behind sent : List A)
      → seen b ≡ value a
      → map seen out ++ map value (a ∷ behind) ≡ map value sent
      → map seen (out ++ (b ∷ [])) ++ map value behind ≡ map value sent
  out-order out b a behind sent s h =
      ap (◌++ map value behind) (map-append seen out (b ∷ []))
      ∙ append_assoc (map seen out) (seen b ∷ []) (map value behind)
      ∙ ap (λ c. map seen out ++ c ∷ map value behind) s
      ∙ h

  emit-IsOrdered :
      (r : Option B) (a : A) (p : Pipe A B) (sent : List A)
      → ((b : B) → r ≡ some b → seen b ≡ value a)
      → is_running p.tasks ≡ false
      → IsOrdered p sent
      → IsOrdered (emit r p) (sent ++ (a ∷ []))
  emit-IsOrdered none a p sent s n h = record { order = λ e. cc; served = h.served }
  emit-IsOrdered (some b) a p sent s n h =
      let none_waits = not_running-waiting p.tasks h.served n in
      record {
        order = λ e.
            ap (λ l. map seen (p.out ++ (b ∷ [])) ++ map value l) none_waits
            ∙ out-order p.out b a [] (sent ++ (a ∷ [])) (s b refl) (
                ap (◌++ value a ∷ []) (
                  sym (append-nil (map seen p.out))
                  ∙ sym (ap (λ l. map seen p.out ++ map value l) none_waits)
                  ∙ h.order e)
                ∙ sym (map-append value sent (a ∷ [])));
        served = h.served;
      }

  pub submit-IsOrdered :
      (inline : Option (Option B)) (a : A) (p : Pipe A B) (sent : List A)
      → ((b : B) → inline ≡ some (some b) → seen b ≡ value a)
      → IsOrdered p sent
      → IsOrdered (submit inline a p) (sent ++ (a ∷ []))
  unfolding submit
  submit-IsOrdered none a p sent s h =
      if-elim (λ q. IsOrdered q (sent ++ (a ∷ []))) (is_running p.tasks) _ _
        (λ r. enqueue-IsOrdered a p sent h) (λ r. enqueue-IsOrdered a p sent h)
  submit-IsOrdered (some r) a p sent s h =
      if-elim (λ q. IsOrdered q (sent ++ (a ∷ []))) (is_running p.tasks) _ _
        (λ e. enqueue-IsOrdered a p sent h)
        (λ e. emit-IsOrdered r a p sent (λ b i. s b (ap some i)) e h)

  pub tick-IsOrdered : (p : Pipe A B) (sent : List A) → IsOrdered p sent → IsOrdered (tick p) sent
  unfolding tick
  tick-IsOrdered p sent h = record {
    order = λ e. ap (λ l. map seen p.out ++ map value l) (waiting-next p.tasks) ∙ h.order e;
    served = next-IsServed p.tasks h.served;
  }

  completed-IsOrdered :
      (r : Option B) (a : A) (p : Pipe A B) (sent : List A)
      → ((b : B) → r ≡ some b → seen b ≡ value a)
      → p.tasks.phase ≡ working a
      → IsOrdered p sent
      → IsOrdered (completed r p) sent
  completed-IsOrdered none a p sent s e h = record { order = λ f. cc; served = λ f. cc }
  completed-IsOrdered (some b) a p sent s e h = record {
    order = λ f. out-order p.out b a p.tasks.queue sent (s b refl) (
        sym (
          ap
            (λ ph.
              map seen p.out ++ map value (waiting (record { queue = p.tasks.queue; phase = ph })))
            e)
        ∙ h.order f);
    served = λ f. cc;
  }

  pub complete-IsOrdered :
      (work : A → Option B) (p : Pipe A B) (sent : List A)
      → ((a : A) (b : B) → work a ≡ some b → seen b ≡ value a)
      → IsOrdered p sent
      → IsOrdered (complete work p) sent
  unfolding complete
  complete-IsOrdered work p sent s h = go p.tasks.phase refl
    where
      go : (ph : Phase A) → p.tasks.phase ≡ ph → IsOrdered (complete_phase work ph p) sent
      go idle e = h
      go scheduled e = h
      go stalled e = h
      go (working a) e = completed-IsOrdered (work a) a p sent (s a) e h
