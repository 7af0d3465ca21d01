-- ===== src/TaskQueue/Pipe/Drain.antt =====
-- A queue of lib/compressed_protocol.js comes to its end, if zlib does not fail.
use node_mysql.Prelude.{
  ℕ, zero, suc, ◌≤◌, ◌≡◌, ◌≢◌, if-elim, refl, sym, ap, ◌∙◌, false, Option, none, some, List, [],
  ◌∷◌, length, length-drop, drop, arith,
}
use node_mysql.TaskQueue.{
  Phase, idle, scheduled, stalled, working, is_running, next, push, begun, at_tick,
}
use node_mysql.TaskQueue.Serial.{waiting, IsServed, push-IsServed, next-IsServed}
use node_mysql.TaskQueue.Pipe.{Pipe, enqueue, submit, tick, complete, complete_phase}

module _ {A B : Type 0} (work : A → Option B) where
  -- A turn of the event loop, in which the next task is begun and zlib is done with it.
  abbrev pub turn : Pipe A B → Pipe A B
  turn p = complete work (tick p)

  abbrev pub turns : ℕ → Pipe A B → Pipe A B
  turns zero p = p
  turns (suc n) p = turns n (turn p)

  abbrev pub IsMoving : Phase A → Type 0
  IsMoving stalled = ⊥
  IsMoving _ = Unit

  -- A pipe that has not failed, and whose queue runs if it has tasks.
  pub record IsGoing (p : Pipe A B) : Type 0 where
    pub moving : IsMoving p.tasks.phase
    pub served : IsServed p.tasks
    pub sound : p.failed ≡ false

  record Turned (p q : Pipe A B) : Type 0 where
    going : IsGoing q
    less : waiting q.tasks ≡ drop 1 (waiting p.tasks)

  worked :
      (p : Pipe A B) (a : A) (behind : List A)
      → ((a : A) → (b : B) × (work a ≡ some b))
      → p.failed ≡ false
      → Turned
          (record p { tasks = record { queue = behind; phase = working a } })
          (turn (record p { tasks = record { queue = behind; phase = working a } }))
  unfolding tick complete next
  worked p a behind total s =
      let (b, e) = total a in
      rw e (record { going = record { moving = tt; served = λ f. cc; sound = s }; less = refl })

  turn-Turned :
      (p : Pipe A B) (ph : Phase A) (queue : List A)
      → ((a : A) → (b : B) × (work a ≡ some b))
      → IsGoing (record p { tasks = record { queue = queue; phase = ph } })
      → Turned
          (record p { tasks = record { queue = queue; phase = ph } })
          (turn (record p { tasks = record { queue = queue; phase = ph } }))
  unfolding tick complete next
  turn-Turned p idle queue total g = record {
    going = g;
    less = g.served refl ∙ sym (ap (drop 1) (g.served refl));
  }
  turn-Turned p scheduled [] total g = record {
    going = record { moving = tt; served = λ e. refl; sound = g.sound };
    less = refl;
  }
  turn-Turned p scheduled (a ∷ behind) total g =
      let (b, e) = total a in
      rw e
        (record { going = record { moving = tt; served = λ f. cc; sound = g.sound }; less = refl })
  turn-Turned p (working a) queue total g = worked p a queue total g.sound
  turn-Turned p stalled queue total g = absurd g.moving

  pub turns-waiting :
      (n : ℕ) (p : Pipe A B)
      → ((a : A) → (b : B) × (work a ≡ some b))
      → length (waiting p.tasks) ≤ n
      → IsGoing p
      → (waiting (turns n p).tasks ≡ []) × IsGoing (turns n p)
  turns-waiting zero p total l g = (ground arith, g)
  turns-waiting (suc n) p total l g =
      let t = turn-Turned p p.tasks.phase p.tasks.queue total g in
      turns-waiting n (turn p) total
        (omega (arith, ap length t.less, length-drop {0} 1 (waiting p.tasks))) t.going

  IsMoving-begun : (ph : Phase A) → IsMoving ph → IsMoving (begun ph)
  IsMoving-begun idle h = tt
  IsMoving-begun scheduled h = tt
  IsMoving-begun stalled h = h
  IsMoving-begun (working a) h = tt

  enqueue-IsGoing : (a : A) (p : Pipe A B) → IsGoing p → IsGoing (enqueue a p)
  unfolding push
  enqueue-IsGoing a p g = record {
    moving = IsMoving-begun p.tasks.phase g.moving;
    served = push-IsServed a p.tasks;
    sound = g.sound;
  }

  pub submit-IsGoing :
      (inline : Option (Option B)) (a : A) (p : Pipe A B)
      → inline ≢ some none
      → IsGoing p
      → IsGoing (submit inline a p)
  unfolding submit
  submit-IsGoing none a p n g =
      if-elim IsGoing (is_running p.tasks) _ _ (λ e. enqueue-IsGoing a p g)
        (λ e. enqueue-IsGoing a p g)
  submit-IsGoing (some none) a p n g = absurd (n refl)
  submit-IsGoing (some (some b)) a p n g =
      if-elim IsGoing (is_running p.tasks) _ _ (λ e. enqueue-IsGoing a p g)
        (λ e. record { moving = g.moving; served = g.served; sound = g.sound })

  tick-IsMoving : (ph : Phase A) (queue : List A) → IsMoving ph → IsMoving (at_tick ph queue).phase
  tick-IsMoving idle queue h = tt
  tick-IsMoving scheduled [] h = tt
  tick-IsMoving scheduled (a ∷ behind) h = tt
  tick-IsMoving stalled queue h = h
  tick-IsMoving (working a) queue h = tt

  pub tick-IsGoing : (p : Pipe A B) → IsGoing p → IsGoing (tick p)
  unfolding tick next
  tick-IsGoing p g = record {
    moving = tick-IsMoving p.tasks.phase p.tasks.queue g.moving;
    served = next-IsServed p.tasks g.served;
    sound = g.sound;
  }

  pub complete-IsGoing :
      (p : Pipe A B)
      → ((a : A) → (b : B) × (work a ≡ some b))
      → IsGoing p
      → IsGoing (complete work p)
  unfolding complete
  complete-IsGoing p total g = go p.tasks.phase
    where
      go : (ph : Phase A) → IsGoing (complete_phase work ph p)
      go idle = g
      go scheduled = g
      go stalled = g
      go (working a) =
          let (b, e) = total a in rw e (record { moving = tt; served = λ f. cc; sound = g.sound })
