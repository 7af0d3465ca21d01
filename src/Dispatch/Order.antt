-- ===== src/Dispatch/Order.antt =====
-- The queue of commands of lib/base/connection.js where nothing throws: commands end in the order in
-- which they were added.
use node_mysql.Prelude.{
  ℕ, ◌≡◌, ◌≢◌, refl, sym, ap, ap₂, ◌∙◌, Bool, true, false, ◌⊎◌, inl, inr, Bool-cases, Option, none,
  some, List, [], ◌∷◌, ◌++◌, append-nil, append_assoc, All, if◌then◌else◌, map, subst,
}
use node_mysql.Packet.{Packet}
use node_mysql.Dispatch.{
  Step, go_on, finished, thrown, Command, Event, out_of_order, told, failed, ended,
  connection_error, Core, Outcome, not_done, threw, done, reset, is_none, or_else, carries_error,
  fail, take_step, execute, settle, run_command,
}

-- The commands that have ended, by the log.
abbrev pub ended_by : List Event → List ℕ
ended_by [] = []
ended_by (ended id ∷ es) = id ∷ ended_by es
ended_by (out_of_order a b ∷ es) = ended_by es
ended_by (told id ∷ es) = ended_by es
ended_by (failed id ∷ es) = ended_by es
ended_by (connection_error ∷ es) = ended_by es

pub ended_by-append : (es fs : List Event) → ended_by (es ++ fs) ≡ ended_by es ++ ended_by fs
ended_by-append [] fs = refl
ended_by-append (ended id ∷ es) fs = ap (id ∷◌) (ended_by-append es fs)
ended_by-append (out_of_order a b ∷ es) fs = ended_by-append es fs
ended_by-append (told id ∷ es) fs = ended_by-append es fs
ended_by-append (failed id ∷ es) fs = ended_by-append es fs
ended_by-append (connection_error ∷ es) fs = ended_by-append es fs

two_events :
    (es : List Event) (e : Event) (id : ℕ)
    → ended_by (e ∷ []) ≡ []
    → ended_by ((es ++ (e ∷ [])) ++ (ended id ∷ [])) ≡ ended_by es ++ (id ∷ [])
two_events es e id h =
    ended_by-append (es ++ (e ∷ [])) (ended id ∷ [])
    ∙ ap (λ xs. xs ++ (id ∷ []))
        (ended_by-append es (e ∷ []) ∙ ap (λ xs. ended_by es ++ xs) h ∙ append-nil (ended_by es))

-- A command whose failure is heard of.
abbrev pub IsHeard : {S : Type 0} → Command S → Type 0
IsHeard cmd = (cmd.has_callback ≡ true) ⊎ (cmd.has_listener ≡ true)

module _ {S : Type 0} where
  abbrev pub ids : List (Command S) → List ℕ
  ids cmds = map (λ cmd. cmd.id) cmds

  -- The commands that have been accepted and have not ended, the current one first.
  abbrev pub in_queue : Option (Command S) → List (Command S) → List (Command S)
  in_queue none cmds = cmds
  in_queue (some cmd) cmds = cmd ∷ cmds

  -- The commands that ended, and those that wait, in order.
  abbrev pub account : Core S → List ℕ
  account c = ended_by c.log ++ ids (in_queue c.command c.commands)

  pub record IsCalm (c : Core S) : Type 0 where
    pub no_error : c.has_fatal_error ≡ false
    pub heard : All IsHeard (in_queue c.command c.commands)
    pub served : c.command ≡ none → c.commands ≡ []

  -- What a call of `execute` leaves of a command.
  abbrev Leaves : Command S → Core S → Outcome S → Type 0
  Leaves cmd c (not_done cmd' c') =
      (cmd'.id ≡ cmd.id)
      × IsHeard cmd'
      × (ended_by c'.log ≡ ended_by c.log)
      × (c'.has_fatal_error ≡ c.has_fatal_error)
  Leaves cmd c (threw cmd' c') = ⊥
  Leaves cmd c (done c') =
      (ended_by c'.log ≡ ended_by c.log ++ (cmd.id ∷ [])) × (c'.has_fatal_error ≡ c.has_fatal_error)

  fail-Leaves : (cmd : Command S) (c : Core S) → IsHeard cmd → Leaves cmd c (fail cmd c)
  unfolding fail
  fail-Leaves cmd c h = elim (Bool-cases cmd.has_callback) [
    | inl y ↦ rw y (two_events c.log (told cmd.id) cmd.id refl, refl)
    | inr n ↦
        let listens : cmd.has_listener ≡ true = elim h [ inl y ↦ absurd (cc) | inr l ↦ l ] in
        rw (n, listens) (two_events c.log (failed cmd.id) cmd.id refl, refl)
  ]

  take_step-Leaves :
      (t : Step S) (cmd : Command S) (c : Core S)
      → t ≢ thrown
      → IsHeard cmd
      → Leaves cmd c (take_step t cmd c)
  unfolding take_step
  take_step-Leaves (go_on s) cmd c k h = (refl, h, refl, refl)
  take_step-Leaves finished cmd c k h = (ended_by-append c.log (ended cmd.id ∷ []), refl)
  take_step-Leaves thrown cmd c k h = k refl

  Leaves-eq :
      (cmd cmd1 : Command S) (c c1 : Core S) (o : Outcome S)
      → cmd1.id ≡ cmd.id
      → c1.log ≡ c.log
      → c1.has_fatal_error ≡ c.has_fatal_error
      → Leaves cmd1 c1 o
      → Leaves cmd c o
  Leaves-eq cmd cmd1 c c1 (not_done cmd' c') i l f (e, h, g, k) =
      (e ∙ i, h, g ∙ ap ended_by l, k ∙ f)
  Leaves-eq cmd cmd1 c c1 (threw cmd' c') i l f r = r
  Leaves-eq cmd cmd1 c c1 (done c') i l f (g, k) =
      (g ∙ ap₂ (λ es id. ended_by es ++ (id ∷ [])) l i, k ∙ f)

  begun :
      (b : Bool) (c : Core S)
      → let c1 = (if b then reset c else c) in
        (c1.log ≡ c.log) × (c1.has_fatal_error ≡ c.has_fatal_error)
  begun true c = (refl, refl)
  begun false c = (refl, refl)

  -- What a packet leaves of the queue: every command that goes is on the log.
  abbrev pub Keeps : Core S → List ℕ → Type 0
  Keeps c xs = (account c ≡ xs) × IsCalm c

module _ {S : Type 0} (transition : S → Option Packet → Step S)
    (calm : (s : S) (p : Option Packet) → transition s p ≢ thrown) where
  execute-Leaves :
      (cmd : Command S) (packet : Option Packet) (c : Core S)
      → IsHeard cmd
      → Leaves cmd c (execute transition cmd packet c)
  unfolding execute
  execute-Leaves cmd packet c h =
      let c1 : Core S = (if is_none cmd.next then reset c else c) in
      let state = or_else cmd.next cmd.start in
      let cmd1 : Command S = record cmd { next = some state } in
      let (l, f) = begun (is_none cmd.next) c in
      elim (Bool-cases (carries_error packet)) [
        | inl y ↦ rw y (Leaves-eq cmd cmd1 c c1 (fail cmd1 c1) refl l f (fail-Leaves cmd1 c1 h))
        | inr n ↦ rw n (
            Leaves-eq cmd cmd1 c c1 (take_step (transition state packet) cmd1 c1) refl l f
              (take_step-Leaves (transition state packet) cmd1 c1 (calm state packet) h))
      ]

  settle-Keeps :
      (ws : List (Command S)) (next : Core S → Core S) (cmd : Command S) (c : Core S)
      (o : Outcome S)
      → Leaves cmd c o
      → c.has_fatal_error ≡ false
      → All IsHeard ws
      → ((c' : Core S)
          → ended_by c'.log ≡ ended_by c.log ++ (cmd.id ∷ [])
          → c'.has_fatal_error ≡ false
          → Keeps (next c') (ended_by c.log ++ (cmd.id ∷ ids ws)))
      → Keeps (settle ws next o) (ended_by c.log ++ (cmd.id ∷ ids ws))
  unfolding settle
  settle-Keeps ws next cmd c (not_done cmd' c') (i, h, g, k) f hs go = (
    ap₂ (λ xs id. xs ++ (id ∷ ids ws)) g i,
    record { no_error = k ∙ f; heard = (h, hs); served = λ e. absurd (cc) },
  )
  settle-Keeps ws next cmd c (threw cmd' c') r f hs go = absurd r
  settle-Keeps ws next cmd c (done c') (g, k) f hs go = go c' g (k ∙ f)

  pub run_command-Keeps :
      (ws : List (Command S)) (cmd : Command S) (packet : Option Packet) (c : Core S)
      → c.has_fatal_error ≡ false
      → IsHeard cmd
      → All IsHeard ws
      → Keeps (run_command transition ws cmd packet c) (ended_by c.log ++ (cmd.id ∷ ids ws))
  unfolding run_command
  run_command-Keeps [] cmd packet c f h hs =
      let empty = λ (c' : Core S). record c' { command = none; commands = [] } in
      let opened : run_command transition [] cmd packet c
          ≡ settle [] empty (execute transition cmd packet c) =
        ap
          (λ b.
            if b
            then record c { command = some cmd; commands = [] }
            else settle [] empty (execute transition cmd packet c))
          f in
      subst (λ d. Keeps d (ended_by c.log ++ (cmd.id ∷ []))) (sym opened)
        (settle-Keeps [] empty cmd c (execute transition cmd packet c)
          (execute-Leaves cmd packet c h) f tt
          (λ c' g k. (
            append-nil (ended_by c'.log) ∙ g,
            record { no_error = k; heard = tt; served = λ e. refl },
          )))
  run_command-Keeps (w ∷ ws) cmd packet c f h (hw, hws) =
      let next = λ (c' : Core S). run_command transition ws w none (reset c') in
      let opened : run_command transition (w ∷ ws) cmd packet c
          ≡ settle (w ∷ ws) next (execute transition cmd packet c) =
        ap
          (λ b.
            if b
            then record c { command = some cmd; commands = w ∷ ws }
            else settle (w ∷ ws) next (execute transition cmd packet c))
          f in
      subst (λ d. Keeps d (ended_by c.log ++ (cmd.id ∷ ids (w ∷ ws)))) (sym opened)
        (settle-Keeps (w ∷ ws) next cmd c (execute transition cmd packet c)
          (execute-Leaves cmd packet c h) f (hw, hws)
          (λ c' g k.
            let (same, calm_after) = run_command-Keeps ws w none (reset c') k hw hws in
            (
              same
                  ∙ ap (λ xs. xs ++ (w.id ∷ ids ws)) g
                  ∙ append_assoc (ended_by c.log) (cmd.id ∷ []) (w.id ∷ ids ws),
              calm_after,
            )))
