-- ===== src/Dispatch/Calls.antt =====
-- What packets, new commands, pause and resume do to the queue of commands of lib/base/connection.js.
use mathlib.Core.List.{map-append}
use node_mysql.Prelude.{
  ℕ, ◌≡◌, ◌≢◌, refl, sym, ap, ap₂, ◌∙◌, Bool, false, inl, inr, Bool-cases, Option-cases, Option,
  none, some, List, [], ◌∷◌, ◌++◌, append-nil, append_assoc, All, All-append, if◌then◌else◌, ◌==◌,
  subst,
}
use node_mysql.Packet.{Packet}
use node_mysql.Dispatch.{
  Step, thrown, Command, Event, out_of_order, told, connection_error, Core, Dispatcher, say,
  is_none, close, protocol_error, run_command, count_packet, dispatch, handle_packet, add_command,
  add_command_closed, pause, resume, resume_from,
}
use node_mysql.Dispatch.Order.{
  ended_by, ended_by-append, IsHeard, ids, in_queue, account, IsCalm, Keeps, run_command-Keeps,
}

pub data Input (S : Type 0) : Type 0 where
  packet_input : Packet → Input S
  command_input : Command S → Input S
  pause_input resume_input : Input S

module _ {S : Type 0} where
  -- The commands of an input are heard.
  abbrev pub IsHeardInput : Input S → Type 0
  IsHeardInput (command_input cmd) = IsHeard cmd
  IsHeardInput _ = Unit

  -- A new command is accepted unless the connection is closed.
  abbrev pub accepted : Input S → Dispatcher S → List ℕ
  accepted (command_input cmd) d = if d.core.closed then [] else cmd.id ∷ []
  accepted _ d = []

  -- An event that ends no command changes nothing of the account.
  say-Keeps :
      (e : Event) (c : Core S) → ended_by (e ∷ []) ≡ [] → IsCalm c → Keeps (say e c) (account c)
  say-Keeps e c h k = (
    ap (λ xs. xs ++ ids (in_queue c.command c.commands))
        (ended_by-append c.log (e ∷ [])
          ∙ ap (λ xs. ended_by c.log ++ xs) h
          ∙ append-nil (ended_by c.log)),
    record { no_error = k.no_error; heard = k.heard; served = k.served },
  )

  protocol_error-Keeps : (c : Core S) → IsCalm c → Keeps (close (protocol_error c)) (account c)
  unfolding close protocol_error
  protocol_error-Keeps c k = elim (Bool-cases c.closing) [
    | inl y ↦ rw y (refl, record { no_error = k.no_error; heard = k.heard; served = k.served })
    | inr n ↦
        let (e, k1) = say-Keeps connection_error c refl k in
        rw n (e, record { no_error = k1.no_error; heard = k1.heard; served = k1.served })
  ]

  add_command_closed-Keeps :
      (cmd : Command S) (c : Core S) → IsCalm c → Keeps (add_command_closed cmd c) (account c)
  unfolding add_command_closed
  add_command_closed-Keeps cmd c k = elim (Bool-cases cmd.has_callback) [
    | inl y ↦ rw y (say-Keeps (told cmd.id) c refl k)
    | inr n ↦ rw n (say-Keeps connection_error c refl k)
  ]

  -- A command that begins at once.
  first-Keeps :
      (cmd : Command S) (c : Core S)
      → c.command ≡ none
      → IsHeard cmd
      → IsCalm c
      → Keeps (record c { command = some cmd }) (account c ++ (cmd.id ∷ []))
  first-Keeps cmd c e h k =
      let nobody = k.served e in
      (
        ap (λ cmds. ended_by c.log ++ (cmd.id ∷ ids cmds)) nobody
            ∙ ap (λ xs. xs ++ (cmd.id ∷ [])) (sym (append-nil (ended_by c.log)))
            ∙ ap₂ (λ o cmds. (ended_by c.log ++ ids (in_queue o cmds)) ++ (cmd.id ∷ [])) (sym e)
                (sym nobody),
        record {
          no_error = k.no_error;
          heard = subst (λ cmds. All IsHeard (cmd ∷ cmds)) (sym nobody) (h, tt);
          served = λ x. nobody;
        },
      )

  -- A command that waits.
  behind-Keeps :
      (cmd current : Command S) (c : Core S)
      → c.command ≡ some current
      → IsHeard cmd
      → IsCalm c
      → Keeps (record c { commands = c.commands ++ (cmd ∷ []) }) (account c ++ (cmd.id ∷ []))
  behind-Keeps cmd current c e h k =
      let all : All IsHeard (in_queue (some current) c.commands) =
        subst (λ o. All IsHeard (in_queue o c.commands)) e k.heard in
      (
        ap (λ o. ended_by c.log ++ ids (in_queue o (c.commands ++ (cmd ∷ [])))) e
            ∙ ap (λ xs. ended_by c.log ++ (current.id ∷ xs))
                (map-append (λ x. x.id) c.commands (cmd ∷ []))
            ∙ sym (append_assoc (ended_by c.log) (current.id ∷ ids c.commands) (cmd.id ∷ []))
            ∙ ap (λ o. (ended_by c.log ++ ids (in_queue o c.commands)) ++ (cmd.id ∷ [])) (sym e),
        record {
          no_error = k.no_error;
          heard =
              subst (λ o. All IsHeard (in_queue o (c.commands ++ (cmd ∷ [])))) (sym e)
                (all.0, All-append IsHeard c.commands (cmd ∷ []) all.1 (h, tt));
          served = λ x. absurd (cc);
        },
      )

  count_packet_lem :
      (packet : Option Packet) (c : Core S)
      → (ended_by (count_packet packet c).log ≡ ended_by c.log)
        × ((count_packet packet c).has_fatal_error ≡ c.has_fatal_error)
  unfolding count_packet
  count_packet_lem none c = (refl, refl)
  count_packet_lem (some p) c = elim (Bool-cases (c.connection.sequence_id == p.sequence_id)) [
    | inl y ↦ rw y (refl, refl)
    | inr n ↦ rw n (
      ended_by-append c.log (out_of_order c.connection.sequence_id p.sequence_id ∷ [])
          ∙ append-nil (ended_by c.log),
      refl,
    )
  ]

module _ {S : Type 0} (transition : S → Option Packet → Step S) where
  -- One input.
  unfoldable pub input : Input S → Dispatcher S → Dispatcher S
  input (packet_input p) d = handle_packet transition (some p) d
  input (command_input cmd) d = add_command transition cmd d
  input pause_input d = pause d
  input resume_input d = resume transition d

  unfoldable pub inputs : List (Input S) → Dispatcher S → Dispatcher S
  inputs [] d = d
  inputs (i ∷ is) d = inputs is (input i d)

  -- The commands that are accepted on the way.
  unfoldable pub accepted_by : List (Input S) → Dispatcher S → List ℕ
  accepted_by [] d = []
  accepted_by (i ∷ is) d = accepted i d ++ accepted_by is (input i d)

module _ {S : Type 0} (transition : S → Option Packet → Step S)
    (calm : (s : S) (p : Option Packet) → transition s p ≢ thrown) where
  dispatch-Keeps :
      (packet : Option Packet) (c : Core S)
      → IsCalm c
      → Keeps (dispatch transition packet c) (account c)
  unfolding dispatch
  dispatch-Keeps packet c k =
      let go = λ (o : Option (Command S)). elim o as (λ x. Core S) [
        | none ↦ close (protocol_error c)
        | some cmd ↦ run_command transition c.commands cmd packet (count_packet packet c)
      ] in
      elim (Option-cases c.command) [
        | inl e ↦ subst (λ d. Keeps d (account c)) (sym (ap go e)) (protocol_error-Keeps c k)
        | inr (cmd, e) ↦
            let (l, f) = count_packet_lem packet c in
            let all : All IsHeard (in_queue (some cmd) c.commands) =
              subst (λ o. All IsHeard (in_queue o c.commands)) e k.heard in
            let (same, after) =
              run_command-Keeps transition calm c.commands cmd packet (count_packet packet c)
                (f ∙ k.no_error) all.0 all.1 in
            subst (λ d. Keeps d (account c)) (sym (ap go e))
              (
                same
                    ∙ ap (λ xs. xs ++ (cmd.id ∷ ids c.commands)) l
                    ∙ ap (λ o. ended_by c.log ++ ids (in_queue o c.commands)) (sym e),
                after,
              )
      ]

  handle_packet-Keeps :
      (packet : Option Packet) (d : Dispatcher S)
      → IsCalm d.core
      → Keeps (handle_packet transition packet d).core (account d.core)
  unfolding handle_packet
  handle_packet-Keeps packet d k = elim (Bool-cases d.paused) [
    | inl y ↦ rw y (refl, k)
    | inr n ↦ rw n (dispatch-Keeps packet d.core k)
  ]

  add_command-Keeps :
      (cmd : Command S) (d : Dispatcher S)
      → IsHeard cmd
      → IsCalm d.core
      → Keeps (add_command transition cmd d).core (account d.core ++ accepted (command_input cmd) d)
  unfolding add_command
  add_command-Keeps cmd d h k =
      let refused : Dispatcher S = record d { core = add_command_closed cmd d.core } in
      let begun : Dispatcher S =
        handle_packet transition none (record d { core = record d.core { command = some cmd } }) in
      let queued : Dispatcher S = record d {
        core = record d.core { commands = d.core.commands ++ (cmd ∷ []) };
      } in
      let goal = λ (closed idle : Bool).
        Keeps (if closed then refused else if idle then begun else queued).core
          (account d.core ++ (if closed then [] else cmd.id ∷ [])) in
      elim (Bool-cases d.core.closed) [
        | inl y ↦
            let (e, after) = add_command_closed-Keeps cmd d.core k in
            subst (λ b. goal b (is_none d.core.command)) (sym y)
              (e ∙ sym (append-nil (account d.core)), after)
        | inr n ↦
            subst (λ b. goal b (is_none d.core.command)) (sym n)
              (elim (Option-cases d.core.command) [
                | inl e ↦
                    let c1 : Core S = record d.core { command = some cmd } in
                    let (same, k1) = first-Keeps cmd d.core e h k in
                    let (e1, after) = handle_packet-Keeps none (record d { core = c1 }) k1 in
                    subst (λ o. goal false (is_none o)) (sym e) (e1 ∙ same, after)
                | inr (current, e) ↦
                    subst (λ o. goal false (is_none o)) (sym e)
                      (behind-Keeps cmd current d.core e h k)
              ])
      ]

  resume_from-Keeps :
      (ps : List (Option Packet)) (d : Dispatcher S)
      → IsCalm d.core
      → Keeps (resume_from transition ps d).core (account d.core)
  unfolding resume_from
  resume_from-Keeps [] d k = (refl, k)
  resume_from-Keeps (none ∷ ps) d k = (refl, k)
  resume_from-Keeps (some p ∷ ps) d k =
      let d1 = handle_packet transition (some p) (record d { paused_packets = ps }) in
      let (e, k1) = handle_packet-Keeps (some p) (record d { paused_packets = ps }) k in
      elim (Bool-cases d1.paused) [
        | inl y ↦ simp y (e, k1)
        | inr n ↦ let (e2, k2) = resume_from-Keeps ps d1 k1 in simp n (e2 ∙ e, k2)
      ]

  input-Keeps :
      (i : Input S) (d : Dispatcher S)
      → IsHeardInput i
      → IsCalm d.core
      → Keeps (input transition i d).core (account d.core ++ accepted i d)
  unfolding input pause resume
  input-Keeps (packet_input p) d h k =
      let (e, after) = handle_packet-Keeps (some p) d k in
      (e ∙ sym (append-nil (account d.core)), after)
  input-Keeps (command_input cmd) d h k = add_command-Keeps cmd d h k
  input-Keeps pause_input d h k = (sym (append-nil (account d.core)), k)
  input-Keeps resume_input d h k =
      let (e, after) = resume_from-Keeps d.paused_packets (record d { paused = false }) k in
      (e ∙ sym (append-nil (account d.core)), after)

  -- Where no command's state throws and each command hears of its failure, any sequence of packets,
  -- new commands, pauses and resumes keeps the order: the commands that have ended, and then the
  -- current one and those that wait, are those at the start and then the accepted ones, each once
  -- and in the order in which they were added.
  pub inputs-account :
      (is : List (Input S)) (d : Dispatcher S)
      → All IsHeardInput is
      → IsCalm d.core
      → account (inputs transition is d).core ≡ account d.core ++ accepted_by transition is d
  unfolding inputs accepted_by
  inputs-account [] d h k = sym (append-nil (account d.core))
  inputs-account (i ∷ is) d (h, hs) k =
      let (e, k1) = input-Keeps i d h k in
      inputs-account is (input transition i d) hs k1
      ∙ ap (λ xs. xs ++ accepted_by transition is (input transition i d)) e
      ∙ append_assoc (account d.core) (accepted i d)
          (accepted_by transition is (input transition i d))
