-- ===== src/Dispatch.antt =====
-- lib/base/connection.js, the queue of commands: which command gets a packet, what becomes of the
-- commands on an error, pause and resume; and `Command.execute` of lib/commands/command.js.
-- What a command's own state does with a packet is a parameter, `transition`. The two queues are the
-- lists that they stand for. `log` is what commands and the connection are told, in order: the user's
-- handlers are taken to return, and the connection to have an `error` handler.
pub mod Order
pub mod Calls
pub mod Paused
pub mod Fatal
mod Tests
use node_mysql.Prelude.{
  ℕ, zero, suc, Bool, true, false, not, ◌&&◌, ◌||◌, Option, none, some, List, [], ◌∷◌, ◌++◌, ◌==◌,
  if◌then◌else◌,
}
use node_mysql.Packet.{Packet, is_error, clone}
use node_mysql.Connection.{Connection, reset_sequence_id, bump_sequence_id}

-- What `this.next(packet, connection)` does: it returns the next state, or none, or throws.
pub data Step (S : Type 0) : Type 0 where
  go_on : S → Step S
  finished thrown : Step S

-- `has_callback` where the command has `onResult`, `has_listener` where its `error` event is heard.
pub record Command (S : Type 0) : Type 0 where
  pub id : ℕ
  pub start : S
  pub next : Option S
  pub has_callback : Bool
  pub has_listener : Bool
  pub is_handshake : Bool

pub data Event : Type 0 where
  out_of_order : ℕ → ℕ → Event
  told failed ended : ℕ → Event
  connection_error : Event

pub record Core (S : Type 0) : Type 0 where
  pub command : Option (Command S)
  pub commands : List (Command S)
  pub connection : Connection
  pub has_fatal_error : Bool
  pub closing : Bool
  pub closed : Bool
  pub listening : Bool
  pub pooled : Bool
  pub log : List Event

pub record Dispatcher (S : Type 0) : Type 0 where
  pub core : Core S
  pub paused : Bool
  pub paused_packets : List (Option Packet)
  pub flowing : Bool

-- What `execute` returns, `true` for `done`, with the command where the connection keeps it.
pub data Outcome (S : Type 0) : Type 0 where
  not_done threw : Command S → Core S → Outcome S
  done : Core S → Outcome S

abbrev pub is_none {ℓ} : {A : Type ℓ} → Option A → Bool
is_none none = true
is_none (some a) = false

abbrev pub or_else {ℓ} : {A : Type ℓ} → Option A → A → A
or_else none a = a
or_else (some b) a = b

abbrev pub carries_error : Option Packet → Bool
carries_error none = false
carries_error (some p) = is_error p

abbrev pub copy : Option Packet → Option Packet
copy none = none
copy (some p) = some (clone p)

module _ {S : Type 0} where
  abbrev pub say : Event → Core S → Core S
  say e c = record c { log = c.log ++ (e ∷ []) }

  abbrev pub reset : Core S → Core S
  reset c = record c { connection = reset_sequence_id c.connection }

  unfoldable pub close : Core S → Core S
  close c = record c { closing = true; closed = true }

  unfoldable pub protocol_error : Core S → Core S
  protocol_error c = if c.closing then c else say connection_error c

  -- An error packet: the callback is told, or the `error` event is emitted, which throws unheard.
  unfoldable pub fail : Command S → Core S → Outcome S
  fail cmd c =
      if cmd.has_callback
      then done (say (ended cmd.id) (say (told cmd.id) c))
      else if cmd.has_listener
      then done (say (ended cmd.id) (say (failed cmd.id) c))
      else threw cmd c

  unfoldable pub take_step : Step S → Command S → Core S → Outcome S
  take_step (go_on s) cmd c = not_done (record cmd { next = some s }) c
  take_step finished cmd c = done (say (ended cmd.id) c)
  take_step thrown cmd c = threw cmd c

  -- The loop of `_notifyError` over the waiting commands: what they are told, and whether one of them
  -- has no callback.
  unfoldable pub tell_waiting : List (Command S) → List Event × Bool
  tell_waiting [] = ([], false)
  tell_waiting (cmd ∷ cmds) =
      let (events, bubble) = tell_waiting cmds in
      if cmd.has_callback then (told cmd.id ∷ events, bubble) else (events, true)

  -- The first part of `_notifyError`: the current command, and whether the connection is told.
  unfoldable pub tell_current : Option (Command S) → Core S → Core S × Bool
  tell_current none c = (c, true)
  tell_current (some cmd) c =
      if cmd.has_callback
      then (record (say (told cmd.id) c) { command = none }, false)
      else if cmd.is_handshake
      then elim c.commands [ [] ↦ (c, true) | w ∷ ws ↦ (c, false) ]
      else (c, true)

  -- `_notifyError(err)`, for a fatal error or another one.
  unfoldable pub notify_error : Bool → Core S → Core S
  notify_error is_fatal c =
      let (c1, bubble) = tell_current c.command c in
      let (events, bubble_waiting) = tell_waiting c.commands in
      let c2 = record c1 { commands = []; log = c1.log ++ events } in
      let c3 = (if (bubble || bubble_waiting) || c.pooled then say connection_error c2 else c2) in
      if c.has_fatal_error then c else (if is_fatal then close c3 else c3)

  -- `_handleFatalError(err)`
  unfoldable pub handle_fatal_error : Core S → Core S
  handle_fatal_error c =
      record (notify_error true (record c { listening = false; closed = true })) {
        has_fatal_error = true;
      }

  -- What `handlePacket` does with what `execute` returns, with `waiting` in the queue; an exception
  -- is caught.
  unfoldable pub settle : List (Command S) → (Core S → Core S) → Outcome S → Core S
  settle waiting next (not_done cmd c) = record c { command = some cmd; commands = waiting }
  settle waiting next (threw cmd c) =
      handle_fatal_error (record c { command = some cmd; commands = waiting })
  settle waiting next (done c) = next c

  -- The sequence id of a packet is compared, and counted on by the frames that it came in.
  unfoldable pub count_packet : Option Packet → Core S → Core S
  count_packet none c = c
  count_packet (some p) c =
      let c1 =
        (if c.connection.sequence_id == p.sequence_id
          then c
          else say (out_of_order c.connection.sequence_id p.sequence_id) c) in
      record c1 { connection = bump_sequence_id p.num_packets c1.connection }

  -- `_addCommandClosedState(cmd)`
  unfoldable pub add_command_closed : Command S → Core S → Core S
  add_command_closed cmd c =
      if cmd.has_callback then say (told cmd.id) c else say connection_error c

  unfoldable pub pause : Dispatcher S → Dispatcher S
  pause d = record d { paused = true; flowing = false }

module _ {S : Type 0} (transition : S → Option Packet → Step S) where
  -- `Command.execute(packet, connection)`
  unfoldable pub execute : Command S → Option Packet → Core S → Outcome S
  execute cmd packet c =
      let c1 = (if is_none cmd.next then reset c else c) in
      let state = or_else cmd.next cmd.start in
      let cmd1 = record cmd { next = some state } in
      if carries_error packet then fail cmd1 c1 else take_step (transition state packet) cmd1 c1

  -- `handlePacket` from its `try` on: when a command is done, the next one in the queue begins, with
  -- no packet.
  unfoldable pub run_command : List (Command S) → Command S → Option Packet → Core S → Core S
  run_command [] cmd packet c =
      let last =
        settle [] (λ c'. record c' { command = none; commands = [] }) (execute cmd packet c) in
      if c.has_fatal_error then record c { command = some cmd; commands = [] } else last
  run_command (w ∷ ws) cmd packet c =
      let next = settle (w ∷ ws) (λ c'. run_command ws w none (reset c')) (execute cmd packet c) in
      if c.has_fatal_error then record c { command = some cmd; commands = w ∷ ws } else next

  -- `handlePacket(packet)` where the connection is not paused.
  unfoldable pub dispatch : Option Packet → Core S → Core S
  dispatch packet c = elim c.command [
    | none ↦ close (protocol_error c)
    | some cmd ↦ run_command c.commands cmd packet (count_packet packet c)
  ]

  unfoldable pub handle_packet : Option Packet → Dispatcher S → Dispatcher S
  handle_packet packet d =
      if d.paused
      then record d { paused_packets = d.paused_packets ++ (copy packet ∷ []) }
      else record d { core = dispatch packet d.core }

  unfoldable pub add_command : Command S → Dispatcher S → Dispatcher S
  add_command cmd d =
      if d.core.closed
      then record d { core = add_command_closed cmd d.core }
      else if is_none d.core.command
      then handle_packet none (record d { core = record d.core { command = some cmd } })
      else record d { core = record d.core { commands = d.core.commands ++ (cmd ∷ []) } }

  -- The loop of `resume`: an entry that is `undefined` ends it. No handler pauses the connection.
  unfoldable pub resume_from : List (Option Packet) → Dispatcher S → Dispatcher S
  resume_from [] d = record d { paused_packets = []; flowing = true }
  resume_from (none ∷ ps) d = record d { paused_packets = ps; flowing = true }
  resume_from (some p ∷ ps) d =
      let d1 = handle_packet (some p) (record d { paused_packets = ps }) in
      let rest = resume_from ps d1 in if d1.paused then d1 else rest

  unfoldable pub resume : Dispatcher S → Dispatcher S
  resume d = resume_from d.paused_packets (record d { paused = false })
