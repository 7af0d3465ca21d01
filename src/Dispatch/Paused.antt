-- ===== src/Dispatch/Paused.antt =====
-- `pause` and `resume` of lib/base/connection.js.
use node_mysql.Prelude.{
  ◌≡◌, refl, sym, ap, ◌∙◌, true, false, Option, none, some, List, [], ◌∷◌, ◌++◌, append-nil,
  append_assoc, if◌then◌else◌, map,
}
use node_mysql.Packet.{Packet, clone}
use node_mysql.Dispatch.{
  Step, Command, Core, Dispatcher, is_none, copy, dispatch, handle_packet, add_command,
  add_command_closed, pause, resume, resume_from,
}

module _ {S : Type 0} (transition : S → Option Packet → Step S) where
  -- Packets one after the other, of a connection and of one that is not paused.
  unfoldable pub handle_all : List Packet → Dispatcher S → Dispatcher S
  handle_all [] d = d
  handle_all (p ∷ ps) d = handle_all ps (handle_packet transition (some p) d)

  unfoldable pub dispatch_all : List Packet → Core S → Core S
  dispatch_all [] c = c
  dispatch_all (p ∷ ps) c = dispatch_all ps (dispatch transition (some p) c)

  abbrev kept : List Packet → List (Option Packet)
  kept ps = map (λ p. some (clone p)) ps

  handle_all-paused :
      (ps : List Packet) (d : Dispatcher S)
      → d.paused ≡ true
      → handle_all ps d ≡ record d { paused_packets = d.paused_packets ++ kept ps }
  unfolding handle_all handle_packet
  handle_all-paused [] d e =
      ap (λ qs. record d { paused_packets = qs }) (sym (append-nil d.paused_packets))
  handle_all-paused (p ∷ ps) d e =
      let d1 : Dispatcher S = record d {
        paused_packets = d.paused_packets ++ (some (clone p) ∷ []);
      } in
      ap
        (λ b.
          handle_all ps (if b then d1 else record d { core = dispatch transition (some p) d.core }))
        e
      ∙ handle_all-paused ps d1 e
      ∙ ap (λ qs. record d { paused_packets = qs })
          (append_assoc d.paused_packets (some (clone p) ∷ []) (kept ps))

  resume_from-all :
      (ps : List Packet) (d : Dispatcher S)
      → d.paused ≡ false
      → resume_from transition (kept ps) d ≡ record d {
        core = dispatch_all (map clone ps) d.core;
        paused_packets = [];
        flowing = true;
      }
  unfolding resume_from dispatch_all handle_packet
  resume_from-all [] d e = refl
  resume_from-all (p ∷ ps) d e =
      let now : Dispatcher S = record d { paused_packets = kept ps } in
      let queued : Dispatcher S = record now {
        paused_packets = kept ps ++ (copy (some (clone p)) ∷ []);
      } in
      let handled : Dispatcher S = record now {
        core = dispatch transition (some (clone p)) d.core;
      } in
      let after =
        λ (d1 : Dispatcher S). if d1.paused then d1 else resume_from transition (kept ps) d1 in
      ap (λ b. after (if b then queued else handled)) e
      ∙ ap (λ b. if b then handled else resume_from transition (kept ps) handled) e
      ∙ resume_from-all ps handled e

  -- What a connection that is paused gets, it handles when it is resumed, in order, and as if it had
  -- not been paused, but for the number of frames of a packet, which `clone` sets to one.
  pub resume-handle_all :
      (ps : List Packet) (d : Dispatcher S)
      → d.paused_packets ≡ []
      → resume transition (handle_all ps (pause d)) ≡ record d {
        core = dispatch_all (map clone ps) d.core;
        paused = false;
        paused_packets = [];
        flowing = true;
      }
  unfolding resume pause
  resume-handle_all ps d e =
      let paused : Dispatcher S = record d { paused = true; flowing = false } in
      ap (λ d. resume_from transition d.paused_packets (record d { paused = false }))
        (handle_all-paused ps paused refl)
      ∙ ap
          (λ qs.
            resume_from transition (qs ++ kept ps)
              (record d { paused = false; flowing = false; paused_packets = qs ++ kept ps }))
          e
      ∙ resume_from-all ps (record d { paused = false; flowing = false; paused_packets = kept ps })
          refl

  -- A command that is given to a paused connection with no command does not begin when the connection
  -- is resumed: it is the current command, in the state that it had, and nothing else has changed.
  pub resume-add_command :
      (cmd : Command S) (d : Dispatcher S)
      → d.core.command ≡ none
      → d.core.closed ≡ false
      → d.paused_packets ≡ []
      → (resume transition (add_command transition cmd (pause d))).core
        ≡ record d.core { command = some cmd }
  unfolding resume resume_from pause add_command handle_packet
  resume-add_command cmd d e n q =
      let refused : Dispatcher S = record (pause d) { core = add_command_closed cmd d.core } in
      let begun : Dispatcher S = record (pause d) {
        core = record d.core { command = some cmd };
        paused_packets = d.paused_packets ++ (none ∷ []);
      } in
      let queued : Dispatcher S = record (pause d) {
        core = record d.core { commands = d.core.commands ++ (cmd ∷ []) };
      } in
      ap
        (λ b.
          (resume transition
            (if b then refused else if is_none d.core.command then begun else queued)).core)
        n
      ∙ ap (λ o. (resume transition (if is_none o then begun else queued)).core) e
      ∙ ap
          (λ qs.
            (resume_from transition (qs ++ (none ∷ []))
              (record begun { paused = false; paused_packets = qs ++ (none ∷ []) })).core)
          q
