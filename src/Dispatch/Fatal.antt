-- ===== src/Dispatch/Fatal.antt =====
-- `_handleFatalError` and `_notifyError` of lib/base/connection.js.
use node_mysql.Prelude.{
  ℕ, ◌≡◌, refl, sym, ap, ◌∙◌, Bool, true, false, ◌||◌, inl, inr, Bool-cases, Option, none, some,
  List, [], ◌∷◌, ◌++◌, append-nil, append_assoc, if◌then◌else◌, subst,
}
use node_mysql.Dispatch.{
  Command, Event, out_of_order, told, failed, ended, connection_error, Core, say, close,
  tell_waiting, tell_current, notify_error, handle_fatal_error,
}
use node_mysql.Dispatch.Order.{in_queue}

-- The commands that have been told of an error by their callback.
abbrev pub told_by : List Event → List ℕ
told_by [] = []
told_by (told id ∷ es) = id ∷ told_by es
told_by (out_of_order a b ∷ es) = told_by es
told_by (ended id ∷ es) = told_by es
told_by (failed id ∷ es) = told_by es
told_by (connection_error ∷ es) = told_by es

told_by-append : (es fs : List Event) → told_by (es ++ fs) ≡ told_by es ++ told_by fs
told_by-append [] fs = refl
told_by-append (told id ∷ es) fs = ap (id ∷◌) (told_by-append es fs)
told_by-append (out_of_order a b ∷ es) fs = told_by-append es fs
told_by-append (ended id ∷ es) fs = told_by-append es fs
told_by-append (failed id ∷ es) fs = told_by-append es fs
told_by-append (connection_error ∷ es) fs = told_by-append es fs

module _ {S : Type 0} where
  abbrev pub callbacks : List (Command S) → List ℕ
  callbacks [] = []
  callbacks (cmd ∷ cmds) = if cmd.has_callback then cmd.id ∷ callbacks cmds else callbacks cmds

  tell_waiting-callbacks :
      (cmds : List (Command S)) → told_by (tell_waiting cmds).0 ≡ callbacks cmds
  unfolding tell_waiting
  tell_waiting-callbacks [] = refl
  tell_waiting-callbacks (cmd ∷ cmds) = elim (Bool-cases cmd.has_callback) [
    | inl y ↦ rw y (ap (cmd.id ∷◌) (tell_waiting-callbacks cmds))
    | inr n ↦ rw n (tell_waiting-callbacks cmds)
  ]

  -- A failed handshake with commands behind it changes only who else is told.
  handshake_quiet :
      (b : Bool) (ws : List (Command S)) (c : Core S)
      → let r : Core S × Bool =
          (if b then elim ws [ [] ↦ (c, true) | w ∷ ws ↦ (c, false) ] else (c, true)) in
        r.0 ≡ c
  handshake_quiet false ws c = refl
  handshake_quiet true [] c = refl
  handshake_quiet true (w ∷ ws) c = refl

  tell_current-flags :
      (o : Option (Command S)) (c : Core S)
      → ((tell_current o c).0.listening ≡ c.listening) × ((tell_current o c).0.closed ≡ c.closed)
  unfolding tell_current
  tell_current-flags none c = (refl, refl)
  tell_current-flags (some cmd) c = elim (Bool-cases cmd.has_callback) [
    | inl y ↦ rw y (refl, refl)
    | inr n ↦
        let same = handshake_quiet cmd.is_handshake c.commands c in
        rw n (ap (λ d. d.listening) same, ap (λ d. d.closed) same)
  ]

  tell_current-callbacks :
      (o : Option (Command S)) (c : Core S)
      → told_by (tell_current o c).0.log ++ callbacks c.commands
        ≡ told_by c.log ++ callbacks (in_queue o c.commands)
  unfolding tell_current
  tell_current-callbacks none c = refl
  tell_current-callbacks (some cmd) c =
      let told_first : Core S × Bool = (record (say (told cmd.id) c) { command = none }, false) in
      let untold : Core S × Bool =
        (if cmd.is_handshake
          then elim c.commands [ [] ↦ (c, true) | w ∷ ws ↦ (c, false) ]
          else (c, true)) in
      let goal : Bool → Type 0 = λ b.
        told_by (if b then told_first else untold).0.log ++ callbacks c.commands
        ≡ told_by c.log ++ (if b then cmd.id ∷ callbacks c.commands else callbacks c.commands) in
      elim (Bool-cases cmd.has_callback) [
        | inl y ↦ subst goal (sym y) (
            ap (λ xs. xs ++ callbacks c.commands) (told_by-append c.log (told cmd.id ∷ []))
            ∙ append_assoc (told_by c.log) (cmd.id ∷ []) (callbacks c.commands))
        | inr n ↦ subst goal (sym n) (
            ap (λ d. told_by d.log ++ callbacks c.commands)
              (handshake_quiet cmd.is_handshake c.commands c))
      ]

  -- What a fatal error leaves.
  abbrev pub IsShut : Core S → List ℕ → Type 0
  IsShut c xs =
      (told_by c.log ≡ xs)
      × (c.commands ≡ [])
      × (c.closed ≡ true)
      × (c.closing ≡ true)
      × (c.listening ≡ false)
      × (c.has_fatal_error ≡ true)

  -- A fatal error tells every command with a callback of it, the current one and those that wait, each
  -- once and in order; it empties the queue, closes the connection and stops its listening to the
  -- socket. For a connection that had no fatal error before.
  pub handle_fatal_error_lem :
      (c : Core S)
      → c.has_fatal_error ≡ false
      → IsShut (handle_fatal_error c) (told_by c.log ++ callbacks (in_queue c.command c.commands))
  unfolding handle_fatal_error notify_error close
  handle_fatal_error_lem c f =
      let c0 : Core S = record c { listening = false; closed = true } in
      let (c1, bubble) = tell_current c.command c0 in
      let (events, bubble_waiting) = tell_waiting c.commands in
      let c2 : Core S = record c1 { commands = []; log = c1.log ++ events } in
      let loud = (bubble || bubble_waiting) || c.pooled in
      let c3 : Core S = (if loud then say connection_error c2 else c2) in
      let xs = told_by c.log ++ callbacks (in_queue c.command c.commands) in
      let goal = λ (d : Core S). IsShut (record (close d) { has_fatal_error = true }) xs in
      let flags = tell_current-flags c.command c0 in
      let quiet : told_by (c1.log ++ events) ≡ xs =
        told_by-append c1.log events
        ∙ ap (λ ys. told_by c1.log ++ ys) (tell_waiting-callbacks c.commands)
        ∙ tell_current-callbacks c.command c0 in
      subst (λ b. IsShut (record (if b then c0 else close c3) { has_fatal_error = true }) xs)
        (sym f)
        (elim (Bool-cases loud) [
          | inl y ↦
              subst (λ b. goal (if b then say connection_error c2 else c2)) (sym y)
                (
                  told_by-append (c1.log ++ events) (connection_error ∷ [])
                      ∙ append-nil (told_by (c1.log ++ events))
                      ∙ quiet,
                  refl,
                  refl,
                  refl,
                  flags.0,
                  refl,
                )
          | inr n ↦
              subst (λ b. goal (if b then say connection_error c2 else c2)) (sym n)
                (quiet, refl, refl, refl, flags.0, refl)
        ])
