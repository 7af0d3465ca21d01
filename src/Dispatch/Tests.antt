-- ===== src/Dispatch/Tests.antt =====
-- Runs of the model of the queue of commands of lib/base/connection.js.
use node_mysql.Prelude.{
  ℕ, zero, suc, ◌≡◌, ◌≢◌, refl, inl, true, false, Option, none, some, List, [], ◌∷◌, ◌++◌, map,
}
use node_mysql.Packet.{Packet, clone, new_packet, is_error, peek_byte}
use node_mysql.Connection.{reset_sequence_id, bump_sequence_id}
use node_mysql.Dispatch.{
  Step, go_on, finished, thrown, Command, ended, Core, Dispatcher, dispatch, run_command, settle,
  execute, take_step, fail, count_packet, handle_packet, add_command, pause, resume, resume_from,
  handle_fatal_error,
}
use node_mysql.Dispatch.Order.{account, IsCalm}
use node_mysql.Dispatch.Calls.{
  Input, packet_input, command_input, pause_input, resume_input, input, inputs, accepted_by,
  inputs-account,
}
use node_mysql.Dispatch.Paused.{handle_all, dispatch_all, resume-handle_all, resume-add_command}
use node_mysql.Dispatch.Fatal.{IsShut, handle_fatal_error_lem}

-- A command that waits for that many packets.
wait_for : ℕ → Option Packet → Step ℕ
wait_for zero p = finished
wait_for (suc n) p = go_on n

wait_for-calm : (n : ℕ) (p : Option Packet) → wait_for n p ≢ thrown
unfolding wait_for
wait_for-calm zero p e = cc
wait_for-calm (suc n) p e = cc

abbrev query : ℕ → Command ℕ
query id = record {
  id = id;
  start = 1;
  next = none;
  has_callback = true;
  has_listener = false;
  is_handshake = false;
}

abbrev idle : Core ℕ
idle = record {
  command = none;
  commands = [];
  connection = record { sequence_id = 0; compressed_sequence_id = 0; written = [] };
  has_fatal_error = false;
  closing = false;
  closed = false;
  listening = true;
  pooled = false;
  log = [];
}

abbrev at_rest : Dispatcher ℕ
at_rest = record { core = idle; paused = false; paused_packets = []; flowing = true }

abbrev reply : ℕ → Packet
reply n = record {
  sequence_id = n;
  num_packets = 1;
  buffer = 1 ∷ 0 ∷ 0 ∷ n ∷ 0 ∷ [];
  start = 0;
  offset = 4;
  end = 5;
}

abbrev script : List (Input ℕ)
script =
    command_input (query 7)
    ∷ command_input (query 8)
    ∷ pause_input
    ∷ packet_input (reply 0)
    ∷ command_input (query 9)
    ∷ resume_input
    ∷ packet_input (reply 0)
    ∷ []

idle-IsCalm : IsCalm idle
idle-IsCalm = record { no_error = refl; heard = tt; served = λ e. refl }

inputs-script : (inputs wait_for script at_rest).core.log ≡ ended 7 ∷ ended 8 ∷ []
unfolding inputs input handle_packet add_command pause resume resume_from dispatch run_command
    settle execute take_step fail count_packet wait_for is_error peek_byte clone new_packet
    reset_sequence_id bump_sequence_id
inputs-script = refl

inputs-account_example :
    account (inputs wait_for script at_rest).core
    ≡ account idle ++ accepted_by wait_for script at_rest
inputs-account_example =
    inputs-account wait_for wait_for-calm script at_rest
      (inl refl, (inl refl, (tt, (tt, (inl refl, (tt, (tt, tt))))))) idle-IsCalm

abbrev busy : Dispatcher ℕ
busy = record at_rest { core = record idle { command = some (query 7); commands = query 8 ∷ [] } }

resume-handle_all_example :
    resume wait_for (handle_all wait_for (reply 0 ∷ reply 1 ∷ []) (pause busy))
    ≡ record busy { core = dispatch_all wait_for (map clone (reply 0 ∷ reply 1 ∷ [])) busy.core }
resume-handle_all_example = resume-handle_all wait_for (reply 0 ∷ reply 1 ∷ []) busy refl

resume-add_command_example :
    (resume wait_for (add_command wait_for (query 7) (pause at_rest))).core
    ≡ record idle { command = some (query 7) }
resume-add_command_example = resume-add_command wait_for (query 7) at_rest refl refl refl

handle_fatal_error_lem_example : IsShut (handle_fatal_error busy.core) (7 ∷ 8 ∷ [])
handle_fatal_error_lem_example = handle_fatal_error_lem busy.core refl
