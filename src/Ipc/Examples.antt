-- ===== src/Ipc/Examples.antt =====
-- The theorems on the messages, the adapter and the server at concrete inputs.
use swbt_daemon.Common.{◌≡◌, refl, true, false, some, none, List, [], ◌∷◌, ◌++◌, map, arith}
use swbt_daemon.Common.Text.{Bytes, text}
use swbt_daemon.Domain.Calls.{run}
use swbt_daemon.Domain.Calls.Safety.{fresh}
use swbt_daemon.Control.{Control}
use swbt_daemon.Ipc.{JsonResult}
use swbt_daemon.Ipc.Fields.{parse_owner_id, format_owner_id}
use swbt_daemon.Ipc.OwnerId.{parse-format}
use swbt_daemon.Ipc.Decode.{decode_command}
use swbt_daemon.Ipc.Decode.Commands.{IsSound, decode-IsSound}
use swbt_daemon.Ipc.Adapter.{handle_line}
use swbt_daemon.Ipc.Adapter.Answers.{handle_line-answers}
use swbt_daemon.Ipc.Adapter.Sessions.{
  Event, line, disconnected, handle_all, calls_of_events, events_refine,
}
use swbt_daemon.Ipc.Server.{Connection, byte, not_ready, Server, read_line}
use swbt_daemon.Ipc.Server.Lines.{IsBounded, read_line-IsBounded}
use swbt_daemon.Ipc.Server.Splits.{Agree, read_line-split}

abbrev version : Bytes
version = text "0.1.0"

abbrev acquire_line : Bytes
acquire_line = text "{\"v\":1,\"type\":\"acquire\",\"request_id\":\"a\"}"

abbrev idle : Control
idle = record { app = some fresh; read_runtime_status = none; next_direct_sequence = 0 }

parse-format_example : parse_owner_id (format_owner_id 0xBEEF) ≡ some 0xBEEF
parse-format_example = parse-format 0xBEEF (omega arith)

decode-IsSound_example : IsSound (decode_command acquire_line).0
decode-IsSound_example = decode-IsSound acquire_line

handle_line-answers_example :
    (handle_line version (some idle) 7 acquire_line 2048).0 ≡ JsonResult.ok
handle_line-answers_example =
    handle_line-answers version idle 7 acquire_line 2048 (omega arith) (omega arith)

abbrev visit : List Event
visit = line 7 acquire_line 2048 ∷ disconnected 7 ∷ []

events_refine_example :
    handle_all version (some idle) visit
    ≡ some (record idle { app = run (some fresh) (calls_of_events visit) })
events_refine_example = events_refine version idle visit

-- Client 7, of whose line three bytes have arrived.
abbrev partly : Connection
partly = record {
  socket_open = true;
  client_id = 7;
  line_buffer = text "{\"v";
  last_heartbeat_ms = 0;
  heartbeat_timeout_ms = 0;
  heartbeat_enabled = false;
  is_open = true;
}

abbrev serving : Server
serving = record {
  listen_open = true;
  control = some idle;
  next_client_id = 8;
  bound_port = 37637;
  listening = true;
}

read_line-IsBounded_example : IsBounded (read_line partly (byte 0x22 ∷ not_ready ∷ []))
read_line-IsBounded_example = read_line-IsBounded partly (byte 0x22 ∷ not_ready ∷ []) (omega arith)

read_line-split_example :
    Agree
      (read_line
        (read_line partly (map byte (text "\":") ++ not_ready ∷ [])).connection
        (byte 0x0A ∷ []))
      (read_line partly (map byte (text "\":") ++ byte 0x0A ∷ []))
read_line-split_example =
    read_line-split partly (text "\":") (byte 0x0A ∷ []) refl refl
      (ground arith, (ground arith, tt)) (omega arith)
