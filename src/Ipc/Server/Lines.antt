-- ===== src/Ipc/Server/Lines.antt =====
-- The bounds of the reader: `swbt_ipc_read_line` of swbt/ipc/ipc_server.c.
use swbt_daemon.Common.{
  ℕ, ◌+◌, ◌≤◌, ◌≡◌, refl, Bool, true, false, ◌&&◌, none, some, List, [], ◌∷◌, ◌++◌, length,
  length-append, leb, ◌==◌, if◌then◌else◌, if_both, arith,
}
use swbt_daemon.Common.Text.{Bytes}
use swbt_daemon.Ipc.{json_line_max}
use swbt_daemon.Ipc.Server.{
  Connection, ServerResult, Arrival, byte, not_ready, select_failed, receive_failed, closed, ok,
  Reading, stopped_reading, read_byte, read_loop, read_line,
}

-- The buffer never holds more than 8192 bytes, nor does a line, so each fits its array of 8193 with
-- the NUL.
pub record IsBounded (r : Reading) : Type 0 where
  pub buffer : length r.connection.line_buffer ≤ json_line_max
  pub complete : (line : Bytes) → r.line ≡ some line → length line ≤ json_line_max

idle-IsBounded :
    (result : ServerResult) (connection : Connection) (buffer : Bytes) (rest : List Arrival)
    → length buffer ≤ json_line_max
    → IsBounded (record {
      result = result;
      connection = record connection { line_buffer = buffer };
      line = none;
      rest = rest;
    })
idle-IsBounded result connection buffer rest h = record {
  buffer = h;
  complete = λ line e. ground arith;
}

read_byte-IsBounded :
    (connection : Connection) (read : Bytes) (c : ℕ) (rest : List Arrival)
    (rounds : Bytes → Reading)
    → (length (read ++ c ∷ []) ≤ json_line_max → IsBounded (rounds (read ++ c ∷ [])))
    → IsBounded (read_byte connection read c rest rounds)
read_byte-IsBounded connection read c rest rounds next =
    by_room (leb (json_line_max + 1) (length read + 1)) refl
  where
    too_long : Reading
    too_long =
        stopped_reading ServerResult.message_too_long (record connection { line_buffer = [] }) rest

    full_line : Reading
    full_line = record {
      result = ok;
      connection = record connection { line_buffer = [] };
      line = some (read ++ c ∷ []);
      rest = rest;
    }

    by_room :
        (full : Bool)
        → leb (json_line_max + 1) (length read + 1) ≡ full
        → IsBounded
            (if full then too_long else if c == 0x0A then full_line else rounds (read ++ c ∷ []))
    by_room true e = idle-IsBounded ServerResult.message_too_long connection [] rest (omega arith)
    by_room false e =
        let grown : length (read ++ c ∷ []) ≤ json_line_max =
          ground (arith, length-append read (c ∷ [])) in
        if_both IsBounded (c == 0x0A)
          (record { buffer = omega arith; complete = λ line e'. ground (arith, grown) })
          (next grown)

read_loop-IsBounded :
    (connection : Connection) (read : Bytes) (arrivals : List Arrival)
    → length connection.line_buffer ≤ json_line_max
    → length read ≤ json_line_max
    → IsBounded (read_loop connection read arrivals)
unfolding read_loop
read_loop-IsBounded connection read [] h k = idle-IsBounded ok connection read [] k
read_loop-IsBounded connection read (not_ready ∷ rest) h k =
    idle-IsBounded ok connection read rest k
read_loop-IsBounded connection read (select_failed ∷ rest) h k =
    idle-IsBounded ServerResult.socket connection connection.line_buffer rest h
read_loop-IsBounded connection read (receive_failed ∷ rest) h k =
    idle-IsBounded ServerResult.socket connection connection.line_buffer rest h
read_loop-IsBounded connection read (closed ∷ rest) h k =
    idle-IsBounded ServerResult.disconnected connection connection.line_buffer rest h
read_loop-IsBounded connection read (byte c ∷ rest) h k =
    read_byte-IsBounded connection read c rest (λ read'. read_loop connection read' rest)
      (λ k'. read_loop-IsBounded connection (read ++ c ∷ []) rest h k')

-- A reader whose buffer is within its bound keeps it so, and a complete line is within it too.
pub read_line-IsBounded :
    (connection : Connection) (arrivals : List Arrival)
    → length connection.line_buffer ≤ json_line_max
    → IsBounded (read_line connection arrivals)
unfolding read_line
read_line-IsBounded connection arrivals h =
    if_both IsBounded (connection.is_open && connection.socket_open)
      (read_loop-IsBounded connection connection.line_buffer arrivals h h)
      (idle-IsBounded ServerResult.invalid_argument connection connection.line_buffer arrivals h)
