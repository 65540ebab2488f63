-- ===== src/Ipc/Server/Splits.antt =====
-- Lines that arrive in parts: `swbt_ipc_read_line` of swbt/ipc/ipc_server.c.
use swbt_daemon.Common.{
  ℕ, ◌+◌, ◌≤◌, ◌≡◌, ◌≢◌, refl, sym, ap, ◌∙◌, Bool, true, false, some, List, [], ◌∷◌, ◌++◌, map,
  length, length-append, All, leb, ◌==◌, if◌then◌else◌, arith,
}
use swbt_daemon.Common.Text.{Bytes}
use mathlib.Core.List.{append_assoc, append-nil}
use swbt_daemon.Ipc.{json_line_max}
use swbt_daemon.Ipc.Server.{
  Connection, ServerResult, Arrival, byte, not_ready, select_failed, receive_failed, closed, ok,
  Reading, stopped_reading, read_byte, read_loop, read_line,
}

abbrev pub newline : ℕ
newline = 0x0A

-- Two readings that agree but for the connection.
pub record Agree (r s : Reading) : Type 0 where
  pub same_result : r.result ≡ s.result
  pub same_line : r.line ≡ s.line
  pub same_rest : r.rest ≡ s.rest

-- What was in the buffer before the call plays no part in the loop.
read_loop-Agree :
    (c d : Connection) (read : Bytes) (arrivals : List Arrival)
    → Agree (read_loop c read arrivals) (read_loop d read arrivals)
unfolding read_loop
read_loop-Agree c d read [] = record { same_result = refl; same_line = refl; same_rest = refl }
read_loop-Agree c d read (not_ready ∷ rest) = record {
  same_result = refl;
  same_line = refl;
  same_rest = refl;
}
read_loop-Agree c d read (select_failed ∷ rest) = record {
  same_result = refl;
  same_line = refl;
  same_rest = refl;
}
read_loop-Agree c d read (receive_failed ∷ rest) = record {
  same_result = refl;
  same_line = refl;
  same_rest = refl;
}
read_loop-Agree c d read (closed ∷ rest) = record {
  same_result = refl;
  same_line = refl;
  same_rest = refl;
}
read_loop-Agree c d read (byte n ∷ rest) =
    by_tests (leb (json_line_max + 1) (length read + 1)) (n == 0x0A)
      (read_loop-Agree c d (read ++ n ∷ []) rest)
  where
    after : Connection → Bool → Bool → Reading
    after x full ends =
        if full
        then stopped_reading ServerResult.message_too_long (record x { line_buffer = [] }) rest
        else if ends
        then record {
          result = ok;
          connection = record x { line_buffer = [] };
          line = some (read ++ n ∷ []);
          rest = rest;
        }
        else read_loop x (read ++ n ∷ []) rest

    by_tests :
        (full ends : Bool)
        → Agree (read_loop c (read ++ n ∷ []) rest) (read_loop d (read ++ n ∷ []) rest)
        → Agree (after c full ends) (after d full ends)
    by_tests true ends h = record { same_result = refl; same_line = refl; same_rest = refl }
    by_tests false true h = record { same_result = refl; same_line = refl; same_rest = refl }
    by_tests false false h = h

read_byte_goes_on :
    (connection : Connection) (read : Bytes) (c : ℕ) (rest : List Arrival)
    (rounds : Bytes → Reading)
    → c ≢ newline
    → length read + 1 ≤ json_line_max
    → read_byte connection read c rest rounds ≡ rounds (read ++ c ∷ [])
read_byte_goes_on connection read c rest rounds h room = ground arith

-- Bytes with no newline among them, for which there is room, are read one after the other.
read_loop-bytes :
    (connection : Connection) (cs read : Bytes) (rest : List Arrival)
    → All (λ c. c ≢ newline) cs
    → length read + length cs ≤ json_line_max
    → read_loop connection read (map byte cs ++ rest) ≡ read_loop connection (read ++ cs) rest
unfolding read_loop
read_loop-bytes connection [] read rest h room =
    ap (λ t. read_loop connection t rest) (sym (append-nil read))
read_loop-bytes connection (c ∷ cs) read rest h room =
    read_byte_goes_on connection read c (map byte cs ++ rest)
      (λ read'. read_loop connection read' (map byte cs ++ rest)) (h.0) (omega arith)
    ∙ read_loop-bytes connection cs (read ++ c ∷ []) rest (h.1)
        (omega (arith, length-append read (c ∷ [])))
    ∙ ap (λ t. read_loop connection t rest) (append_assoc read (c ∷ []) cs)

-- A connection whose socket is open reads on from its buffer.
read_line_open :
    (connection : Connection) (arrivals : List Arrival)
    → connection.is_open ≡ true
    → connection.socket_open ≡ true
    → read_line connection arrivals ≡ read_loop connection connection.line_buffer arrivals
unfolding read_line
read_line_open connection arrivals o s = ground arith

-- It does not matter where a line is split between the calls: a call that gets the first bytes and
-- then finds nothing more, with a second that gets the rest, ends with the result, the line and the
-- rest of the input of one call that gets all. The first bytes have no newline and fit the buffer.
pub read_line-split :
    (connection : Connection) (cs : Bytes) (arrivals : List Arrival)
    → connection.is_open ≡ true
    → connection.socket_open ≡ true
    → All (λ c. c ≢ newline) cs
    → length connection.line_buffer + length cs ≤ json_line_max
    → Agree
        (read_line (read_line connection (map byte cs ++ not_ready ∷ [])).connection arrivals)
        (read_line connection (map byte cs ++ arrivals))
unfolding read_loop
read_line-split connection cs arrivals o s h room =
    let held = record connection { line_buffer = connection.line_buffer ++ cs } in
    let first : (read_line connection (map byte cs ++ not_ready ∷ [])).connection ≡ held =
      ap (λ r. r.connection)
        (read_line_open connection (map byte cs ++ not_ready ∷ []) o s
          ∙ read_loop-bytes connection cs connection.line_buffer (not_ready ∷ []) h room) in
    let second : read_line held arrivals ≡ read_loop held (connection.line_buffer ++ cs) arrivals =
      read_line_open held arrivals o s in
    let whole : read_line connection (map byte cs ++ arrivals)
        ≡ read_loop connection (connection.line_buffer ++ cs) arrivals =
      read_line_open connection (map byte cs ++ arrivals) o s
      ∙ read_loop-bytes connection cs connection.line_buffer arrivals h room in
    rw (first) (
      rw (second)
        (rw (whole) (read_loop-Agree held connection (connection.line_buffer ++ cs) arrivals)))
