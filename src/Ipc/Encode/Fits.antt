-- ===== src/Ipc/Encode/Fits.antt =====
-- The size of the responses: swbt/ipc/ipc_json.c.
use swbt_daemon.Common.{
  ℕ, zero, suc, ◌+◌, ◌/◌, ◌%◌, ◌≤◌, ◌<◌, ◌≡◌, refl, Bool, true, false, List, [], ◌∷◌, ◌++◌, length,
  length-append, arith, Option, none, some, if_both,
}
use swbt_daemon.Common.Int.{ℤ, pos, negsuc}
use swbt_daemon.Common.Text.{Bytes, text, decimal, decimal_digits, signed_decimal}
use swbt_daemon.Domain.Status.{Backend, Lifecycle, HardwareApproval, ChannelState}
use swbt_daemon.Support.Metrics.{HardwareStatus}
use swbt_daemon.Ipc.{
  Response, ResponseStatus, ResponseType, ErrorCode, JsonResult, json_response_max, json_string_max,
}
use swbt_daemon.Ipc.Fields.{format_owner_id, format_rumble_raw}
use swbt_daemon.Ipc.Decode.Raw.{IsRaw}
use swbt_daemon.Ipc.Encode.{
  write, write_pieces, request_pieces, request_pieces_then, then_request_pieces, error_code_text,
  response_pieces, encode_response,
}
use swbt_daemon.Ipc.Encode.Status.{
  Piece, lit, str, dec, int, render_piece, render, hardware_status_text, daemon_backend_text,
  daemon_lifecycle_text, hardware_approval_text, hardware_channel_text, bool_text, daemon_pieces,
  metrics_pieces, hardware_pieces, owner_pieces, state_pieces, rumble_pieces, status_pieces,
}

decimal_digits-le : (k n : ℕ) → length (decimal_digits k n) ≤ k
unfolding decimal_digits
decimal_digits-le zero n = omega arith
decimal_digits-le (suc k) n = ground (
  arith,
  length-append (decimal_digits k (n / 10)) ((b'0' + n % 10) ∷ []),
  decimal_digits-le k (n / 10),
)

decimal-le : (n : ℕ) → length (decimal n) ≤ 20
unfolding decimal
decimal-le n = ground (arith, decimal_digits-le 20 n)

signed_decimal-le : (z : ℤ) → length (signed_decimal z) ≤ 21
unfolding signed_decimal
signed_decimal-le (pos n) = omega (arith, decimal-le n)
signed_decimal-le (negsuc n) = omega (arith, decimal-le (n + 1))

-- The width that a part takes at most.
abbrev pub width : Piece → ℕ
width (lit s) = length (text s)
width (str s) = length s
width (dec n) = 20
width (int z) = 21

abbrev pub width_sum : List Piece → ℕ
width_sum [] = 0
width_sum (p ∷ ps) = width p + width_sum ps

render_piece-le : (p : Piece) → length (render_piece p) ≤ width p
unfolding render_piece
render_piece-le (lit s) = omega arith
render_piece-le (str s) = omega arith
render_piece-le (dec n) = decimal-le n
render_piece-le (int z) = signed_decimal-le z

render-le : (ps : List Piece) → length (render ps) ≤ width_sum ps
unfolding render
render-le [] = omega arith
render-le (p ∷ ps) =
    omega (arith, length-append (render_piece p) (render ps), render_piece-le p, render-le ps)

width_sum-append : (ps qs : List Piece) → width_sum (ps ++ qs) ≡ width_sum ps + width_sum qs
width_sum-append [] qs = omega arith
width_sum-append (p ∷ ps) qs = omega (arith, width_sum-append ps qs)

-- The texts of the enumerations.
backend-le : (b : Backend) → length (daemon_backend_text b) ≤ 11
unfolding daemon_backend_text
backend-le Backend.unknown = omega arith
backend-le Backend.noop = omega arith
backend-le Backend.production = omega arith

lifecycle-le : (l : Lifecycle) → length (daemon_lifecycle_text l) ≤ 11
unfolding daemon_lifecycle_text
lifecycle-le Lifecycle.unavailable = omega arith
lifecycle-le Lifecycle.stopped = omega arith
lifecycle-le Lifecycle.running = omega arith

approval-le : (a : HardwareApproval) → length (hardware_approval_text a) ≤ 11
unfolding hardware_approval_text
approval-le HardwareApproval.unavailable = omega arith
approval-le HardwareApproval.approved = omega arith

channel-le : (c : ChannelState) → length (hardware_channel_text c) ≤ 11
unfolding hardware_channel_text
channel-le ChannelState.unavailable = omega arith
channel-le ChannelState.failed = omega arith

hardware_status-le : (h : HardwareStatus) → length (hardware_status_text h) ≤ 11
unfolding hardware_status_text
hardware_status-le HardwareStatus.unavailable = omega arith
hardware_status-le HardwareStatus.observed = omega arith

bool-le : (b : Bool) → length (bool_text b) ≤ 5
bool-le true = omega arith
bool-le false = omega arith

error_code-le : (e : ErrorCode) → length (error_code_text e) ≤ 20
unfolding error_code_text
error_code-le ErrorCode.invalid_json = omega arith
error_code-le ErrorCode.invalid_version = omega arith
error_code-le ErrorCode.unsupported_command = omega arith
error_code-le ErrorCode.owner_busy = omega arith
error_code-le ErrorCode.not_owner = omega arith
error_code-le ErrorCode.invalid_state = omega arith
error_code-le ErrorCode.internal_error = omega arith

status-le :
    (version : Bytes) (s : ResponseStatus)
    → width_sum (status_pieces version s) ≤ 1300 + length version
unfolding status_pieces daemon_pieces metrics_pieces hardware_pieces owner_pieces state_pieces
    rumble_pieces format_owner_id format_rumble_raw
status-le version s = omega (
  arith,
  backend-le s.daemon.backend,
  lifecycle-le s.daemon.lifecycle_state,
  approval-le s.daemon.hardware_approval,
  hardware_status-le s.metrics.hardware_status,
  channel-le s.hardware.adapter_state,
  channel-le s.hardware.switch_connection_state,
  channel-le s.hardware.hid_channel_state,
  bool-le s.has_owner,
  bool-le s.rumble.updated,
)

request-le :
    (r : Response) → length r.request_id < json_string_max → width_sum (request_pieces r) ≤ 110
request-le r h = ground arith

request_then-le :
    (r : Response) → length r.request_id < json_string_max → width_sum (request_pieces_then r) ≤ 111
request_then-le r h = ground arith

then_request-le :
    (r : Response) → length r.request_id < json_string_max → width_sum (then_request_pieces r) ≤ 111
then_request-le r h = ground arith

abbrev Fits : Option (List Piece) → Type 0
Fits none = Unit
Fits (some ps) = width_sum ps < json_response_max

response-Fits :
    (version : Bytes) (r : Response) (type : ResponseType)
    → length version ≤ 512
    → length r.request_id < json_string_max
    → length r.error_message < json_string_max
    → Fits (response_pieces version r type)
unfolding response_pieces format_owner_id
response-Fits version r ResponseType.none hv hr he = tt
response-Fits version r ResponseType.hello_ok hv hr he =
    omega (arith, width_sum-append (request_pieces_then r) _, request_then-le r hr)
response-Fits version r ResponseType.acquired hv hr he =
    omega (arith, width_sum-append (request_pieces_then r) _, request_then-le r hr)
response-Fits version r ResponseType.released hv hr he =
    omega (arith, width_sum-append (then_request_pieces r) _, then_request-le r hr)
response-Fits version r ResponseType.state_accepted hv hr he =
    if_both Fits r.has_request_id
      (omega (
        arith,
        width_sum-append (request_pieces r) (lit ",\"seq\":" ∷ dec r.sequence ∷ lit "}\n" ∷ []),
        request-le r hr,
      ))
      tt
response-Fits version r ResponseType.status hv hr he = omega (
  arith,
  width_sum-append (request_pieces_then r) (status_pieces version r.status),
  request_then-le r hr,
  status-le version r.status,
)
response-Fits version r ResponseType.error hv hr he = omega (
  arith,
  width_sum-append (request_pieces_then r) _,
  request_then-le r hr,
  error_code-le r.error_code,
)

write-ok : (size : ℕ) (ps : List Piece) → width_sum ps < size → (write size ps).0 ≡ JsonResult.ok
unfolding write
write-ok size ps h = ground (arith, render-le ps)

write_pieces-ok :
    (size : ℕ) (o : Option (List Piece))
    → Fits o
    → json_response_max ≤ size
    → (write_pieces size o).0 ≡ JsonResult.ok
write_pieces-ok size none h hs = refl
write_pieces-ok size (some ps) h hs = write-ok size ps (omega arith)

-- A response whose texts can be written raw fits a buffer of 2048 bytes, with a version string of
-- at most 512 characters: it is encoded, neither refused nor cut.
pub encode-fits :
    (version : Bytes) (r : Response) (size : ℕ)
    → length version ≤ 512
    → IsRaw r.request_id
    → IsRaw r.error_message
    → json_response_max ≤ size
    → (encode_response version r size).0 ≡ JsonResult.ok
unfolding encode_response
encode-fits version r size hv hr he hs = ground (
  arith,
  write_pieces-ok size (response_pieces version r r.type)
      (response-Fits version r r.type hv hr.1 he.1) hs,
)
