-- ===== src/Ipc/Encode.antt =====
-- The encoder of responses: `swbt_ipc_json_encode_response` of swbt/ipc/ipc_json.c and its helpers.
-- The version string of the build is a parameter. A response buffer is the text that is left in it.
pub mod Status
pub mod Fits
use swbt_daemon.Common.{
  ℕ, ◌&&◌, Bool, true, false, not, Option, none, some, [], ◌∷◌, List, length, ◌++◌, ltb, ◌==◌,
  if◌then◌else◌,
}
use swbt_daemon.Common.Int.{ℤ}
use swbt_daemon.Common.Text.{Bytes, text, decimal, signed_decimal}
use swbt_daemon.Support.Metrics
use swbt_daemon.Ipc
use swbt_daemon.Ipc.{JsonResult, Response, ResponseType, ErrorCode}
use swbt_daemon.Ipc.Fields.{format_owner_id}
use swbt_daemon.Ipc.Decode.{text_can_be_written_raw}
use swbt_daemon.Ipc.Encode.Status.{Piece, lit, str, dec, render, status_pieces}

-- `swbt_json_write`: the result and the text that is left.
unfoldable pub write : ℕ → List Piece → JsonResult × Bytes
unfolding render
write response_size format =
    let written = render format in
    if ltb (length written) response_size
    then (JsonResult.ok, written)
    else (JsonResult.response_too_small, [])

-- The request identifier in a format, where there is one.
abbrev pub request_pieces : Response → List Piece
request_pieces r =
    if r.has_request_id then lit "\"request_id\":\"" ∷ str r.request_id ∷ lit "\"" ∷ [] else []

-- The same with a comma after it.
abbrev pub request_pieces_then : Response → List Piece
request_pieces_then r = if r.has_request_id then request_pieces r ++ lit "," ∷ [] else []

-- The same with a comma before it.
abbrev pub then_request_pieces : Response → List Piece
then_request_pieces r = if r.has_request_id then lit "," ∷ request_pieces r else []

-- `swbt_ipc_json_error_code_text`.
unfoldable pub error_code_text : ErrorCode → Bytes
error_code_text ErrorCode.invalid_json = text "invalid_json"
error_code_text ErrorCode.invalid_version = text "invalid_version"
error_code_text ErrorCode.unsupported_command = text "unsupported_command"
error_code_text ErrorCode.owner_busy = text "owner_busy"
error_code_text ErrorCode.not_owner = text "not_owner"
error_code_text ErrorCode.invalid_state = text "invalid_state"
error_code_text ErrorCode.internal_error = text "internal_error"

-- The format of each type of response, with its arguments; `none` where nothing is written.
unfoldable pub response_pieces : Bytes → Response → ResponseType → Option (List Piece)
unfolding format_owner_id status_pieces error_code_text
response_pieces version r ResponseType.none = none
response_pieces version r ResponseType.hello_ok = some (
    lit "{\"v\":1,\"type\":\"hello_ok\"," ∷ request_pieces_then r
    ++ lit "\"client_id\":\"" ∷ str (format_owner_id r.client_id) ∷ lit "\"}\n" ∷ [])
response_pieces version r ResponseType.acquired = some (
    lit "{\"v\":1,\"type\":\"acquired\"," ∷ request_pieces_then r
    ++ lit "\"owner_id\":\"" ∷ str (format_owner_id r.owner_client_id) ∷ lit "\"}\n" ∷ [])
response_pieces version r ResponseType.released =
    some (lit "{\"v\":1,\"type\":\"released\"" ∷ then_request_pieces r ++ lit "}\n" ∷ [])
response_pieces version r ResponseType.state_accepted =
    if r.has_request_id
    then some (
        lit "{\"v\":1,\"type\":\"state_accepted\"," ∷ request_pieces r
        ++ lit ",\"seq\":" ∷ dec r.sequence ∷ lit "}\n" ∷ [])
    else none
response_pieces version r ResponseType.status =
    some (
      lit "{\"v\":1,\"type\":\"status\"," ∷ request_pieces_then r ++ status_pieces version r.status)
response_pieces version r ResponseType.error = some (
    lit "{\"v\":1,\"type\":\"error\"," ∷ request_pieces_then r
    ++ lit "\"code\":\""
      ∷ str (error_code_text r.error_code)
      ∷ lit "\",\"message\":\""
      ∷ str r.error_message
      ∷ lit "\"}\n"
      ∷ [])

abbrev is_error : ResponseType → Bool
is_error ResponseType.error = true
is_error _ = false

abbrev pub write_pieces : ℕ → Option (List Piece) → JsonResult × Bytes
write_pieces response_size none = (JsonResult.ok, [])
write_pieces response_size (some format) = write response_size format

-- `swbt_ipc_json_encode_response` into a buffer of a positive size: the result and the text.
unfoldable pub encode_response : Bytes → Response → ℕ → JsonResult × Bytes
unfolding text_can_be_written_raw write response_pieces
encode_response version r response_size =
    if r.has_request_id && not (text_can_be_written_raw r.request_id)
    then (JsonResult.invalid_argument, [])
    else if is_error r.type && not (text_can_be_written_raw r.error_message)
    then (JsonResult.invalid_argument, [])
    else write_pieces response_size (response_pieces version r r.type)
