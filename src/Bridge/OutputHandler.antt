-- ===== src/Bridge/OutputHandler.antt =====
-- The output reports that the stack delivers: swbt/btstack_bridge/output_report_handler.h,
-- output_report_handler.c and output_report_callbacks.c. The handler is updated in place and is a
-- value; the call of its callback is part of the result. The handler that the callbacks share is
-- a state, as is whether the two callbacks are registered with the stack.
pub mod Rejoin
use swbt_daemon.Common.{
  ℕ, ◌+◌, ◌-◌, ◌^◌, Bool, true, false, not, Option, none, some, ltb, leb, ◌==◌, if◌then◌else◌, u8,
}
use swbt_daemon.Common.Buffer.{Buffer, store, fill}
use swbt_daemon.Common.Int.{ℤ, pos, negsuc}
use swbt_daemon.Switch.Subcommand.{OutputReport, ParseResult, parse_bytes}

abbrev pub report_type_output : ℕ
report_type_output = 2

abbrev pub output_report_max_size : ℕ
output_report_max_size = 64

-- `swbt_btstack_output_report_result_t`.
pub data HandleResult : Type 0 where
  ok ignored_report_type invalid_argument report_id_too_large buffer_too_small : HandleResult
  parse_failed : HandleResult

-- `swbt_btstack_output_report_handler_t`; `scratch` is an array of 64 bytes.
pub record OutputHandler : Type 0 where
  pub has_callback : Bool
  pub scratch : Buffer

-- `swbt_btstack_output_report_handle_options_t`.
pub record HandleOptions : Type 0 where
  pub hid_cid : ℕ
  pub report_type : ℕ
  pub report_id : ℕ
  pub report : Option Buffer
  pub report_size : ℕ

-- A call of the callback: the channel and the report.
pub record Delivery : Type 0 where
  pub hid_cid : ℕ
  pub report : OutputReport

-- The outcome: the result, the handler and the call of the callback.
pub record Handled : Type 0 where
  pub result : HandleResult
  pub handler : OutputHandler
  pub delivery : Option Delivery

-- `swbt_btstack_output_report_handler_init`.
unfoldable pub init : OutputHandler → Bool → OutputHandler
init handler has_callback = record handler { has_callback = has_callback }

-- The report with its id before it.
abbrev pub rejoined : Buffer → ℕ → Buffer → ℕ → Buffer
rejoined scratch report_id report report_size =
    fill (store scratch 0 (u8 report_id)) 1 report_size report

-- `swbt_btstack_output_report_rejoin_id`.
unfoldable pub rejoin_id : OutputHandler → ℕ → Buffer → ℕ → HandleResult × OutputHandler
rejoin_id handler report_id report report_size =
    if ltb (2 ^ 8 - 1) report_id
    then (report_id_too_large, handler)
    else if leb output_report_max_size report_size
    then (buffer_too_small, handler)
    else (ok, record handler { scratch = rejoined handler.scratch report_id report report_size })

abbrev pub delivered : OutputHandler → ℕ → ParseResult × OutputReport → Handled
delivered handler hid_cid (ParseResult.ok, parsed) = record {
  result = ok;
  handler = handler;
  delivery = some (record { hid_cid = hid_cid; report = parsed });
}
delivered handler hid_cid (_, parsed) = record {
  result = parse_failed;
  handler = handler;
  delivery = none;
}

abbrev pub refused : HandleResult → OutputHandler → Handled
refused result handler = record { result = result; handler = handler; delivery = none }

-- The end of `handle`, by the outcome of the rejoining.
abbrev pub after_rejoin : HandleResult × OutputHandler → ℕ → ℕ → OutputReport → Handled
after_rejoin (ok, handler) hid_cid report_size local =
    delivered handler hid_cid (parse_bytes handler.scratch (report_size + 1) local)
after_rejoin (other, handler) hid_cid report_size local = refused other handler

-- A valid handler, and a report that is not NULL.
unfoldable pub handle_report : OutputHandler → HandleOptions → Buffer → OutputReport → Handled
unfolding rejoin_id
handle_report handler options report local =
    if not (options.report_type == report_type_output)
    then refused ignored_report_type handler
    else if options.report_id == 0
    then delivered handler options.hid_cid (parse_bytes report options.report_size local)
    else after_rejoin (rejoin_id handler options.report_id report options.report_size)
        options.hid_cid options.report_size local

-- `swbt_btstack_output_report_handler_handle`; `local` is what its variable holds before the parse.
unfoldable pub handle : OutputHandler → HandleOptions → OutputReport → Handled
unfolding handle_report
handle handler options local = elim options.report [
  | none ↦ refused invalid_argument handler
  | some report ↦
      if not handler.has_callback
      then refused invalid_argument handler
      else handle_report handler options report local
]

-- `g_output_report_handler`, and whether the callbacks are registered.
pub record Callbacks : Type 0 where
  pub handler : Option OutputHandler
  pub data_callback : Bool
  pub set_report_callback : Bool

-- `swbt_btstack_output_report_callbacks_result_t`.
pub data CallbacksResult : Type 0 where
  ok invalid_argument : CallbacksResult

-- The callbacks and the call of the handler's callback.
abbrev pub dispatch_to :
    Callbacks → OutputHandler → HandleOptions → OutputReport → Callbacks × Option Delivery
dispatch_to callbacks handler options local =
    let handled = handle handler options local in
    (record callbacks { handler = some (handled.handler) }, handled.delivery)

-- `swbt_btstack_output_report_callbacks_dispatch`.
unfoldable pub dispatch :
    Callbacks → ℕ → ℕ → ℕ → ℤ → Option Buffer → OutputReport → Callbacks × Option Delivery
unfolding handle
dispatch callbacks hid_cid report_type report_id (negsuc n) report local = (callbacks, none)
dispatch callbacks hid_cid report_type report_id (pos report_size) report local =
    elim callbacks.handler [
      | none ↦ (callbacks, none)
      | some handler ↦
          dispatch_to callbacks handler
            (record {
              hid_cid = hid_cid;
              report_type = u8 report_type;
              report_id = report_id;
              report = report;
              report_size = report_size;
            })
            local
    ]

-- `swbt_btstack_set_report_callback`.
unfoldable pub set_report :
    Callbacks → ℕ → ℕ → ℤ → Option Buffer → OutputReport → Callbacks × Option Delivery
unfolding dispatch
set_report callbacks hid_cid report_type report_size report local =
    dispatch callbacks hid_cid report_type 0 report_size report local

-- `swbt_btstack_output_report_callbacks_register`.
unfoldable pub register : Callbacks → Option OutputHandler → CallbacksResult × Callbacks
register callbacks none = (CallbacksResult.invalid_argument, callbacks)
register callbacks (some handler) = (
  CallbacksResult.ok,
  record { handler = some handler; data_callback = true; set_report_callback = true },
)

-- `swbt_btstack_output_report_callbacks_unregister`.
unfoldable pub unregister : Callbacks → Callbacks
unregister callbacks = record { handler = none; data_callback = false; set_report_callback = false }
