-- ===== src/Switch/Examples/Commands.antt =====
-- The theorems on lights, rumble and the dispatcher at concrete inputs.
use swbt_daemon.Common.{◌≡◌, refl, some, arith}
use swbt_daemon.Common.Buffer.{Buffer}
use swbt_daemon.Switch.Dispatcher.{Response, dispatch, dispatch_by_id, ok}
use swbt_daemon.Switch.Dispatcher.Answers.{IsOutcome, dispatch-IsAnswer}
use swbt_daemon.Switch.Dispatcher.FlashRead.{spi_read-answer}
use swbt_daemon.Switch.Examples.{
  tilted, options, erased, dark, config, response, flash_request, command,
}

-- Lights 0 and 2 on, lights 0 and 1 flashing.
abbrev lights_byte : Buffer
lights_byte _ = 0x35

dispatch-IsAnswer_example :
    let (result, r, _) =
      dispatch (some config) (some (command 0x10 flash_request 5)) (some response) in
    (r' : Response) × (r ≡ some r') × IsOutcome (some (command 0x10 flash_request 5)) result r'
dispatch-IsAnswer_example =
    dispatch-IsAnswer (some config) (some (command 0x10 flash_request 5)) response

spi_read-answer_example :
    let ((result, r), lights) = dispatch_by_id config (command 0x10 flash_request 5) response in
    (result ≡ ok)
    × (r.report_size ≡ 50)
    × (r.report 13 ≡ 0x90)
    × (r.report 16 ≡ 0x60)
    × (r.report 23 ≡ 0xFF)
    × (lights ≡ some dark)
spi_read-answer_example =
    spi_read-answer config tilted options erased (command 0x10 flash_request 5) response
      flash_request 1 3 refl refl refl refl refl (omega arith) (omega arith) (omega arith)
      (omega arith) (omega arith) (omega arith) (omega arith) (omega arith)
