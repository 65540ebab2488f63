-- ===== src/Switch/Dispatcher/FlashRead.antt =====
-- A flash read through the dispatcher.
use swbt_daemon.Common.{
  ℕ, ◌+◌, ◌-◌, ◌*◌, ◌^◌, ◌≤◌, ◌<◌, ◌≡◌, refl, ◌∙◌, ap, some, arith, ltb, if◌then◌else◌,
}
use swbt_daemon.Common.Bits.{bit_or_disjoint}
use swbt_daemon.Common.Buffer.{Buffer, fill, fill_lem}
use swbt_daemon.Switch.State.{ControllerState}
use swbt_daemon.Switch.Report.{ReportOptions}
use swbt_daemon.Switch.Subcommand.{OutputReport}
use swbt_daemon.Switch.Reply.{SubcommandReply, write_reply, write_header, ack_code}
use swbt_daemon.Switch.Reply.Layout.{write_reply_data, write_reply_below}
use swbt_daemon.Switch.Spi.{Spi, ReadRequest, address_limit, max_read_size, storage_size}
use swbt_daemon.Switch.Spi
use swbt_daemon.Switch.Spi.Laws.{read_outcome}
use swbt_daemon.Switch.Dispatcher.Answers.{build_reply-ok}
use swbt_daemon.Switch.Dispatcher.{
  Config, Response, ok, reply, read_u32_le, spi_read, spi_read_request, answer_read, dispatch_by_id,
}

-- The address is the little-endian number of its four bytes.
read_u32_le-sum :
    (bytes : Buffer)
    → bytes 0 < 256
    → bytes 1 < 256
    → bytes 2 < 256
    → read_u32_le bytes ≡ bytes 0 + bytes 1 * 2 ^ 8 + bytes 2 * 2 ^ 16 + bytes 3 * 2 ^ 24
unfolding read_u32_le
read_u32_le-sum bytes h0 h1 h2 = rw (
  bit_or_disjoint 8 (bytes 0) (bytes 1) (omega arith),
  bit_or_disjoint 16 (bytes 0 + bytes 1 * 2 ^ 8) (bytes 2) (omega arith),
  bit_or_disjoint 24 (bytes 0 + bytes 1 * 2 ^ 8 + bytes 2 * 2 ^ 16) (bytes 3) (omega arith),
)

dispatch-spi_read_request :
    (config : Config) (spi : Spi) (output : OutputReport) (response : Response) (bytes : Buffer)
    → config.spi ≡ some spi
    → output.subcommand_id ≡ 0x10
    → output.subcommand_data ≡ some bytes
    → 5 ≤ output.subcommand_data_len
    → dispatch_by_id config output response
      ≡ (spi_read_request config output response bytes, config.player_lights)
unfolding dispatch_by_id spi_read
dispatch-spi_read_request config spi output response bytes ep en ed el = ground arith

-- The array of request and flash bytes that is sent.
abbrev reply_bytes : Buffer → Buffer → Buffer
reply_bytes bytes out i = if ltb i 5 then fill (λ _. 0) 0 5 bytes i else out (i - 5)

spi_read_request-eq :
    (config : Config) (s : ControllerState) (o : ReportOptions) (output : OutputReport)
    (response : Response) (bytes out : Buffer)
    → config.state ≡ some s
    → config.report_options ≡ some o
    → bytes 4 ≤ 0x1D
    → Spi.read config.spi
        (record { address = read_u32_le bytes; size = bytes 4 })
        (some (λ i. fill (λ _. 0) 0 5 bytes (5 + i)))
        0x1D
      ≡ record { result = Spi.SpiResult.ok; out = some out; written = bytes 4 }
    → spi_read_request config output response bytes ≡ (
      ok,
      record {
        action = reply;
        report =
            write_reply s o
              (record {
                ack = 0x90;
                subcommand_id = output.subcommand_id;
                bytes = some (reply_bytes bytes out);
                data_len = 5 + bytes 4;
              })
              response.report;
        report_size = 50;
      },
    )
unfolding spi_read_request ack_code
spi_read_request-eq config s o output response bytes out es eo h e = rw e (
    unfold answer_read in
    build_reply-ok config s o response 0x90 output.subcommand_id (5 + bytes 4)
      (reply_bytes bytes out) es eo (omega arith))

echo_bytes : (bytes out : Buffer) (i : ℕ) → i < 5 → reply_bytes bytes out i ≡ bytes i
echo_bytes bytes out i h = ground (arith, fill_lem (λ _. 0) 0 5 bytes i)

flash_bytes : (bytes out : Buffer) (k : ℕ) → reply_bytes bytes out (5 + k) ≡ out k
flash_bytes bytes out k = ground (arith, back)
  where
    back : out (5 + k - 5) ≡ out k
    back = ap out (omega arith)

-- A request for `size` bytes at an address, both within the limits, is answered with a report that
-- echoes the five request bytes and then holds the bytes of the flash: the stored byte below
-- 0x10000, the default value above.
pub spi_read-answer :
    (config : Config) (s : ControllerState) (o : ReportOptions) (spi : Spi) (output : OutputReport)
    (response : Response) (bytes : Buffer) (i k : ℕ)
    → config.state ≡ some s
    → config.report_options ≡ some o
    → config.spi ≡ some spi
    → output.subcommand_id ≡ 0x10
    → output.subcommand_data ≡ some bytes
    → 5 ≤ output.subcommand_data_len
    → bytes 0 < 256
    → bytes 1 < 256
    → bytes 2 < 256
    → bytes 4 ≤ 0x1D
    → bytes 0 + bytes 1 * 2 ^ 8 + bytes 2 * 2 ^ 16 + bytes 3 * 2 ^ 24 + bytes 4 ≤ 0x80000
    → i < 5
    → k < bytes 4
    → let ((result, r), lights) = dispatch_by_id config output response in
      let address = bytes 0 + bytes 1 * 2 ^ 8 + bytes 2 * 2 ^ 16 + bytes 3 * 2 ^ 24 in
      (result ≡ ok)
      × (r.report_size ≡ 50)
      × (r.report 13 ≡ 0x90)
      × (r.report (15 + i) ≡ bytes i)
      × (r.report (20 + k)
          ≡ (if ltb (address + k) 0x10000 then spi.bytes (address + k) else spi.default_value))
      × (lights ≡ config.player_lights)
spi_read-answer config s o spi output response bytes i k es eo ep en ed el h0 h1 h2 h4 ha hi hk =
    let sum = read_u32_le-sum bytes h0 h1 h2 in
    let request : ReadRequest = record { address = read_u32_le bytes; size = bytes 4 } in
    let tail = λ (j : ℕ). fill (λ _. 0) 0 5 bytes (5 + j) in
    let r =
      read_outcome spi request tail 0x1D k (bytes 4) h4 (omega (arith, sum)) h4 hk (omega arith) in
    let sent : SubcommandReply = record {
      ack = 0x90;
      subcommand_id = output.subcommand_id;
      bytes = some (reply_bytes bytes r.0);
      data_len = 5 + bytes 4;
    } in
    rw
      (
        dispatch-spi_read_request config spi output response bytes ep en ed el,
        spi_read_request-eq config s o output response bytes r.0 es eo h4 (rw ep r.1),
      )
      (
        refl,
        refl,
        write_reply_below s o sent response.report 13 (omega arith) ∙ (unfold write_header in refl),
        write_reply_data s o sent response.report i (omega arith) ∙ echo_bytes bytes r.0 i hi,
        ap (write_reply s o sent response.report) {y = 15 + (5 + k)} (omega arith)
            ∙ write_reply_data s o sent response.report (5 + k) (omega arith)
            ∙ flash_bytes bytes r.0 k
            ∙ r.2
            ∙ ap (λ (a : ℕ). if ltb (a + k) 0x10000 then spi.bytes (a + k) else spi.default_value)
                sum,
        refl,
      )
