-- ===== src/Bridge/OutputHandler/Rejoin.antt =====
-- A report that the stack delivers without its id is handled as the whole report is.
use swbt_daemon.Common.{
  ℕ, ◌+◌, ◌-◌, ◌%◌, ◌^◌, ◌≤◌, ◌<◌, ◌≡◌, refl, subst, sym, ◌∙◌, inl, inr, Bool-cases, false, Option,
  none, some, true, arith, if◌then◌else◌, ◌==◌,
}
use swbt_daemon.Common.Buffer.{Buffer, store, fill, fill_lem}
use swbt_daemon.Switch.Subcommand.{OutputReport, ParseResult, parse_bytes}
use swbt_daemon.Switch.Subcommand.Parse.{byte_at, parse_reads_within}
use swbt_daemon.Bridge.OutputHandler.{
  OutputHandler, HandleOptions, Delivery, invalid_argument, ignored_report_type, handle,
  handle_report, rejoin_id, rejoined, delivered, refused,
}

-- A report with its id before it.
abbrev pub whole : ℕ → Buffer → Buffer
whole report_id report i = if i == 0 then report_id else report (i - 1)

rejoined-whole :
    (scratch : Buffer) (report_id : ℕ) (report : Buffer) (size k : ℕ)
    → report_id < 256
    → k < size + 1
    → rejoined scratch report_id report size k ≡ whole report_id report k
rejoined-whole scratch report_id report size k h hk =
    ground (arith, fill_lem (store scratch 0 (report_id % 2 ^ 8)) 1 size report k)

-- Two parsed reports that say the same, the data pointer as far as it may be read.
abbrev pub Agree : OutputReport → OutputReport → Type 0
Agree p p' =
    (p.output_report_id ≡ p'.output_report_id)
    × (p.packet_counter ≡ p'.packet_counter)
    × (p.has_subcommand ≡ p'.has_subcommand)
    × (p.subcommand_id ≡ p'.subcommand_id)
    × (p.subcommand_data_len ≡ p'.subcommand_data_len)
    × ((i : ℕ) → i < 8 → p.rumble i ≡ p'.rumble i)
    × ((j : ℕ)
        → j < p.subcommand_data_len
        → byte_at p.subcommand_data j ≡ byte_at p'.subcommand_data j)

-- Two outcomes that deliver the same.
abbrev pub DeliverAlike : Option Delivery → Option Delivery → Type 0
DeliverAlike none none = Unit
DeliverAlike none (some d') = ⊥
DeliverAlike (some d) none = ⊥
DeliverAlike (some d) (some d') = (d.hid_cid ≡ d'.hid_cid) × Agree d.report d'.report

delivered_alike :
    (handler handler' : OutputHandler) (hid_cid : ℕ) (result : ParseResult) (p p' : OutputReport)
    → Agree p p'
    → let apart = delivered handler hid_cid (result, p) in
      let together = delivered handler' hid_cid (result, p') in
      (apart.result ≡ together.result) × DeliverAlike apart.delivery together.delivery
delivered_alike handler handler' hid_cid ParseResult.ok p p' h = (refl, (refl, h))
delivered_alike handler handler' hid_cid ParseResult.invalid_argument p p' h = (refl, tt)
delivered_alike handler handler' hid_cid ParseResult.packet_too_short p p' h = (refl, tt)
delivered_alike handler handler' hid_cid ParseResult.unsupported_report_id p p' h = (refl, tt)

module _ (bytes bytes' : Buffer) (len : ℕ) (r r' : OutputReport)
    (same : (k : ℕ) → k < len → bytes k ≡ bytes' k) where
  result_agrees : (parse_bytes bytes len r).0 ≡ (parse_bytes bytes' len r').0
  unfolding parse_bytes
  result_agrees = ground (arith, same 0)

  rumble_agrees :
      (i : ℕ)
      → i < 8
      → (parse_bytes bytes len r).1.rumble i ≡ (parse_bytes bytes' len r').1.rumble i
  unfolding parse_bytes
  rumble_agrees i h = ground (
    arith,
    same 0,
    same (2 + i),
    fill_lem r.rumble 0 8 (λ _. 0) i,
    fill_lem r'.rumble 0 8 (λ _. 0) i,
    fill_lem (fill r.rumble 0 8 (λ _. 0)) 0 8 (λ index. bytes (2 + index)) i,
    fill_lem (fill r'.rumble 0 8 (λ _. 0)) 0 8 (λ index. bytes' (2 + index)) i,
  )

  Agree_lem : Agree (parse_bytes bytes len r).1 (parse_bytes bytes' len r').1
  unfolding parse_bytes
  Agree_lem = (
    ground (arith, same 0),
    ground (arith, same 0, same 1),
    ground (arith, same 0),
    ground (arith, same 0, same 10),
    ground (arith, same 0),
    rumble_agrees,
    λ j h. (parse_reads_within bytes bytes' len r r' same).7 j h,
  )

  parsed_alike :
      (handler handler' : OutputHandler) (hid_cid : ℕ)
      → let apart = delivered handler hid_cid (parse_bytes bytes len r) in
        let together = delivered handler' hid_cid (parse_bytes bytes' len r') in
        (apart.result ≡ together.result) × DeliverAlike apart.delivery together.delivery
  parsed_alike handler handler' hid_cid = subst (Alike handler handler' hid_cid) result_agrees (
      delivered_alike handler handler' hid_cid (parse_bytes bytes len r).0
        (parse_bytes bytes len r).1 (parse_bytes bytes' len r').1 Agree_lem)
    where
      Alike : OutputHandler → OutputHandler → ℕ → ParseResult → Type 0
      Alike h h' cid result =
          let apart = delivered h cid (parse_bytes bytes len r) in
          let together = delivered h' cid (result, (parse_bytes bytes' len r').1) in
          (apart.result ≡ together.result) × DeliverAlike apart.delivery together.delivery

module _ (handler : OutputHandler) (options : HandleOptions) (report : Buffer)
    (r : OutputReport) where
  without_callback :
      handler.has_callback ≡ false
      → handle handler (record options { report = some report }) r
        ≡ refused invalid_argument handler
  unfolding handle
  without_callback c = ground arith

  other_type :
      handler.has_callback ≡ true
      → (options.report_type == 2) ≡ false
      → handle handler (record options { report = some report }) r
        ≡ refused ignored_report_type handler
  unfolding handle handle_report
  other_type c t = ground arith

  handle_whole :
      handler.has_callback ≡ true
      → (options.report_type == 2) ≡ true
      → options.report_id ≡ 0
      → handle handler (record options { report = some report }) r
        ≡ delivered handler options.hid_cid (parse_bytes report options.report_size r)
  unfolding handle handle_report
  handle_whole c t z = ground arith

  handle_apart :
      handler.has_callback ≡ true
      → (options.report_type == 2) ≡ true
      → 1 ≤ options.report_id
      → options.report_id < 256
      → options.report_size < 64
      → let scratch = rejoined handler.scratch options.report_id report options.report_size in
        handle handler (record options { report = some report }) r
        ≡ delivered
            (record handler { scratch = scratch })
            options.hid_cid
            (parse_bytes scratch (options.report_size + 1) r)
  unfolding handle handle_report rejoin_id
  handle_apart c t h1 h2 h3 = ground arith

-- It does not matter whether the stack delivers a report of up to 64 bytes whole or with its id
-- apart: the result is the same, and where the callback is called it is with the same channel and
-- a report that says the same, whatever the handler's array and the local variable held before.
pub handle-rejoined :
    (handler handler' : OutputHandler) (options : HandleOptions) (report : Buffer)
    (r r' : OutputReport)
    → 1 ≤ options.report_id
    → options.report_id < 256
    → options.report_size < 64
    → handler.has_callback ≡ handler'.has_callback
    → let apart = handle handler (record options { report = some report }) r in
      let joined = record options {
        report_id = 0;
        report = some (whole options.report_id report);
        report_size = options.report_size + 1;
      } in
      let together = handle handler' joined r' in
      (apart.result ≡ together.result) × DeliverAlike apart.delivery together.delivery
handle-rejoined handler handler' options report r r' h1 h2 h3 e =
    elim (Bool-cases handler.has_callback) [
      | inr c ↦ rw (without_callback handler options report r c) (
          rw (without_callback handler' joined (whole options.report_id report) r' (sym e ∙ c))
            (refl, tt))
      | inl c ↦ elim (Bool-cases (options.report_type == 2)) [
        | inr t ↦ rw (other_type handler options report r c t) (
            rw (other_type handler' joined (whole options.report_id report) r' (sym e ∙ c) t)
              (refl, tt))
        | inl t ↦ rw (handle_apart handler options report r c t h1 h2 h3) (
            rw (handle_whole handler' joined (whole options.report_id report) r' (sym e ∙ c) t refl)
              (parsed_alike (rejoined handler.scratch options.report_id report options.report_size)
                (whole options.report_id report) (options.report_size + 1) r r'
                (λ k hk.
                  rejoined-whole handler.scratch options.report_id report options.report_size k h2
                    hk)
                (record handler {
                  scratch = rejoined handler.scratch options.report_id report options.report_size;
                })
                handler' options.hid_cid))
      ]
    ]
  where
    joined : HandleOptions
    joined = record options { report_id = 0; report_size = options.report_size + 1 }
