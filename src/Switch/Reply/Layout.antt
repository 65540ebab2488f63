-- ===== src/Switch/Reply/Layout.antt =====
-- The layout of the subcommand reply, and its agreement with the standard full report.
use swbt_daemon.Common.{
  ℕ, zero, suc, ◌+◌, ◌≤◌, ◌<◌, ◌≡◌, refl, ◌⊎◌, inl, inr, ◌∙◌, ◌↔◌, true, false, not, ◌&&◌, Option,
  none, some, arith, ltb, if◌then◌else◌, is_null,
}
use swbt_daemon.Common.Buffer.{Buffer, fill_lem, fill_inside, fill_outside}
use swbt_daemon.Switch.State.{ControllerState}
use swbt_daemon.Switch.Report.{ReportOptions, write_report}
use swbt_daemon.Switch.Reply.{
  SubcommandReply, ok, byte_at, write_reply, write_header, build_subcommand_reply, max_data_size,
  reply_report_size,
}

module _ (s : ControllerState) (o : ReportOptions) (reply : SubcommandReply) (out : Buffer) where
  -- Past the header only the zeros were written.
  write_header_above :
      (j : ℕ) → 15 ≤ j → write_header s o reply out j ≡ (if ltb j 50 then 0 else out j)
  unfolding write_header
  write_header_above j h = ground (arith, fill_lem out 0 50 (λ _. 0) j)

  pub write_reply_above :
      (j : ℕ)
      → 15 + reply.data_len ≤ j
      → write_reply s o reply out j ≡ (if ltb j 50 then 0 else out j)
  unfolding write_reply
  write_reply_above j h =
      fill_outside (write_header s o reply out) 15 reply.data_len (byte_at reply.bytes) j (inr h)
      ∙ write_header_above j (omega arith)

  pub write_reply_data :
      (i : ℕ) → i < reply.data_len → write_reply s o reply out (15 + i) ≡ byte_at reply.bytes i
  unfolding write_reply
  write_reply_data i h =
      fill_inside (write_header s o reply out) 15 reply.data_len (byte_at reply.bytes) i h

  pub write_reply_below :
      (j : ℕ) → j < 15 → write_reply s o reply out j ≡ write_header s o reply out j
  unfolding write_reply
  write_reply_below j h =
      fill_outside (write_header s o reply out) 15 reply.data_len (byte_at reply.bytes) j (inl h)

  -- The two builders, written twice in the source, agree on bytes 1 to 12.
  header-agrees : (j : ℕ) → 1 ≤ j → j < 13 → write_header s o reply out j ≡ write_report s o out j
  unfolding write_header write_report
  header-agrees zero h k = absurd (omega arith)
  header-agrees (suc zero) h k = refl
  header-agrees (suc (suc zero)) h k = refl
  header-agrees (suc (suc (suc zero))) h k = refl
  header-agrees (suc (suc (suc (suc zero)))) h k = refl
  header-agrees (suc (suc (suc (suc (suc zero))))) h k = refl
  header-agrees (suc (suc (suc (suc (suc (suc zero)))))) h k = refl
  header-agrees (suc (suc (suc (suc (suc (suc (suc zero))))))) h k = refl
  header-agrees (suc (suc (suc (suc (suc (suc (suc (suc zero)))))))) h k = refl
  header-agrees (suc (suc (suc (suc (suc (suc (suc (suc (suc zero))))))))) h k = refl
  header-agrees (suc (suc (suc (suc (suc (suc (suc (suc (suc (suc zero)))))))))) h k = refl
  header-agrees (suc (suc (suc (suc (suc (suc (suc (suc (suc (suc (suc zero))))))))))) h k = refl
  header-agrees (suc (suc (suc (suc (suc (suc (suc (suc (suc (suc (suc (suc zero)))))))))))) h k =
      refl
  header-agrees (suc (suc (suc (suc (suc (suc (suc (suc (suc (suc (suc (suc (suc j))))))))))))) h
        k =
      absurd (omega arith)

-- The data of a reply is well formed when it fits, and its pointer is not NULL unless it is empty.
pub record IsWellFormed (reply : SubcommandReply) : Type 0 where
  pub fits : reply.data_len ≤ max_data_size
  pub present : (ltb 0 reply.data_len && is_null reply.bytes) ≡ false

-- A well-formed reply, with data or without, is built into an array of 50 bytes or more: bytes 1 to
-- 12 are those of the standard full report for the same state and options, then come the
-- acknowledgement, the subcommand id, the data and zeros up to 50; bytes past the 50 keep their
-- value.
pub build-reply_layout :
    (s : ControllerState) (o : ReportOptions) (reply : SubcommandReply) (out : Buffer) (size : ℕ)
    → IsWellFormed reply
    → reply_report_size ≤ size
    → let b = build_subcommand_reply (some s) (some o) (some reply) (some out) size in
      (report : Buffer) × (b
        ≡ record { result = ok; out = some report; written = reply_report_size })
      × (report 0 ≡ 0x21)
      × ((j : ℕ) → 1 ≤ j → j < 13 → report j ≡ write_report s o out j)
      × (report 13 ≡ reply.ack)
      × (report 14 ≡ reply.subcommand_id)
      × ((i : ℕ) → i < reply.data_len → report (15 + i) ≡ byte_at reply.bytes i)
      × ((k : ℕ) → 15 + reply.data_len ≤ k → k < 50 → report k ≡ 0)
      × ((l : ℕ) → 50 ≤ l → report l ≡ out l)
unfolding build_subcommand_reply
build-reply_layout s o reply out size w h = (
  write_reply s o reply out,
  ground arith,
  write_reply_below s o reply out 0 (omega arith) ∙ (unfold write_header in refl),
  λ j j1 j2. write_reply_below s o reply out j (omega arith) ∙ header-agrees s o reply out j j1 j2,
  write_reply_below s o reply out 13 (omega arith) ∙ (unfold write_header in refl),
  write_reply_below s o reply out 14 (omega arith) ∙ (unfold write_header in refl),
  λ i ih. write_reply_data s o reply out i ih,
  λ k k1 k2. write_reply_above s o reply out k k1 ∙ ground arith,
  λ l lh. write_reply_above s o reply out l (past w.fits lh) ∙ ground arith,
)
  where
    past : {l : ℕ} → reply.data_len ≤ 35 → 50 ≤ l → 15 + reply.data_len ≤ l
    past fits lh = omega arith

-- A reply is built exactly when no pointer is NULL, its data is well formed and the array has 50
-- bytes; else the array is unchanged.
pub build-reply_outcome :
    (s : Option ControllerState) (o : Option ReportOptions) (reply : SubcommandReply)
    (out : Option Buffer) (size : ℕ)
    → let b = build_subcommand_reply s o (some reply) out size in
      ((b.result ≡ ok) ↔ (
        ((not (is_null s) && not (is_null o) && not (is_null out)) ≡ true)
        × IsWellFormed reply
        × (50 ≤ size)))
      × ((b.result ≡ ok) ⊎ (b.out ≡ out))
unfolding build_subcommand_reply
build-reply_outcome none o reply out size = ground arith
build-reply_outcome (some s) none reply out size = ground arith
build-reply_outcome (some s) (some o) reply none size = ground arith
build-reply_outcome (some s) (some o) reply (some out) size = ground arith
