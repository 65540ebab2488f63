-- ===== src/Switch/PlayerLights/Masks.antt =====
-- What the masks of the player lights mean, light by light.
use swbt_daemon.Common.{
  ℕ, zero, suc, ◌+◌, ◌-◌, ◌/◌, ◌%◌, ◌^◌, ◌≤◌, ◌<◌, ◌≡◌, refl, Bool, true, ◌&&◌, some, bit_and,
  arith, ◌==◌, ==_iff, if◌then◌else◌,
}
use swbt_daemon.Common.Bits.{bit_and_0f, holds_to, holds_to_sound}
use swbt_daemon.Common.Buffer.{Buffer, store}
use swbt_daemon.Switch.PlayerLights.{PlayerLights, ok, apply_raw, apply_set, get_reply_data}

-- Bit `i` of a number.
abbrev pub bit : ℕ → ℕ → ℕ
bit n i = n / 2 ^ i % 2

abbrev effective : ℕ → ℕ
effective raw = bit_and (bit_and (bit_and (raw / 2 ^ 4) 0x0F) (0xFF - bit_and raw 0x0F)) 0x0F

-- Light `i` flashes when its flash bit is set and its on bit is not.
abbrev flashes : ℕ → ℕ → Bool
flashes i raw = bit (effective raw) i == (if bit raw (4 + i) == 1 && bit raw i == 0 then 1 else 0)

table0 : holds_to 256 (flashes 0) ≡ true
unfolding holds_to
table0 = refl

table1 : holds_to 256 (flashes 1) ≡ true
unfolding holds_to
table1 = refl

table2 : holds_to 256 (flashes 2) ≡ true
unfolding holds_to
table2 = refl

table3 : holds_to 256 (flashes 3) ≡ true
unfolding holds_to
table3 = refl

effective_lem : (raw i : ℕ) → raw < 256 → i < 4 → flashes i raw ≡ true
effective_lem raw zero h k = holds_to_sound 256 raw (flashes 0) h table0
effective_lem raw (suc zero) h k = holds_to_sound 256 raw (flashes 1) h table1
effective_lem raw (suc (suc zero)) h k = holds_to_sound 256 raw (flashes 2) h table2
effective_lem raw (suc (suc (suc zero))) h k = holds_to_sound 256 raw (flashes 3) h table3
effective_lem raw (suc (suc (suc (suc i)))) h k = absurd (omega arith)

apply_set-ok :
    (lights : PlayerLights) (payload : Buffer) (len : ℕ)
    → 1 ≤ len
    → apply_set lights (some payload) len ≡ (ok, apply_raw (payload 0))
unfolding apply_set
apply_set-ok lights payload len h = ground arith

get_reply_data-ok :
    (lights : PlayerLights) (out : Buffer) (size : ℕ)
    → 1 ≤ size
    → get_reply_data (some lights) (some out) size ≡ (ok, some (store out 0 lights.raw), 1)
unfolding get_reply_data
get_reply_data-ok lights out size h = ground arith

-- Setting the lights by a payload of one byte or more keeps the byte, splits it into the on and
-- flash masks, and marks light i as flashing exactly when its flash bit is set and its on bit is
-- not; the get command then answers with the byte.
pub apply_set-masks :
    (lights : PlayerLights) (payload out : Buffer) (len size i : ℕ)
    → payload 0 < 256
    → 1 ≤ len
    → 1 ≤ size
    → i < 4
    → let (result, after) = apply_set lights (some payload) len in
      let (result', answer, written) = get_reply_data (some after) (some out) size in
      (result ≡ ok)
      × (after.raw ≡ payload 0)
      × (after.on_mask ≡ payload 0 % 16)
      × (after.flash_mask ≡ payload 0 / 16)
      × (bit after.effective_flash_mask i
          ≡ (if bit (payload 0) (4 + i) == 1 && bit (payload 0) i == 0 then 1 else 0))
      × (after.updated ≡ true)
      × (result' ≡ ok)
      × (written ≡ 1)
      × (out' : Buffer) × (answer ≡ some out')
      × (out' 0 ≡ payload 0)
apply_set-masks lights payload out len size i h hl hs hi = rw (apply_set-ok lights payload len hl) (
    rw (get_reply_data-ok (apply_raw (payload 0)) out size hs) (
      unfold apply_raw in
      (
        refl,
        refl,
        bit_and_0f (payload 0),
        omega (arith, bit_and_0f (payload 0 / 2 ^ 4)),
        (==_iff _ _).0 (effective_lem (payload 0) i h hi),
        refl,
        refl,
        refl,
        store out 0 (payload 0),
        refl,
        refl,
      )))
