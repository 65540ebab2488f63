-- ===== src/Switch/Rumble/Neutral.antt =====
-- Neutrality of the rumble state.
use swbt_daemon.Common.{
  ◌+◌, ◌∙◌, ap, ℕ, zero, suc, ◌<◌, ◌≡◌, refl, ◌↔◌, true, false, some, arith, ==_iff,
}
use swbt_daemon.Common.Buffer.{Buffer, fill, fill_inside}
use swbt_daemon.Switch.Rumble.{
  Rumble, ok, neutral_payload, same_as_neutral, payload_is_neutral, state_is_neutral, init, update,
}

same_as_neutral_sound :
    (n : ℕ) (payload : Buffer) (i : ℕ)
    → same_as_neutral n payload ≡ true
    → i < n
    → payload i ≡ neutral_payload i
unfolding same_as_neutral
same_as_neutral_sound zero payload i e h = absurd (omega arith)
same_as_neutral_sound (suc n) payload i e h =
    ground (arith, same_as_neutral_sound n payload i, last)
  where
    last : i ≡ n → payload n ≡ neutral_payload n → payload i ≡ neutral_payload i
    last p q = rw p q

same_as_neutral_complete :
    (n : ℕ) (payload : Buffer)
    → ((i : ℕ) → i < n → payload i ≡ neutral_payload i)
    → same_as_neutral n payload ≡ true
unfolding same_as_neutral
same_as_neutral_complete zero payload h = refl
same_as_neutral_complete (suc n) payload h = rw (
  same_as_neutral_complete n payload (λ i p. h i (omega arith)),
  (==_iff (payload n) (neutral_payload n)).1 (h n (omega arith)),
)

-- The rumble is neutral exactly when its eight bytes are those of the neutral payload.
pub state_is_neutral_iff :
    (r : Rumble)
    → (state_is_neutral (some r) ≡ true) ↔ ((i : ℕ) → i < 8 → r.raw i ≡ neutral_payload i)
unfolding state_is_neutral payload_is_neutral
state_is_neutral_iff r =
    ((λ e i h. same_as_neutral_sound 8 r.raw i e h), same_as_neutral_complete 8 r.raw)

-- A fresh state is neutral and not updated; an update takes over the payload's eight bytes and the
-- time, and the rumble is then neutral exactly when those bytes are 00 01 40 40 twice.
pub init-update_neutral :
    (r : Rumble) (payload : Buffer) (at i : ℕ)
    → i < 8
    → let (result, r') = update r (some payload) at in
      (state_is_neutral (some (init r)) ≡ true)
      × ((init r).updated ≡ false)
      × (result ≡ ok)
      × (r'.updated ≡ true)
      × (r'.updated_at_ms ≡ at)
      × (r'.raw i ≡ payload i)
      × ((state_is_neutral (some r') ≡ true) ↔ (
          (payload 0 ≡ 0x00)
          × (payload 1 ≡ 0x01)
          × (payload 2 ≡ 0x40)
          × (payload 3 ≡ 0x40)
          × (payload 4 ≡ 0x00)
          × (payload 5 ≡ 0x01)
          × (payload 6 ≡ 0x40)
          × (payload 7 ≡ 0x40)))
unfolding init update state_is_neutral payload_is_neutral same_as_neutral
init-update_neutral r payload at i h = (
  unfold fill in refl,
  refl,
  refl,
  refl,
  refl,
  ap (fill r.raw 0 8 payload) {y = 0 + i} (omega arith) ∙ fill_inside r.raw 0 8 payload i h,
  unfold fill neutral_payload in ground arith,
)
