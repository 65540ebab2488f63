-- ===== src/Ipc/Keys/Enough.antt =====
-- The fuel of the lookup of a key: swbt/ipc/ipc_json.c.
use swbt_daemon.Common.{
  ℕ, zero, suc, ◌≤◌, ◌<◌, ◌≡◌, refl, some, none, [], ◌∷◌, length, arith, Option,
}
use swbt_daemon.Common.Text.{Bytes}
use swbt_daemon.Ipc.Keys.{
  Walk, WalkRound, broken, next, at_key, read_key, find_loop, walk_round, after_round, after_key,
}

-- What follows a key is shorter than what starts with it.
read_key_shorter :
    (cs name rest : Bytes) → read_key cs ≡ some (name, rest) → length rest < length cs
unfolding read_key
read_key_shorter [] name rest h = cc
read_key_shorter (c ∷ cs) name rest h =
    by_tail (read_key cs) refl (λ n after e. read_key_shorter cs n after e)
  where
    by_tail :
        (tail : Option (Bytes × Bytes))
        → read_key cs ≡ tail
        → ((n after : Bytes) → read_key cs ≡ some (n, after) → length after < length cs)
        → length rest < suc (length cs)
    by_tail none e shorter = ground arith
    by_tail (some (n, after)) e shorter = ground (arith, shorter n after e)

-- Rounds that agree on every text that is not longer are followed by the same result.
after_round_same :
    (r : WalkRound) (cs key : Bytes) (w : Walk) (f g : Bytes → Walk → Option Bytes)
    → ((rest : Bytes) (w' : Walk) → length rest ≤ length cs → f rest w' ≡ g rest w')
    → after_round r cs key w f ≡ after_round r cs key w g
after_round_same broken cs key w f g same = refl
after_round_same (next w') cs key w f g same = same cs w' (omega arith)
after_round_same at_key cs key w f g same = by_key (read_key cs) refl
  where
    by_key :
        (k : Option (Bytes × Bytes)) → read_key cs ≡ k → after_key k key w f ≡ after_key k key w g
    by_key none e = refl
    by_key (some (name, rest)) e =
        ground (arith, same rest w (omega (arith, read_key_shorter cs name rest e)))

-- Any fuel that is the length of the text or more finds the same value.
find_loop-enough :
    (fuel more : ℕ) (json key : Bytes) (w : Walk)
    → length json ≤ fuel
    → length json ≤ more
    → find_loop fuel json key w ≡ find_loop more json key w
unfolding find_loop
find_loop-enough zero zero json key w enough enough' = refl
find_loop-enough zero (suc more) [] key w enough enough' = refl
find_loop-enough zero (suc more) (c ∷ cs) key w enough enough' = absurd (omega arith)
find_loop-enough (suc fuel) zero [] key w enough enough' = refl
find_loop-enough (suc fuel) zero (c ∷ cs) key w enough enough' = absurd (omega arith)
find_loop-enough (suc fuel) (suc more) [] key w enough enough' = refl
find_loop-enough (suc fuel) (suc more) (c ∷ cs) key w enough enough' =
    after_round_same (walk_round c w) cs key w (λ rest w'. find_loop fuel rest key w')
      (λ rest w'. find_loop more rest key w')
      (λ rest w' shorter. find_loop-enough fuel more rest key w' (omega arith) (omega arith))
