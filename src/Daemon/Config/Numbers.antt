-- ===== src/Daemon/Config/Numbers.antt =====
-- What the environment's texts are read as: swbt/daemon/config.c.
use swbt_daemon.Common.{
  ◌-◌, ℕ, ◌^◌, ◌<◌, ◌≡◌, refl, sym, subst, ap, ◌∙◌, Option, none, some, [], ◌∷◌, arith, ltb,
  if◌then◌else◌,
}
use swbt_daemon.Common.Int.{ℤ, pos, negsuc}
use swbt_daemon.Common.Text.{Bytes, strtoul_10}
use swbt_daemon.Daemon.Config.{whole_u32, parse_u32, parse_u16, parse_int}

-- The values of `int`.
abbrev pub IsInt : ℤ → Type 0
IsInt (pos n) = n < 2 ^ 31
IsInt (negsuc n) = n < 2 ^ 31

-- A value after the environment: the one that the variable was read as where it is set, else the
-- one before.
abbrev pub Follows : {A : Type 0} → (Bytes → Option A) → Option Bytes → A → A → Type 0
Follows parse none before after = after ≡ before
Follows parse (some chars) before after = parse chars ≡ some after

-- A number after the environment: where the variable is set, it is not empty and `strtoul` reads
-- the number and comes to the end of the text; where it is not set, the number is the one before.
abbrev pub Reads : ℕ → Option Bytes → ℕ → ℕ → Type 0
Reads bits none before after = after ≡ before
Reads bits (some []) before after = ⊥
Reads bits (some (c ∷ chars)) before after = strtoul_10 bits (c ∷ chars) ≡ some (after, [])

-- The same for an `int`.
abbrev pub ReadsInt : ℕ → Option Bytes → ℤ → ℤ → Type 0
ReadsInt bits none before after = after ≡ before
ReadsInt bits (some chars) before after = (n : ℕ) × (after ≡ pos n) × Reads bits (some chars) n n

whole_u32-lt : (read : Option (ℕ × Bytes)) (n : ℕ) → whole_u32 read ≡ some n → n < 2 ^ 32
whole_u32-lt none n e = ground arith
whole_u32-lt (some (parsed, [])) n e = ground arith
whole_u32-lt (some (parsed, c ∷ end)) n e = ground arith

pub parse_u32-lt : (bits : ℕ) (value : Bytes) (n : ℕ) → parse_u32 bits value ≡ some n → n < 2 ^ 32
unfolding parse_u32
parse_u32-lt bits [] n e = ground arith
parse_u32-lt bits (c ∷ value) n e = whole_u32-lt (strtoul_10 bits (c ∷ value)) n e

pub parse_u16-lt : (bits : ℕ) (value : Bytes) (n : ℕ) → parse_u16 bits value ≡ some n → n < 2 ^ 16
unfolding parse_u16
parse_u16-lt bits value n e = ground arith

parse_int-IsInt : (bits : ℕ) (value : Bytes) (z : ℤ) → parse_int bits value ≡ some z → IsInt z
unfolding parse_int
parse_int-IsInt bits value (pos n) e = ground arith
parse_int-IsInt bits value (negsuc n) e = ground arith

pub Follows-lt :
    (bound : ℕ) (parse : Bytes → Option ℕ) (env : Option Bytes) (before after : ℕ)
    → ((value : Bytes) (n : ℕ) → parse value ≡ some n → n < bound)
    → before < bound
    → Follows parse env before after
    → after < bound
Follows-lt bound parse none before after small b f = ground arith
Follows-lt bound parse (some chars) before after small b f = small chars after f

pub Follows-IsInt :
    (bits : ℕ) (env : Option Bytes) (before after : ℤ)
    → IsInt before
    → Follows (parse_int bits) env before after
    → IsInt after
Follows-IsInt bits none before after b f = subst IsInt (sym f) b
Follows-IsInt bits (some chars) before after b f = parse_int-IsInt bits chars after f

pub Follows-transport :
    {A : Type 0} (parse : Bytes → Option A) (env : Option Bytes) {before before' after after' : A}
    → before ≡ before'
    → after ≡ after'
    → Follows parse env before after
    → Follows parse env before' after'
Follows-transport parse env {before} {before'} {after} {after'} e e' f =
    subst (λ b. Follows parse env b after') e (subst (λ a. Follows parse env before a) e' f)

whole_u32-end : (read : Option (ℕ × Bytes)) (n : ℕ) → whole_u32 read ≡ some n → read ≡ some (n, [])
whole_u32-end none n e = ground arith
whole_u32-end (some (parsed, [])) n e = ground arith
whole_u32-end (some (parsed, c ∷ end)) n e = ground arith

some-whole_u32 : (n : ℕ) → n < 2 ^ 32 → whole_u32 (some (n, [])) ≡ some n
some-whole_u32 n h = ground arith

parse_u32-Reads :
    (bits : ℕ) (chars : Bytes) (before n : ℕ)
    → parse_u32 bits chars ≡ some n
    → Reads bits (some chars) before n
unfolding parse_u32
parse_u32-Reads bits [] before n e = ground arith
parse_u32-Reads bits (c ∷ chars) before n e = whole_u32-end (strtoul_10 bits (c ∷ chars)) n e

Reads-parse_u32 :
    (bits : ℕ) (chars : Bytes) (before n : ℕ)
    → Reads bits (some chars) before n
    → n < 2 ^ 32
    → parse_u32 bits chars ≡ some n
unfolding parse_u32
Reads-parse_u32 bits [] before n r h = absurd r
Reads-parse_u32 bits (c ∷ chars) before n r h = ap whole_u32 r ∙ some-whole_u32 n h

parse_u16-parse_u32 :
    (bits : ℕ) (chars : Bytes) (n : ℕ)
    → parse_u16 bits chars ≡ some n
    → parse_u32 bits chars ≡ some n
unfolding parse_u16
parse_u16-parse_u32 bits chars n e = ground arith

pub u32-Reads :
    (bits : ℕ) (env : Option Bytes) (before after : ℕ)
    → Follows (parse_u32 bits) env before after
    → Reads bits env before after
u32-Reads bits none before after f = f
u32-Reads bits (some chars) before after f = parse_u32-Reads bits chars before after f

pub u16-Reads :
    (bits : ℕ) (env : Option Bytes) (before after : ℕ)
    → Follows (parse_u16 bits) env before after
    → Reads bits env before after
u16-Reads bits none before after f = f
u16-Reads bits (some chars) before after f =
    parse_u32-Reads bits chars before after (parse_u16-parse_u32 bits chars after f)

pub int-ReadsInt :
    (bits : ℕ) (env : Option Bytes) (before after : ℤ)
    → Follows (parse_int bits) env before after
    → ReadsInt bits env before after
unfolding parse_int
int-ReadsInt bits none before after f = f
int-ReadsInt bits (some chars) before after f = by_parsed (parse_u32 bits chars) refl f
  where
    by_parsed :
        (parsed : Option ℕ)
        → parse_u32 bits chars ≡ parsed
        → (elim parsed as (λ _. Option ℤ) [
          | none ↦ none
          | some n ↦ if ltb (2 ^ 31 - 1) n then none else some (pos n)
        ])
          ≡ some after
        → (n : ℕ) × (after ≡ pos n) × Reads bits (some chars) n n
    by_parsed none e f' = ground arith
    by_parsed (some n) e f' = (n, ground arith, parse_u32-Reads bits chars n n e)

pub Reads-u32 :
    (bits : ℕ) (env : Option Bytes) (before after : ℕ)
    → Reads bits env before after
    → after < 2 ^ 32
    → Follows (parse_u32 bits) env before after
Reads-u32 bits none before after r h = r
Reads-u32 bits (some chars) before after r h = Reads-parse_u32 bits chars before after r h

pub Reads-u16 :
    (bits : ℕ) (env : Option Bytes) (before after : ℕ)
    → Reads bits env before after
    → after < 2 ^ 16
    → Follows (parse_u16 bits) env before after
unfolding parse_u16
Reads-u16 bits none before after r h = r
Reads-u16 bits (some chars) before after r h =
    let whole = Reads-parse_u32 bits chars before after r (omega arith) in ground arith

pub ReadsInt-int :
    (bits : ℕ) (env : Option Bytes) (before after : ℤ)
    → ReadsInt bits env before after
    → IsInt after
    → Follows (parse_int bits) env before after
unfolding parse_int
ReadsInt-int bits none before after r h = r
ReadsInt-int bits (some chars) before after (n, e, r) h =
    let small : n < 2 ^ 31 = subst IsInt e h in
    let whole = Reads-parse_u32 bits chars n n r (omega arith) in ground arith
