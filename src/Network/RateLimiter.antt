-- ===== src/Network/RateLimiter.antt =====
-- crates/bridge/src/network.rs: `RateLimiter`. Instants are nanoseconds; `u32` counts stay below
-- `rps`, so they do not wrap.
pub mod Window
use nanny.Prelude.{
  ℕ, String, ◌+◌, ◌-◌, ◌*◌, ◌/◌, ◌^◌, Bool, true, false, Option, none, some, leb, ltb,
  if◌then◌else◌,
}
use nanny.Prelude.Dict.{Dict, get, insert}

pub record RateLimiter : Type 0 where
  pub inner : Dict (ℕ × ℕ)
  pub rps : ℕ

abbrev pub second : ℕ
second = 10 ^ 9

-- `entry(ip).or_insert((0, now))`
abbrev pub entry_or : ℕ → Option (ℕ × ℕ) → ℕ × ℕ
entry_or now none = (0, now)
entry_or now (some entry) = entry

-- What `check` does with the entry of one address. `duration_since` is 0 for an earlier instant.
unfoldable pub check_entry : ℕ → ℕ → ℕ × ℕ → (ℕ × ℕ) × Bool
check_entry rps now (count, start) =
    if leb 1 ((now - start) / second)
    then ((1, now), true)
    else if ltb count rps
    then ((count + 1, start), true)
    else ((count, start), false)

-- `RateLimiter::check`
unfoldable pub check : RateLimiter → String → ℕ → RateLimiter × Bool
unfolding check_entry
check r ip now =
    let (entry, passed) = check_entry r.rps now (entry_or now (get ip r.inner)) in
    (record r { inner = insert ip entry r.inner }, passed)
