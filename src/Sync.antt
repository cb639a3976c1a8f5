-- ===== src/Sync.antt =====
-- `std::sync::Mutex`: a thread that panics while it holds the lock poisons it, and the lock stays
-- poisoned. What a thread does with the value of a poisoned lock is up to the caller of `lock`.
use modular_rust_reverse_pro.Base.{Bool, false, if◌then◌else◌}

pub record Mutex {ℓ} (A : Type ℓ) : Type ℓ where
  pub poisoned : Bool
  pub inner : A

module _ {ℓ} {A : Type ℓ} where
  abbrev pub unlocked : A → Mutex A
  unlocked a = record { poisoned = false; inner = a }

  -- The value that a caller works with who repairs a poisoned value by `recover`.
  abbrev pub lock : (A → A) → Mutex A → A
  lock recover m = if m.poisoned then recover m.inner else m.inner

  abbrev pub store : A → Mutex A → Mutex A
  store a m = record m { inner = a }
