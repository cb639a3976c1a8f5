-- ===== src/Modules/Helpers.antt =====
-- src/modules/helpers.rs: how a module reads its configuration.
use modular_rust_reverse_pro.Base.{
  ℕ, ◌^◌, Bool, true, Option, none, some, ◌>>=◌, List, [], ◌∷◌, Text, lit, text_eq, HashMap, lookup,
  unwrap_or, ℤ, pos, negsuc, if◌then◌else◌, ltb,
}
use modular_rust_reverse_pro.Toml.{Toml}

-- `u64::try_from`; `usize` has 64 bits too.
unfoldable pub to_u64 : ℤ → Option ℕ
to_u64 (pos n) = if ltb n (2 ^ 64) then some n else none
to_u64 (negsuc n) = none

-- `filter_map`
unfoldable pub filter_map {ℓ κ} : {A : Type ℓ} {B : Type κ} → (A → Option B) → List A → List B
filter_map f [] = []
filter_map f (x ∷ xs) = elim (f x) [ none ↦ filter_map f xs | some y ↦ y ∷ filter_map f xs ]

module _ (t : Toml) where
  abbrev pub Modules : Type 0
  Modules = HashMap Text t.Value

  unfoldable pub config_value : Modules → Text → Text → Option t.Value
  config_value c m k = do v ← lookup m c; t.get v k

  unfoldable pub config_bool : Modules → Text → Text → Bool → Bool
  unfolding config_value
  config_bool c m k d = unwrap_or (config_value c m k >>= t.as_bool) d

  unfoldable pub is_enabled : Modules → Text → Bool
  is_enabled c m = config_bool c m (lit "enabled") true

  unfoldable pub config_u64 : Modules → Text → Text → ℕ → ℕ
  unfolding config_value to_u64
  config_u64 c m k d = unwrap_or (config_value c m k >>= t.as_integer >>= to_u64) d

  unfoldable pub config_usize : Modules → Text → Text → ℕ → ℕ
  unfolding config_value to_u64
  config_usize c m k d = unwrap_or (config_value c m k >>= t.as_integer >>= to_u64) d

  unfoldable pub config_str : Modules → Text → Text → Text → Text
  unfolding config_value
  config_str c m k d = unwrap_or (config_value c m k >>= t.as_str) d

  unfoldable pub config_vec_str : Modules → Text → Text → List Text
  unfolding config_value filter_map
  config_vec_str c m k =
      unwrap_or (config_value c m k >>= t.as_array >>= (λ a. some (filter_map t.as_str a))) []
