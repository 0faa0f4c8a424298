-- ===== src/Core/Error.antt =====
-- engine/core/include/atlas/core/error.hpp and result.hpp: stable error codes, the domain that a
-- code stands for, and the result of a fallible operation. An error is its code: the message text
-- and the chain of contexts are for people, and no code branches on them.
use atlas_engine.Base.{◌≡◌, refl, ◌⊎◌, inl, inr, Bool, true, false}

pub data ErrorCode : Type 0 where
  unknown invalid_argument out_of_range not_found already_exists not_supported : ErrorCode
  unavailable exhausted permission_denied cancelled internal io_failure : ErrorCode
  platform_init_failed window_creation_failed display_unavailable : ErrorCode
  gpu_unavailable gpu_device_creation_failed shader_compilation_failed : ErrorCode
  pipeline_creation_failed resource_creation_failed device_lost : ErrorCode
  asset_not_found asset_import_failed asset_decode_failed : ErrorCode
  serialization_failed version_mismatch integrity_check_failed malformed_data : ErrorCode
  audio_init_failed audio_device_unavailable audio_format_unsupported : ErrorCode
  script_runtime_init_failed mod_invalid mod_import_refused mod_export_missing : ErrorCode
  mod_trapped mod_budget_exhausted : ErrorCode

pub data Result {ℓ} (A : Type ℓ) : Type ℓ where
  ok : A → Result A
  err : ErrorCode → Result A

-- A `Status` has no value.
abbrev pub Status : Type 0
Status = Result (Unit {0})

infixl 5 ◌>>=◌ ◌>>◌
abbrev pub ◌>>=◌ {ℓ κ} : {A : Type ℓ} {B : Type κ} → Result A → (A → Result B) → Result B
ok a >>= f = f a
err e >>= f = err e

abbrev pub ◌>>◌ {ℓ} : {B : Type ℓ} → Status → Result B → Result B
m >> k = m >>= λ _. k

-- Stop with the error unless the test holds.
abbrev pub guard : Bool → ErrorCode → Status
guard true e = ok tt
guard false e = err e

pub ok-injective : {A : Type 0} (x y : A) → ok x ≡ ok y → x ≡ y
ok-injective x y e = cc

-- A chain that succeeds has succeeded in both steps.
pub bind-ok :
    {A B : Type 0} (r : Result A) (f : A → Result B) (y : B)
    → (r >>= f) ≡ ok y
    → (x : A) × ((r ≡ ok x) × (f x ≡ ok y))
bind-ok (ok x) f y e = (x, (refl, e))
bind-ok (err c) f y e = absurd (cc)

pub Result-cases :
    {A : Type 0} (r : Result A) → ((e : ErrorCode) × (r ≡ err e)) ⊎ ((x : A) × (r ≡ ok x))
Result-cases (ok x) = inr (x, refl)
Result-cases (err e) = inl (e, refl)
