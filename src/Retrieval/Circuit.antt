-- ===== src/Retrieval/Circuit.antt =====
-- `NonRetryableProviderCircuit` of knowledge/services/provider_circuit.py. The lock makes each
-- method one step, and the clock's reading is an argument; its unit is arbitrary.
use its_middle_platform_agen.Prelude.{
  ◌||◌, eqb, ◌+◌, leb, if◌then◌else◌, false, Option, Bool, ℕ, none, some,
}

pub record NonRetryableProviderCircuit : Type 0 where
  pub cooldown_seconds : ℕ
  pub retry_at : ℕ

abbrev pub new_circuit : ℕ → NonRetryableProviderCircuit
new_circuit cooldown_seconds = record { cooldown_seconds = cooldown_seconds; retry_at = 0 }

unfoldable pub allow : ℕ → NonRetryableProviderCircuit → Bool
allow clock c = leb c.retry_at clock

unfoldable pub record_success : NonRetryableProviderCircuit → NonRetryableProviderCircuit
record_success c = record c { retry_at = 0 }

-- `{400, 401, 403}`; an error without a status code has none.
abbrev pub is_rejection : Option ℕ → Bool
is_rejection none = false
is_rejection (some code) = eqb code 400 || eqb code 401 || eqb code 403

unfoldable pub record_failure :
    Option ℕ → ℕ → NonRetryableProviderCircuit → NonRetryableProviderCircuit
record_failure status_code clock c =
    if is_rejection status_code then record c { retry_at = clock + c.cooldown_seconds } else c
