-- ===== src/Stratum.antt =====
-- crates/stratum: the errors that a miner is told. The text keeps what the source's format string
-- says, without the numbers that it fills in.
pub mod Codec
pub mod Nonce
pub mod Request
pub mod Server
pub mod Connections
use zcash_mining_pool.Prelude.{ℕ, String, Bool, ◌==◌}

pub record StratumError : Type 0 where
  pub code : ℕ
  pub message : String

unfoldable pub other : String → StratumError
other message = record { code = 20; message = message }

unfoldable pub job_not_found : StratumError
job_not_found = record { code = 21; message = "Job not found" }

unfoldable pub duplicate_share : StratumError
duplicate_share = record { code = 22; message = "Duplicate share" }

unfoldable pub low_difficulty : StratumError
low_difficulty = record { code = 23; message = "Low difficulty share" }

unfoldable pub is_low_difficulty : StratumError → Bool
is_low_difficulty e = e.code == 23

unfoldable pub unauthorized : StratumError
unauthorized = record { code = 24; message = "Unauthorized worker" }

unfoldable pub not_subscribed : StratumError
not_subscribed = record { code = 25; message = "Not subscribed" }
