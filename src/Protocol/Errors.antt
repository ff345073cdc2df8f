-- ===== src/Protocol/Errors.antt =====
-- The error kinds of the server and their numbers: src/proxy/src/protocol/mysql/error_codes.rs.
pub mod Codes
mod Tests
use Codes.*
use haentgl.Prelude.{ℕ, ◌≤◌, ◌<◌, ◌≡◌, refl, ◌⊎◌, some, none, true, length}
use haentgl.Prelude.Arms.{consecutive, first_arm_cases}

arms-consecutive : consecutive code 1000 arms ≡ true
unfolding arms code
arms-consecutive = refl

-- `From<u16>` gives, for every number from 1000 to 1885, the error kind with this number, and it
-- panics on every other number.
pub from_code-code :
    (x : ℕ)
    → ((1000 ≤ x) × (x < 1886) × ((k : ErrorKind) × (from_code x ≡ some k) × (code k ≡ x)))
      ⊎ (((x < 1000) ⊎ (1886 ≤ x)) × (from_code x ≡ none))
unfolding from_code arms
from_code-code x = first_arm_cases code arms 1000 x arms-consecutive
