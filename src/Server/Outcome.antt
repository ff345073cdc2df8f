-- ===== src/Server/Outcome.antt =====
-- What a step of the server comes to: a value, an error that `?` passes on, or a panic. A loop on fuel
-- may also run out of it.
use haentgl.Prelude.{Option, none, some}
use haentgl.Protocol.Link.{Numbered}
use haentgl.Protocol.Reader.{IoError, Next, got, closed, failed, panicked}

pub data Failure : Type 0 where
  read_error : IoError → Failure
  write_error connection_aborted permission_denied invalid_data : Failure

pub data Outcome {ℓ} (A : Type ℓ) : Type ℓ where
  done : A → Outcome A
  stopped : Failure → Outcome A
  panic out_of_fuel : Outcome A

infixl 5 ◌>>=◌
abbrev pub ◌>>=◌ {ℓ κ} : {A : Type ℓ} {B : Type κ} → Outcome A → (A → Outcome B) → Outcome B
done a >>= f = f a
stopped e >>= f = stopped e
panic >>= f = panic
out_of_fuel >>= f = out_of_fuel

-- `?` on the result of a write, and `unwrap`.
abbrev pub written {ℓ} : {A : Type ℓ} → Option A → Outcome A
written none = stopped write_error
written (some a) = done a

abbrev pub unwrap {ℓ} : {A : Type ℓ} → Option A → Outcome A
unwrap none = panic
unwrap (some a) = done a

-- The macro `async_packet_read`: the end of the stream is an error.
abbrev pub received {ℓ} : {R : Type ℓ} → Next × R → Outcome (Numbered × R)
received (got seq p, r) = done ((seq, p), r)
received (closed, r) = stopped connection_aborted
received (failed e, r) = stopped (read_error e)
received (panicked, r) = panic
