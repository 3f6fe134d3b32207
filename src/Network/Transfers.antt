-- ===== src/Network/Transfers.antt =====
-- What rubigram/network/upload.py and download.py share: files in parts, each on the retry ladder.
use rubigram.Base.{ℕ, max, Bool, true, false, none, some, List}
use rubigram.Base.Int.{ℤ, clamp}
use rubigram.Network.Retry.{RetryPolicy, with_overrides}
pub mod Download
pub mod Upload
mod Tests

abbrev pub Bytes : Type 0
Bytes = List ℕ

-- `_Retry(error)`, and an error that is raised as it is
pub data Failure (E : Type 0) : Type 0 where
  retry_with plainly : E → Failure E

unfoldable pub is_retry : {E : Type 0} → Failure E → Bool
is_retry (retry_with e) = true
is_retry (plainly e) = false

-- How a call ends. `no_answer` is the assertion after the ladder's loop; `out_of_turns` stands for
-- more turns of the loop over the parts than the model was given.
pub data Finish (E : Type 0) : Type 0 where
  finished was_interrupted no_answer out_of_turns : Finish E
  raised_error : E → Finish E

-- How a call ends that a part ended: `raise failure.error`.
unfoldable pub part_error : {E : Type 0} → Failure E → Finish E
part_error (retry_with e) = raised_error e
part_error (plainly e) = raised_error e

-- The transports' fields that a transfer reads; the client is opened once and kept.
pub record FileTransport : Type 0 where
  pub chunk_size : ℕ
  pub retry_policy : RetryPolicy

-- `__init__` of both transports
unfoldable pub new_file_transport : ℤ → ℕ → RetryPolicy → FileTransport
new_file_transport chunk_size timeout policy = record {
  chunk_size = max 1 (clamp chunk_size);
  retry_policy = with_overrides none (some timeout) policy;
}
