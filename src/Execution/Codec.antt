-- ===== src/Execution/Codec.antt =====
-- encoding/json and crypto/sha256 as the code uses them: the digests are hex SHA-256 of JSON, and
-- `encode` is json.Marshal of an envelope, which may fail.
use flowy.Prelude.{Option}
use flowy.Base.{Text, Result}
use flowy.Execution.Types.{Envelope, CheckpointReference, Descriptor, RolloverPolicy}

pub record Codec : Type 1 where
  pub Encoded : Type 0
  pub encode : Envelope → Result Encoded
  pub decode : Encoded → Option Envelope
  pub digest : Envelope → Result Text
  pub request_digest :
      CheckpointReference → Descriptor → Descriptor → Text → Text → RolloverPolicy → Text → Text
