-- ===== src/Network/RequestResponse.antt =====
-- src/network/request_response.rs: requests and responses as length-prefixed JSON on a stream, the
-- codec of both protocols. A stream is the list of its bytes.
pub mod Limits
use dse.Base.{
  ℕ, ◌≡◌, ◌≤◌, ◌<◌, List, ◌++◌, Option, none, some, Result, ok, err, network_failed, ◌>>=◌,
}
use dse.Base.{length}
use dse.Base.Bytes.{Bytes}

-- `serde_json::to_vec` and `serde_json::from_slice` at one type.
pub record Json (A : Type 0) : Type 0 where
  pub to_vec : A → Option Bytes
  pub from_slice : Bytes → Option A

-- What was written as JSON is read back.
abbrev pub JsonRoundTrip : {A : Type 0} → Json A → Type 0
JsonRoundTrip {A} j =
    (a : A) (bytes : Bytes) → j.to_vec a ≡ some bytes → j.from_slice bytes ≡ some a

-- libp2p's `write_length_prefixed`, from what the stream holds to what it holds then, and
-- `read_length_prefixed` with the largest length that it takes, whose result has what is left.
pub record Framing : Type 0 where
  pub write_length_prefixed : Bytes → Bytes → Result Bytes
  pub read_length_prefixed : Bytes → ℕ → Result (Bytes × Bytes)

-- On a stream without I/O errors a message is written behind what is there, and is read back
-- unless it is longer than the reader takes.
pub record IsFraming (f : Framing) : Type 0 where
  pub frame : Bytes → Bytes
  pub write_lem : (io val : Bytes) → f.write_length_prefixed io val ≡ ok (io ++ frame val)
  pub read_lem :
      (val rest : Bytes) (max : ℕ)
      → length val ≤ max
      → f.read_length_prefixed (frame val ++ rest) max ≡ ok (val, rest)
  pub read_long_lem :
      (val rest : Bytes) (max : ℕ)
      → max < length val
      → f.read_length_prefixed (frame val ++ rest) max ≡ err network_failed

module _ (f : Framing) {A : Type 0} (json : Json A) where
  abbrev write_json : Bytes → Option Bytes → Result Bytes
  write_json io none = err network_failed
  write_json io (some val) = do io' ← f.write_length_prefixed io val; ok io'

  abbrev parsed : Bytes → Option A → Result (A × Bytes)
  parsed rest none = err network_failed
  parsed rest (some v) = ok (v, rest)

  unfoldable pub read_request : Bytes → Result (A × Bytes)
  read_request io = do
    (vec, rest) ← f.read_length_prefixed io 1000000
    parsed rest (json.from_slice vec)

  unfoldable pub read_response : Bytes → Result (A × Bytes)
  read_response io = do
    (vec, rest) ← f.read_length_prefixed io 1000000
    parsed rest (json.from_slice vec)

  unfoldable pub write_request : Bytes → A → Result Bytes
  write_request io req = write_json io (json.to_vec req)

  unfoldable pub write_response : Bytes → A → Result Bytes
  write_response io res = write_json io (json.to_vec res)
