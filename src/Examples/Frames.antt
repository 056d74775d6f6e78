-- ===== src/Examples/Frames.antt =====
-- The codec of src/network/request_response.rs at concrete messages.
use dse.Base.{
  ℕ, zero, suc, ◌≡◌, ◌≤◌, ◌<◌, refl, [], ◌∷◌, ◌++◌, Option, none, some, Result, ok, err,
  network_failed, ◌>>=◌, if◌then◌else◌, leb, true, length, replicate, length-replicate, arith, find,
}
use dse.Base.Bytes.{Bytes, Bytes-discrete, bytes_eq, codes}
use dse.Base.Trees.{put}
use dse.Types.{CommitHistory, t1}
use dse.Types.Messages.{
  CommitRequest, want_history, update, CommitResponse, commit_ack, commit_bad, commit_request,
}
use dse.Storage.{find_commit_history}
use dse.Storage.Names.{commit_history}
use dse.Indexer.{respond_commit, request_commit, handle_network_event}
use dse.Network.RequestResponse.{
  Json, JsonRoundTrip, Framing, IsFraming, read_request, read_response, write_request,
  write_response,
}
use dse.Network.RequestResponse.Limits.{read_response-write_response, history_too_long}
use dse.Examples.Memory.{Db, memory, empty, bob, b_wallet, commit_over, a_history, inserted}

-- A frame is the length, as one number, and the message.
abbrev pub split : ℕ → Bytes → Result (Bytes × Bytes)
split zero io = ok ([], io)
split (suc n) [] = err network_failed
split (suc n) (b ∷ io) = split n io >>= λ (val, rest). ok (b ∷ val, rest)

abbrev read_frame : Bytes → ℕ → Result (Bytes × Bytes)
read_frame [] max = err network_failed
read_frame (n ∷ io) max = if leb n max then split n io else err network_failed

pub split-length : (val rest : Bytes) → split (length val) (val ++ rest) ≡ ok (val, rest)
split-length [] rest = refl
split-length (b ∷ val) rest = ground (arith, split-length val rest)

abbrev framing : Framing
framing = record {
  write_length_prefixed = λ io val. ok (io ++ length val ∷ val);
  read_length_prefixed = read_frame;
}

read_frame-short :
    (val rest : Bytes) (max : ℕ)
    → length val ≤ max
    → read_frame (length val ∷ (val ++ rest)) max ≡ ok (val, rest)
read_frame-short val rest max le = ground (arith, split-length val rest)

read_frame-long :
    (val rest : Bytes) (max : ℕ)
    → max < length val
    → read_frame (length val ∷ (val ++ rest)) max ≡ err network_failed
read_frame-long val rest max lt = ground arith

abbrev framing-IsFraming : IsFraming framing
framing-IsFraming = record {
  frame = λ val. length val ∷ val;
  write_lem = λ io val. refl;
  read_lem = read_frame-short;
  read_long_lem = read_frame-long;
}

abbrev response_text : CommitResponse → Bytes
response_text commit_ack = codes "\"Ack\""
response_text commit_bad = codes "\"Bad\""

abbrev response_of : Bytes → Option CommitResponse
response_of b =
    if bytes_eq b (codes "\"Ack\"")
    then some commit_ack
    else if bytes_eq b (codes "\"Bad\"")
    then some commit_bad
    else none

abbrev response_json : Json CommitResponse
response_json = record { to_vec = λ r. some (response_text r); from_slice = response_of }

read_back : (r : CommitResponse) → response_of (response_text r) ≡ some r
unfolding Bytes-discrete
read_back commit_ack = refl
read_back commit_bad = refl

response_json-JsonRoundTrip : JsonRoundTrip response_json
response_json-JsonRoundTrip r bytes h = ground (arith, h, read_back r)

read_response-write_response_example :
    (s : Bytes) × (write_response framing response_json [] commit_ack ≡ ok ([] ++ s))
    × (read_response framing response_json (s ++ 9 ∷ []) ≡ (
        if leb (length (response_text commit_ack)) 1000000
        then ok (commit_ack, 9 ∷ [])
        else err network_failed))
read_response-write_response_example =
    read_response-write_response framing framing-IsFraming response_json response_json-JsonRoundTrip
      commit_ack (response_text commit_ack) [] (9 ∷ []) refl

longer_than : (n : ℕ) → (bytes : Bytes) × (n < length bytes)
longer_than n = (replicate (suc n) 0, omega (arith, length-replicate {A = ℕ} (suc n) 0))

-- A JSON that takes more than 1,000,000 bytes for a history.
abbrev request_text : CommitRequest → Bytes
request_text (want_history a) = a
request_text (update a cs last) = (longer_than 1000000).0

abbrev request_json : Json CommitRequest
request_json = record { to_vec = λ r. some (request_text r); from_slice = λ b. none }

abbrev one_commit : CommitHistory
one_commit = record { wallet_address = b_wallet; commits = commit_over (1 ∷ 4 ∷ []) t1 ∷ [] }

abbrev one_history : Db
one_history = inserted empty commit_history b_wallet (a_history one_commit)

one_history-find : find_commit_history one_history b_wallet ≡ ok (some one_commit)
unfolding find_commit_history find Bytes-discrete put
one_history-find = refl

history_too_long_example :
    (s : Bytes) × (handle_network_event one_history (commit_request bob 3 (want_history b_wallet))
      ≡ ok (
        one_history,
        respond_commit bob 3 commit_ack
            ∷ request_commit bob (update b_wallet one_commit.commits true)
            ∷ [],
      ))
    × (write_request framing request_json [] (update b_wallet one_commit.commits true)
        ≡ ok ([] ++ s))
    × (read_request framing request_json (s ++ []) ≡ err network_failed)
history_too_long_example =
    history_too_long framing framing-IsFraming request_json one_history bob 3 b_wallet one_commit
      (request_text (update b_wallet one_commit.commits true)) [] [] one_history-find refl
      (longer_than 1000000).1
