-- ===== src/Examples/Requests.antt =====
-- The theorems on the routes of src/server.rs, for requests that are records.
use dse.Base.{
  ℕ, ◌≡◌, refl, sym, ◌∙◌, Bool, true, false, List, [], ◌∷◌, Option, none, some, ok, ◌⊎◌, leb,
  if◌then◌else◌, arith,
}
use dse.Base.Bytes.{Bytes, bytes_eq, codes, Bytes-discrete}
use dse.Types.Messages.{ack}
use dse.Storage.Invariant.{IsWellFormed}
use dse.Server.{ReceivedMessage, user_query, status_ok, Outgoing}
use dse.Server.Routes.{Warp, IsWarp, Answer, status, serve}
use dse.Server.Routes.Answers.{IsPosted, serve_lem}
use dse.Examples.Memory.{Db, memory, memory_sound, node, alice}
use dse.Examples.Stores.{one_trade, one_trade-IsWellFormed}

pub record HttpRequest : Type 0 where
  pub by_post : Bool
  pub segment : Bytes
  pub number : Option ℕ
  pub upgrades : Bool
  pub body_length : ℕ
  pub body : Option ReceivedMessage

abbrev at : Bytes → HttpRequest → Bool
at a r = bytes_eq a r.segment

abbrev http : Warp
http = record {
  Request = HttpRequest;
  is_get = λ r. if r.by_post then false else true;
  is_post = λ r. r.by_post;
  is_ws = λ r. r.upgrades;
  path = at;
  path_u32 = λ a r. if at a r then r.number else none;
  content_length_limit = λ n r. leb r.body_length n;
  json = λ r. r.body;
}

at-segment : (a : Bytes) (r : HttpRequest) → at a r ≡ true → a ≡ r.segment
at-segment a r p = ground arith

u32-segment : (a : Bytes) (r : HttpRequest) {n : ℕ} → http.path_u32 a r ≡ some n → at a r ≡ true
u32-segment a r p = ground arith

abbrev http_law : IsWarp http
http_law = record {
  one_segment = λ r a b p q. at-segment a r p ∙ sym (at-segment b r q);
  starts_with = λ r a p. u32-segment a r p;
}

-- A search for data about the weather, and a request for the bids of the query 1.
abbrev search_request : HttpRequest
search_request = record {
  by_post = true;
  segment = codes "action";
  number = none;
  upgrades = false;
  body_length = 40;
  body = some (user_query (record { query_string = "weather" }));
}

abbrev bids_request : HttpRequest
bids_request = record {
  by_post = false;
  segment = codes "querybids";
  number = some 1;
  upgrades = false;
  body_length = 0;
  body = none;
}

-- The search changes the database and is answered by OK.
search_test :
    (d' : Db) × (out : List Outgoing) × (serve node one_trade
        (ok (alice, 11 ∷ []))
        (ok tt)
        (ok ack)
        http
        search_request
      ≡ ok (d', status status_ok out))
unfolding serve Bytes-discrete
search_test = (_, _, refl)

serve_example :
    (d' : Db) × (a : Answer) × (serve node one_trade
        (ok (alice, 11 ∷ []))
        (ok tt)
        (ok ack)
        http
        search_request
      ≡ ok (d', a))
    × IsWellFormed memory_sound d'
    × ((d' ≡ one_trade)
        ⊎ ((m : ReceivedMessage) × IsPosted http search_request m
            × ((out : List Outgoing) × (a ≡ status status_ok out))))
serve_example =
    serve_lem memory_sound node one_trade (ok (alice, 11 ∷ [])) (ok tt) (ok ack)
      one_trade-IsWellFormed http search_request
