-- ===== src/Types.antt =====
-- src/storage.rs: the records that the node stores and exchanges. A `u32` and a `U256` are native
-- numbers. An `Address`, a `PeerId`, a `Multiaddr` and a `Signature` are their bytes, which is all
-- that the program uses of them.
pub mod Messages
use dse.Base.{ℕ, ◌/◌, String, Bool, true, false, ◌||◌, List, Option, none, some, if◌then◌else◌, ◌≡◌}
use dse.Base.Bytes.{Bytes}

abbrev pub Address : Type 0
Address = Bytes

abbrev pub PeerId : Type 0
PeerId = Bytes

abbrev pub Multiaddr : Type 0
Multiaddr = Bytes

abbrev pub Signature : Type 0
Signature = Bytes

abbrev pub QueryId : Type 0
QueryId = ℕ

pub record QueryData : Type 0 where
  pub query_string : String

pub record Query : Type 0 where
  pub id : QueryId
  pub query_data : QueryData
  pub requester_addr : Multiaddr
  pub requester_id : PeerId
  pub requester_wallet_address : Address

pub record BidData : Type 0 where
  pub query_id : QueryId
  pub charge : ℕ

pub record TradeQuote : Type 0 where
  pub charge : ℕ
  pub id : ℕ

pub record Bid : Type 0 where
  pub query_id : QueryId
  pub provider_addr : Multiaddr
  pub provider_id : PeerId
  pub provider_wallet_address : Address
  pub charge : ℕ

pub record IWant : Type 0 where
  pub requester_id : PeerId
  pub requester_addr : Multiaddr
  pub id : ℕ

pub data TradeStatus : Type 0 where
  waiting_r_t1_commit r_send_t1_commit processing_r_t1_commit : TradeStatus
  waiting_p_t1_commit p_send_t1_commit processing_p_t1_commit : TradeStatus
  waiting_r_t2_commit r_send_t2_commit processing_r_t2_commit : TradeStatus
  waiting_for_service p_fulfill_service waiting_invalidating_signatures : TradeStatus

unfoldable pub TradeStatus-discrete : Discrete TradeStatus
TradeStatus-discrete = hlevel

-- `status == s` of the derived `PartialEq`.
abbrev pub status_eq : TradeStatus → TradeStatus → Bool
status_eq s t = elim (TradeStatus-discrete s t) [ yes _ ↦ true | no _ ↦ false ]

pub record Trade : Type 0 where
  pub id : ℕ
  pub requester_addr : Multiaddr
  pub requester_id : PeerId
  pub provider_addr : Multiaddr
  pub provider_id : PeerId
  pub charge : ℕ
  pub status : TradeStatus
  pub is_requester : Bool

abbrev pub t1_commit_amount : Trade → ℕ
t1_commit_amount t = t.charge / 2

abbrev pub t2_commit_amount : Trade → ℕ
t2_commit_amount t = t.charge

abbrev pub update_status : Trade → TradeStatus → Trade
update_status t to = record t { status = to }

abbrev pub counter_party_details : Trade → PeerId × Multiaddr
counter_party_details t =
    if t.is_requester then (t.provider_id, t.provider_addr) else (t.requester_id, t.requester_addr)

unfoldable pub is_sending_status : Trade → Bool
unfolding TradeStatus-discrete
is_sending_status t =
    status_eq t.status r_send_t1_commit
    || status_eq t.status p_send_t1_commit
    || status_eq t.status r_send_t2_commit

pub data CommitType : Type 0 where
  t1 t2 : CommitType

-- `self.c_type.clone() as u32`.
abbrev pub commit_type_code : CommitType → ℕ
commit_type_code t1 = 1
commit_type_code t2 = 2

pub record Commit : Type 0 where
  pub indexes : List ℕ
  pub epoch : ℕ
  pub u : ℕ
  pub c_type : CommitType
  pub i_address : Address
  pub r_address : Address
  pub wallet_address : Address
  pub signature : Option Signature
  pub invalidating_signature : Option Signature

pub record CommitHistory : Type 0 where
  pub wallet_address : Address
  pub commits : List Commit

-- The `HashSet<Address>`, without repetitions.
pub record WalletsOfInterest : Type 0 where
  pub wallets : List Address
