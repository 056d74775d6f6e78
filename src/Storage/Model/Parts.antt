-- ===== src/Storage/Model/Parts.antt =====
-- src/storage.rs: the part of a view that a write changes, and the entry that it puts.
use dse.Base.{
  ℕ, ◌^◌, ◌<◌, ◌≡◌, ◌≢◌, refl, ap, fun_ext, ◌&&◌, List, Option, some, ◌==◌, if◌then◌else◌, ok,
  or_err, not_found, arith,
}
use dse.Base.Bytes.{Bytes, bytes_eq, id_key_eq}
use dse.Base.Trees.{put, lookup, lookup-put}
use dse.Types.{Address, QueryId, Query, Bid, IWant, Trade, CommitHistory}
use dse.Backend.{Codec, RoundTrip}
use dse.Storage.{id_key, bids_of}
use dse.Storage.Views.{decode_value, unwrap_value}
use dse.Storage.Invariant.{Tree, active, sent, received, offers, histories, wants, bids, tree_name}
use dse.Storage.Model.{View, put_at}
use dse.Storage.Model.Trees.{Same}

module _ {Blob A : Type 0} (c : Codec Blob A) (round : RoundTrip c) (m : List (Bytes × Blob)) where
  pub decode-put :
      (f : ℕ → Option A) (i : ℕ) (a : A)
      → i < 2 ^ 32
      → ((id : ℕ) → id < 2 ^ 32 → decode_value c (lookup (id_key id) m) ≡ or_err (f id) not_found)
      → (id : ℕ) → id < 2 ^ 32
      → decode_value c (lookup (id_key id) (put (id_key i) (c.serialize a) m))
        ≡ or_err (put_at i a f id) not_found
  decode-put f i a small h id fits = ground (
    arith,
    lookup-put (id_key i) (id_key id) (c.serialize a) m,
    id_key_eq i id small fits,
    round a,
    h id fits,
  )

  pub unwrap-put :
      (f : ℕ → Option A) (i : ℕ) (a : A)
      → i < 2 ^ 32
      → ((id : ℕ) → id < 2 ^ 32 → unwrap_value c (lookup (id_key id) m) ≡ ok (f id))
      → (id : ℕ) → id < 2 ^ 32
      → unwrap_value c (lookup (id_key id) (put (id_key i) (c.serialize a) m))
        ≡ ok (put_at i a f id)
  unwrap-put f i a small h id fits = ground (
    arith,
    lookup-put (id_key i) (id_key id) (c.serialize a) m,
    id_key_eq i id small fits,
    round a,
    h id fits,
  )

-- A write to one tree leaves the other parts of the view alone.
pub only_trades :
    (v : View) (f : ℕ → Option Trade) (u : Tree)
    → tree_name active ≢ tree_name u
    → Same u v (record v { trades = f })
only_trades v f active ne = absurd (ne refl)
only_trades v f _ ne = refl

pub only_wants :
    (v : View) (f : ℕ → Option IWant) (u : Tree)
    → tree_name wants ≢ tree_name u
    → Same u v (record v { wants = f })
only_wants v f wants ne = absurd (ne refl)
only_wants v f _ ne = refl

pub only_sent :
    (v : View) (f : ℕ → Option Query) (u : Tree)
    → tree_name sent ≢ tree_name u
    → Same u v (record v { sent = f })
only_sent v f sent ne = absurd (ne refl)
only_sent v f _ ne = refl

pub only_received :
    (v : View) (f : ℕ → Option Query) (u : Tree)
    → tree_name received ≢ tree_name u
    → Same u v (record v { received = f })
only_received v f received ne = absurd (ne refl)
only_received v f _ ne = refl

pub only_offers :
    (v : View) (f : ℕ → Option Bid) (u : Tree)
    → tree_name offers ≢ tree_name u
    → Same u v (record v { offers = f })
only_offers v f offers ne = absurd (ne refl)
only_offers v f _ ne = refl

pub only_histories :
    (v : View) (f : Address → Option CommitHistory) (u : Tree)
    → tree_name histories ≢ tree_name u
    → Same u v (record v { histories = f })
only_histories v f histories ne = absurd (ne refl)
only_histories v f _ ne = refl

abbrev pub put_bid : QueryId → Bid → View → View
put_bid q b v = record v {
  bids = λ r p. if q == r && bytes_eq b.provider_id p then some b else v.bids r p;
}

pub only_bids :
    (v : View) (q : QueryId) (b : Bid) (u : Tree)
    → tree_name (bids q) ≢ tree_name u
    → Same u v (put_bid q b v)
only_bids v q b (bids r) ne =
    let other : q ≢ r = λ same. ne (ap bids_of same) in fun_ext (λ p. ground arith)
only_bids v q b active ne = refl
only_bids v q b _ ne = refl
