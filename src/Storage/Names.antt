-- ===== src/Storage/Names.antt =====
-- src/storage.rs: the names of the trees.
use dse.Base.Bytes.{Bytes, codes}

abbrev pub active_trades : Bytes
active_trades = codes "active-trades"

abbrev pub queries_sent : Bytes
queries_sent = codes "queries-sent"

abbrev pub queries_received : Bytes
queries_received = codes "queries-received"

abbrev pub bids_sent : Bytes
bids_sent = codes "bids-sent"

abbrev pub bids_received : Bytes
bids_received = codes "bids-received"

abbrev pub commit_history : Bytes
commit_history = codes "commit-history"

abbrev pub i_wants : Bytes
i_wants = codes "i-wants"

abbrev pub wallets_of_interest : Bytes
wallets_of_interest = codes "wallets-of-interest"
