-- ===== src/Lib.antt =====
-- go-electrum-client: a client library for ElectrumX servers with a light wallet.
--
-- The program. A Network (electrumx/network.go) runs nodes, one of them the leader. A node
-- (electrumx/node.go, node_headers.go) keeps the block headers of the network up to date from the
-- answers of its server: they stand in a headers file and in two maps (electrumx/headers.go). The
-- client reads them through the network; the wallet (wallet/) keeps keys, outputs and transactions.
--
-- The files of this library.
--   Headers       electrumx/headers.go: the record `headers` as Headers, and its file calls.
--     File, Maps, Reads: the methods on the file, on the maps and for the client, under their
--                 names in this library's spelling (appendHeadersFile is append_headers_file).
--     Chain       the abstract view: one chain of entries, newest first; Represents relates the
--                 three copies of it, in the file, in the height map and in the tip.
--     Verify, Restart, Answers, Load, Loaded: proofs about verifyAll, about store on a file that is
--                 known or unknown, and about the answers to the client.
--   Session       electrumx/node_session.go: the cost counter; Session/Decay: proofs.
--   NodeHeaders   electrumx/node_headers.go: connectTip and reorgRecovery.
--     Queue       syncHeadersOntoOurTip, updateFromBlocks, updateFromChunk, headerQueue, and
--                 blockHeader and blockHeaders of electrumx/node.go.
--     Sync        syncNetworkHeaders.
--     Recovery, Connect, Updates, Moves, Progress, Sync/Kept, Sync/Verified: proofs.
--   Servers       electrumx/network_servers.go: the known servers in memory and in their JSON file.
--     Incoming    makeIncomingServerAddrs, with net.ParseIP in Prelude.Ip.
--     Addresses, Update, Remove, Incoming/Read, Incoming/Feats, Incoming/Made: proofs.
--   Network       electrumx/network.go: the leader, the peers and the monitor, from checkLeader to
--                 startNewPeerMaybe, with the contexts of the nodes as a store.
--     Counts, Reap, Leader, Available, Online, Starts, Monitor: proofs.
--   Datastore     wallet/datastore.go and wallet/util.go: outputs, transactions and subscriptions.
--     Interface   the interfaces of the stores, and Keeps, what a store promises: a list of elements
--                 with different keys.
--     Keyed       such lists; Keyed/Changed: proofs.
--     OutPoints   NewOutPointFromString; OutPoints/Printed: proofs.
--   Stores        wallet/bdb/utxo.go, stxo.go, txns.go and subscriptions.go, each as the module of its
--                 name, over a bucket whose laws (Stores.Walks) are those of a map with a
--                 walk; Walks/Lookups: proofs.
--     Records, Records/Kept, Refined, Frozen: the stores keep the promise of Keeps.
--   TxStore       wallet/wltbtc/txstore.go: the state of a TxStore with its stores.
--     Dead        markAsDead, on fuel for the spent outputs there are; Dead/Ends, Dead/Loops: it ends.
--     Doubles     CheckDoubleSpends; Doubles/Exact: proofs.
--     Add         AddTransaction and PopulateAdrs; Add/Taken, Add/Value: proofs.
--     Apart       the invariant of unspent and spent outputs; Apart/Dead, Apart/Spent, Apart/Added,
--                 Apart/Transaction: its proofs for each part.
--   Wallet        wallet/wltbtc/wallet.go and send.go: Balance, the lists of outputs, FreezeUTXO and
--                 gatherCoins; Sizes: txsizes.go, sizes.go and EstimateFee.
--     Sums, Balances, Coins, Freezing, Sizes/Worst: proofs.
--     Electrum    the wallet that the client is given, of subscriptions and the transaction store;
--                 Electrum/Maps: it meets what the client needs of subscriptions.
--   Client        client/btc: subscriptions and new addresses, over the interface of the wallet and
--                 the calls of the node; Subscribed, Subscribed/NewAddresses: proofs.
--     Sync        SyncWallet and the thread that waits for statuses; Sync/Steps, Sync/Kept: proofs.
--     Rescan      RescanWallet; Rescan/Tried, Rescan/Found: proofs.
--     Broadcast   Broadcast; Broadcast/Loop, Broadcast/Watched: proofs.
--   Keys          wallet/bdb/keys.go: the records of the wallet's keys, over a bucket whose laws
--                 (Keys.Bucket) are those of a keyed store.
--     Records, Bucket, Windows, LastIndex: laws and proofs.
--   KeyManager    wallet/wltbtc/keys.go: fresh keys and the lookahead, over the key records; the
--                 search for an index with a valid key runs on fuel, and has an error of its own for
--                 when that has run out; the theorems ask that some key can be derived among as many
--                 indexes as there is fuel.
--     Fresh, Ahead: proofs.
--   Fees          wallet/fees.go: the fee per byte, with its cache.
--     Bounds      proofs.
--   Tests         headers of two bytes, some servers, a small network, buckets, stores that are lists,
--                 a few transactions and a fee provider, at which every theorem is applied once.
--   Prelude       tests, lists, int64 values, hexadecimal texts, IP addresses and the outcomes of Go
--                 functions.
--
-- How the code is modelled. A method with a pointer receiver takes the record and returns the new
-- one. A Go function that returns an error, or panics, returns a Result. Which calls on the headers
-- file succeed, and what the server answers, are arguments; a file write is all or nothing, and no
-- other process writes the file. The coin's deserializer is an argument too, which takes a header off
-- a buffer; ReadsOne and TakesSize say what some theorems ask of it. The channel of notifications is
-- a list of its elements, each with the disk and the server at that moment. An int64 value is an
-- integer, and the sums that can leave the range are wrapped where the code adds them. log.Fatal is
-- a panic. A shuffle of a list is an argument, and Shuffles says that it keeps the elements. Loops
-- recurse on the number of rounds that the loop's bounds leave; the gathering loop of
-- syncNetworkHeaders runs over the waits that end, and says when it is still waiting. The
-- list in the servers file may hold nulls; loadKnownServers panics on them at once here, and where the
-- known servers are first walked in the code. A call of a store that fails leaves the store as it
-- was, and an error that the code does not read is dropped.
-- TxStore takes the hash, the scripts and the coding of transactions from Calls, and also what
-- becomes of the key manager when a key is used. The clock is read as a sequence of times.
--
-- Not modelled: locks, printing, sockets, the goroutines themselves, the float32 rounding of costs,
-- and the loop that reverses a hash in reverseHash, which is the reversal of the list. Nor are the
-- calls that the network passes to its leader, the sqlite stores, the encrypted storage, signing and
-- sweeping, the rest of the wallet and of the client. A size is not wrapped around, which only a
-- transaction of 2^63 bytes would need.
pub mod Prelude
pub mod Headers
pub mod Session
pub mod NodeHeaders
pub mod Servers
pub mod Network
pub mod Datastore
pub mod Stores
pub mod TxStore
pub mod Wallet
pub mod Client
pub mod Keys
pub mod KeyManager
pub mod Fees
pub mod Tests
