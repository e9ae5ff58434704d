-- ===== src/Lib.antt =====
-- A model of Topia, a blockchain node in Go, and theorems about it. Paths are from the repository's root.
--
-- The program's parts and how they interact. A node takes transactions into its pool, whose collection
-- keeps all of them under their ids in a shrinkable map, hands each to the manager of its sender's
-- account, which lets only gapless nonces through, and keeps those that came through, over a channel, in
-- three sorted lists, from which blocks are filled. Blocks change the state, which lives in named stores
-- of keys and values over a versioned backend; among them are the registers of the nodes that take part
-- in the consensus, with their weights. A block is agreed on by votes, which its proposer collects and
-- aggregates into the signature that it commits; a scheduler keeps what was executed for each version of
-- the state until its block is committed; between two heads or chains a fork choice decides. A
-- transfer moves currency between two accounts for a fee. Clients name accounts by addresses, and follow
-- events by subscriptions over RPC, each with a filter and a queue of its own.
--
-- The files and the code they are about:
--   Base               lists, Go's maps (association lists with one entry for each key), Go's == on
--                      keys, uint64 and int64 with their wrap-around written out, signed integers, and
--                      byte strings with what the sources use of strings
--   Common/ShrinkMap   common/shrink_map.go: the map in two halves (Set, Del, Get, Size)
--   Account            account/account.go, token.go, permission.go and its kinds: accounts and balances
--   Chain              chain/types/block.pb.go: a block and its head
--   Chain/HeadCheck    chain/block_validator.go, validateBase
--   Chain/ForkChoice   chain/fork_choice.go: the choice between heads and between chains, the ancestor
--   Consensus/Votes    consensus/vote_collector.go: the votes on a block and their aggregation
--   Consensus/Proposer consensus/proposer.go: what a proposer does with a vote
--   Crypt/Address      crypt/types/address.go and types.go: addresses (Crypt/Base32: the standard
--                      library's base 32 that they are written in)
--   Rpc/Filter         api/rpc/filter: the operators, parser.go (Parser), condition.go (Condition), the
--                      events (Event) and filter.go (Validate, Typed)
--   Rpc/Queue          api/rpc/queue.go: the queue of a subscription, its nodes on a heap
--   Rpc/Subscription   api/rpc/subscription.go: the center of subscriptions
--   Transaction/Transfer  transaction/universal/transfer.go and gas.go: the transfer of currency
--   Transaction/Types  the messages of transaction/basic and transaction/universal that are read
--   TxPool/Wrapper     transaction_pool/core/tx_wrapper_uni.go: the pool's view of a transaction, Less
--                      and CanReplace
--   TxPool/Sorted      transaction_pool/core/tx_sort.go: a list kept sorted by insertion
--                      (Search: the standard library's binary search that it uses)
--   TxPool/AccountTxs  transaction_pool/core/accounts_txs.go, accountTxManager: one account's nonces
--   TxPool/Pending     the same file, pendingTxList: the three sorted lists and their lock
--   TxPool/Collect     transaction_pool/core/tx_clollect.go: the collection, with the channel between
--                      the managers and the lists as a queue
--   Execution/Scheduler  execution/scheduler.go: the executed packed transactions by their versions
--   Ledger/Version     ledger/backend/common/version_manager.go: the versions of a database
--   Ledger/MemDb       ledger/backend/memdb/backend.go: the database in memory, its transactions and
--                      its saved versions (World: the database with all writers opened on it)
--   Ledger/Prefix      ledger/backend/backend_prefixed.go: the part of a database under a prefix, with
--                      its ranges and iterators
--   State/Store        ledger/state/store_state.go and store.go: named stores of keys and values
--   State/Node         state/node/common.go: a register of nodes with its list of ids and its total
--                      weight; Registers: node_executor.go, node_proposer.go, node_validator.go and
--                      node_inactive.go; Router: node.go, which leads a call to one of them
--
-- How state and operations correspond. A struct is a record, a method is a function from the record and
-- the arguments to the new record and the results, and an error path returns the state as the source
-- leaves it there. A lock that is held for a whole method makes its call one step; where a method takes a
-- lock again, the lock is a part of the state and a call that waits for ever is `none`. A panic is `none`
-- or an error of its own. Sends on a channel are a list in their order, and the receiving goroutine's
-- rounds are steps of their own. `range` over a map meets the entries in the order of the list.
--
-- Bounds and fuel. Nonces, versions and weights are uint64: sums are taken modulo 2 ^ 64, and theorems
-- state the bound they need. Balances are big.Int, integers of any size. The loop of the filter's parser
-- runs on fuel, four rounds for each character and four more, which are proved enough; the loop over two
-- chains of the fork choice and the scheduler's loop for the state at a version are given any number of
-- rounds, and the theorems say when none is enough. Three more loops run on fuel: sending what waits in an account's gap map (an
-- entry leaves the map in each round, so its size is enough), and the two listings of an account, which
-- meet one pending entry a round (one round for each, and one more to end).
-- Counters of deletions and of open writers are plain numbers, as they stay far below their bounds.
--
-- What is not modelled. The network, the transport of RPC and web3, logging, the disk backends and the
-- schemes of signatures are I/O or calls of libraries; the proof tree of a store belongs to a library and
-- its calls are taken to succeed; a backend's own iterators, the loops that hand on messages, the choice
-- among proposals, what a transaction does beyond the transfer, and the virtual machines are not modelled. json and protobuf encodings are
-- taken to read back what they wrote. Parameters are BLAKE2b, the hash of a block, the group signature
-- (what it verifies and recovers), the LRU caches of the proposer (whether they have a key), the weight
-- ratio of a block, and the reading of floating-point numbers and times in filters. Case folding and
-- white space are those of ASCII, and the fields of an event are what reflection shows of it. A transfer
-- reads a copy of an account for each address, as the state decodes it anew for each call.
pub mod Base
pub mod Common
pub mod Ledger
pub mod State
pub mod Transaction
pub mod TxPool
pub mod Rpc
pub mod Crypt
pub mod Account
pub mod Chain
pub mod Consensus
pub mod Execution
