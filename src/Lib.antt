-- ===== src/Lib.antt =====
-- The liteserver proxy of this repository, modelled as functions on explicit state.
--
-- The proxy accepts ADNL connections of TON clients, answers what it can from a cache of recent
-- blocks, and forwards the rest to liteservers. Its parts are the balancer that chooses a liteserver
-- (internal/server/backend.go), the cache of blocks, libraries and accounts
-- (internal/server/cache.go), the server with its connection hooks and request handlers
-- (internal/server/server.go), the call of the emulator of get methods
-- (internal/emulate/emulator.go), and the configuration (config/config.go).
--
-- Files:
--   Base           maps, Boolean tests, integers; `Action`, the monad of code that changes a state
--                  and returns a value, returns an error or panics; `Post` and `Ends`, what holds of its
--                  outcome, and `Keeps`, a property of the state that holds in any case
--   Ton            what the code uses of tonutils-go, hashicorp/golang-lru, contexts and clocks: the
--                  types of the protocol (Ton/Wire), the operations as the fields of the record `Ton`
--                  and `ArcCache`, and the behaviour that the theorems rely on as `TonLaws` and
--                  `ArcLaws`; Ton/Sample is a concrete library with both laws
--   Backend        backend.go: `NewBackendBalancer`, `GetClient`, `QueryLiteserver` (with its deferred
--                  record of the outcome)
--   Cache/State    the fields of `BlockCache`, `MasterBlock`, `ShardBlock`, `Block`, `ShardInfo`
--   Cache/Fetch    `getBlock`, `getAccount`, `getTransaction`, `getMasterchainInfo`,
--                  `getBlockchainConfig`, `getLibraries`: one query each, and the check of its answer
--   Cache/Master   `GetMasterBlock` (`get_master_block`), `GetLastMasterBlock`, `GetZeroState`;
--                  Master/Publish is the part under the lock that announces a new last block
--   Cache/Shard    `CacheBlockIfNeeded` (`cache_block_if_needed`)
--   Cache/Libraries  `GetLibraries`
--   Cache/Accounts, Cache/Lookup, Cache/Serve  `GetAccountStateInBlock`, `LookupBlockInCache`, `GetBlock`
--                  and `GetAccountState`
--   Cache/ShardKey `getShardKey`
--   Cache/Wait     `WaitMasterBlock`, and the announcement at the end of `GetMasterBlock`, as steps of
--                  goroutines that share `lastBlock` and `mcWaiter`; a channel is a number
--   Cache/Update   `NewBlockCache`: the first state (`new_block_cache`) and the loop that follows the
--                  masterchain, a number of rounds of `update_round`
--   Cache/Transaction  `GetTransaction`
--   Cache/Kept     lemmas that relate all operations of the cache to the invariant of
--                  Cache/Master/Invariant
--   Emulate        internal/emulate/emulator.go: `RunGetMethod`, `PrepareC7`; the C++ emulator and the
--                  serialisation of cells are the record `Tvm`, and Emulate/Sample is a concrete one
--   Server/Connections  the hooks of `NewProxyBalancer`, the note of the last request in
--                  `handleRequest`, the cleanup of idle connections
--   Server/Services  the interface `Cache` of server.go, with the balancer, the clock and the random
--                  bytes, over a state; `services` is the block cache as such an interface.
--                  Services/Contract says what the server relies on, Services/OverCache is about the
--                  block cache
--   Server/Handlers  the handlers of all requests but get methods; a reply `none` sends the request on to
--                  a backend
--   Server/RunMethod  `handleRunSmcMethod` and `findLibs`
--   Server/Checksum  the CRC64 of the standard library
--   Server/Limits  the limits of `handleRequest`; the package leakybucket is the record `Limiters`
--   Server/Dispatch  the wait for a block, and the choice of a handler
--   Server/Requests  the rest of `handleRequest`: the cache of answers, forwarding; `handle_request` gives
--                  the packets that are sent for a message
--   Server/Start   the rest of `NewProxyBalancer`: the cache of answers, the limits of the keys
--   Config         config/config.go: `LoadConfig`, `SaveConfig`; the file system, JSON and the
--                  generation of keys are the record `Host`
--
-- How the parts interact: every operation of the cache that has to ask sends its query through
-- `Backend.query`, which chooses a backend and runs `QueryLiteserver` on what `GetClient` returned;
-- the state of the cache holds the state of the balancer. A request of a known key that passes the
-- limits goes to its handler, which calls the operations of the cache through `Services` and turns
-- errors into replies; without a reply it goes to the cache of answers, and then to a backend.
--
-- Correspondence: a Go map is an association list, a nil pointer is `none`, a uint32 is a natural
-- number whose subtraction wraps (`sub_uint32`), a uint64 counter wraps in `add_uint64`. `GetClient`
-- returns a pointer: either to an element of the slice (`in_slice`), or to the copy that is the loop
-- variable (`loop_copy`; go.mod asks for a Go version in which all rounds share that variable). The
-- answer of a liteserver is what the world of the parameter `Ton` gives, so a theorem for all worlds
-- holds whatever the liteservers send.
--
-- No fuel runs out: the loops are over lists, the rounds of the update loop are an argument, the fuel
-- of the digits of a number is the number plus one, more than it has digits, and that of the search
-- for libraries is the depth of the cell plus one, more than there are levels.
--
-- Not modelled: mutexes and what goroutines do between two locks of one operation (an operation runs
-- as one step, but for Cache/Wait; a request runs to its end with its goroutine, and what happens
-- while it waits for a block is a parameter of `services`); how a packet is sent, and the errors of
-- that; metrics and logs; the C++ emulator; cmd/main.go, which only starts the parts.
pub mod Base
pub mod Ton
pub mod Backend
pub mod Cache
pub mod Emulate
pub mod Server
pub mod Config
