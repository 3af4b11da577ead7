-- ===== src/Lib.antt =====
-- The Soroban contracts of the Mindmint puzzle game (the crates under contracts/), as pure functions
-- over their storage, with proofs about them.
--
-- Every contract is a crate of its own: a storage of typed keys, entry points that the host calls with
-- authorised arguments, and calls of other contracts. An entry point is modelled as a function from
-- its arguments and the storage to a result: the new storage, a trap of the host or a panic (or error)
-- of the contract. The host rolls a failed call back, so a failure has no storage. Storage keys with
-- arguments are maps (Base/Map.antt), the others fields that may be missing.
--
-- Host/Call.antt has the environment of a call (`Env`: timestamp, own address, who authorised the
-- call) and the result type with its `do` notation; Host/Num.antt the checked arithmetic (the root
-- Cargo.toml sets `overflow-checks = true`, so `i128` and `u64` operations that do not fit trap);
-- Host/Tokens.antt the interface of the token contracts that the others call, with the documented
-- behaviour of a transfer as a record of laws, and Host/Tokens/Ledger.antt a ledger that has them.
-- Base.antt and its children have tests, lists, integers and maps.
--
-- RewardToken.antt models contracts/reward_token/src/lib.rs: `Storage` is `DataKey`, one function for
-- each entry point of the same name; the burn controller that it calls (`get_config`, `record_burn`)
-- is a parameter, `Controller`. RewardToken/Entry.antt gathers the entry points in one request type.
--
-- FlashLoan.antt and FlashLoan/Pools.antt model contracts/flash_loan/src/lib.rs: administration and
-- helpers in the first, liquidity and loans in the second, where `flash_loan` is cut into `open_loan`
-- (checks and books), `run_loan` (disbursement, callback, verification) and `close_loan` (books after
-- the repayment). The borrower's callback is a parameter, `Callback`.
--
-- TimeLockVault.antt models contracts/timelock_vault/src/lib.rs: a vault for each beneficiary and
-- token, one function for each entry point of the same name.
--
-- Lending.antt and its children model contracts/lending/src/lib.rs: the data (Lending/State.antt), the
-- helpers of the same names (Lending.antt), offers (Lending/Offers.antt) and loans (Lending/Loans.antt,
-- where the body of `repay` is cut into `pay_interest`, `pay_principal` and `settle`). The NFT contracts
-- that it calls are a parameter, `Nfts`.
--
-- Airdrop.antt models contracts/airdrop_merkle_claim/src/lib.rs; Airdrop/Bytes.antt has the bytes that
-- are hashed, and SHA-256 and the text of an address are a parameter, `Crypto`. The loops that copy
-- bytes are appends of lists, the loop over the proof is `walk`.
--
-- Auction.antt models contracts/auction/src/lib.rs: the data (Auction/State.antt), creation and the
-- records of bids (Auction.antt), and the entry points of each kind of auction and the settlement in
-- Auction/English.antt, Dutch.antt, Sealed.antt and Settlement.antt. The body of `place_bid` is cut
-- into `outbid` and `extend`, that of `reveal_sealed_bid` into `reveal` and `take_highest`, and that of
-- `settle_auction` into `check_end` and `pay_seller`; the update of the analytics, which the source
-- writes out three times, is `count_bid`. The NFT contracts that it calls are a parameter, `Nfts`.
--
-- Vesting.antt and Vesting/Schedules.antt model contracts/vesting_schedule/src/lib.rs: the data
-- (Vesting/State.antt), administration, the vested amount and the history in the first, the entry
-- points on schedules and the views in the second. The loops of `record_history` and
-- `get_vesting_history` over the keys of the history, `free_key` and `read_history`, run on fuel, one
-- round more than there are stored events, which is enough because every round but the last meets a
-- stored event of its own.
--
-- Leaderboard.antt and its children model contracts/leaderboard/src/lib.rs: the data
-- (Leaderboard/State.antt), administration (Leaderboard.antt), the lists of top scores
-- (Leaderboard/Tops.antt, where the two loops of `update_top_scores_list` are `others` and `rank`, and
-- the append after them `finish`) and the scores (Leaderboard/Scores.antt).
--
-- All other loops run over lists and need no fuel. Not modelled: events, the lifetime of storage entries
-- (`extend_ttl`), and the encoding of values; the host forbids a contract to be entered again while a
-- call of it runs, so a callee does not change the caller's storage.
pub mod Base
pub mod Host
pub mod RewardToken
pub mod FlashLoan
pub mod Lending
pub mod Airdrop
pub mod Auction
pub mod Vesting
pub mod Leaderboard
pub mod TimeLockVault
