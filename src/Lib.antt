-- ===== src/Lib.antt =====
-- d-reader-backend: a NestJS service over a PostgreSQL database (Prisma) and the Solana chain. It
-- keeps the rows of comics, users and assets, prepares the transactions that users sign, and
-- follows the chain by a webhook. This library models the parts that decide something: who may
-- spin a wheel and what is won, who may mint with a coupon and for how much, where the items of a
-- candy machine come to stand, what is bid and sold in the auction house, and what users pledge
-- to campaigns.
--
-- Base: results, actions on a store (a state that an exception does not roll back, as in the
--   service, where each Prisma call commits on its own), checks, lists and integers.
-- Wheel: src/wheel/wheel.service.ts and src/utils/wheel.ts. `Store` has a list for each table that
--   the service reads or writes; a handler is an action `Store → Result × Store`. The chain
--   (`Outside`), the calendar of date-fns (`Calendar`) and Math.random (`Random`, a fraction) are
--   parameters. `spin` is check_spin (the guards), then play: the roll, the pool (Wheel.Pool), the
--   claim of the drop (one transaction of the database, hence one action) and the award
--   (Wheel.Awards). Wheel.Admin has create, addReward, addDrops, removeDrops, update, updateReward
--   and get. Instants are milliseconds; `now` is the first `new Date()` of a handler and `later`
--   those that follow.
-- Mint: prepareMintTransaction and the eligibility of coupons of
--   src/candy-machine/candy-machine.service.ts (Mint.Checks, Mint.Stats), validateBalanceForMint
--   and batchInsertCoreItems of src/utils/candy-machine.ts (Mint.Balance, Mint.Items), with the
--   constants of src/constants.ts. Of prepareMintTransaction the checks are modelled, of the data
--   that findCandyMachineCouponData read (Coupons.find_coupon_data) and of the balances that the
--   chain answered; where the chain gives no answer, no check is reached. Answers behind @Cacheable are read from the store of the
--   moment. Amounts are exact naturals where the source has doubles below 2 ^ 53.
-- Auction: bid and cancelBid of src/auction-house/auction-house.service.ts with the rules of
--   src/utils/auction-house.ts (Auction.Bidding), and the handlers of the auction program and of
--   transfers in src/webhooks/helius/helius.service.ts (Auction.Events), over the calls of the
--   database with its unique keys (Auction.Orders). The service only reads and builds a
--   transaction; the webhook stores what the chain did. An open order has closedAt 0.
--   Auction.Trading has the other services on listings, and their statistics; Auction.Events.Tensor
--   the listings of Tensor, whose services are the record `Tensor`. Auction.Events.Instructions has
--   the dispatch of handleInstruction, and Auction.Events.Offers what is offered of an asset, told by
--   the instructions alone.
-- Prints: the sale of print editions, from the services of src/auction-house/ and from the webhook.
--   What the chain gives a handler is an argument, which may be an exception.
-- Chain: the collectible comics that the webhook indexes (Chain.Indexing), and the events of their
--   mint, state and transfer (Chain.Handlers), with the traits of src/utils/nft-metadata.ts
--   (Chain.Metadata). `Reply` is the outcome of a call of the chain or of the network; the nonces are
--   those of Nonce.
-- Coupons: the coupons of a candy machine and who is on their lists, of
--   src/candy-machine/candy-machine.service.ts, with the labels of src/utils/helpers.ts
--   (Coupons.Labels). The groups on chain are a table of the state; a label is its parts.
-- Signatures: requestCollectibleComicSignature of src/digital-asset/digital-asset.service.ts.
-- Campaign: expressUserInterest, redeemReferral and findStats of src/campaign/campaign.service.ts.
--   An exception in the `try` becomes one message, and what was written stays.
-- Users: src/user/user.service.ts with src/utils/user.ts and the password check of src/auth/.
--   `Accounts` has the rows of users, consents and devices and the next key of the sequence;
--   bcrypt, the JWT library, class-validator and the database's comparison that ignores case are
--   the record `Outside`. Users.Requests has the requests as one data type, for statements on
--   whole sequences of them.
-- Comics: src/comic/comic.service.ts (Comics.Status), src/comic/user-comic.service.ts
--   (Comics.Readers), src/comic-issue/user-comic-issue.service.ts (Comics.Readers.Issues) and
--   src/comic-issue/comic-issue.service.ts (Comics.Episodes), over one state, `Library`. `upsert` is
--   an update of the row of the key or a new row, which the database refuses where it refers to
--   nothing; unique keys and references that the database keeps are conditions of the writes.
-- Creators: createUniqueHandle of src/creator/creator.service.ts. A text is the list of its UTF-16
--   code units (Creators.Numbers); lodash's snakeCase, and the numbers that JavaScript reads in texts
--   that are not digits, are the record `Names`. The 998 rounds are those of the loop, so its numbers
--   have three digits at most.
-- Nonce: the pool of durable nonces of src/nonce/nonce.service.ts. Calls that run at once are a step
--   relation (Nonce.Steps), with a step for the query and one for the update of `getNonce`.
--
-- Loops are structural recursion. `while (config.supply)` of batchInsertCoreItems is on fuel, which is
-- the supply, as each round takes at least one item; the loop of createUniqueHandle has the 998
-- rounds of the source. `while` of fetchCollectionHolders is on fuel, for which the number of an empty
-- page is enough.
--
-- Not modelled: requests and their validation by class-validator, uploads, mails, Discord and
-- websocket messages, queries that only display rows, and the building of transactions, which is
-- the work of the Metaplex and Solana libraries.
pub mod Base
pub mod Wheel
pub mod Mint
pub mod Auction
pub mod Prints
pub mod Chain
pub mod Coupons
pub mod Signatures
pub mod Campaign
pub mod Users
pub mod Comics
pub mod Creators
pub mod Nonce
