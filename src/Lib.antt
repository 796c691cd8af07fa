-- ===== src/Lib.antt =====
-- Verification of the Go SDK for the Incognito chain: its keys, wallets and coins, the
-- choice and the cache of coins, and the ring signature and the range proof of a transaction.
--
-- The parts and how they interact. An account has one private key, from which key/ derives the view,
-- one-time and spending keys. A sender makes a coin (coin/) whose public key only the receiver's
-- keys recognise, and hides its amount; the receiver finds the coin, decrypts it, and later chooses
-- coins to pay an amount (incclient/), from a cache that it brings up to date with a node. A wallet
-- (wallet/) writes keys as text (common/base58). Coins, keys and indices travel as bytes, which
-- common/ and crypto/ convert.
--
-- Files and sources:
--   Base             numbers, tests, lists, results and byte strings; no code of the program
--   Base58           common/base58/base58check.go; Cached holds its theorems
--   Common           common/common.go; Convert holds its theorems
--   Common/Hash      common/hash.go: Decode, String, IsEqual, Cmp; Text and Order hold its theorems
--   Crypto           crypto/scalar.go, crypto/point.go, crypto/pedersen.go; Scalars holds its theorems,
--                    Laws the hypotheses on crypto/curve25519
--   Keys             key/key.go, key/keyset.go; Laws holds its theorems
--   Wallet           wallet/hdwallet.go: Serialize, deserialize and their text form; RoundTrip, Kinds,
--                    Address and Text hold the theorems
--   Hybrid           privacy/v1/hybridencryption and common/aes.go; Decrypts holds the theorem
--   Bulletproofs     privacy/v2/bulletproofs/bulletproofs_helper.go; Laws holds the hypotheses on the
--                    group
--   Bulletproofs/InnerProduct  privacy/v2/bulletproofs/innerproduct.go: Prove; Sums, Commitments and
--                    Rounds hold its lemmas, Accepted and Sizes its theorems
--   Bulletproofs/RangeProof  privacy/v2/bulletproofs/bulletproofs.go: Prove, and bulletproofs_helper.go;
--                    Ring, Vectors, Bits, Powers, Steps, Delta, Rounded, Committed and Folded hold its
--                    lemmas, Verifier what a verifier computes, Checked its theorems
--   Mlsag            privacy/v2/mlsag/mlsag.go: Sign; Closes holds its theorems
--   Mlsag/Bytes      privacy/v2/mlsag/mlsag_signature.go: ToBytes, FromBytes; RoundTrip holds its
--                    theorem
--   Mlsag/RingBytes  privacy/v2/mlsag/mlsag.go: ToBytes and FromBytes of a ring
--   Coin             coin/utils.go: the fields of a serialised coin and the steps of SetBytes
--   Coin/V2          coin/coin_v2.go: CoinV2, TxRandom, Bytes, SetBytes
--   Coin/V2/Conceal  coin/coin_v2.go: IsEncrypted, ConcealOutputCoin, Decrypt, key images
--   Coin/V2/Owner    coin/coin_v2.go: DoesCoinBelongToKeySet, and the one-time key of a coin
--   Coin/V2/Make     coin/utils.go: NewCoinFromPaymentInfo
--   Coin/V2/Tags     coin/coin_v2_ca.go: asset tags, NewCoinCA; coin/coin_v2.go: GetTokenId
--   Coin/PlainV1     coin/coin_v1.go: PlainCoinV1
--   Coin/V1          coin/coin_v1.go: CoinV1 and the guess of the length of its details
--   Coin/V1/Secret   coin/coin_v1.go: Encrypt, Decrypt; Decrypts holds the theorem
--   Coin/Shard       coin/utils.go: DeriveShardInfoFromCoin
--   Coin/Receiver    coin/receiver.go: OTAReceiver
--   Client/Choose    incclient/tx_utils.go: chooseBestCoinsByAmount behind its sort
--   Client/Divide    incclient/tx_utils.go: divideCoins, getListIdx, getVersionFromInputCoins
--   Client/Pack      incclient/tx_utils.go: coinParams
--   Client/Cache     incclient/coin_cache_utils.go: update, updateAllTokens; Sync is the loop of
--                    syncOutCoinV2 of incclient/coin_cache.go, Whole what follows it
--   Client/Consolidate  incclient/tx_consolidate_utils.go: estimateNumTxs
--   Client/Unspent   incclient/coin.go: GetListDecryptedCoins, CheckCoinsSpent, GetUnspentOutputCoins,
--                    GetSpentOutputCoins; Batches and Refines hold the theorems
--   Examples         the theorems at concrete inputs, over a small curve
--
-- The operations of crypto/curve25519, a copy of another library, are the fields of the record Curve,
-- and CurveLaws holds what is used of them: results of operations are points and scalars again,
-- subtraction undoes addition, and multiples of the base point commute and add up; MultipleLaws adds
-- what the ring signature needs. A point or a scalar is its 32 bytes, and nil is `none`. A run-time panic is the error `panic`. A method that
-- writes to its receiver returns the receiver after the call beside the error, so that what is
-- written before an error is part of the model, except where a comment says otherwise. Random scalars,
-- sort.Slice, the test for burning addresses, and the key stream of AES are arguments, and so is
-- MaxShardNumber, the number of shards that the network configures. The cache of an account is taken
-- to be saved to its file without an error.
--
-- The bulletproofs are over the record Group, whose scalars are the reduced values of crypto.Scalar and
-- whose points are the valid values of crypto.Point; GroupLaws says that the points are a module over
-- the scalars. The SDK only makes proofs: what a verifier computes is a definition of its own. The
-- answers of a node about key images are a parameter.
--
-- The goroutines of syncOutCoinV2 are a list of ranges, and the loop is a step relation in which any of
-- them may answer next. The node is a function that serves a chain. Go's maps are association lists in
-- which no key stands twice. The base58 codec, the hash functions and the LRU cache are parameters with
-- laws. A slice of wallet data may reach into the array behind it, which is an argument.
--
-- Bounds: uint64 arithmetic is written with its wrap-around, and a uint32 index wraps. The search of
-- FromCoinParams and NewCoinCA has MaxTriesOTA = 50000 rounds, as in the code. The loop of
-- NewCoinFromPaymentInfo has no bound; it takes a number of rounds, `none` stands for a search that
-- is not over, and any number that reaches a fitting index is enough. The loop of the scalar of a
-- uint64 is over the 32 bytes of the key, of which it fills eight at most. estimateNumTxs is on fuel;
-- more fuel than there are coins is enough unless none is to be left. The number of batches of syncOutCoinV2 is the exact
-- quotient, which the floats of the code give below 2^50. The loop around a ring has as many rounds as
-- there are members, which is enough. A range proof has 64 places for each value, for the values
-- padded to a power of two as in the code; its random scalars are arguments.
--
-- Not modelled: the requests to a node and what only assembles their answers (rpchandler, most of
-- incclient), transactions and most of their proofs (transaction, privacy), the bytes of range proofs
-- and the range proof over an asset tag, metadata, the seeds and derived keys of wallets, the files and
-- JSON forms of the cache, and the tutorials.
pub mod Base
pub mod Base58
pub mod Bulletproofs
pub mod Common
pub mod Crypto
pub mod Hybrid
pub mod Keys
pub mod Wallet
pub mod Mlsag
pub mod Coin
pub mod Client
pub mod Examples
