-- ===== src/Lib.antt =====
-- The deployment and operation tools of the Augmented Finance protocol, which are TypeScript programs over
-- hardhat: helpers/ and tasks/. The Solidity contracts are what these tools talk to; they are not modelled.
--
-- The parts and how they interact:
-- - Helpers (helpers/misc-utils.ts, tasks/helpers/utils.ts): tests of addresses (notFalsyOrZeroAddress,
--   falsyOrZeroAddress) and batches (chunk, promiseAllBatch), which all other parts use.
-- - JsonDb (helpers/misc-utils.ts): the file deployed-contracts.json, by which the tasks know what has been
--   deployed. A database maps a network to four sections; every reader and writer is a function of it.
-- - Deployment (helpers/contracts-helpers.ts, helpers/deploy-helpers.ts): withSaveAndVerify, withSaveAndVerifyOnce,
--   waitForAddressFn and setAndGetAddressAsProxy, over a record of the calls of the chain, beside the database, and
--   the access controller that the tasks of a deployment choose and find (with helpers/contracts-getters.ts).
-- - Verification (helpers/contract-verification.ts, tasks/misc/verify-all.ts): verifyProxy with its retries, and
--   the task that verifies a batch of the contracts of the database and marks those that passed.
-- - Types (helpers/types.ts, helpers/contracts-mapper.ts): contract ids, protocol errors, and the ids with a getter.
-- - Access (helpers/access-flags.ts, helpers/contracts-access.ts, helpers/method-checker.ts): the flags of roles,
--   the table of functions that callers without roles may call, and the check of a contract against it.
-- - Commands (tasks/misc/call-cmd.ts, tasks/helpers/call-cmd.ts): the command line, the contracts, tokens and pools
--   that a command names, its aliases, the calls that are collected, and what is done with them. It reads the
--   database, the flags and the getters.
-- - Reserves (helpers/init-helpers.ts, helpers/oracles-helpers.ts): which reserves of a market are initialised, with
--   which strategies and token implementations, which are configured, the rates and prices of the oracles, and the
--   price feeds that are derived.
-- - Provider (tasks/full/01-address-provider.ts): the first task of a deployment, which finds or deploys the registry
--   and the access controller and grants the roles.
-- - Rewards (tasks/full/10-token-reward-pools.ts): the reward pools of tokens and of the team, the referrals, the
--   treasury and the frozen rewards, with their shares.
-- - Markets (markets/augmented): how the parameters of a reserve are made, and the reserves of the test market.
-- - Migrations (tasks/helpers/deploy-steps.ts, tasks/migrations, tasks/full/99-finalize.ts): the catalog of deployment
--   steps, the migrations augmented:mainnet and augmented:test-incremental that run it, and the final step, which
--   gives up the rights of the deployer. They read and clean the database.
-- - Calculations (test-suites/test-augmented/helpers/utils): what the scenarios of the test suite expect of a reserve
--   and of a user after each action, with the parameters of the reserves for the rates.
-- - Prelude: names of the libraries passed on, Boolean tests, lists, texts, dictionaries, and actions.
-- - Tests: runs of the definitions, and the theorems at concrete data.
--
-- Code that awaits is an action: it takes the state and returns a value or a thrown message with the state
-- that it leaves (Prelude/Actions). A Promise.all is modelled by the order in which its promises are
-- written. A state is a record: the database beside the chain (Site), or the variables of the command task
-- beside it (Session), or those of a migration (Run). Calls of the chain, of the explorer, of ethers and
-- of hardhat are parameters: fields of the records AddressLib, Chain, Explorer, Verifier, Network, Market,
-- Hardhat, Tokens, Configurator, ExtraContracts, Contracts and Oracle, or arguments. The numbers of
-- bignumber.js are a type with operations, the record BigNumberLib, of which a theorem names the laws that
-- it needs. Objects with text keys are association lists in insertion order. Numbers are natural numbers,
-- with a sign where the code tests it.
--
-- Bounds and fuel: waitForAddressFn makes 21 attempts and the status loop of verifyProxy makes 21, both
-- written in the code and modelled by recursion on the rounds left. The loop over the slashes of a command
-- is recursion on fuel, which is the length of its text: each round leaves a shorter one. The loop of the
-- incremental deployment has fuel for two cycles more than there are steps, which is shown to be enough
-- whatever the tasks do.
--
-- Not modelled: console output; the web form of the explorer, an argument of verifyProxy; the verification
-- data of token proxies and deployUniAgfEth of init-helpers.ts; what the other deployment steps of
-- tasks/full do; the local test migrations; the constants of the other markets; calc-apy.ts; the actions
-- of the scenarios; the one-line getters and deployments of contracts-getters.ts and
-- contracts-deployments.ts.
pub mod Prelude
pub mod Helpers
pub mod JsonDb
pub mod Deployment
pub mod Types
pub mod Access
pub mod Verification
pub mod Commands
pub mod Reserves
pub mod Provider
pub mod Rewards
pub mod Markets
pub mod Migrations
pub mod Calculations
pub mod Tests
