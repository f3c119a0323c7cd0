-- ===== src/Lib.antt =====
-- Acquire: access, accounting, authorisation and storage services on top of an object store.
--
-- The program consists of services (services/*) that unpack requests and call the classes of the
-- package Acquire. Six parts of that package are modelled: who may use a resource and how login
-- sessions open and close (Acquire/Identity), what accounts hold and how value moves between them
-- (Acquire/Accounting), the object store with its mutex (Acquire/ObjectStore), how services get
-- their UIDs and are found (Acquire/Registry), the cheques that pay for them (Acquire/Client), and
-- what is told of a drive (Acquire/Storage).
--
-- Base holds what all share: tests on numbers, lists, signed integers, Python's exceptions as the
-- result type `Result`, and code that changes a state and may raise.
--
-- Access rules. Identity/AclRule.antt is `ACLRule` of Acquire/Identity/_aclrule.py: four
-- permissions, each True, False or None. Its child Algebra is about `+` and `*`, its child Data
-- about `to_data` and `from_data`. Identity/AclRules/Defs.antt, Build.antt and Resolve.antt are the
-- classes of Acquire/Identity/_aclrules.py: the rules of users and groups, lists of rules with an
-- operation each and a default, their construction, and `resolve` of all four classes, which is one
-- recursion here because the classes nest. The identifiers of the caller come from
-- `Authorisation.identifiers` (Identity/Identifiers.antt).
--
-- Sessions. Identity/LoginSession.antt is `LoginSession` of Acquire/Identity/_loginsession.py, with
-- the objects of the object store that hold sessions and their states. Texts and keys are numbers
-- there; the checks of an authorisation and of a signature are parameters.
--
-- Amounts. An amount is an integer in units of 10^-6, which is the resolution that the code rounds
-- to. Accounting/Formats.antt has the limits of Acquire/Accounting/_decimal.py and, as parameters,
-- what Python's formatting does: rounding to six decimals, the texts of numbers and times.
-- `IsFormats` is what is documented of them. Accounting/Transaction.antt is `Transaction` with
-- `split`; the loop of `split` runs on the value as its fuel, of which each round takes more than
-- one.
--
-- Keys. Accounting/TransactionInfo.antt is `TransactionInfo`: a transaction as the last three parts
-- of a key in the object store. Keys are lists of parts, parts are lists of character codes.
--
-- Accounts. Accounting/Balance.antt is `Balance` and `_sum_transactions`. Accounting/History.antt
-- is the part of `Account` in Acquire/Accounting/_account.py that finds transactions and computes
-- balances; its state `History` holds the transactions and hourly balances that are in the object
-- store under the account, and the `_last_update` of the `Account` object. Times are microseconds
-- from the beginning of year 1, so that days and hours are quotients; the month of a day is a
-- parameter. `get_all_object_names` with the prefix of a day or a month is the filter by that day
-- or month. A stored balance is read back through `create_decimal`, which rounds and may refuse.
-- The loop of `_get_safe_now` runs on fuel over the readings of the clock.
--
-- Notes. Accounting/Notes.antt has what debit and credit notes, receipts, refunds and transaction
-- records hold; authorisations are left out. Accounting/Receipt.antt is `Receipt.create` of
-- Acquire/Accounting/_receipt.py.
--
-- Ledger. Accounting/Postings.antt is what `Account._debit`, `_credit` and their variants for
-- receipts and refunds write, on the state `Ledger`: the entries of all accounts, and the records
-- of the ledger. What decides on a debit is a parameter (`Funds`), and so are the UIDs and times of
-- the entries, how the loading of an account ends and whether the object store accepts a write
-- (`Stamp`); the loop that waits for the hour to be over is taken to end in its first round.
-- Accounting/Ledger.antt is `Ledger.receipt` and `refund` of Acquire/Accounting/_ledger.py, and
-- Accounting/Ledger/Perform.antt its `perform`, with the constructors of the notes,
-- `PairedNote.create` and `TransactionRecord.load_test_and_set`. All of it is code in the monad
-- `Exec` of Base/Exec.antt, where an exception keeps the state that was reached. Sequences.antt has
-- sequences of such calls.
--
-- Groups of accounts. Accounting/Accounts.antt is `Accounts` of Acquire/Accounting/_accounts.py
-- with the creation, loading and saving of accounts, on the entries of the object store that they
-- write. It uses the access rules of Identity. What other clients do between the first look at a
-- name and the mutex is a parameter, and so is how the calls on the mutex end.
--
-- Cheques. Client/Cheque.antt is `Cheque.read` of Acquire/Client/_cheque.py, with the checks of
-- `cash` on the notes that it gets. Decryption, signatures, JSON and trusted services are
-- parameters. Accounting/CashCheque.antt is the handler services/accounting/cash_cheque.py from the
-- reading of the cheque on; it calls `Cheque.read`, `Accounts.contains` and `Ledger.perform` as
-- they are modelled here.
--
-- Registry. Registry/Uids.antt is `_inc_uid`, `_to_uid` and the loop of `_generate_service_uid` of
-- Acquire/Registry/_registry.py, which runs on fuel: two rounds are enough, since two values in a
-- row are printed differently. Registry/Uids/Generate.antt has that function with the stored values
-- and the mutex. Registry/Urls.antt is what the registry reads of a `Service` of
-- Acquire/Service/_service.py, and Registry/Services.antt is `register_service` and `get_service`,
-- on a record of the registry's keys in the object store. What `urlparse` gives, the answer to a
-- challenge and refreshed keys are parameters. A read that fails for another reason than a missing
-- key is not modelled.
--
-- Objects. ObjectStore/Buckets.antt is what Acquire/ObjectStore/_objstore.py does with the keys of
-- a bucket, over the operations of the backend in Acquire/ObjectStore/_testing_objstore.py. A
-- bucket is a list of keys and texts there; files and directories of the backend are left out. The
-- mutex of `set_ins_string_object` is a key of that bucket, and nobody else is taken to be at the
-- bucket while it is had.
--
-- Drives. Storage/DriveMeta.antt is `DriveMeta` of Acquire/Storage/_drivemeta.py, with
-- `resolve_acl` on the access rules of Identity and the JSON form. Seen is about what is left to
-- see, Data about the JSON form. The credentials are the UID of their storage service there.
--
-- Mutex. ObjectStore/Mutex.antt is `Mutex` of Acquire/ObjectStore/_mutex.py: one client's calls,
-- where the clock and what other clients do to the key before each operation are parameters. The
-- lock string is the pair of its two parts. The loop of `lock` runs on fuel, one round for each
-- quarter of a second of the timeout.
--
-- Bounds and fuel. A value is small up to 2^32 units, where a float has room for its six decimals;
-- the laws of the texts are asked for no more. `wait` needs ten rounds: the dangerous times last
-- 2.00001 seconds, and a round takes a quarter of a second or more. `find_in_months` goes back six
-- months, as the code does, and raises where the calendar has no such month.
--
-- Not modelled: the authorisation of debits; users; the object store's backends but for their keys,
-- its encodings and pre-authenticated requests; drives and files themselves; the rest of the
-- client, and the services' handlers but one; the JSON forms other than those of `ACLRule`,
-- `LoginSession`, `Cheque` and `DriveMeta`; cryptography and the network. Floats enter only through
-- the rounding.
pub mod Base
pub mod Identity
pub mod Accounting
pub mod ObjectStore
pub mod Registry
pub mod Client
pub mod Storage
