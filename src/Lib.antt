-- ===== src/Lib.antt =====
-- ProofForge NEAR: the Python tools around the Lean compiler of NEAR contracts. They are gates,
-- which decide whether a source tree may be merged, and an RPC client with suites, which plays
-- scenes against contracts in a local sandbox.
--
-- * Observation (runtime-tests/near/observation_v1.py): the adapter from a view's response to a
--   call observation, and the check of a nullary UInt64 view. Observation.Adapter has
--   call_observation_from_view_response_v1 and _storage_copy; Observation.Check has
--   require_nullary_uint64_view.
--
-- * Rpc (runtime-tests/near/near_rpc.py): the client. Rpc.Wire has the byte encodings,
--   Rpc.Transaction the actions and the signed transaction, Rpc.Query the requests and reads of
--   state, Rpc.Send the transactions, deploys and calls, Rpc.View the views and
--   success_value_bytes, Rpc.BlockTime the time of the latest block, in which a JSON number is an
--   integer, and the characters that are digits, the text of any other value and datetime are
--   parameters. A method is a function from the world to a result and the next world (Rpc.Exec):
--   what a request did stays done when the method raises. The world itself, the node behind
--   urlopen, base64, base58, SHA-256 and Ed25519 are fields of the parameter Env. Rpc.Dynamic has
--   what the client does with parsed JSON, errors included.
--
-- * Suites (runtime-tests/near): what the suites share, and the suites with it. Suites.Play has the
--   two ways a suite fails, Suites.Matrix the scenes of the JSON suites (deploy, accepted wires,
--   one committed call, refused wires), Suites.Scene the scenes on a contract's rows of state
--   (lookup.py, vector.py, token_storage.py, a rejected receipt). JsonAmount, JsonMemo,
--   JsonMessage, JsonWithdraw, JsonDeposit, JsonAccount, Lookup, Vector, Counter, TokenStorage,
--   TokenArithmetic and BooleanMutation have the fixtures and main of the file of that name
--   (json_amount_input.py and so on). Queue, Iterable, TreeMap, Lazy and JsonI64 are those of
--   queue.py, iterable.py, treemap.py, lazy.py and json_i64_input.py, JsonUnregister that of
--   json_storage_unregister_input.py. Suites.JsonObject has what the suites of objects share, with
--   the permutations of the fields; JsonTransfer, JsonTransferCall, JsonOnTransfer and JsonResolve
--   are those of json_ft_transfer_input.py, json_ft_transfer_call_input.py,
--   json_ft_on_transfer_input.py and json_ft_resolve_input.py. Suites.Token and Suites.Receipts
--   have what the two token suites share: keys, JSON texts, calls, logs and the transfers among a
--   transaction's receipts. Suites.Ledger has the helpers of ledger.py, with its main in Storage,
--   Views, Supply, Transfers, Calls, Resolver, Dual and Main below it, in the order of the source,
--   and reads a transfer's wire and event back in Wire and Event; Suites.Registration has those of
--   storage_registration.py, with Deposit, Unregister, Withdraw, Overflow and Main. The contract is
--   what the node answers: the predicate Live and the function views of Suites.Contract say what a
--   theorem takes for granted of it.
--
-- * Manifest (scripts/check_artifact_manifest.py): the registry of artifacts, their digests and the
--   report. The regular expression of the registry, UTF-8 and the files are parameters.
--
-- * NoSorry (scripts/check_no_sorry.py): comment stripping, the search for sorry and sorryAx as
--   words, and the report.
--
-- * Closure (scripts/check_sdk_import_closure.py): the imports of a Lean source and the
--   breadth-first walk over them from each entry point. The files are a parameter. The walk runs on
--   fuel: one unit for the start and one for each import of each module that can be reached is
--   enough, since each module is put into the walk at most once for each import of it.
--
-- * Ownership (scripts/check_ownership.py): the import patterns, the allowlist of umbrella imports
--   and the exit status. The files below the scanned directories are a parameter, in sorted order.
--   A pattern is a function that is tried at a place of a text, and the walk over the text is
--   finditer.
--
-- * Prelude and Py have the shared names, and what the sources use of Python: integers, bytes,
--   dicts, UTF-8, decimal digits, JSON texts, dynamic values, exceptions, strip, splitlines and
--   sorted sets. A text is the list of its code points and bytes are a list of numbers. Numbers
--   that Python packs keep the width that they are packed in, and the exception where they do not
--   fit. ModuleNames has the parts of a dotted Lean name.
--
-- A suite's assertion has no message here, and what a tool prints on the way is left out, except
-- for the lines of the gates' reports, which are values. The environment variables and the client's
-- constructor are not modelled. Of the suites, the promises, the outputs and the context are not
-- modelled. The Lean compiler, its examples and the shell scripts are in other languages and are
-- not modelled.
pub mod Prelude
pub mod Py
pub mod ModuleNames
pub mod Observation
pub mod Rpc
pub mod Manifest
pub mod NoSorry
pub mod Closure
pub mod Ownership
pub mod Suites
