-- ===== src/Lib.antt =====
-- A model of the Python package of the SonicWall SDK, in packages/python/src/sonicwall.
--
-- The parts and how they interact. A `SonicWallClient` owns an `AuthManager` (the login state), an
-- `HTTPClient` (every request goes through it) and a depth counter that all `pending()` contexts
-- share. A resource calls `HTTPClient.request`, which logs in where it has to, sends the request,
-- logs in again and retries once if the session has expired, and turns a failure into an exception.
-- A `CommitContext` uses the same method to enter the config mode, to commit and to roll back. A
-- `SonicWallClientSync` runs the same methods on an event loop in a thread of its own, and waits
-- for their results. The checks of a live device are built from all of these.
--
-- Which file models which part:
--   Json, Url, Prelude       JSON values as Python objects, `urlparse` and `quote`, texts
--   Errors                   _exceptions.py; a result is a value or an exception
--   Firmware                 _firmware.py, and the properties of `SonicWallHTTPError` in
--                            _exceptions.py
--   Exec                     methods: an action takes the session, and gives a result and a session
--   Transport                requests, responses, the session (the fields that `__init__` of the
--                            client, of `AuthManager` and of `HTTPClient` set), and the environment
--   Auth/Digest, Auth/Token  the functions of _auth.py on headers and bodies
--   Auth/Manager             the methods of `AuthManager`
--   Auth/Tasks               the same methods cut at their awaits, and the lock, for any number of
--                            tasks: a step function, and the systems that can be reached
--   Http/Status              `_raise_for_status` of _http.py, with what it calls
--   Http/Client              `request` and `_do_request` of _http.py
--   Commit                   _commit.py, and `commit`, `rollback` and `pending` of _client.py
--   Resources/Base           resources/_base.py, and the helpers that the resources repeat
--   Resources/Normalize      resources/_normalize.py
--   Resources/AddressObjects, Resources/AccessRules, Resources/ServiceObjects,
--   Resources/NatPolicies, Resources/Interfaces, Resources/Dhcp
--                            the files of resources/ with these names
--   Models/AccessRule, Models/AddressObject, Models/ServiceObject, Models/NatPolicy,
--   Models/Interface, Models/Dhcp
--                            the files of models/ with these names
--   Ip                       what the models use of `ipaddress`: IPv4 addresses, masks and networks
--   Client                   `SonicWallClient` of _client.py: construction and `async with`, with
--                            Client/Pool for the connection pool that `disconnect` closes, and
--                            Client/Singletons for the resources that are made on first access
--   SyncClient               `SonicWallClientSync` of _client.py, with a module for each shim
--   LiveValidation           _live_validation.py, with LiveValidation/Smoke for `run_smoke`,
--                            LiveValidation/WriteCrud for `run_write_crud`, and
--                            LiveValidation/LocalEnv for `load_local_env`
--   LiveValidation/Logged    scripts/run_live_validation_logged.py
--   EndpointMatrix           generate_endpoint_support_matrix.py
--   VersionSync              scripts/sync_versions_from_file.py
--   Contract                 collect_contract.py
--   Examples                 a scripted device, and the theorems applied to runs against it
-- A child module of a part (Auth/Manager/Lifecycle, Http/Client/Retry, Commit/Outermost, …) holds
-- proofs about it.
--
-- How the state is modelled. A session holds the login state, the base URL, the depth counter and
-- the list of all requests sent so far. Sending appends to this list and asks the environment,
-- which answers or fails by what was sent before. So a theorem that holds for each environment
-- holds for each behaviour of the device and of the network, failures and cancellations included.
--
-- The blocking client is a session and an event loop, which is absent, runs, or is stopped; a call
-- gives nothing where it blocks for ever. The tasks of Auth/Tasks share the fields of `AuthManager`
-- and its lock; between two awaits a task is alone, and what it is answered is an event.
--
-- What is a parameter, because its code is not in the repository: httpx, the network and the
-- device, `str()` on values that are no texts, the hashes and `os.urandom` (`Env` in Transport);
-- pydantic's checks and conversions of field values (`Pydantic` in Models/ServiceObject,
-- `AddressFields` in Models/AddressObject, `RuleFields` in Models/AccessRule/Parser, the validation
-- in the other models); the environment variables and python-dotenv (LiveValidation); the text of a
-- response (Contract); `str()` on JSON values and the JSON of the status file (EndpointMatrix);
-- `repr` (VersionSync); the deadlines of `asyncio.wait_for` (LiveValidation/Logged). The resources
-- take the parsers of their models as parameters.
--
-- What is left out. An action is one task; only Auth/Tasks has several, which call what takes the
-- lock, and `logout`, but not `connect`. Outside Client/Pool the connection pool is always open: a
-- client that has disconnected and connects again is seen as one with an open pool. The moment
-- between the call that stops an event loop and its stop. Log output, and what the checks print.
-- The query parameters of `request`, which no modelled caller passes. Case folding and the regular
-- expressions outside ASCII. The digits of a float behind the point: only whether there are any.
-- The depth counter is a natural number, since `__aexit__` runs only after `__aenter__`. The report
-- that collect_contract.py writes, validate_write_crud.py, and the packages in other languages are
-- not modelled.
--
-- Bounds. The scanner of challenge parameters (Auth/Digest) runs on the length of the text plus one
-- as fuel, and each round takes a character off (Auth/Digest/Scan). `show_nat` (Prelude/Text) runs
-- on the number plus one, and each round divides by ten (Prelude/Text/Decimal). All other recursion
-- is structural.
pub mod Prelude
pub mod Json
pub mod EndpointMatrix
pub mod Errors
pub mod Exec
pub mod Url
pub mod Transport
pub mod Auth
pub mod Firmware
pub mod Http
pub mod Commit
pub mod Resources
pub mod Models
pub mod VersionSync
pub mod Examples
pub mod Ip
pub mod Client
pub mod SyncClient
pub mod LiveValidation
pub mod Contract
