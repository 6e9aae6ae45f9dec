-- ===== src/Lib.antt =====
-- android-appsec-assessor, a tool that assesses Android applications on an authorised device: the
-- part of it that owns the device. A session records in a ledger, before it changes the device,
-- what it will have to undo; the cleanup undoes it, and refuses what the session does not own.
--
-- The parts and their files, with the modules of android_assessor/ that they model:
--   Errors        errors.py: the classes of errors as a kind with its base. A pure function that may
--                 raise returns a `Result`.
--   Exec          methods that mutate an object and may raise: an action takes the state and returns
--                 the result beside the new state, beside an error too.
--   Validation    validation.py, and `validate_serial` and `mask_serial` of adb.py. Patterns are
--                 lists of character tests; `\d` and `str.strip` follow the tables of Unicode 14.
--   Json          the values of the stored files, `dict.get`, `bool`, `str` and `int`.
--   Session       session.py: the records (`SessionRecord`, `CleanupAction`), with their stored form
--                 in Session/Codec, the operations of `SessionRepository` in Session/Repository, and
--                 those that read every session in Session/Listing. The state is the results
--                 directory: a list of records, found by identifier, the directories that do not load
--                 with what loading them raises, and a list of events.
--   Adb           adb.py: the readings of the outputs of adb and the operations of `AdbClient` that
--                 the other parts call, over an executable that is a parameter.
--   Snapshot      snapshot.py: `capture_device_snapshot`, the stored form, `parse_proxy_snapshot`.
--   Cleanup       cleanup.py: the handlers of the five action types in Cleanup/Actions (with
--                 `ProcessIdentity` of host_process.py; what they check of a payload is in
--                 Cleanup/Actions/Payload), `cleanup` and `rollback_actions` in Cleanup/Executor.
--                 The state is the repository beside the device.
--   Scope         scope.py: the allowlist's tests and the reading of its limits.
--   Findings      findings.py: `FindingRepository.get` and `set_validation`.
--   FileLock      file_lock.py: `FileLock` between threads, as a step relation over a system of
--                 threads and of the locks that the operating system granted.
--   DeviceLock    device_lock.py: `DeviceLock`, whose outcome the cleanup takes as an argument.
--   Dex           static_apk_analysis.py: `parse_dex_inventory`, with all that it calls. Numbers and
--                 bounds of tables are in Dex, texts and descriptors in Dex/Texts, the limits in
--                 Dex/Policy, the tables in Dex/Tables, Dex/Prototypes and Dex/MethodTable. The
--                 widths of instructions are in Dex/Instructions, what is known of registers in
--                 Dex/Registers, the scan of the code of a method in Dex/Scan, its code item in
--                 Dex/CodeItem. What calls show is in Dex/Algorithms, Dex/Signals, Dex/CryptoSignals,
--                 Dex/WebSignals and Dex/CodeSignals, the signals of a method in Dex/Behavior, the
--                 loops over classes in Dex/Classes, the whole in Dex/Inventory. A text is the list
--                 of its code points. Bits that do not overlap are added.
--   Crypto        crypto_analysis.py: the policy and a normalized operation. The reading of an
--                 observation is in Crypto/Reading, the conditions of the rules in Crypto/Conditions,
--                 the rules in Crypto/Rules, `CryptoAnalyzer.analyze` in Crypto/Analysis, the
--                 extraction from Frida events and fixtures in Crypto/Extraction.
--   Tls           tls_analysis.py: the evidence and the analyzer; the tests of one event are in
--                 Tls/Conditions, `from_events` in Tls/Events.
--   RootDetection root_detection.py: the events of root checks; the analyzer is in
--                 RootDetection/Analysis.
--   Redaction     redaction.py: sensitive names and `redact_text`, whose patterns are the matchers of
--                 Prelude/Pattern; structured data and arguments are in Redaction/Structure.
--   Correlation   scenario_correlation.py: the readers of single fields. The summary of a scenario is
--                 read in Correlation/Summary; Correlation/Attribution gives an observation its step
--                 and its fingerprint, Correlation/Observers has the checks of each observer, and
--                 Correlation/Events puts these together.
--   Tests         concrete runs.
-- The other modules below these hold proofs, and are named for what they prove.
--
-- Bounds: the fuel of the wait for a stopped process is its number of rounds, which stands for its
-- deadline; where it runs out the model raises the error that the source raises. A ULEB128 number has
-- the five rounds of the source. The scan of the code of a method has the number of its units as its
-- fuel, since an instruction is at least one unit wide. A replacement in a text has the length of the
-- text as its fuel, since each round reads a character at least. The loops over the tables and the
-- classes of a DEX file run over the numbers that it names. The other loops are structural recursion
-- over lists or texts. The clock's reading and fresh identifiers are arguments.
--
-- Parameters: the `adb` executable, `root_shell`, the Windows calls of `terminate_owned`, the
-- resolution of a path, `datetime.fromisoformat`, the `redact_text` of an error's note, what `\w`
-- matches and what `str.upper` yields beyond ASCII, `urlsplit`, and `repr` and `int` on the values
-- that the program does not store in a place. What a theorem assumes of them is among its
-- hypotheses: `RaisesCaught` says that they raise only errors of the program, `OSError` and
-- `ValueError`, and the executable only the errors of a failed command; `Answers` says of which
-- class the errors of `urlsplit` are.
--
-- Not modelled: the file system below the repository (writes are whole and succeed), the archive of
-- an APK and the search of its texts for secrets and endpoints, the analysis of its manifest, the
-- runner of scenarios, the explorer, traffic, Frida, reports, the command line and the web
-- interface; of scope.py the host names, of findings.py the stored form, of adb.py the transfer of
-- files and the control of packages, of redaction.py what needs urllib or the full table of
-- `str.casefold`, and the conversion of results to dicts.
pub mod Prelude
pub mod Errors
pub mod Validation
pub mod Json
pub mod Exec
pub mod Adb
pub mod Snapshot
pub mod Session
pub mod Cleanup
pub mod Scope
pub mod Findings
pub mod FileLock
pub mod DeviceLock
pub mod Dex
pub mod Crypto
pub mod Tls
pub mod Redaction
pub mod RootDetection
pub mod Correlation
mod Tests
