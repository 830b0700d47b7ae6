-- ===== src/Lib.antt =====
-- The credential broker for Linux clients on WSL: a Windows process keeps the secrets in the
-- Windows Credential Manager, and a Linux daemon speaks the Secret Service protocol over D-Bus and
-- asks the broker over a pipe.
--
-- Parts, and the files that model them:
--   crates/protocol, the types and the wire format that both processes share:
--     Protocol/Errors.antt   error.rs: ErrorCode, BrokerError, ProtocolError and their texts.
--     Protocol/Model.antt    model.rs: SecretBytes, the metadata records, the validation of fields.
--     Protocol/Target.antt   target.rs: TargetName, its printing (display) and parsing (from_str).
--     Protocol/Vault.antt    vault.rs: GenerationCommit::steps and plan_recovery.
--     Protocol/Message.antt  message.rs: Operation, Request, ResponseBody, negotiate.
--     Protocol/Frame.antt    frame.rs: read_frame and write_frame.
--   crates/broker, the process that owns the credentials:
--     Broker/Backend.antt      backend.rs: the trait VaultBackend as a record of operations, and the
--                              laws that its clients rely on.
--     Broker/Memory.antt       backend.rs: InMemoryBackend.
--     Broker/Metadata.antt     service.rs: metadata as blobs, its validation, the errors.
--     Broker/Entries.antt      service.rs: entries and valid_items, the scan of the vault.
--     Broker/Collections.antt, Broker/Aliases.antt, Broker/Items.antt
--                              service.rs: one function for each operation.
--     Broker/Recovery.antt     service.rs: reconcile_locked.
--     Broker/Service.antt      service.rs: Broker::execute, with the lock around the operation;
--                              Service/Keeps.antt is what the operations keep of what the backend keeps.
--     Broker/Windows.antt      the calls of Windows that wincred.rs makes, and its texts in UTF-16.
--     Broker/WinCred.antt      wincred.rs: WinCredBackend, its lock and its calls of Windows.
--     Broker/WinCred/Manager.antt  the behaviour of Windows that wincred.rs relies on, as laws; the
--                              other files there are about the lock, the effect of each call on the
--                              credentials, the scan, and names that differ in case.
--     Broker/Serve.antt        main.rs: the handshake of serve, the rounds of its loop, its ends;
--                              Serve/Conversation.antt takes requests and responses as sequences,
--                              Serve/Reading.antt and Serve/Ends.antt are on its return.
--     Broker/View.antt         what a client sees of an item, read off the stored credentials.
--   crates/provider, the D-Bus daemon:
--     Provider/Errors.antt   error.rs: what clients see of an error.
--     Provider/Paths.antt    paths.rs: the object paths.
--     Provider/Client.antt   broker.rs: ProcessBroker::call and its retry.
--     Provider/Process.antt  broker.rs: the handshake of ProcessBroker and its waiting requests.
--     Provider/Double.antt   broker.rs: InMemoryBroker, and Provider/Double/ its consistency.
--     Provider/Crypto.antt   crypto.rs: SessionKey, the handshake, the derivation of keys.
--     Provider/Sessions.antt service.rs: the sessions of Provider, and what goes through them;
--                            Sessions/History.antt takes their events as a sequence.
--     Provider/Service.antt  service.rs: the other methods of Provider, over a BrokerClient.
--     Provider/Bus.antt      service.rs: what the D-Bus objects share, with one file below it for each
--                            of SecretService, CollectionObject, ItemObject, and for SessionObject,
--                            PromptObject and the start; Bus/Beside.antt puts the store in memory
--                            beside a bus.
--   crates/cli, the management tool, in part:
--     Cli/Releases.antt      lib.rs: conflict_decision and newest_public_release.
--     Cli/Lifecycle.antt     lib.rs: enable_with and disable_with, over the trait of the system.
--     Cli/Doctor.antt        lib.rs, main.rs: DoctorFinding and the diagnostics of a distribution;
--                            Doctor/Report.antt is the text of the report and the finding on releases.
--     Cli/Versions.antt      lib.rs, main.rs: the version of WSL, the names of distributions, paths.
--     Cli/Machine.antt       main.rs: what the commands ask of Windows, and run_process.
--     Cli/Plugin.antt        main.rs: plugin_install and plugin_uninstall.
--     Cli/Distributions.antt main.rs: find_distribution and the enablement in the registry.
--     Cli/Payload.antt       main.rs: verify_payload and the paths beside the tool.
--     Cli/Provision.antt     main.rs: distro_enable; Provision/Refresh.antt and Provision/Disable.antt
--                            are distro_refresh and distro_disable.
--     Cli/Trim.antt          the trimming of white space and the lines of a text.
--   Prelude.antt and the files below it hold lists, results, maps in order and the state monad;
--   Broker/Samples.antt, Tests.antt and the files below it are concrete inputs and runs.
--
-- Correspondence. A method of the broker is an action on a state with errors (Prelude/Exec.antt): the
-- state that a failing call leaves behind comes with its error, so partial writes are visible. Every
-- call of the backend may fail. A Uuid is its number, a String or a blob its list of bytes, a
-- BTreeMap a list of pairs in the order of its keys. Machine integers appear in the saturating
-- addition of the modification time, in the header of a frame and in the numbers of a version; all
-- keep their bounds.
--
-- Parameters. The crates uuid, base64, ciborium and semver are records of functions (Crates, Codec,
-- Semver) with the documented round trips as named laws, and so are the streams and the broker's process
-- as the provider sees it, the cryptography and large numbers of the sessions (CryptoLib, with its laws in
-- IsSound), the Windows API of wincred.rs (WinApi, with its laws in IsManager), and two of which nothing
-- is assumed: zbus (Bus) and the Debug printing of a text (Format). The commands of the management tool are
-- over a Machine: registry, files, processes, console; a theorem names the laws of it that it uses.
-- Windows ignores case in names and base64 does not (Broker/WinCred/Case.antt), so the laws of the Windows
-- store are stated on the targets that a vault uses (Broker/Backend/On.antt), where the encodings of its
-- aliases differ by more than case (Broker/WinCred/Names.antt); the theorems on the vault service are over a
-- store with the laws on every target. A wait for a mutex may not end where its
-- time is unbounded; Broker/WinCred/Held.antt follows the mutex that the broker holds (IsMutexes).
-- Times, new identifiers and random values are arguments of the methods that draw them.
-- Broker/Samples.antt and Tests/ give concrete functions for which the laws hold.
--
-- Composition. A D-Bus method is an action on the table of sessions and a world outside, which holds the
-- broker and the bus; it calls the methods of Provider, which call the client. The theorems on stored
-- secrets put InMemoryBroker into that world.
--
-- Loops are structural recursions over the lists that they run through. Decimal formatting is
-- recursion on fuel: n + 1 rounds are enough for the digits of n, since each divides by ten. Trimming
-- has the length of the text as fuel, since each round drops a byte. The loop of serve is recursion on
-- a bound of its rounds: one more than the bytes of the input is enough, since each round reads a header.
--
-- Not modelled: memory, so the freeing and wiping of what Windows allocates and the zeroing of secrets
-- are left out; logging, which no result depends on; poisoned mutexes of the in-memory store; the pipes
-- and timeouts of ProcessBroker and the interleaving of D-Bus methods; of the commands of
-- crates/cli/src/main.rs the uninstallation, the upgrade with its download, the listing of distributions
-- and the gathering of what doctor reports; paths that are not Unicode; the native plugin, packaging and
-- scripts.
pub mod Prelude
pub mod Protocol
pub mod Broker
pub mod Provider
pub mod Cli
pub mod Tests
