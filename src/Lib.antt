-- ===== src/Lib.antt =====
-- poolpilot-relay: an agent that runs beside a pool controller, polls it, raises alerts, and talks
-- to its household's apps and to a cloud.
--
-- The program's parts and the files that model them:
--   bands/bands.go (the severity scale)                        Bands, Bands/Scale
--   internal/measure/measure.go, preset/preset.go              Measure, Preset
--   wire/wire.go (rules, alerts, update records)               Wire and below
--   internal/agent/alert/rulestate.go, alert.go                Alert and below:
--     ensureState, findReading, request, renotifyIfDue         Alert/Engine
--     stepBanded                                               Alert/Step and below
--     toleranceFor, bandsFromControl, effectiveBands           Alert/Control and below
--     Evaluate                                                 Alert/Evaluate and below
--     EvaluateStale                                            Alert/Stale and below
--     SeedDefaults, ReconcileSeed, DropOrphanState             Alert/Seed and below
--     ValidateRules                                            Alert/Rules and below
--   internal/agent/recovery/recovery.go (Verify, windows)      Recovery, Recovery/SingleUse
--   internal/agent/state/state.go, the document                State/Document
--     QueueDeviceRemoval, the caps                             State/Removals and below
--     Paired, Enrolled, ResetHousehold and their kin           State/Household
--     the controller slots                                     State/Controllers and below
--   internal/agent/state/roles.go, migrate.go                  State/Roles, State/Migrate and below
--   internal/agent/state/state.go, the store                   Store and below
--   internal/agent/lifecycle/lifecycle.go                      Lifecycle and below:
--     the watcher's fields, schedule, Kick, Probe              Lifecycle/Watcher
--     ask, askProbe, onUnknown, park, resume, drop             Lifecycle/Answer
--     Step                                                     Lifecycle/Steps
--   internal/agent/lanapi/lanapi.go                            LanApi and below:
--     authed, ownerOnly, selfOrOwner, deviceForBearer          LanApi/Auth
--     pair, pairFirst, pairJoin, pairRecover                   LanApi/Pairing and below
--     deleteDevice                                             LanApi/Devices and below
--     controllers: delete and rotate, session key; the resets   LanApi/Controllers and below
--     alert rules, poll interval                               LanApi/Settings and below
--   internal/agent/cloud/cloud.go:                             Cloud and below:
--     SendAlert, Drain, staleAlert                             Cloud/Outbox and below
--     removalBackoff, removalsHeld, settleRemoval              Cloud/Removals and below
--     removalPass, ReportDeviceRemovals, FlushDeviceRemovals   Cloud/Removals/Pass and beside it
--     SyncControllers, syncPass                                Cloud/Sync and below
--     the locks and flags of the sync and the removals         Cloud/Flight
--     what each call makes of the answer                       Cloud/Calls
--   internal/agent/poller/poller.go:                           Poller and below:
--     tick, pollController, Snapshot, New                      Poller
--     ControllerBaseURL, Interval                              Poller/Address
--     the effective interval and its bounds                    LanApi/Settings
--   internal/agent/ctrlfilter:                                 Ctrl and below:
--     session.go, mint and VerifySigned                        Ctrl/Session and below
--     session.go, burnList                                     Ctrl/Burn, Ctrl/Burn/Once
--     canonical.go                                             Ctrl/Paths and below
--     server.go, guidFromHost                                  Ctrl/Hosts
--     server.go, Handler, serveSession, New                    Ctrl/Gate and below
--   internal/useragent/useragent.go                            Ctrl/UserAgent, Ctrl/UserAgent/Kept
--   internal/update/version.go                                 Update/Version, Update/Version/Order
--   internal/update/protocol.go, verify.go                     Update/Assets, Update/Files
--   internal/update/helper/helper.go                           Update/Helper, Update/Run and below
--   internal/agent/updater/stage.go (stage)                    Update/Stage, Update/Stage/Accepted
--   internal/agent/updater/updater.go, Apply                   Update/Agent and below
--
-- How they interact: every poll the agent grades readings (Bands) against the rules of a controller
-- (Alert) and keeps each rule's memory in the document (State), which the store (Store) alone reads
-- and writes. Opening the store migrates an old document and infers missing roles. The watcher
-- (Lifecycle) asks the cloud whether the relay is in good standing, and parks, resumes or drops the
-- household through the store's bound writes. The poller's tick (Poller) drives this: it polls each
-- controller, evaluates its rules, persists their states, delivers the alerts through the outbox,
-- and lets the cloud client sync the controllers and report the removals that are still owed. A
-- request through the tunnel meets the gate (Ctrl) before it reaches a controller. The LAN API
-- pairs and revokes devices and edits the settings through updates of the store. The agent's
-- updater asks the cloud for a release, stages it and commits a request; the privileged helper
-- (Update/Run) verifies the staged files again, installs them, watches the new agent's health and
-- answers with a result.
--
-- How the code is modelled: a Go struct is a record, a mutation through a pointer is a function
-- from the old value to the new, a map is an association list, and an error is a value. Prelude has
-- the shared tests, lists, maps and integers; Go has int64 with its wrap-around, time in
-- nanoseconds from the zero time, Duration with its saturating difference, and float64 by its bits
-- with the IEEE comparisons. A call of the store is atomic under its lock; where a method releases
-- the lock in between, the store that others left is an argument, so that every interleaving is
-- covered. The file system answers by arguments: a write of the document or of a binary renames a
-- temporary file over the target, so it either replaces it or leaves it, and the helper's record of
-- the installed version is written in place and can be cut short. The clock is an argument of each
-- operation.
--
-- Loops are structural recursions over the lists that the code ranges over. The health watch of
-- the helper recurs on the list of its looks, and is cut off where that ends; the search for the
-- next nightly slot has fuel. A delivery recurs on the list of its rounds, one for each POST, and
-- is `none` where that ends first; the sync has its four rounds, and the sync and the report of
-- removals recur on the list of their passes (Cloud/Flight), `none` where it ends while one more
-- is asked for. What the world answers to the parts of a tick is a function of their position in
-- the loop. A handler of the LAN API reads the document once for all its snapshots, and its update
-- sees the store as others left it. An int is an int64; a text of the update code is the list of
-- its code points, a file or a text of the gate that of its bytes.
--
-- Parameters: the float sum and difference, RFC 3339 formatting and reading, SHA-256 in
-- hexadecimal, the recovery code of a window, random ids and delays, the control plane's answers,
-- what a file's JSON decodes to, HMAC, base64 and decimals of the gate, the minisign signature, the
-- outcome of each download, FNV-1a, and three o'clock of a day.
--
-- Not modelled: the other handlers of the LAN API, the building of HTTP requests and the reading of
-- their bodies, the tunnel, TLS, mDNS, the controllers' page parsers, what httputil.ReverseProxy
-- itself does to a request, the updater's timers and HTTP download, the tickers of the poller and
-- of the watcher, the validation of addresses, logging and the command line: they are I/O, glue or
-- libraries' work, or not done yet. Examples applies the theorems at concrete inputs.
pub mod Prelude
pub mod Go
pub mod Wire
pub mod Bands
pub mod Measure
pub mod Preset
pub mod Alert
pub mod Recovery
pub mod State
pub mod Store
pub mod Examples
pub mod Lifecycle
pub mod Cloud
pub mod Poller
pub mod Ctrl
pub mod LanApi
pub mod Update
