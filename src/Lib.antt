-- ===== src/Lib.antt =====
-- The web panel of an agent on a 5G router: the libraries below web/src/lib that decide what a
-- page sends to the device, what it believes of the answers, and what it shows.
--
-- A page's write goes through a write operation (WriteOp): the reducer of web/src/lib/api/writeOp.ts
-- is a state machine over phases, and its controller sends the steps, reads the change back, waits
-- for a device that drops off and probes it. Each request is made by `apiFetch` (Api), whose errors
-- the controller classifies; a 401 ends the session, and the login that follows resumes the
-- operation. Reads go through `validatingFetcher`, which keeps the age of each endpoint's data.
-- The transactions that the device reports are shown by the rules of web/src/lib/ops.ts (Ops). The
-- onboarding page talks ADB over USB (Adb). The firewall page normalises answers of several shapes
-- (Firewall), and the diagnosis page shows a run of the agent (Diagnose). The pages of the LAN, of Wi-Fi, of
-- access points, of the eSIM card, of scenarios, of the scheduler and of text messages check a form, send what they make of it, and
-- read it back (Lan, Wifi, Apn, Esim, Scenario, Scheduler, Forward, Sms); the tier of a write depends on whether the page is
-- reached over Tailscale (Net).
--
-- Common        numbers, tests, lists, texts and sorting that the modules share.
-- Api           web/src/lib/api/types.ts (Errors: the error classes), client.ts (Client: `apiFetch`,
--               `on401`, `failure`, the time limits; Session and Kinds: what a request does to the
--               session and how its error is classified), freshness.ts (Freshness: `nextFresh`,
--               `isStale`, `recordOutcome`, `validatingFetcher`; Ageing: histories of answers;
--               Ticker: `subscribeFresh` and the timer); Binary: the base address and
--               `apiFetchBinary`; Store: sequences of fetches; reboot.ts (Reboot);
--               `fetchOnce` of web/src/lib/hooks/useApi.ts (Once).
-- WriteOp       web/src/lib/api/writeOp.ts: State (the types), Reducer (`writeOpReducer`, one
--               function per event), Controller and Resume (`runSteps`, `runVerify`, `probeLoop`),
--               Actions (`start`, `confirm`, `resubmit`, `handleLogin`, …), Session (sequences of
--               clicks, logins and answers). Consent, Runs, StepLists and Flight are about these.
-- Ops           web/src/lib/ops.ts: `observeOps`, `opShow`, the acknowledgements, the countdown;
--               Journal: the clock and the change log. Shown and Reads are about Seen.
-- Adb           web/src/lib/adb.ts: Wire (messages), Link (transfers), Client (handshake, `shell`),
--               Chunks (`push`); the other modules are about these. A transfer takes at most 64 KiB
--               of what the device sends, as `recv` asks for.
-- Firewall      web/src/app/(panel)/router/firewall/normalize.ts: Json (values, `pick`, `ruleList`),
--               Normalize (`normalizeFirewall`, `upnpBody`, the rules); Read is about these.
--               Forms: the checks of web/src/app/(panel)/router/firewall/page.tsx; Ports is about
--               them.
-- Diagnose      web/src/lib/diagnose.ts: Page (`rowView`, `headView`, `progress`, `orderedLayers`,
--               `wantsDiagnose`); Order is about these.
-- Sms           web/src/lib/sms.ts and web/src/app/(panel)/sms/compose/page.tsx: Body (`decodeSms`,
--               `formatSmsDate`, `toUCS2Hex`, `partsOf`, `ask`); BodyRoundtrip is about these.
-- Net           Ipv4 and Remote: web/src/lib/api/remote.ts; Mask and Prefix: the netmasks and
--               networks of the LAN page; RemoteHosts is about Remote.
-- Lan           web/src/app/(panel)/router/lan/page.tsx: Form (`hostOf`, `leaseSeconds`, the checks),
--               Apply (`describe`, `askApply`, `readbackMatches`); Range and Readback are about these.
-- Forward       web/src/app/(panel)/sms/forward/page.tsx: Rules (`draftOf`, `filterOf`, `destOf`,
--               `draftProblem`), Saved (the requests and their readback checks), Retry (`askRetry`);
--               Edited, Tidy and Checks are about these.
-- Scheduler     web/src/app/(panel)/scheduler: Jobs (jobs.ts: `isTier3Action`), Form (page.tsx:
--               `check`, `formFromJob`, `toSchedule`), Writes (`askSave`, `askToggle`, the checks),
--               Agent (the handlers of zte-agent/src/scheduler.rs); Tiers, Saved, Armed and Checks
--               are about these. Form has `toWallInput` and `fromWallInput` of
--               web/src/lib/deviceClock.ts; the browser's `Date` is a parameter.
-- Apn           web/src/app/(panel)/router/apn/page.tsx: Profiles (`normalize`), Saves (the form, what
--               it sends, `settle` and the readback); Kept is about these.
-- Scenario      web/src/app/(panel)/router/scenario/page.tsx: Config (web/src/lib/api/schemas/scenario.ts,
--               `wifiOf`, `withWifi`, `homeEntries`), Edits (the writes), Timing (`askParams`), Status
--               (the status block); Lists, Home, Wifi, Fallbacks and Reach are about these.
-- Wifi          web/src/app/(panel)/router/wifi: Fields (fields.tsx: `ssidProblem`, `keyProblem`),
--               Form (page.tsx: `seed`, `readbackMatches`), Apply (`problems`, `networkNames`), Ask
--               (`describe`, `askApply`, `setRegion`, and `master_writes` of zte-agent/src/wifi.rs);
--               Readback and Allowed are about these.
-- Esim          web/src/app/(panel)/router/esim/page.tsx: Jobs (`runJob`), Page (`askNickname`,
--               `askDownload`, the readbacks); JobEnds and Nickname are about these.
-- Home          web/src/lib/home.ts, signalWords.ts and connectState.ts: Signal (`num` and the answer),
--               Carriers (`parseCa`, `carriers`, `totalBandwidth`), Network (`plmn`, `lteAnchor`), Words
--               (`sigState`, `connectKind`, `dataSwitchOn`); Serving and Spells are about these.
-- Routes        web/src/lib/routes.ts: Table (`routeFor`, `anchorFor`, `searchRoutes`); Found is about it.
-- Ubus          web/src/lib/ubus.ts: Rpc (`rpc`, `enableADB`); Login is about it.
-- Trend         web/src/lib/liveTrend.ts, web/src/lib/cpuTrend.ts: Samples; Recent is about it.
-- Tests         runs at concrete inputs.
--
-- An asynchronous function is cut at its awaits: it returns the task that it waits for, a session
-- holds the tasks in flight, and an input settles one of them with an outcome and a time, in any
-- order. So the loop of `probeLoop` is a sequence of tasks and needs no bound, and the recursion of
-- `runSteps` and `afterSettle` is over the steps of the operation. The loop of `shell` runs on fuel,
-- one pass more than there are transfers; the pieces of `push` on the length of the file; the readback
-- of a reboot on 42 passes, since passes are 3 seconds apart and the limit is 2 minutes; the wait for a
-- job of the eSIM card on one pass more than the limit has intervals.
--
-- Where the source looks at the units of a text, a text is the list of its UTF-16 units
-- (Common.Texts), and `trim`, `split`, `join`, `Number` and `String` are functions on such lists.
-- Numbers that a text gives are exact, where JavaScript rounds those above 2 ^ 53.
--
-- The network, the browser's storage, the clock, WebUSB, and the texts that JavaScript gives numbers
-- are parameters or inputs. Not modelled: the rendering of the pages and the hook of the write operation,
-- listeners that only redraw, the second line of the change log, the stored UTC offset, the agent itself
-- (Rust) but for what four handlers of the scheduler make of its list, the mock agent, and the shipping scripts.
pub mod Common
pub mod Api
pub mod WriteOp
pub mod Ops
pub mod Adb
pub mod Firewall
pub mod Diagnose
pub mod Sms
pub mod Net
pub mod Lan
pub mod Forward
pub mod Trend
pub mod Scheduler
pub mod Apn
pub mod Scenario
pub mod Wifi
pub mod Esim
pub mod Home
pub mod Routes
pub mod Ubus
pub mod Tests
