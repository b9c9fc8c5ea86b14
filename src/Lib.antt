-- ===== src/Lib.antt =====
-- Huntarr2: verification library.
--
-- Huntarr2 searches the libraries of several download managers ("arr" applications) for items whose
-- quality can be upgraded or that are missing. A Go server keeps instances, settings and an activity
-- log in a database and runs a scheduler; pages with JavaScript show and change that state over an
-- HTTP API. The library models the logic of the pages and the parts of the server that they rely on.
--
-- The pages, web/static/js:
--   settings.js     SettingsPage: Formats (validDuration, validHHMM), Form (validate,
--                   applyFormData), Banner (showMessage and its timer), Save (saveGlobalSettings,
--                   saveInstanceSettings, resetToDefaults against a server that is an interface),
--                   Page (loadSettings, selectTab, saveSettings, focusAdjacentTab).
--   connections.js  AppDefaults (appDefaults, defaultPlaceholder, defaultName) and Connections: the
--                   dialogs (openAdd, openEdit, saveInstance, deleteInstance), the focus that they
--                   take and give back (the watchers of init), the connection tests with the
--                   timers of their results (testInstance, destroy), and in Scroll the position that
--                   is kept over a reload (reloadInstances, init).
--   logs.js         LogViewer: paging, filters, requests and polling; Sizes has formatBytes, Details
--                   has formatDetails, searchedItemLinks, itemLink and formatBitrate.
--   scheduler.js    SchedulerPanel: init, refresh, destroy and the warning of a lost connection.
-- Regex models the regular expressions that settings.js uses, Json the values that the pages read
-- from the details of a log entry.
--
-- The server, internal:
--   settings/settings.go, service.go, sqlite.go   Settings: Number (strconv.Atoi), Clock
--                   (ParseHHMM), Values (keys, defaults, Resolve, validateValue), Store (SetBatch and
--                   RemoveBatch over the two kinds of rows; Set and Remove in Single; in First, the entry
--                   that they refuse).
--   api/settings.go Api.Settings: the handlers and formatDuration; they fill the interface that
--                   SettingsPage.Save takes, in Api.Settings.Lawful.
--   arr/quality.go  Arr.Quality: quality ranks, filterUpgradeable, filterMissing.
--   arr/history.go  Arr.Events (what is read from an event), Arr.Records, and Arr.History
--                   (fetchArrHistory, from the pages of events on; Taken ties its records to the events
--                   of the pages). The polls of the scheduler call it.
--   cooldown/sqlite.go       Scheduler.Cooldown: the table of searches.
--   scheduler/scheduler.go   Scheduler: Interval (computeNextInterval), Window (inSearchWindow),
--                   Cycle (excludeIDs, runInstanceCycle with the entries it logs), Tick (tick up to
--                   its last two calls, nextHourBoundary), Polls (pollInstanceHistory,
--                   historyDetails), Upkeep (pollUpgradeHistory, pruneActivityLog, all of tick).
--   activity        Activity: the entries, the texts of their times, and the query, the count and
--                   the pruning of sqlite.go, with what they give in Matching and Listed; Stats has
--                   its counts. Api.Activity is handleListActivity of api/activity.go.
--   instance        Instances: validation, and the operations of service.go over the rows of
--                   sqlite.go. Api.Instances is the handlers of api/instance.go, Api.Connect
--                   handleTestInstance with what the page reads of its answer.
--   arr/service.go  ArrService: TestConnection, SearchCycle and what they call. Api.Search is
--                   handleInstanceSearch of api/arr.go over it.
--   server/pages.go Dashboard: aggregateStats over the two counts of the log that fetchHomeData asks
--                   for, and Upgrades, homeUpgrade over the entries of the polls, with
--                   web/templates/pages/format.go.
--   encrypt         Encrypt: Encrypt and Decrypt over an interface of ciphers.
--   config          Config: Load and validate; Server has the checks of server/server.go, New.
--
-- Conventions. An asynchronous method is one function up to its request and others from each reply
-- on, which take the state as it then is; a theorem about interleavings runs a list of events. A
-- timer is a number in the order of creation, and a list holds the live ones. An int64 is its
-- pattern in [0, 2^64), with wrap-around written out; other counts and ids that are never negative
-- are ℕ, in nanoseconds for durations. Texts are lists of code points where they are read. Three
-- loops run on fuel: that of formatBytes, whose fuel is the number of units left, the printing of a
-- number, whose fuel is the number and one, more than it has digits, and the scale of a float in
-- formatBitrate, whose fuel is 52, the bits of its fraction.
--
-- Parameters, code that is not in the repository: time.ParseDuration, time.Parse, url.Parse,
-- uuid.Parse, the LIKE of the database, the verb %q of fmt, Date.toISOString, the printing of arrays
-- and objects, the conversion and printing of numbers that are no integers, the levels of zerolog,
-- the decoders of hexadecimal digits and base64, and the ciphers, whose laws are those of a seal
-- that can be opened and a coding that can be undone. What a database, an arr application, the
-- network or the JSON decoder of a request gives is an argument of the operation that asks.
--
-- Not modelled: Run and Status of the scheduler, the status of all instances and their media covers,
-- the requests to the arr applications and the reading of their libraries, database set-up, routing
-- and middleware of the web server, the rest of the gathering of the Home page's data, the templates
-- and the vendored libraries.
pub mod Base
pub mod Regex
pub mod Json
pub mod AppDefaults
pub mod SettingsPage
pub mod Settings
pub mod SchedulerPanel
pub mod Arr
pub mod Connections
pub mod LogViewer
pub mod Scheduler
pub mod Activity
pub mod Instances
pub mod ArrService
pub mod Encrypt
pub mod Config
pub mod Dashboard
pub mod Api
pub mod Examples
