-- ===== src/Lib.antt =====
-- VPS Dashboard: a model of its web frontend (TypeScript, React), of the parts of its Go backend
-- that feed it, and the properties that make them correct.
--
-- The page shows metrics of a server, its Docker containers and their logs, and films of a Trakt
-- account. It is made of hooks, which keep state and talk to the backend, and of components,
-- which render that state and hand events back. Here a hook or component is a record for its
-- state and one function for each operation, handler or answer; what comes from outside (an
-- answer of the network, an event of a socket, the clock, the storage) is an argument. A list of
-- such events, or a step relation where the order matters, stands for any run. The rendered
-- markup is left out but for the texts, the rows and the choice between views.
--
-- Which file models which part:
--
-- - Types: the interfaces of frontend/src/types.ts.
-- - Format: frontend/src/utils/format.ts, with Format/Bytes for the rounding of formatBytes and
--   Format/Range for clamp, shortName and statusColor.
-- - Widgets: the registry of frontend/src/widgets.ts.
-- - Home: frontend/src/components/HomePage.tsx. HomeState is the layout, the edit mode and the
--   dragged position; act is one handler for each Action; Home/Session has the actions that the
--   page offers in a state (Offers) and the states reached by them (Reach); Home/Page is what the
--   page shows in a state.
-- - Settings: loadSettings, saveSettings and SettingsProvider of
--   frontend/src/context/SettingsContext.tsx. Patch is Partial<AppSettings>; Storage is the entry
--   of localStorage and whether it can be read and written.
-- - Presets and Theme: the themes of frontend/src/context/SettingsContext.tsx (resolveColors,
--   applyColors) and the colour fields of frontend/src/components/SettingsPage.tsx.
-- - LogStream: frontend/src/hooks/useLogStream.ts. feed is one round of the reading loop,
--   read_all the loop over a response, queue_line and render the updaters of setLines;
--   LogStream/Session is the state of the hook over overlapping streams.
-- - Crosswatch: frontend/src/hooks/useCrosswatch.ts. all_trakt_movies, watched_ids,
--   watched_at_map and movies are its memos; enrich is an undisturbed run of the effect that
--   requests details, and Crosswatch/Enrichment and Crosswatch/Failing follow such runs;
--   Crosswatch/Effect is the effect as a state machine, with its clean-up and the ref
--   tmdbEnriching, and Crosswatch/Fetching is fetchTraktData.
-- - Metrics: frontend/src/hooks/useMetricsHistory.ts. HistoryState numbers the runs of the
--   effect, so that an answer to a cancelled run is known.
-- - Socket: frontend/src/hooks/useMetricsSocket.ts, with the sockets that are not closed and the
--   timers that are pending.
-- - Containers: frontend/src/hooks/useContainers.ts and
--   frontend/src/components/ContainerList.tsx.
-- - HostView: frontend/src/components/HostMetrics.tsx, its cards and the readings that it hands
--   to Metrics.
-- - App: frontend/src/App.tsx, with the effect of useLogStream that follows the selected
--   container; App/Screen is what the page shows, with frontend/src/components/LogViewer.tsx,
--   NavTabs.tsx and StatusBar.tsx.
-- - Trakt: frontend/src/hooks/useTraktAuth.ts and useTraktConfig.ts, the form of
--   frontend/src/components/SettingsPage.tsx that saves the Trakt app (Form, form_event), and the
--   connection of frontend/src/components/CrosswatchWidget.tsx.
-- - CrosswatchWidget: the rest of frontend/src/components/CrosswatchWidget.tsx: runtime_str and
--   format_date, item for each movie of Crosswatch, and crosswatch_widget for the whole.
-- - SettingsPage: frontend/src/components/SettingsPage.tsx. A Control is what the user can do;
--   patch_of is the argument of updateSettings in its handler; settings_page is what the page
--   shows.
-- - Chart: frontend/src/components/MetricsChart.tsx, over the interface Plane for the rounded
--   arithmetic of coordinates.
-- - Backend/History: internal/host/history.go (record_sample is Record, range_of is Range) and
--   parseHistoryRange of internal/server/router.go; Backend/History/Answers joins them with
--   Metrics, and Backend/Charts with HostView and Chart.
-- - Backend/Logs: handleContainerLogs of internal/server/router.go. A read is what reader.Read
--   gives; Backend/Logs/Framed has the frames of Docker's stream and joins them with LogStream.
-- - Backend/Hub: internal/server/websocket.go. hub_event is one round of Run or a step of a pump;
--   the events come in any order, as the scheduler may choose.
-- - Backend/Tokens: internal/trakt/store.go and oauth.go, as client.go and handleTraktMe of
--   internal/server/trakt_routes.go call them. Set and Clear are put_tokens; Disk says whether
--   the file can be written and removed, and a failure goes unnoticed as in save; RefreshTokens
--   is begin_renewal up to its request and end_renewal from the answer on. The two readings of
--   the store with which a renewal begins are one step.
-- - Backend/Auth: internal/auth/middleware.go. handler is Handler, with the headers of a request
--   as a function.
-- - Backend/Cpu: calculateCPUPercent of internal/docker/monitor.go.
-- - Common: shared tests, list operations over native numbers, text as UTF-16 code units, and the
--   interface Number.
--
-- The parts meet as in the program: Containers.pin_patch is an update of Settings that
-- Home.visible_containers reads; Settings loads layouts by Widgets; Theme acts on AppSettings;
-- App runs LogStream/Session; HostView feeds Metrics; SettingsPage hands the handlers of the
-- colour section to Theme, and its check boxes are, as Widgets.toggled, also actions of Home; the
-- answers of Backend/History are events of Metrics, and the events of Backend/Logs are the
-- response that LogStream reads.
--
-- Numbers. Sizes, times, ids and counts are native natural numbers. Percentages and votes are of
-- any type that the interface Number describes, a total order with toFixed, or of any type at
-- all. Subtraction of times stops at 0, where the program's tests on the negative number have the
-- same outcome.
--
-- Bounds and fuel. The unit of formatBytes is found in at most five rounds, since terabytes are
-- the last unit. The digits of a number n are found with fuel n + 1, which suffices since each
-- round divides by ten. The log keeps 500 lines, a batch of requests has 10 movies. enrich_runs
-- takes the number of runs as an argument; the theorem on it says how many suffice. All other
-- loops are structural recursion.
--
-- Parameters. The sums and quotients of float64 are parameters, with laws where a theorem needs
-- them (Averaging in Backend/History/Mean, Plane in Chart): rounding keeps the order, is exact on
-- the whole bounds, which are below 2^53, and moves a whole number that is divided and multiplied
-- again by less than one. Chart/Fixed has numbers that meet the laws of Plane. TextDecoder is a
-- parameter with its documented laws (Decoder in LogStream/Decoding), which the decoder of UTF-8
-- in LogStream/Utf8 meets. JSON.parse and JSON.stringify are parameters with the documented round
-- trip on settings, and so are Go's on tokens; base64 and the comparison with a bcrypt hash are
-- parameters without any law; TMDB and the backend are functions or events that give any answer;
-- React's queue of updaters is a list, applied in order when the component renders. With
-- StrictMode off the effects run once.
--
-- Not modelled: the wave that stands for missing data in a chart; scrolling, titles and style
-- classes without a meaning. Of the Go backend: the collector of host metrics, the Docker client,
-- the addresses and credentials of OAuth, and static files, which call the operating system or
-- other services. The style sheet and the build files.
pub mod Common
pub mod Types
pub mod App
pub mod Backend
pub mod Chart
pub mod Containers
pub mod Crosswatch
pub mod CrosswatchWidget
pub mod Format
pub mod Home
pub mod HostView
pub mod LogStream
pub mod Metrics
pub mod Presets
pub mod Settings
pub mod SettingsPage
pub mod Socket
pub mod Theme
pub mod Trakt
pub mod Widgets
