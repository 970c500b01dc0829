-- ===== src/Lib.antt =====
-- Nova Server Manager: the web client of the panel, which runs in the browser (frontend/src), and the
-- parts of its server (app) that deploy applications, route their domains, take their sources and keep
-- their newest backups.
--
-- The client is a page that signs a user in, keeps the data of the server and shows one of several
-- screens, chosen by the hash of the address. Each screen is a component with a state and with
-- handlers that wait for requests and dialogs, set state and show messages. All requests go through
-- `api` and `uploadSource`.
--
-- Common          lists, texts as code points, fractions, sorting, splitting and joining
-- Types           frontend/src/lib/types.ts: the records that the server sends
-- Client          what all components share: `Effect` is a handler as a tree of effects and `Run` runs
--                 it against an `Env`, which gives the answer to each request and each dialog from the
--                 log of all that went before; `Keeps` is the rule by which a handler keeps an
--                 invariant. `Machine` is how handlers interleave, as a step relation with what is
--                 reached by it. `Fetch` is `api` and `Upload` is `uploadSource` of
--                 frontend/src/lib/api.ts
-- Calls           the method, the address and the body of the calls of each request, by component
-- Page            frontend/src/app/page.tsx: `Home`; `Routing` adds the names and titles of
--                 frontend/src/components/shell.tsx, `View` what is rendered, `SideBar` the flag
--                 of `Shell`; `Commands` is what starts a handler
-- AppDetail       frontend/src/views/app-detail-view.tsx: `AppDetailView`
-- Files           the same file: `SourceTab`, the file manager; `Session` is what a user does in it,
--                 `Controls` what is enabled, `Trail` an abstract history
-- UploadDialog    the same file: `UploadModal`
-- Environment     the same file and frontend/src/views/apps-view.tsx: the form of the variables
-- AppsView        frontend/src/views/apps-view.tsx: `AppsView`, and `CreateAppModal` in `Creation`
-- Console         frontend/src/views/app-detail-view.tsx: `LogsTab`; `Overlaps` its controls
-- Overview        the same file: `OverviewTab`, the access to a database; `Visits` is coming to the tab
--                 and leaving it
-- Settings        the same file: `SettingsTab`
-- Domains         the same file: `DomainTab`
-- SignIn          frontend/src/components/auth-view.tsx: `AuthView`
-- Backups         frontend/src/views/operations-views.tsx: `BackupsView`, and its `Dialogs`
-- System          the same file: `SystemView`
-- Summaries       the same file: `DeploymentsView` and `DomainsView`; frontend/src/components/ui.tsx:
--                 `ProgressBar`
-- Dashboard       frontend/src/views/dashboard-view.tsx: the figures of `DashboardView`
-- CodeEditor      frontend/src/components/code-editor.tsx: the language of a path
-- Format          frontend/src/lib/format.ts: the units of amounts, spans and ages
-- Server          app/models.py and app/services/common.py in `Rows`; `Deploys` is `deploy_app` and the
--                 task of a deployment of app/routers/apps.py, with
--                 app/services/deployment_state_service.py in `Restart` and the rows that the client
--                 gets (app/routers/helpers.py); `Domains` is `set_domain` and `delete_domain` of
--                 app/routers/apps.py over `Proxy`, which is app/services/proxy_service.py; `Uploads`
--                 is `upload_source` of app/routers/apps.py, with `directory_stats` of
--                 app/services/file_service.py; `Retention` is `enforce_retention` of
--                 app/services/backup_service.py
-- Tests           the theorems at concrete inputs
--
-- A state of React is a record with a field for each `useState`. A handler takes the state of the
-- render that made it as an argument, since its closure reads that one, and sets the state of the
-- moment. An exception ends a handler up to the next `catch`; `finally` runs on both ways. An answer
-- of the server is any value of the type that the call names, or any error, for the client knows no
-- more of the server. A session of `Files` runs each handler to its end before the next one. In a
-- `Machine` a handler runs up to its next request, then others run, and an answer resumes it at any
-- later time; a handler is started by a control that is shown and not disabled, or by a timer or an
-- effect. A component lives from its appearance to its removal: to choose another tab of an application
-- removes the one that is shown with its flags, while its requests wait on. Sessions and machines are of
-- one such life, except in `Overview/Visits`, which has all lives of `OverviewTab`. A dialog that is asked twice with no request between has one answer there. What a component
-- hands to a child, or calls of its parent, is an event or a request and changes no state but its own.
--
-- A handler of the server takes its state, which is the database, the tasks in the background and the
-- files of nginx or of a source, and returns an answer or a refusal with the state that it leaves. A
-- request is one step, and so is what a task does between two commits: no other request comes in
-- between the check of a guard and the row that is added. What Docker, nginx, systemctl, certbot, the
-- reader of ZIP files and the operating system do is an argument, failures included; a moment is a
-- number of microseconds, and the time of a file one of steps of 2 ^ -82 of a second. Applications are not deleted, and ids of rows are not given twice. The
-- validation of a body by pydantic comes before a handler and is left out.
--
-- Parameters: `lower` is `toLowerCase`, and `str.lower` in the server, whose `loads` and `dumps` are
-- those of `json` on lists of texts and `iso` is `isoformat`, `collate` is `localeCompare`,
-- `parse_date` is `Date.parse`, `number` is `Number` where its result is finite, `stringify`
-- is `JSON.stringify`, `fetch` is the browser's, `to_string` is the conversion of a value to a text,
-- `printed` is the text of a message. A sort is stable, as in ECMAScript. Numbers are natural numbers
-- or fractions of them: the bytes of a file, ports and ids stay far below 2 ^ 53, where the numbers of
-- JavaScript are exact. The division of two numbers is their fraction. Messages are constructors, one
-- for each text of the source.
--
-- Fuel: only `decimal` has it, the digits of `n` with `n + 1` steps, since each step divides by ten.
--
-- Not modelled: what is pure markup, icons, styles and charts, with `ActivityView`, `StorageView`,
-- `PortsView` and `SettingsView` of frontend/src/views/operations-views.tsx; the labels, dates and
-- numerals that the browser prints; the editor CodeMirror; the rest of the server in Python, whose
-- answers are arbitrary for the client, and the scripts that install it.
pub mod Common
pub mod Types
pub mod Client
pub mod AppDetail
pub mod Files
pub mod Environment
pub mod UploadDialog
pub mod Page
pub mod AppsView
pub mod Console
pub mod Settings
pub mod Overview
pub mod Domains
pub mod SignIn
pub mod Format
pub mod Backups
pub mod System
pub mod Dashboard
pub mod Summaries
pub mod Calls
pub mod CodeEditor
pub mod Server
pub mod Tests
