-- ===== src/Lib.antt =====
-- A model of the language server's core: the issues of a workspace from the scanner's delivery to
-- what the client is told. The Go code stands under domain/, application/, infrastructure/ and
-- internal/; every path below counts from the repository's root.
--
-- How the parts interact. A workspace (Workspace) holds folders. A folder (Folder) hands its path to
-- the scanner, which delivers its results by calls of `processResults`; these update the folder's
-- cache of issues by file, count severities for the analytics, filter the cache by the settings
-- (Config) and publish it: diagnostics (Converter), hovers (Hover) and scan messages (ScanNotifier).
-- The trust dialog decides which folders a workspace scan may touch. What a folder calls its scanner
-- is the delegating scanner (Scanner), which runs the product scanners side by side. The client's
-- settings (Settings) change the configuration, the token and the environment, and clear the issues
-- of products that they switch off. The code actions (CodeActions) are those of the workspace's
-- issues. Of the product scanners, the one of the code (CodeScan, CodeBundle) uploads the files in
-- batches and retrieves an analysis; the one of the dependencies (OssScan) runs the tool and cancels
-- a former run on the same folder; its issues name lessons (Learn).
--
-- Files and sources:
--   Prelude          Go strings as lists of bytes, Go maps as association lists, decimal printing,
--                    Boolean tests on natural numbers, predicates on lists
--   Externals        the code outside the repository, as a record of parameters: URIs, the print of
--                    a float64, the check for a directory, the hash of a file
--   Vulnmap/Range    domain/vulnmap/range.go: Position, Range, Contains, Overlaps
--   Vulnmap/Product  internal/product/product.go
--   Vulnmap/Issue    domain/vulnmap/issues.go, codeaction.go, command.go and edit.go
--   Lsp              internal/lsp/message_types.go: the messages that are sent
--   Config           application/config/config.go and internal/lsp/severity_filter.go
--   Uri              internal/uri/uri_util.go: FolderContains, over filepath.Clean
--   Converter        domain/ide/converter/converter.go
--   ScanNotifier     application/server/notification/scan_notifier.go
--   Hover            domain/ide/hover/model.go and service.go
--   Folder           domain/ide/workspace/folder.go, with Results (processResults), Publish
--                    (FilterIssues and what is sent), Scan (ScanFolder, ScanFile) and Clear
--   Workspace        domain/ide/workspace/workspace.go and workspace_trust.go,
--                    domain/ide/command/trust.go and trust_workspace_folders.go
--   VulnerabilityCount
--                    infrastructure/oss/vulnerability_count.go and inline_value.go
--   CodeScan         infrastructure/code/code.go: Scan and waitForScanToFinish, as a step relation on
--                    any number of concurrent calls, one step for each critical section
--   Scanner          domain/vulnmap/scanner.go: Scan as a step relation, a step for each load, store and
--                    message of a goroutine (Goroutines), and GetInlineValues
--   PathEncoding     infrastructure/code/path.go, over url.PathEscape, path.Join and filepath.Rel
--   FileWatcher      application/watcher/file_watcher.go
--   CodeActions      application/codeaction/codeaction.go: GetCodeActions and ResolveCodeAction
--   Progress         internal/progress/progress.go: the tracker, with the times and UUIDs of its calls
--                    as arguments; percentages are natural numbers
--   Settings         application/server/configuration.go with the setters of
--                    application/config/config.go, and domain/vulnmap/auth_service_impl.go: Token,
--                    Update (one function for each setting), Apply (the handlers). A handler takes
--                    the state of the process and returns the new state and its effects in order
--   UploadBatch      infrastructure/code/upload_batch.go and groupInBatches of bundle_uploader.go
--   CodeLens         domain/ide/codelens/codelens.go
--   Learn            infrastructure/learn/service.go: the caches of lessons, the filters, and Lookup
--                    (GetLesson), which shows what the pointer into the cache's slice changes
--   OssScan          infrastructure/oss/cli_scanner.go and internal/scans/scan_progress.go: Lifecycle
--                    has Scan as a step relation on any number of concurrent calls
--   CodeBundle       infrastructure/code/bundle.go, bundle_uploader.go and code.go: the uploads of a
--                    bundle; Creation (createBundle, isSupported), Actions (addIssueActions), Analysis
--                    (retrieveAnalysis) and Scan (UploadAndAnalyze). The backend, the clock, the
--                    context and the file system are an interface over a state that the calls change
-- Proofs stand in the other modules below these, each named for what it proves (Folder/Removal,
-- CodeScan/Exclusion); runs and instances of the theorems stand in the modules Tests.
--
-- How the code is read. A method that changes its receiver returns the new state together with the
-- list of effects (messages sent, hovers published, analytics posted) in the order in which the code
-- has them. What a folder's operations do is first stated for one call of `processResults` after
-- another; the goroutines of a scan call it without a lock, and Scanner has their loads, stores and
-- messages as steps of their own. A Go map is a list of pairs, and the order of the list is the
-- order in which the map is ranged over. Lines, characters and counters are natural numbers: they
-- stay far below the bound of Go's int, and none is subtracted from. Every function is total and
-- recursive on its data, but the two loops that ask the code analysis' backend, which run on fuel:
-- for a backend that keeps count of the files that it misses, two rounds of uploads are enough, and
-- for a clock that a pause of a second advances by a second, as many polls as the timeout has
-- seconds and one more. While the files of a bundle are collected the surroundings are taken to
-- stand still.
--
-- Not modelled: locks and contexts outside CodeScan, OssScan and Scanner, logging, the JSON-RPC
-- transport, the command line tool and its download, the browser flows of the authentication
-- providers, the Code API's wire format, telemetry clients, generated code and test data.
pub mod Prelude
pub mod Vulnmap
pub mod Externals
pub mod Lsp
pub mod Config
pub mod Hover
pub mod Converter
pub mod ScanNotifier
pub mod Uri
pub mod Folder
pub mod Workspace
pub mod CodeScan
pub mod PathEncoding
pub mod FileWatcher
pub mod CodeActions
pub mod Progress
pub mod Scanner
pub mod Settings
pub mod VulnerabilityCount
pub mod UploadBatch
pub mod CodeBundle
pub mod OssScan
pub mod Learn
pub mod CodeLens
