-- ===== src/Lib.antt =====
-- apitest: a model of the parts of the program that decide what a test reports, with the theorems
-- that make them correct.
--
-- The program (github.com/programmfabrik/apitest) reads manifests of test cases, sends each
-- case's request, and compares the response with the expected one. What is modelled:
--
-- - Json, Json/Number: the Go values that a decoded document is made of (pkg/lib/jsutil/json.go),
--   and json.Number.Int64. A Go map is an association list, and its order is the order in which the
--   runtime iterates: a theorem over every list holds for every iteration order.
-- - Host: what the program takes from elsewhere, as a parameter: float64 arithmetic and its text,
--   the regexp engine, and the JSON encoder of golib. A float64 is its bit pattern.
-- - Compare: pkg/lib/compare. Compare/Types has the records of comparer.go and
--   comparison_functions.go; Compare/Control is fillComparisonContext; Compare/Checks is keyChecks;
--   Compare/Arrays is arrayComparison with ArrayEqualWithControl; Compare/Objects is
--   objectComparison; Compare/Equal is JsonEqual. The recursion is on the expected document: its
--   parts come with the comparison of each part, so objectComparison and arrayComparison are plain
--   functions of those parts, and no fuel is needed. Messages are constructors with the values that
--   the source formats into texts. A result that stands beside an error is dropped, as every caller
--   drops it.
-- - Case: api_testcase.go, runAPITestCase down to the comparison. Case has the parameters: what a
--   poll meets outside (the manifests, the server, the clock) is an Attempt, and package api and the
--   template loader are the record Api. Case/Run is the run, which goes through a list of attempts,
--   one for each round of the loop; a list that ends before the loop does leaves it waiting.
--   Case/Once, Case/Polling, Case/Reverse and Case/Success have its laws. Sleeping, console
--   messages and the case whose datastore is nil are left out. That logReq and logResp save a text to
--   the report's log is an entry without the text; what logBody makes of it is in Case/Loading.
-- - Suite: the goroutines of parseAndRunTest and testGoroutine in api_testsuite.go, as threads of a
--   step relation. Suite/Invariant is about the counter of the successes, Suite/Progress about the
--   end of the wait. A file of tests is taken as its number of cases, each of which may fail.
-- - PathSpec: pkg/lib/util/path_util.go, the references to files; PathSpec/Parsing has its laws.
-- - Suite/Nested: the rest of api_testsuite.go: the loop over the tests of a suite and the recursion
--   through the files that test cases refer to, with LoadManifestDataAsRawJson of
--   pkg/lib/template/util.go. What it calls is the record Calls. The fuel is the depth of the
--   references. The runs of a file stand one after the other there: interleavings of runs are in
--   Suite alone, where a run is taken as its number of cases.
-- - Datastore: pkg/lib/datastore/datastore.go. Datastore/Storing has the laws of Set, Get and
--   SetWithGjson; Datastore/Responses those of the response list. gjson is a parameter.
-- - Report: pkg/lib/report/report.go, the tree that the cases leave their results and their log in.
--   Report/Totals is about the counts, Report/Logs about the log. Counts are numbers without an
--   upper bound; the times, the locks and the encoders of the written report are left out.
--   Report/Stats is the statistics of parsing_functions.go and its count of digits, for which the
--   number itself is enough fuel.
-- - ProxyStore: internal/httpproxy/store.go and proxy.go, the requests that a test's HTTP server
--   collects. ProxyStore/Reads and ProxyStore/Writes have its laws for one handler at a time:
--   the source takes no lock, and handlers at the same time, which can lose an entry, are left out.
-- - Csv: pkg/lib/csv/csv.go. Csv has the header and the removal of empty rows, Csv/Cells is
--   getTyped, and Csv/Readers has CSVToMap and GenericCSVToMap; the reader of encoding/csv and the
--   JSON parser are parameters. Csv/Formats compares the formats of the header with those of the
--   cells, Csv/Tables is about the rows.
-- - Smtp: internal/smtp, the mail server of a test. Smtp has the tree of contents (message.go);
--   Smtp/Message the parser, with its errors and panics, on fuel; Smtp/Server the list of messages
--   and the sessions (server.go); Smtp/Search the search by header (search.go); Smtp/Routes what a
--   path is answered with, Smtp/Metadata the JSON documents Smtp/Posts the handler of a posted
--   message, and Smtp/Handler the two together (http.go). The readers of net/mail and mime are the
--   parameter Mime. A number of nested calls above the size of the body is enough fuel for the
--   parser, since a part is shorter than the content that it is in.
-- - Api/Request: buildHttpRequest of pkg/lib/api/request.go, and GetStringFromInterface of
--   pkg/lib/util/util.go. Api/Request/Query is about the query and Api/Request/Fields about the
--   header; Api/Request/Cookies has the cookies. The store is the function that reads it.
-- - Api/Response: pkg/lib/api/response.go, from the parts of a response, or of an expected one, to
--   the document that is compared. Api/Response/Sorting is about the headers, Api/Response/Bodies
--   about the body.
-- - Template: pkg/lib/template/template_funcs.go. Template/Arithmetic has add, subtract, multiply,
--   divide and n, where an int64 wraps around and the arithmetic of float64 is the parameter Floats;
--   Template/Rows has rowsToMap and pivotRows.
-- - Html, Conversions: pkg/lib/util/util.go, a page, XML and a spreadsheet as JSON. Html/Keys is about
--   the keys of a tag, Conversions/Sheets about the index of a sheet.
-- - HttpServer: http_server.go, the handlers that a suite's server has of its own. HttpServer/Running
--   is starting and stopping it, HttpServer/Bounces is about headers and cookies, and
--   HttpServer/Answers about the status.
-- - Main: main.go and config.go, from the directories to the exit code. Main/Directories is about the
--   walk, Main/Exits about the exit code.
-- - Template/Groups, Template/Functions: pkg/lib/template/template_loader.go, the functions of the
--   templates that group rows or have a computation of their own.
-- - Case/Loading: api_testcase.go, the request and the expected response of a case, and the comparison
--   of two responses. Case/Loading/Verdicts is about both.
-- - Api/Policies, Api/PreProcess: pkg/lib/api/build_policies.go and pre_process.go.
-- - Oauth: pkg/lib/util/oauth.go, with Oauth/Params about the parameters of a flow.
-- - Suite/Loading: api_testsuite.go, newTestSuite and loadManifest.
-- - Case/Instance: the interface that Case/Run calls, filled with Case/Loading and with it the
--   comparison of Compare, and the polls of executeRequest, which load the request and the expected
--   response of the case; break and collect responses are loaded with one loader for a whole run.
--   Case/Instance/Documents is about the documents of a case that passes.
-- - Api/Formats: the interface that Api/Response takes, filled with Conversions, Html, Csv and
--   Api/PreProcess.
-- - Report/Junit: pkg/lib/report/parsing_functions.go, the JUnit report up to its encoding.
--
-- The proofs stand below the module that they are about, and Tests has the definitions and the
-- theorems at concrete inputs.
--
-- Not modelled: sending requests and reading files, what text/template, sprig and SQL do in a
-- template, the parsers of XML, HTML and spreadsheets, the pages of the mail server, flags, console
-- logging and profiles: glue around the network, the file system and third-party packages. Handlers
-- and runs of test cases at the same time are modelled only as far as Suite goes.
pub mod Base
pub mod Json
pub mod Host
pub mod Compare
pub mod Api
pub mod Case
pub mod Conversions
pub mod Csv
pub mod Datastore
pub mod Html
pub mod HttpServer
pub mod Main
pub mod Oauth
pub mod PathSpec
pub mod ProxyStore
pub mod Report
pub mod Smtp
pub mod Suite
pub mod Template
pub mod Tests
