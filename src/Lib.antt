-- ===== src/Lib.antt =====
-- Pier S3 Gateway: its web client (web/src), a React application that lists the buckets and objects behind
-- the gateway, previews and uploads them, and the parts of the server (internal) that decide what a user may do and
-- what is sent. The models are functions on plain states; what the browser, React, axios, the OIDC library, the
-- Go SDK of the storage backend and a server other than those parts do is an argument or an event.
--
-- The parts, and where they are modelled:
-- - Prelude: the shared types and lemmas. A JavaScript string is the list of its UTF-16 code units.
-- - Csv: `parseCsv` of web/src/components/csv.ts. One round of its loop is `classify` and `act`, and `scan` is
--   the loop, by recursion on the text. Csv/Rows reads a text with no caps, and Csv/Print writes one.
-- - Preview/Kind: web/src/components/previewKind.ts. `EXT_KIND[ext]` also finds what every object inherits. The
--   engine's `toLowerCase` is a parameter of which the values on ASCII are known.
-- - Preview/Lifecycle: the effect of web/src/components/FilePreview.tsx. Its run waits for the blob and for its
--   text; the object URLs that exist are part of the state. Preview/Body: `renderBody`, which shows the CSV
--   table and the elements that load an object URL. Preview/Table: `renderCsv` and `renderJson`. Preview/Window:
--   the window around the body.
-- - Client: web/src/api/client.ts, with `encodeURIComponent` as the language defines it in Client/Uri and the
--   paths in Client/Paths, of which Paths/Clean says which the router of the server redirects, and the downloads in
--   Client/Download. Client/Uri/Decode is the decoder it is compared
--   with.
-- - Store: web/src/store/browser.ts and web/src/store/buckets.ts. An action is split at its request: a function
--   up to it, and one for the answer. Store/Browser/Session and Store/Buckets/Workers have the steps of the
--   requests in flight, and Store/Buckets/Drain those of one call; the stores use `errorMessage` of Client.
--   Store/Browser/Refinement is the abstract view of the browser store: a cursor over the pages of a server.
-- - Auth: web/src/auth/AuthProvider.tsx. The answers of `/me` come in any order. Auth/Routes: web/src/App.tsx
--   with web/src/pages/Login.tsx and Callback.tsx, which read the provider's two flags. Auth/Manager: the
--   settings of the OIDC library and the calls of it. Auth/Expiry joins them with the interceptor of Client.
-- - Theme: web/src/theme/types.ts, storage.ts, presets.ts and ThemeProvider.tsx. The engine's JSON is a
--   parameter of which it is known that a selection that is written parses back. Theme/Tokens: tokens.ts, with
--   the component library's `getDesignToken` as a parameter that keeps the tokens it is given;
--   Theme/Tokens/Root: `applyCssVars`; Theme/Switcher: ThemeSwitcher.tsx; Theme/Context: what components read of
--   it, as Auth/Context for Auth.
-- - I18n: the bundles of web/src/i18n, a file each, and their registry.
-- - View: what the components and pages compute. Bytes is `formatBytes`, Crumbs Breadcrumb.tsx, Rows the rows
--   and columns of ObjectBrowser.tsx, Rows/Cells its cells and the events on a row, Objects its panels, actions
--   and deletion, Uploads UploadZone.tsx, Messages the message of a failed upload or deletion, Meta
--   ObjectMeta.tsx, Cards BucketList.tsx with its grid in Cards/Grid, Sider siderWidth.ts with the drag of
--   AppShell.tsx, Shell the menu of AppShell.tsx and Shell/Frame what is around it, Pages
--   web/src/pages/Browser.tsx and Buckets.tsx, which join the stores with the components: Pages/Visit and
--   Pages/Overview are a visit of the one and of the other. Downloads is what both the list and the preview do
--   to save a file. View/Objects/Screen joins the panels with the preview that they mount. Pages/Served joins
--   the page of a bucket with the list of buckets that the server answers with.
-- - Server: a Go string is the list of its bytes. Server/Acl: internal/acl/resolver.go, with Acl/Admin for
--   `IsAdminOperation`. Server/Listing: `HandleListBuckets` of internal/webui/api.go; Server/Objects: the
--   handlers of objects there, up to their call of the backend, and Objects/Answers from its answer on.
--   Server/Content: internal/webui/content_security.go, on the UTF-8 of Server/Utf8. Server/RateLimit:
--   internal/webui/ratelimit.go; Ideal is the bucket that it is compared with. Server/Proxy: s3handler.go and
--   rewrite.go of internal/proxy, the port for S3 clients, with `Forward` of passthrough.go in Proxy/Forward. Server/Session: the middleware of
--   internal/webui/auth.go; Server/Stats: the walk of internal/webui/stats.go. Server/Replies and Server/Strings
--   are what the handlers share. `url.Parse`, `net.SplitHostPort`, `strings.ToLower` outside ASCII and the check
--   of a token are parameters.
-- - Tests: runs on inputs of the unit tests, and the theorems at concrete inputs.
--
-- Bounds: no definition runs on fuel, but `follow` of Auth/Routes, which counts redirects, and `scale`
-- of View/Bytes, which counts the four units above the first, and `walk` of Server/Stats, which counts
-- the fifty pages that the code reads. Sizes and counts are natural numbers; the pixel positions of a
-- drag are exact binary fractions. The percentage of a quota is computed in double precision, `exponent` of View/Cards
-- on 106 doublings, as many as sizes below 2 ^ 53 can need. The rate limiter counts in parts of a token, of
-- which a minute's rate gives a whole number, in place of its float64: the rounding of the float64, by which the code
-- may refuse a request a moment longer, is left out.
--
-- Not modelled: of the server, the start and configuration (cmd, internal/config), the exchange with the identity
-- provider and the check of tokens (internal/auth, internal/webui/oidc_handlers.go), the cache of the statistics
-- (internal/webui/stats.go), the embedded files, and the work of the library's reverse proxy and signer; the built
-- client that it embeds (internal/webui/static); the drawing of elements and styles, the rendering of Markdown, i18next's
-- lookup of a text, and the load test under tests/load.
pub mod Prelude
pub mod Csv
pub mod Preview
pub mod Client
pub mod Auth
pub mod Theme
pub mod I18n
pub mod Store
pub mod Server
pub mod View
pub mod Tests
