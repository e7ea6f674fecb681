-- ===== src/Lib.antt =====
-- RemoteLauncher's server: a phone that has paired with a PIN lists the applications of a Linux
-- desktop and starts them. This library models the server's logic and proves what makes it correct.
--
-- How the parts interact. A request to pair passes the rate limiter of server/internal/auth, then
-- the handler of server/internal/httpapi, which uses up the PIN session and puts a token into the
-- token store; the store writes its file. The scanner of server/internal/desktop finds the .desktop
-- files and parses them into entries; the launcher splits and expands the Exec line of an entry, or
-- builds a shell command for a shortcut, starts the process and registers its pid with the tracker.
-- The catalog keeps the scanned entries for the handlers. A request to launch passes the middleware
-- that checks its token, then the handler, which asks the shortcuts or the catalog and the launcher.
-- The shortcuts and the set of hidden ids are two more stores with files of their own. A request for
-- an icon asks the finder of server/internal/icons, which searches the theme of the configuration
-- and the themes it inherits from. The configuration is loaded by server/internal/config in front of
-- everything else, and the main program runs the servers until one fails or a signal arrives.
-- The routes tie the handlers together over one state: the TLS server has the API, the admin UI and
-- the terminal behind the tokens, the loopback server the admin UI alone. The main program loads the
-- configuration, the certificate and the stores into that state. A terminal is a shell whose output
-- and input two goroutines relay to and from a web socket.
--
-- Which file models what:
--   Desktop/Entry, Exec, Expand     server/internal/desktop/entry.go, exec.go (SplitExec, Expand)
--   Desktop/Lines, Text, Assign,    server/internal/desktop/parse.go (Parse, assignKey, parseBool,
--     Parse                         unescapeString, parseStringList)
--   Desktop/FileTree, Scan          server/internal/desktop/scanner.go (DefaultPaths, Scan, computeID)
--   Storage                         the file writes of the three stores: writeTokensFile of
--                                   server/internal/auth/store.go, writeAtomic of
--                                   server/internal/visibility/store.go and shortcuts/store.go
--   Auth/Pin, RateLimit, Store      server/internal/auth/pin.go, ratelimit.go, store.go and token.go,
--                                   and storeTokenIssuer of server/cmd/remotelauncher/main.go
--   Auth/Middleware                 server/internal/auth/middleware.go
--   Catalog                         server/internal/catalog/catalog.go
--   Httpapi/Response, Pair, Launch, server/internal/httpapi/json.go, pair.go, ratelimit.go, launch.go,
--     Apps, Icons                   apps.go and icons.go
--   Icons/ThemeIndex                server/internal/icons/theme_index.go (LoadThemeIndex)
--   Icons/Chain, Size, Pick, Finder server/internal/icons/finder.go (loadThemesOnce and
--                                   resolveThemeChain; sizeFromParts; pickCandidate; Find)
--   Config, Config/Fields, File,    server/internal/config: config.go and defaults.go, file.go,
--     Env, Flags, Validate, Load    env.go, flags.go, validate.go, load.go (Load)
--   Httpapi/Status, NotFound        server/internal/httpapi/status.go; the 404 of router.go
--                                   (notFoundInterceptor) with writeJSON of json.go
--   Routes/Mux                      net/http.ServeMux, as far as the routers use it
--   Routes/Tables, Site, Serve      the routes and what is behind them: NewRouter of
--                                   server/internal/httpapi/router.go, NewHandler of
--                                   server/internal/admin/admin.go and of server/internal/web/web.go,
--                                   NewWSHandler up to the upgrade, topMux of main.go
--   Terminal/Session, Relay         server/internal/terminal/session.go, handler.go
--   Tlsutil/Addresses, Cert,        server/internal/tlsutil/cert.go (collectIPs, EnsureCert,
--     Fingerprint                   generateAndWrite, writeFileWithPerm, Fingerprint)
--   Web                             server/internal/web: apps.go, visibility.go, shortcuts.go and the
--                                   PIN endpoints of web.go
--   Main                            server/cmd/remotelauncher/main.go, the end of run and
--                                   resolveCertDir; logging.go
--   Main/Prepare                    main.go, run up to the start of the servers
--   Launcher/Tracker, Shell, Launch server/internal/launcher/tracker.go, shortcuts.go, launcher.go
--   Visibility, Shortcuts           server/internal/visibility/store.go, shortcuts/store.go
-- Their child modules hold the proofs and are named for what they prove; the modules called Tests
-- hold runs at concrete inputs. Prelude has what all share: bytes and their trimming, association
-- lists for Go maps, results for errors, and sorting.
--
-- How the code is modelled:
--   * A string is a list of bytes. A Go map is an association list; nothing proved depends on the
--     place of a key in it.
--   * Each method of a type with a mutex is one step, and the calls of several clients are a sequence
--     of steps. Most methods hold the mutex throughout, and the sequence is the order in which it lets
--     them through. Add and Revoke of the tokens, SetHidden and Replace release it in front of the write
--     of the file. Auth/Store has the two parts of Add and Revoke apart, and Auth/Tests a run in which
--     the writes of two calls overtake each other; everywhere else, also for SetHidden and Replace, the
--     write is taken with the rest of its call, so that such overtaking is not modelled.
--   * A time is a natural number of nanoseconds, 0 the zero time, and is an argument of the call
--     that reads the clock. A negative budget or window does not occur: server/internal/config
--     refuses it.
--   * A file is seen through encoding/json: it holds a document, nothing, or bytes that do not
--     decode. What the operating system grants to a write is a record of Booleans, one for each
--     call that can fail, so that every error path is a value.
--   * Random numbers, SHA-256 (HashToken), exec.LookPath, the start of a process, kill(pid, 0),
--     os.Stat, filepath.Join, strings.ToLower and the %q of fmt are parameters, and no property
--     assumes anything of them.
--   * Every loop is structural recursion over what is left of its input, so that the function is
--     total, but for the search of the themes, which follows their inheritance and can meet a theme
--     again: it has fuel for two more rounds than there are themes, which is proved to be enough,
--     since each round but the last two visits a theme with an index for the first time.
--   * A line of 2 ^ 20 bytes or more ends a scan with an error, as bufio.Scanner does with that
--     buffer.
--   * What the configuration takes from libraries (the TOML decoder, flag.Parse, the parser of
--     durations, SplitHostPort, ParseIP) is in a record, World; no property assumes anything of it.
--   * In the main program the two servers and the signal are events, which leave the channels of the
--     select in a state; which case is taken among those that can be is left open.
--   * A loop of the code that carries an index carries it here too; the other accumulators are
--     those of the code.
--
--   * Requests to a server are a sequence, each with what it meets (the time, random bytes, the fate
--     of a file, the processes and files of the desktop). Two requests are taken one after the
--     other, also where their handlers would run at the same time.
--   * A path is the list of its decoded segments with a flag for whether it is clean; the tables of
--     ServeMux stand with the more specific patterns first.
--   * The crypto libraries (x509, pem, SHA-256) are parameters; what is assumed of them, that a
--     certificate loads with the key it was created for, is a named hypothesis of the one property
--     that needs it. The whole seconds of the status are a parameter too.
--   * The relay of the terminal is a step relation: the shell, the client, the two goroutines and the
--     handler step in any order. A chunk of output is what one read finds.
--
-- Not modelled: the text of the pages and scripts, the systemd unit and the Android client, which only
-- call libraries or hold assets; logging; the timeouts of the servers; what net/http, the web socket
-- library and the pseudo-terminal do below the calls that the code makes.
pub mod Prelude
pub mod Desktop
pub mod Storage
pub mod Auth
pub mod Launcher
pub mod Catalog
pub mod Visibility
pub mod Shortcuts
pub mod Icons
pub mod Config
pub mod Web
pub mod Terminal
pub mod Tlsutil
pub mod Routes
pub mod Main
pub mod Httpapi
