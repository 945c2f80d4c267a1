-- ===== src/Lib.antt =====
-- A verification library for sslcertcheck, a scanner of TLS certificates and endpoints written in Go
-- (cmd/sslcertcheck, internal/checker, internal/gui).
--
-- A check takes the text of a target and options, finds the host and port, looks names up in the
-- DNS, connects, reports the certificates of the peer, verifies them, probes protocol versions and
-- cipher suites, sends one HTTP request, and derives findings, a score and a grade from what it has
-- seen. This library models them as functions:
--
--   Types      internal/checker/types.go: the options, the target and the report, field by field.
--   Target     internal/checker/parse.go: `ParseTarget`, `splitHostPortLoose`, `parsePort`.
--   Dns        internal/checker/dns.go: the query for CAA records (Dns.Query, Dns.Name), the parser
--              of the response (Dns.Response), the list of servers (Dns.Servers), the search from
--              a host upwards (Dns.Lookup) and `checkDNS` (Dns.Check).
--   Tls        internal/checker/tls.go: versions, names, `classifyCipher` and `shortError`, the
--              connections (Tls.Connect) and the probes (Tls.Probe).
--   X509       what the program reads of Go's crypto/x509.
--   Cert       internal/checker/cert.go: fingerprints (Cert.Hex), key usages and policies
--              (Cert.Usage), certificate timestamps (Cert.Sct), `CertificatesInfo` (Cert.Info).
--   Verify     internal/checker/verify.go: the roots (Verify.Roots), the warnings on the order of the
--              certificates and the verified chains (Verify.Chain), `verifyPeerCertificates`.
--   Check      internal/checker/check.go: `checkTLS`, `checkHTTP` (Check.Http) and `Check` (Check.Run).
--   Headers    internal/checker/http_headers.go.
--   Security   internal/checker/security.go: the findings by their subject (Security.Certificate,
--              Security.Protocol, Security.Endpoint), the score and the grade (Security.Score).
--   Render     internal/checker/render.go: `RenderText`, as its lines.
--   Kubernetes internal/checker/kubernetes.go: the presets, the kubeconfig (Kubernetes.Config), the
--              certificate files (Kubernetes.Scan), `CheckKubernetes` (Kubernetes.Run) and its text
--              (Kubernetes.Render).
--   Cli        cmd/sslcertcheck/main.go: the choice of the command, `runCheck` (Cli.Check),
--              `runKubernetes` (Cli.Kube), `runGUI` and `openBrowser` (Cli.Web), and `main` with the
--              exit status and the usage (Cli.Program).
--   Gui        internal/gui/server.go: the handlers of the web interface.
--   Strings    the functions of Go's strings, strconv and net that the code calls.
--   Base       names of the libraries, outcomes with errors and panics, integers, bytes.
--   Tests      runs on concrete inputs.
--
-- Correspondence. A Go name in camel case keeps its words in snake case (`parseCAAResponse` is
-- `parse_caa_response`). A string is the list of its bytes. A function that returns a value and an
-- error, or that indexes a slice, gives an `Outcome`: a value, the text of an error, or a panic. The
-- closure `add` of `AnalyzeSecurity` is modelled by the list of findings that each part adds.
--
-- Loops over a list are structural. The loop of `skipDNSName` runs on the length of the message and
-- one round more, that of `countSCTList` on the length of its input, the search of
-- `lookupCAAHierarchy` on the length of the name and one round more, and the loop over the blocks of
-- a certificate file on the length of the file. Each round takes a byte at least, and the theorems
-- about their safety show that the bound is never met, since running out is a panic in the model.
--
-- Parameters. `url.Parse` and `net.ParseIP` are the fields of `Syntax`; the signature check, the
-- hashes, the encoding of public keys and PEM are the fields of `X509`; the certificate pools, the
-- verifier and the reading of a file are those of `Verifier`. The network and crypto/tls are the
-- fields of `Network`, sockets and random bytes those of `Datagrams`, the lookups of addresses those
-- of `Resolver`: their operations pass on the state of the world, in the order of the calls. White
-- space and letter case are those of ASCII.
-- A span of time is divided exactly where Go divides floating point numbers.
--
-- The HTTP client is the fields of `HttpClient`, the file system those of `Files`, a snapshot that does
-- not change during a run, PEM and DER those of `Decoders`. All that `Check` calls is in one
-- `Environment` over one type of states of the world. The package flag is a function from the
-- defaults and the arguments to the flags, and JSON and the console are the fields of `Console` and
-- `Service`. The web server and the start of a program are the fields of `Host`: the server ends with
-- an error only, and takes the handler of the web interface.
--
-- Not modelled: the page of the web interface, which is a constant, and the cleaning of paths by the
-- multiplexer of net/http. The trace that Go prints of a panic is not among the writes of `main`.
pub mod Base
pub mod Strings
pub mod Types
pub mod Dns
pub mod Tls
pub mod Target
pub mod Headers
pub mod Security
pub mod X509
pub mod Cert
pub mod Verify
pub mod Check
pub mod Kubernetes
pub mod Render
pub mod Cli
pub mod Gui
pub mod Tests
