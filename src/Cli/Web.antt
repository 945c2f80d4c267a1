-- ===== src/Cli/Web.antt =====
-- cmd/sslcertcheck/main.go: `runGUI` and `openBrowser`.
use ssl_certificate_verifier.Base.{
  Bool, true, false, if◌then◌else◌, List, [], ◌∷◌, ◌++◌, Text, codes, str_eq, Outcome,
}
use ssl_certificate_verifier.Base.Int.{pos}
use ssl_certificate_verifier.Types.{Duration, empty_options}
use ssl_certificate_verifier.Check.Run.{Environment}
use ssl_certificate_verifier.Gui.{Request, Response, Service, handler}
use ssl_certificate_verifier.Cli.{
  CommandResult, finished, stopped, failed, Parsed, help, bad, parsed, Console,
}

pub record WebFlags : Type 0 where
  pub listen : Text
  pub open_browser : Bool
  pub timeout : Duration

-- The values of the flags that are not given.
abbrev pub web_defaults : WebFlags
web_defaults = record {
  listen = codes "127.0.0.1:8088";
  open_browser = false;
  timeout = pos 10000000000;
}

-- The machine: the name of the system, a goroutine that sleeps and then starts a program, whose
-- error is dropped, the web server, which ends with an error only, and the stream of errors.
pub record Host (World : Type 0) : Type 0 where
  pub system : Text
  pub start_later : Duration → List Text → World → World
  pub listen_and_serve : Text → (Request → World → Outcome Response × World) → World → Text × World
  pub print_error : Text → World → World

-- The program that shows a page, and its arguments.
unfoldable pub browser_command : Text → Text → List Text
browser_command system url =
    if str_eq system (codes "windows")
    then codes "rundll32" ∷ codes "url.dll,FileProtocolHandler" ∷ url ∷ []
    else if str_eq system (codes "darwin")
    then codes "open" ∷ url ∷ []
    else if str_eq system (codes "android")
    then codes "am"
      ∷ codes "start"
      ∷ codes "-a"
      ∷ codes "android.intent.action.VIEW"
      ∷ codes "-d"
      ∷ url
      ∷ []
    else codes "xdg-open" ∷ url ∷ []

abbrev web_url : Text → Text
web_url listen = codes "http://" ++ (listen ++ codes "/")

abbrev served : {World : Type 0} → Text × World → CommandResult × World
served (e, w) = (stopped (failed e), w)

module _ {World Conn Socket Pool : Type 0} (env : Environment World Conn Socket Pool)
    (service : Service World) (console : Console World) (host : Host World) where
  -- A browser is started on a page only if that was asked for.
  abbrev open_page : Bool → Text → World → World
  open_page false url w = w
  open_page true url w = host.start_later (pos 300000000) (browser_command host.system url) w

  abbrev serve_pages : WebFlags → World → CommandResult × World
  serve_pages flags w =
      let url = web_url flags.listen in
      let shown =
        console.print (codes "SSL Certificate Verifier GUI listening on " ++ (url ++ (b'\n' ∷ [])))
          (open_page flags.open_browser url w) in
      served (
        host.listen_and_serve flags.listen
          (handler env service (record empty_options { timeout = flags.timeout })) shown)

  abbrev pub run_parsed : Parsed WebFlags → World → CommandResult × World
  run_parsed help w = (finished, w)
  run_parsed (bad e) w = (stopped (failed e), w)
  run_parsed (parsed flags args) w = serve_pages flags w

  unfoldable pub run_gui :
      (WebFlags → List Text → Parsed WebFlags) → List Text → World → CommandResult × World
  run_gui parse args w = run_parsed (parse web_defaults args) w
