-- ===== src/Utils/Log.antt =====
-- src/utils/log.rs: the global level and the global handler, which are set up when they are first used.
-- A line is what a handler prints; the id of the current thread is an argument.
pub mod Levels
use codecrafters_bittorrent.Prelude.{
  ℕ, ◌+◌, Bool, true, false, not, List, [], ◌∷◌, ◌++◌, Option, none, some, leb, ◌==◌, if◌then◌else◌,
}
use codecrafters_bittorrent.Utils.RawBytes.{Text}
use codecrafters_bittorrent.Peer.Message.{codes}

pub data LogLevel : Type 0 where
  debug info warning error : LogLevel

abbrev pub as_u8 : LogLevel → ℕ
as_u8 debug = 0
as_u8 info = 1
as_u8 warning = 2
as_u8 error = 3

unfoldable pub as_str : LogLevel → Text
as_str debug = codes "DEBUG"
as_str info = codes "INFO"
as_str warning = codes "WARN"
as_str error = codes "ERROR"

unfoldable pub from_u8 : ℕ → LogLevel
from_u8 val =
    if val == 0 then debug else if val == 1 then info else if val == 2 then warning else error

pub data Line : Type 0 where
  stdout stderr : Text → Line

abbrev pub LogHandler : Type 0
LogHandler = LogLevel → Text → List Line

-- `none` is a cell that is not set up.
pub record GlobalLog : Type 0 where
  pub global_log_level : Option ℕ
  pub global_log_handler : Option LogHandler

unfoldable pub console_logger : LogHandler
console_logger error msg = stderr msg ∷ []
console_logger debug msg = stdout msg ∷ []
console_logger info msg = stdout msg ∷ []
console_logger warning msg = stdout msg ∷ []

abbrev pub or_else {ℓ} : {A : Type ℓ} → A → Option A → A
or_else a none = a
or_else a (some b) = b

unfoldable pub current_global_level : GlobalLog → GlobalLog × LogLevel
unfolding from_u8
current_global_level g =
    let stored = or_else (as_u8 info) g.global_log_level in
    (record g { global_log_level = some stored }, from_u8 stored)

-- `>=` of the derived order.
unfoldable pub should_log : LogLevel → GlobalLog → GlobalLog × Bool
unfolding current_global_level
should_log level g =
    let (g', current) = current_global_level g in (g', leb (as_u8 current) (as_u8 level))

unfoldable pub set_global_log_level : LogLevel → GlobalLog → GlobalLog
set_global_log_level level g = record g { global_log_level = some (as_u8 level) }

unfoldable pub global_handler : GlobalLog → GlobalLog × LogHandler
unfolding console_logger
global_handler g =
    let handler = or_else console_logger g.global_log_handler in
    (record g { global_log_handler = some handler }, handler)

unfoldable pub set_global_log_handler : LogHandler → GlobalLog → GlobalLog
set_global_log_handler handler g = record g { global_log_handler = some handler }

unfoldable pub formatted : LogLevel → Text → Text → Text → Text
unfolding as_str
formatted level cur_thread name msg =
    codes "["
    ++ (as_str level
        ++ (codes "] [" ++ (cur_thread ++ (codes "] [" ++ (name ++ (codes "] " ++ msg))))))

abbrev pub handle : LogLevel → Text → GlobalLog × LogHandler → GlobalLog × List Line
handle level msg (g, handler) = (g, handler level msg)

abbrev pub log_if : Bool → LogLevel → Text → GlobalLog → GlobalLog × List Line
log_if true level msg g = handle level msg (global_handler g)
log_if false level msg g = (g, [])

unfoldable pub log : Text → LogLevel → Text → Text → GlobalLog → GlobalLog × List Line
unfolding should_log global_handler formatted
log cur_thread level name msg g =
    let (g', logs) = should_log level g in
    log_if logs level (formatted level cur_thread name msg) g'

-- The four functions and macros.
unfoldable pub log_debug : Text → Text → Text → GlobalLog → GlobalLog × List Line
unfolding log
log_debug cur_thread = log cur_thread debug

unfoldable pub log_info : Text → Text → Text → GlobalLog → GlobalLog × List Line
unfolding log
log_info cur_thread = log cur_thread info

unfoldable pub log_warn : Text → Text → Text → GlobalLog → GlobalLog × List Line
unfolding log
log_warn cur_thread = log cur_thread warning

unfoldable pub log_error : Text → Text → Text → GlobalLog → GlobalLog × List Line
unfolding log
log_error cur_thread = log cur_thread error
