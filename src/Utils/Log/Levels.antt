-- ===== src/Utils/Log/Levels.antt =====
-- Which messages src/utils/log.rs prints.
use codecrafters_bittorrent.Prelude.{
  ◌≡◌, refl, true, false, [], some, leb, ltb, arith, if◌then◌else◌, Bool-cases, inl, inr,
}
use codecrafters_bittorrent.Utils.RawBytes.{Text}
use codecrafters_bittorrent.Utils.Log.{
  LogLevel, debug, info, warning, error, as_u8, from_u8, GlobalLog, console_logger,
  set_global_log_level, log, formatted, should_log, current_global_level, global_handler, or_else,
}

-- A level goes through the byte that keeps it.
pub from_u8-as_u8 : (level : LogLevel) → from_u8 (as_u8 level) ≡ level
unfolding from_u8
from_u8-as_u8 debug = refl
from_u8-as_u8 info = refl
from_u8-as_u8 warning = refl
from_u8-as_u8 error = refl

-- Behind `set_global_log_level`, a message is handed to the handler that is set up, once and with its level, its
-- thread and its name in front, if its level is at least the one set, and to nobody otherwise; the level
-- stays set.
pub log-set_global_log_level :
    (cur_thread : Text) (least level : LogLevel) (name msg : Text) (g : GlobalLog)
    → let (g', lines) = log cur_thread level name msg (set_global_log_level least g) in
      (lines ≡ (
        if ltb (as_u8 level) (as_u8 least)
        then []
        else or_else console_logger g.global_log_handler level
            (formatted level cur_thread name msg)))
      × (g'.global_log_level ≡ some (as_u8 least))
unfolding log should_log current_global_level set_global_log_level global_handler
log-set_global_log_level cur_thread least level name msg g =
    elim (Bool-cases (ltb (as_u8 level) (as_u8 least))) [
      | inl b ↦
          let low : leb (as_u8 least) (as_u8 level) ≡ false = ground arith in
          rw (from_u8-as_u8 least, b, low) (refl, refl)
      | inr b ↦
          let high : leb (as_u8 least) (as_u8 level) ≡ true = ground arith in
          rw (from_u8-as_u8 least, b, high) (refl, refl)
    ]
