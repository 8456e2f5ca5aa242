-- ===== src/Log/Setters.antt =====
-- The calls of log/log.go that change a setting.
use Prim.Native.Nat.{bit_and}
use cc_be_chat_test.Common.{
  ℕ, Bool, true, false, ◌||◌, Option, [], ◌∷◌, ◌++◌, leb, ◌==◌, if◌then◌else◌, Outcome, ok, panic,
}
use cc_be_chat_test.Log.{log_file}
use cc_be_chat_test.Log.State.{String, System, Log}
use cc_be_chat_test.Log.Files.{init_log_dir_and_file, sync_log_file}

-- Whether a text ends in a slash of either kind.
abbrev pub ends_slash : String → Bool
ends_slash [] = false
ends_slash (c ∷ []) = (c == 47) || (c == 92)
ends_slash (c ∷ d ∷ text) = ends_slash (d ∷ text)

abbrev pub with_slash : String → String
with_slash dir = if ends_slash dir then dir else dir ++ (47 ∷ [])

unfoldable pub set_log_dir : Log → String → Bool → Bool → Log
set_log_dir log dir newdir subdir = record log {
  logdir = with_slash dir;
  enablenewdir = newdir;
  enable_subdir = subdir;
}

unfoldable pub set_formater : Log → Option (String → String) → Log
set_formater log f = record log { formater = f }

unfoldable pub set_output : Log → Bool → Log
set_output log o = record log { has_output = o }

-- A level above LOG_LEVEL_NONE panics; so does one below 0, which no number here is.
unfoldable pub set_log_level : Log → ℕ → Outcome (Unit {0}) Log
set_log_level log level = if leb level 4 then ok (record log { loglevel = level }) else panic

-- 0 stands for every size that is not above 0.
unfoldable pub set_max_log_file_size : Log → ℕ → Log
set_max_log_file_size log size = record log { maxfilesize = size }

abbrev pub init_if_file : System → Log → ℕ → Log
init_if_file sys log t =
    if bit_and t log_file == log_file then init_log_dir_and_file sys log else log

unfoldable pub set_debug_log_type : System → Log → ℕ → Log
set_debug_log_type sys log t = init_if_file sys (record log { logdebugtype = t }) t

unfoldable pub set_info_log_type : System → Log → ℕ → Log
set_info_log_type sys log t = init_if_file sys (record log { loginfotype = t }) t

unfoldable pub set_warn_log_type : System → Log → ℕ → Log
set_warn_log_type sys log t = init_if_file sys (record log { logwarntype = t }) t

unfoldable pub set_error_log_type : System → Log → ℕ → Log
set_error_log_type sys log t = init_if_file sys (record log { logerrortype = t }) t

unfoldable pub set_log_type : System → Log → ℕ → Log
set_log_type sys log t =
    let set = record log { logdebugtype = t; loginfotype = t; logwarntype = t; logerrortype = t } in
    init_if_file sys set t

unfoldable pub set_log_time_format : Log → String → Log
set_log_time_format log format = record log { log_str_format = format }

unfoldable pub set_sub_dir_format : Log → String → Log
set_sub_dir_format log format = record log { log_subdir_name_format = with_slash format }

unfoldable pub set_log_filename_time_format : Log → String → Log
set_log_filename_time_format log format = record log { log_file_name_format = format }

unfoldable pub set_log_file_suffix : Log → String → Log
set_log_file_suffix log sufix = record log { log_sufix = sufix }

unfoldable pub enable_bufio : Log → Log
enable_bufio log = record log { enablebufio = true }

-- The source sets the flag here too.
unfoldable pub disable_bufio : Log → Log
disable_bufio log = record log { enablebufio = true }

unfoldable pub set_save_each : Log → Log
set_save_each log = record log { save_each = true }

unfoldable pub save : Log → Log
save log = sync_log_file log
