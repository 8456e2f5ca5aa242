-- ===== src/Tests/Logging.antt =====
-- The logger on concrete inputs.
use cc_be_chat_test.Common.{
  some, inl, ◌++◌, ◌≡◌, ◌≤◌, ◌+◌, ◌/◌, refl, inr, [], ◌∷◌, arith, true, false,
}
use cc_be_chat_test.Log.{initial, emit}
use cc_be_chat_test.Log.State.{String, System, Log, append_to}
use cc_be_chat_test.Log.Files.{
  write_to_file, check_file, replace_file, new_file, write_string, sync_log_file,
}
use cc_be_chat_test.Log.Extended.{IsExtended}
use cc_be_chat_test.Log.Kept.{Use, Use-IsExtended}
use cc_be_chat_test.Log.Written.{IsAble, IsOpen, write_to_file-IsOpen, write_to_file-bounded}
use cc_be_chat_test.Log.Buffered.Lines.{all_of, sync_log_file-write_lines}
use cc_be_chat_test.Log.Lost.{write_lines, file_lost}

-- A day is ten seconds; its text is the number of the day behind a letter.
abbrev sys : System
sys = record {
  format = λ now format. (65 + now / 10) ∷ [];
  mkdir = λ dir. true;
  opens = λ path. true;
  sprintf = λ args. args;
  printf = λ s. s;
}

abbrev shut : System
shut = record sys { opens = λ path. false }

abbrev start : Log
start = record (initial 0 (λ path. [])) { maxfilesize = 5 }

abbrev unlimited : Log
unlimited = initial 0 (λ path. [])

sys-IsAble : IsAble sys
sys-IsAble = record { mkdirs = λ dir. refl; opens = λ path. refl }

abbrev hello : String
hello = 72 ∷ 73 ∷ 10 ∷ []

write_to_file-IsOpen_example :
    IsOpen (write_to_file sys start 3 hello)
    × ((path : String)
        → (write_to_file sys start 3 hello).files path
          ≡ append_to start.files (write_to_file sys start 3 hello).logfilename hello path)
write_to_file-IsOpen_example = write_to_file-IsOpen sys sys-IsAble start 3 hello refl (inr refl)

write_to_file-bounded_example : (write_to_file sys start 3 hello).logfilesize ≤ 5
write_to_file-bounded_example =
    write_to_file-bounded sys sys-IsAble start 3 hello refl (inr refl) (omega arith) (omega arith)

file_lost_example :
    (write_lines sys (write_to_file shut unlimited 3 hello) ((5, hello) ∷ (9, hello) ∷ [])).files
    ≡ unlimited.files
file_lost_example =
    file_lost shut unlimited 3 hello ((5, hello) ∷ (9, hello) ∷ []) refl refl refl (λ dir. refl)
      (λ path. refl) (refl, (refl, tt))

Use-IsExtended_example : IsExtended start (emit sys (emit sys start 2 3 hello) 2 13 hello)
Use-IsExtended_example =
    Use-IsExtended sys start (emit sys (emit sys start 2 3 hello) 2 13 hello)
      (Use.line (Use.line Use.start 2 3 hello) 2 13 hello)

-- The second line of a day does not fit, and goes to the file of the number 1: ./logs/A.log.0001
second_file :
    (write_to_file sys (write_to_file sys start 3 hello) 4 hello).files (
      46 ∷ 47 ∷ 108 ∷ 111 ∷ 103 ∷ 115 ∷ 47 ∷ 65 ∷ 46 ∷ 108 ∷ 111 ∷ 103 ∷ 46 ∷ 48 ∷ 48 ∷ 48 ∷ 49
      ∷ [])
    ≡ hello
unfolding write_to_file check_file replace_file new_file write_string sync_log_file
second_file = refl

-- ./logs/A.log
abbrev daily : String
daily = 46 ∷ 47 ∷ 108 ∷ 111 ∷ 103 ∷ 115 ∷ 47 ∷ 65 ∷ 46 ∷ 108 ∷ 111 ∷ 103 ∷ []

abbrev buffering : Log
buffering = record unlimited {
  enablebufio = true;
  logfile = some daily;
  logfilename = daily;
  filewriter = some (record { pending = 1 ∷ []; failed = false });
}

sync_log_file-write_lines_example :
    (sync_log_file (write_lines sys buffering ((3, hello) ∷ (5, hello) ∷ []))).files daily
    ≡ append_to buffering.files daily ((1 ∷ []) ++ all_of ((3, hello) ∷ (5, hello) ∷ [])) daily
sync_log_file-write_lines_example =
    sync_log_file-write_lines sys (λ dir. refl) daily ((3, hello) ∷ (5, hello) ∷ []) (1 ∷ [])
      buffering (record { buffered = refl; open_file = refl; writer = refl }) (refl, (refl, tt))
      (inl refl) daily
