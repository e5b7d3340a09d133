-- ===== src/Errors/Log.antt =====
-- src/error/mod.rs: the texts of the kinds of errors, and the log file to which each error goes.
use hoopoe.Base.{
  ℕ, ℤ, pos, Text, codes, List, [], ◌∷◌, ◌++◌, Bool, Option, none, some, Outcome, done, ◌&&◌, panic,
  ◌>>=◌, unwrap, if◌then◌else◌, is_utf8, show_i64,
}
use hoopoe.Files.{Files, write_file, append_file}

pub data ErrorKind : Type 0 where
  workers : ℕ → ErrorKind
  file codec crypter server storage time actor request : ErrorKind

-- The `Display` that thiserror derives from the `#[error]` lines.
unfoldable pub display_kind : ErrorKind → Text
display_kind (workers n) =
    codes "Large Number of Workers " ++ (show_i64 (pos n) ++ codes ", Maximum Is 10")
display_kind file = codes "File Read/Write Error"
display_kind codec = codes "Serde Error"
display_kind crypter = codes "Themis Error"
display_kind server = codes "Actix HTTP or WS Server Error"
display_kind storage = codes "Redis, Kafka, RMQ or Seaorm Error"
display_kind time = codes "Chrono, Parse Error"
display_kind actor = codes "Api Reqwest Error"
display_kind request = codes "Actor Mailbox Error"

-- `Debug`, with the source's text if there is one. thiserror derives a source only from a field that
-- is marked or named so, and no variant has one.
unfoldable pub source_of : ErrorKind → Option Text
source_of kind = none

unfoldable pub debug_kind : ErrorKind → Text
unfolding display_kind source_of
debug_kind kind =
    display_kind kind
    ++ (codes "\n" ++ (elim (source_of kind) [
      | none ↦ []
      | some source ↦ codes "Caused by: \n\t" ++ (source ++ codes "\n")
    ]))

pub record ErrorInstance : Type 0 where
  pub code : ℕ
  pub msg : Text
  pub kind : ErrorKind
  pub method_name : Text

abbrev pub logs_folder : Text
logs_folder = codes "logs/error-kind"

abbrev pub log_path : Text
log_path = logs_folder ++ codes "/zerlog.log"

-- `error_log_content` at a time in milliseconds.
unfoldable pub log_content : ErrorInstance → Text → ℤ → Text
unfolding debug_kind
log_content e msg now =
    codes "code: "
    ++ (show_i64 (pos e.code)
        ++ (codes " | message: "
            ++ (msg
                ++ (codes " | due to: "
                    ++ (debug_kind e.kind
                        ++ (codes " | time: "
                            ++ (show_i64 now
                                ++ (codes " | method name: "
                                    ++ (e.method_name ++ codes "\n")))))))))

-- How the file system answers: whether the folder is there or can be made, whether the metadata can
-- be asked for, the clock, the texts of the local time and of the metadata's error, and whether a
-- file can be made under that time's folder.
pub record LogEnv : Type 0 where
  pub folder_ok : Bool
  pub metadata_ok : Bool
  pub now : ℤ
  pub local_time : Text
  pub metadata_error : Text
  pub other_ok : Bool

abbrev pub other_log_path : LogEnv → Text
other_log_path env =
    codes "[" ++ (env.local_time ++ (codes "]/" ++ (logs_folder ++ codes "-error0.log")))

-- The three cases of the metadata: appended, made new, or a note elsewhere.
unfoldable pub write_log : LogEnv → Text → Files → Outcome Files
write_log env content fs =
    if env.metadata_ok
    then (elim (fs log_path) [
      | some old ↦ done (append_file log_path old content fs)
      | none ↦ done (write_file log_path content fs)
    ])
    else if env.other_ok
    then done (write_file (other_log_path env) env.metadata_error fs)
    else panic

unfoldable pub wirte_async : LogEnv → ErrorInstance → Files → Outcome Files
unfolding write_log log_content
wirte_async env e fs =
    if env.folder_ok && is_utf8 e.msg then write_log env (log_content e e.msg env.now) fs else panic

-- One error after the other; a task whose log panics goes no further, the next one logs again.
unfoldable pub log_all : List (LogEnv × ErrorInstance) → Files → Files
log_all [] fs = fs
log_all ((env, e) ∷ rest) fs =
    log_all rest (elim (wirte_async env e fs) [ panic ↦ fs | done written ↦ written ])

-- `write_sync`, which reads the whole log as one JSON text first. `read_json` is serde_json's.
unfoldable pub write_sync : (Text → Option Text) → LogEnv → ErrorInstance → Files → Outcome Files
unfolding write_log log_content
write_sync read_json env e fs =
    if env.folder_ok
    then (do
      msg_content ← unwrap (read_json e.msg)
      loaded ← unwrap (fs log_path)
      decoded ← unwrap (read_json loaded)
      write_log env (log_content e msg_content env.now) fs)
    else panic
