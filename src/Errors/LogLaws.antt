-- ===== src/Errors/LogLaws.antt =====
-- What the log file of src/error/mod.rs holds.
use mathlib.Core.List.{append_assoc, append-nil}
use hoopoe.Base.{
  Text, List, [], ◌∷◌, ◌++◌, true, Option, none, some, done, panic, if◌then◌else◌, is_utf8, ◌≡◌,
  ◌≢◌, arith, sym, ◌∙◌, text_eq_refl, inl, inr, Option-cases, ◌&&◌,
}
use hoopoe.Files.{Files}
use hoopoe.Errors.Log.{
  ErrorInstance, LogEnv, log_path, log_content, write_log, wirte_async, log_all, write_sync,
}

-- The content of the log, empty if there is none.
abbrev pub logged : Files → Text
logged fs = elim (fs log_path) [ none ↦ [] | some text ↦ text ]

-- The text of an error that can be logged.
abbrev pub entry : LogEnv → ErrorInstance → Text
entry env e = if env.folder_ok && is_utf8 e.msg then log_content e e.msg env.now else []

abbrev pub entries : List (LogEnv × ErrorInstance) → Text
entries [] = []
entries ((env, e) ∷ rest) = entry env e ++ entries rest

-- The metadata of the log can be asked for at each error.
abbrev pub AllReadable : List (LogEnv × ErrorInstance) → Type 0
AllReadable [] = Unit
AllReadable ((env, e) ∷ rest) = (env.metadata_ok ≡ true) × AllReadable rest

after : LogEnv → ErrorInstance → Files → Files
after env e fs = elim (wirte_async env e fs) [ panic ↦ fs | done written ↦ written ]

logged-after :
    (env : LogEnv) (e : ErrorInstance) (fs : Files)
    → env.metadata_ok ≡ true
    → logged (after env e fs) ≡ logged fs ++ entry env e
unfolding after wirte_async write_log
logged-after env e fs ok = elim (Option-cases (fs log_path)) [
  | inl missing ↦ ground (arith, ok, missing, text_eq_refl log_path, append-nil (logged fs))
  | inr (old, there) ↦ ground (arith, ok, there, text_eq_refl log_path, append-nil (logged fs))
]

-- Errors that are logged one after the other are appended in order: the log holds what it held
-- before, then the text of each error whose message is UTF-8 while its folder can be had. So
-- whenever the log's metadata can be asked for.
pub log_all_lem :
    (es : List (LogEnv × ErrorInstance)) (fs : Files)
    → AllReadable es
    → logged (log_all es fs) ≡ logged fs ++ entries es
unfolding log_all after
log_all_lem [] fs ok = sym (append-nil (logged fs))
log_all_lem ((env, e) ∷ rest) fs ok =
    log_all_lem rest (after env e fs) ok.1
    ∙ (rw (logged-after env e fs ok.0) (append_assoc (logged fs) (entry env e) (entries rest)))

-- `write_sync` never makes the log: where there is none it panics.
pub write_sync_needs_log :
    (read_json : Text → Option Text) (env : LogEnv) (e : ErrorInstance) (fs written : Files)
    → write_sync read_json env e fs ≡ done written
    → fs log_path ≢ none
unfolding write_sync
write_sync_needs_log read_json env e fs written ran missing =
    elim (Option-cases (read_json e.msg)) [
      | inl unread ↦ ground (arith, ran, unread)
      | inr (text, found) ↦ ground (arith, ran, found, missing)
    ]
