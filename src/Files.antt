-- ===== src/Files.antt =====
-- The file system, as far as src/apis/v1/http/health.rs, src/error/mod.rs and src/crypter/src/cry.rs
-- use it: what a path holds. Creating a file and writing to it replaces what was there.
use hoopoe.Base.{Text, ◌++◌, Option, none, some, if◌then◌else◌, text_eq, text_eq_refl, ◌≡◌, arith}

abbrev pub Files : Type 0
Files = Text → Option Text

abbrev pub write_file : Text → Text → Files → Files
write_file path bytes fs = λ p. if text_eq path p then some bytes else fs p

abbrev pub remove_file : Text → Files → Files
remove_file path fs = λ p. if text_eq path p then none else fs p

abbrev pub append_file : Text → Text → Text → Files → Files
append_file path old bytes fs = write_file path (old ++ bytes) fs

pub write_file_self : (path bytes : Text) (fs : Files) → write_file path bytes fs path ≡ some bytes
write_file_self path bytes fs = ground (arith, text_eq_refl path)
