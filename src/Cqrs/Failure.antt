-- ===== src/Cqrs/Failure.antt =====
-- src/workers/cqrs.rs: `CqrsErrorKind` and how it is formatted, with a bound on the depth of calls.
use hoopoe.Base.{ℕ, zero, suc, Text, codes, ◌++◌, Option, none, some}

pub data CqrsErrorKind : Type 0 where
  mutator accessor : Text → CqrsErrorKind

-- thiserror derives no source, since no field is marked.
unfoldable pub source_of_cqrs : CqrsErrorKind → Option Text
source_of_cqrs kind = none

abbrev with_source : Option Text → Text → Text → Text
with_source none label text = text
with_source (some source) label text = text ++ (label ++ (source ++ codes "\n"))

abbrev before_source : Option Text → CqrsErrorKind → Text → Option Text
before_source none kind label = none
before_source (some text) kind label = some (with_source (source_of_cqrs kind) label text)

-- `Display` writes the value itself first, by its own `Display`. `none` is a depth that does not do.
unfoldable pub display_cqrs : (depth : ℕ) → CqrsErrorKind → Option Text
unfolding source_of_cqrs
display_cqrs zero kind = none
display_cqrs (suc depth) kind =
    before_source (display_cqrs depth kind) kind (codes "Display Error: ")

abbrev new_line : Option Text → Option Text
new_line none = none
new_line (some text) = some (text ++ codes "\n")

-- `Debug` writes it by `Display`.
unfoldable pub debug_cqrs : (depth : ℕ) → CqrsErrorKind → Option Text
unfolding display_cqrs source_of_cqrs
debug_cqrs depth kind =
    before_source (new_line (display_cqrs depth kind)) kind (codes "Debug Error: ")
