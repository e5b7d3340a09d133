-- ===== src/Cqrs/FailureLaws.antt =====
-- Whether an error of src/workers/cqrs.rs can be printed.
use hoopoe.Base.{ℕ, zero, suc, none, ◌≡◌, refl}
use hoopoe.Cqrs.Failure.{CqrsErrorKind, display_cqrs, debug_cqrs}

display_cqrs-none : (depth : ℕ) (kind : CqrsErrorKind) → display_cqrs depth kind ≡ none
unfolding display_cqrs
display_cqrs-none zero kind = refl
display_cqrs-none (suc depth) kind = rw (display_cqrs-none depth kind) refl

-- No depth of calls is enough to format an error of the mutators or the accessors, neither for
-- display nor for debugging.
pub cqrs_error_never_printed :
    (depth : ℕ) (kind : CqrsErrorKind)
    → (display_cqrs depth kind ≡ none) × (debug_cqrs depth kind ≡ none)
unfolding debug_cqrs
cqrs_error_never_printed depth kind =
    (display_cqrs-none depth kind, rw (display_cqrs-none depth kind) refl)
