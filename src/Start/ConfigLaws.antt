-- ===== src/Start/ConfigLaws.antt =====
-- When src/config/mod.rs has its variables.
use hoopoe.Base.{
  Text, List, [], ◌∷◌, Bool, true, false, Option, none, some, done, panic, ◌≡◌, refl, arith, ◌>>=◌,
  unwrap, is_some, ◌&&◌, if◌then◌else◌, text_eq, text_eq-true, ◌||◌, ap, sym, ◌∙◌, ◌⊎◌, inl, inr,
  Bool-cases,
}
use hoopoe.Start.Config.{Environment, Env, var_names, read_vars, get_vars, field}

unfoldable pub all_set : (Text → Option Text) → List Text → Bool
all_set var [] = true
all_set var (name ∷ names) = is_some (var name) && all_set var names

-- The values of variables that are set.
abbrev pub value_of : Option Text → Text
value_of none = []
value_of (some value) = value

unfoldable pub values : (Text → Option Text) → List Text → Env
values var [] = []
values var (name ∷ names) = (name, value_of (var name)) ∷ values var names

-- The fields are read in order, and the first variable that is missing panics.
pub read_vars_lem :
    (var : Text → Option Text) (names : List Text)
    → read_vars var names ≡ (if all_set var names then done (values var names) else panic)
unfolding read_vars all_set values
read_vars_lem var [] = refl
read_vars_lem var (name ∷ names) = by_value (var name) (read_vars_lem var names)
  where
    put :
        (value : Text) (set : Bool)
        → ((if set then done (values var names) else panic) >>= λ rest. done ((name, value) ∷ rest))
          ≡ (if set then done ((name, value) ∷ values var names) else panic)
    put value true = refl
    put value false = refl

    by_value :
        (value? : Option Text)
        → read_vars var names ≡ (if all_set var names then done (values var names) else panic)
        → (unwrap value? >>= λ value. read_vars var names >>= λ rest. done ((name, value) ∷ rest))
          ≡ (if is_some value? && all_set var names
              then done ((name, value_of value?) ∷ values var names)
              else panic)
    by_value none ih = refl
    by_value (some value) ih = rw ih (put value (all_set var names))

unfoldable pub has_name : Text → List Text → Bool
has_name name [] = false
has_name name (other ∷ names) = text_eq other name || has_name name names

-- A field of the struct is its variable.
pub field-values :
    (var : Text → Option Text) (name : Text) (names : List Text)
    → has_name name names ≡ true
    → field name (values var names) ≡ some (value_of (var name))
unfolding field values has_name
field-values var name [] h = cc
field-values var name (other ∷ names) h =
    by_test (Bool-cases (text_eq other name)) (field-values var name names) h
  where
    by_test :
        (text_eq other name ≡ true) ⊎ (text_eq other name ≡ false)
        → (has_name name names ≡ true → field name (values var names) ≡ some (value_of (var name)))
        → (text_eq other name || has_name name names) ≡ true
        → (if text_eq other name
            then some (value_of (var other))
            else field name (values var names))
          ≡ some (value_of (var name))
    by_test (inl same) ih h =
        rw same (ap (λ n. some (value_of (var n))) (text_eq-true other name same))
    by_test (inr different) ih h = ground (arith, different, h, ih)

pub get_vars_lem :
    (e : Environment)
    → get_vars e
      ≡ (if e.has_file && all_set e.var var_names then done (values e.var var_names) else panic)
unfolding get_vars
get_vars_lem e = by_file e.has_file
  where
    by_file :
        (found : Bool)
        → (if found then read_vars e.var var_names else panic)
          ≡ (if found && all_set e.var var_names then done (values e.var var_names) else panic)
    by_file true = read_vars_lem e.var var_names
    by_file false = refl

-- Each of the variables is set.
pub all_set-some :
    (var : Text → Option Text) (name : Text) (names : List Text)
    → all_set var names ≡ true
    → has_name name names ≡ true
    → is_some (var name) ≡ true
unfolding all_set has_name
all_set-some var name [] set h = cc
all_set-some var name (other ∷ names) set h =
    by_test (Bool-cases (text_eq other name)) (all_set-some var name names) set h
  where
    by_test :
        (text_eq other name ≡ true) ⊎ (text_eq other name ≡ false)
        → (all_set var names ≡ true → has_name name names ≡ true → is_some (var name) ≡ true)
        → (is_some (var other) && all_set var names) ≡ true
        → (text_eq other name || has_name name names) ≡ true
        → is_some (var name) ≡ true
    by_test (inl same) ih set h =
        ap (λ n. is_some (var n)) (sym (text_eq-true other name same)) ∙ ground (arith, set)
    by_test (inr different) ih set h = ih (ground (arith, set)) (ground (arith, different, h))
