-- ===== src/Scripts/GenReference/Safety.antt =====
-- scripts/gen_reference.go, `renderDefaultsSafetyMarkdown`: the reference of the defaults.
use rego.Common.{String, str_eq, is_empty, Bool, ◌&&◌, List, [], ◌∷◌, ◌++◌, map, if◌then◌else◌}
use rego.Scripts.GenReference.Tables.{
  contents, quoted, value_of, escape_pipes, or_dash, join_backticked,
}
use rego.Scripts.GenReference.Documents.{generated_line, default_table, limit_table}

-- `executorFallbacks`
pub record Fallbacks : Type 0 where
  pub defaults : List (String × String)
  pub classifier_builtins : Bool

pub record DefaultExecutorConfig : Type 0 where
  pub observer : String
  pub default_classifier : String
  pub budgets : List String
  pub triggers : List String

-- `componentRows`, a label and a field each.
abbrev component_rows : List (String × String)
component_rows =
    ("Provider", "provider")
    ∷ ("Observer", "observer")
    ∷ ("Clock", "clock")
    ∷ ("Sleep", "sleep")
    ∷ ("Classifiers", "classifiers")
    ∷ ("Triggers", "triggers")
    ∷ ("Circuits", "circuits")
    ∷ ("Default classifier", "defaultClassifier")
    ∷ ("Budgets", "budgets")
    ∷ []

abbrev quoted_or_dash : String → String
quoted_or_dash value = if is_empty value then "-" else quoted value

-- What follows the value of the classifiers.
unfoldable pub builtin_note : List String → String
builtin_note [] = " + `classify.RegisterBuiltins`"
builtin_note (b ∷ bs) =
    contents (" + `classify.RegisterBuiltins` (" ∷ join_backticked (b ∷ bs) ∷ ")" ∷ [])

unfoldable pub component_row : Fallbacks → List String → String × String → String
component_row fallbacks builtins (label, field) =
    let found = value_of field fallbacks.defaults in
    let value = if is_empty found && str_eq field "budgets" then "nil" else found in
    let note =
      if str_eq field "classifiers" && fallbacks.classifier_builtins
      then builtin_note builtins
      else "" in
    contents ("| " ∷ label ∷ " | " ∷ quoted_or_dash value ∷ note ∷ " |\n" ∷ [])

pub record ModeRow : Type 0 where
  pub label : String
  pub field : String
  pub mode_note : String

-- `modeRows`
abbrev mode_rows : Bool → List ModeRow
mode_rows hedge_fallback =
    record {
      label = "MissingPolicyMode";
      field = "missingPolicyMode";
      mode_note = "Policy resolution errors fail closed (`NoPolicyError`).";
    }
    ∷ record {
      label = "MissingBudgetMode";
      field = "missingBudgetMode";
      mode_note = "Missing or invalid budgets deny attempts.";
    }
    ∷ record {
      label = "MissingClassifierMode";
      field = "missingClassifierMode";
      mode_note = "Fallback to the default classifier.";
    }
    ∷ record {
      label = "MissingTriggerMode";
      field = "missingTriggerMode";
      mode_note =
          if hedge_fallback then "Missing trigger falls back to fixed delay hedging." else "-";
    }
    ∷ []

unfoldable pub mode_row : List (String × String) → ModeRow → String
mode_row modes row = contents (
    "| "
    ∷ row.label
    ∷ " | "
    ∷ quoted_or_dash (value_of row.field modes)
    ∷ " | "
    ∷ escape_pipes (or_dash row.mode_note)
    ∷ " |\n"
    ∷ [])

-- A row of values, if there are any.
unfoldable pub values_row : String → List String → List String
values_row label [] = []
values_row label (v ∷ vs) =
    contents ("| " ∷ label ∷ " | " ∷ join_backticked (v ∷ vs) ∷ " |\n" ∷ []) ∷ []

unfoldable pub value_row : String → String → List String
value_row label value =
    if is_empty value then [] else contents ("| " ∷ label ∷ " | " ∷ quoted value ∷ " |\n" ∷ []) ∷ []

-- `renderDefaultsSafetyMarkdown`
unfoldable pub render_defaults_safety_markdown :
    List (String × String)
    → List (String × String)
    → Fallbacks
    → List (String × String)
    → List String
    → DefaultExecutorConfig
    → Bool
    → Bool
    → List String
render_defaults_safety_markdown defaults limits fallbacks mode_defaults builtins config
      hedge_fallback uses_default =
    generated_line
      ∷ "# Defaults and safety model\n\n"
      ∷ "Generated from: `policy/schema.go`, `retry/executor.go`, `retry/defaults.go`, `retry/budget.go`, `retry/group.go`, `classify/builtins.go`, `retry/global.go`.\n\n"
      ∷ (if uses_default
          then "`retry.DefaultExecutor` uses `retry.NewDefaultExecutor` unless a global executor is set.\n\n"
            ∷ []
          else [])
    ++ "## Policy defaults\n\n" ∷ default_table defaults
    ++ limit_table limits
    ++ "## Executor defaults (NewExecutorFromOptions)\n\n"
      ∷ "When an option is nil, the executor supplies a fallback.\n\n"
      ∷ "| Component | Default |\n"
      ∷ "|---|---|\n"
      ∷ map (component_row fallbacks builtins) component_rows
    ++ "\n"
      ∷ "## Default failure modes\n\n"
      ∷ "Failure modes control what happens when policy, budgets, classifiers, or triggers are missing.\n\n"
      ∷ "| Missing mode | Default | Notes |\n"
      ∷ "|---|---|---|\n"
      ∷ map (mode_row mode_defaults) (mode_rows hedge_fallback)
    ++ "\n"
      ∷ "## NewDefaultExecutor additions\n\n"
      ∷ "NewDefaultExecutor builds on NewExecutorFromOptions with these defaults.\n\n"
      ∷ "| Component | Value |\n"
      ∷ "|---|---|\n"
      ∷ values_row "Built-in classifiers" builtins
    ++ value_row "Default classifier" config.default_classifier
    ++ values_row "Budget registry entries" config.budgets
    ++ values_row "Hedge trigger registry entries" config.triggers
    ++ value_row "Observer" config.observer
    ++ "\n" ∷ []
