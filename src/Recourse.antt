-- ===== src/Recourse.antt =====
-- recourse/recourse.go: the facade over the executor of the process, with `Init`, `Do`, `DoValue` and
-- `ParseKey`. The executor's own call is an argument.
use rego.Common.{String, Option}
use rego.Policy.Key.{PolicyKey, parse_key}
use rego.Retry.Global.{Global, default_executor, set_global}

-- `Init`
unfoldable pub init : {E : Type 0} → E → Option E → Global E → Global E
init = set_global

-- `DoValue`, and `Do` with an operation that has no value; `run` is the call of the executor.
unfoldable pub do_value :
    {E W R : Type 0} → E → (Option E → PolicyKey → W → R) → String → Global E → W → Global E × R
do_value new_default run key g w =
    let (g', e) = default_executor new_default g in (g', run e (parse_key key) w)
