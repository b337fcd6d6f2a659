-- ===== src/WhenAny/Examples.antt =====
-- `when_any` of two tasks: in `late` both have their continuations before the second one finishes,
-- in `early` the first one has finished when its continuation is added.
use asyncplusplus_1_1_annota.Base.{ℕ, ◌+◌, ◌≤◌, ◌≡◌, none, some, [], ◌∷◌, length, refl, arith}
use asyncplusplus_1_1_annota.WhenAny.{WhenAny, add, call, Reach, here, next}
use asyncplusplus_1_1_annota.WhenAny.Variadic
use asyncplusplus_1_1_annota.WhenAny.Variadic.{Later, same, further, set_tuple}
use asyncplusplus_1_1_annota.WhenAny.First.{early_finish_overruns}

abbrev tasks : ℕ → ℕ
tasks i = i + 10

abbrev late : (s : WhenAny) × Reach 2 tasks s
late = (
  _,
  next (next (next here (add (omega arith) (omega arith))) (add (omega arith) (omega arith)))
      (call 1 (omega arith) refl),
)

abbrev early : (s : WhenAny) × Reach 2 tasks s
early = (_, next (next here (add (omega arith) (omega arith))) (call 0 (omega arith) refl))

early_finish_overruns_example : ((early.0).result ≡ []) × (length (early.0).result ≤ 1)
early_finish_overruns_example = early_finish_overruns 2 tasks 0 (early.1) refl

-- The same with separate arguments: the first one finishes before the second one is added.
abbrev early_variadic : (s : WhenAny) × Variadic.Reach 2 tasks s
early_variadic = (_, Variadic.next Variadic.here (Variadic.add (omega arith)))

abbrev both_added : (t : WhenAny) × Later 2 tasks (set_tuple (early_variadic.0) 0) t
both_added =
    (_, further (further same (Variadic.add (omega arith))) (Variadic.call 1 (omega arith) refl))

-- The second task is null in the result.
second_missing : (both_added.0).event ≡ some (record { index = 0; tasks = some 10 ∷ none ∷ [] })
second_missing = refl
