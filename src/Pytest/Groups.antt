-- ===== src/Pytest/Groups.antt =====
-- What `pytest_pyfunc_call` of mt_asyncio/_testutils/_pytest_plugin.py raises for a test that raises.
use mt_asyncio.Prelude.{
  ℕ, ◌≡◌, refl, Bool, true, false, ◌&&◌, Option, none, some, List, [], ◌∷◌, ◌++◌, arith,
  if◌then◌else◌, Bool-cases, inl, inr,
}

-- `exit` is pytest's `Exit`, an Exception; `keyboard_interrupt`, `system_exit` and `cancelled_error`
-- are no Exceptions, only BaseExceptions; `error` is any other Exception.
pub data Single : Type 0 where
  exit keyboard_interrupt system_exit cancelled_error : Single
  error : ℕ → Single

-- Exceptions and the groups of them.
mutual
  pub data Raised : Type 0 where
    single : Single → Raised
    group : Members → Raised

  pub data Members : Type 0 where
    nil : Members
    cons : Raised → Members → Members

-- `_iterate_exceptions`
unfoldable mutual
  pub iterate_exceptions : Raised → List Single
  iterate_exceptions (single e) = e ∷ []
  iterate_exceptions (group ms) = iterate_members ms

  pub iterate_members : Members → List Single
  iterate_members nil = []
  iterate_members (cons r ms) = iterate_exceptions r ++ iterate_members ms

abbrev pub is_exception : Single → Bool
is_exception keyboard_interrupt = false
is_exception system_exit = false
is_exception cancelled_error = false
is_exception _ = true

-- `isinstance(exc, (Exit, KeyboardInterrupt, SystemExit))`
abbrev pub is_final : Single → Bool
is_final exit = true
is_final keyboard_interrupt = true
is_final system_exit = true
is_final _ = false

abbrev pub all_exceptions : List Single → Bool
all_exceptions [] = true
all_exceptions (e ∷ es) = is_exception e && all_exceptions es

-- The loop that raises the first of these.
unfoldable pub first_final : List Single → Option Single
first_final [] = none
first_final (e ∷ es) = if is_final e then some e else first_final es

abbrev raise_from : Option Single → Members → Raised
raise_from none ms = group ms
raise_from (some e) ms = single e

-- What goes out of `run_test`. A group is an `ExceptionGroup` where it holds Exceptions only, and a
-- `BaseExceptionGroup` otherwise, which the handler does not catch.
unfoldable pub escaping : Raised → Raised
unfolding first_final
escaping (single e) = single e
escaping (group ms) =
    if all_exceptions (iterate_members ms)
    then raise_from (first_final (iterate_members ms)) ms
    else group ms

abbrev pub holds_exit : List Single → Bool
holds_exit [] = false
holds_exit (exit ∷ es) = true
holds_exit (e ∷ es) = holds_exit es

first_final-exit :
    (es : List Single)
    → all_exceptions es ≡ true
    → first_final es ≡ (if holds_exit es then some exit else none)
unfolding first_final
first_final-exit [] h = refl
first_final-exit (exit ∷ es) h = refl
first_final-exit (keyboard_interrupt ∷ es) h = cc
first_final-exit (system_exit ∷ es) h = cc
first_final-exit (cancelled_error ∷ es) h = cc
first_final-exit (error n ∷ es) h = first_final-exit es h

-- Of a group that a test raises, an `Exit` comes out on its own if no exception in it, at any
-- depth, is a mere BaseException; every other group comes out as it is, so a KeyboardInterrupt or
-- a SystemExit in one never does.
pub escaping-group :
    (ms : Members)
    → escaping (group ms) ≡ (
        if all_exceptions (iterate_members ms) && holds_exit (iterate_members ms)
        then single exit
        else group ms)
unfolding escaping
escaping-group ms = elim (Bool-cases (all_exceptions (iterate_members ms))) [
  | inl a ↦ ground (arith, a, first_final-exit (iterate_members ms) a)
  | inr b ↦ ground (arith, b)
]
