-- ===== src/Pytest/Fixtures.antt =====
-- `pytest_fixture_setup` and `pytest_pycollect_makeitem` of mt_asyncio/_testutils/_pytest_plugin.py.
use mt_asyncio.Prelude.{
  ℕ, ◌≡◌, refl, Bool, true, false, ◌&&◌, ◌||◌, List, [], ◌∷◌, ◌++◌, arith, if◌then◌else◌,
}

-- The names of fixtures; `named` is any other.
pub data Name : Type 0 where
  mt_asyncio_runtime request : Name
  named : ℕ → Name

abbrev pub is_runtime : Name → Bool
is_runtime mt_asyncio_runtime = true
is_runtime _ = false

abbrev pub is_request : Name → Bool
is_request request = true
is_request _ = false

-- `name in names`
abbrev pub any : (Name → Bool) → List Name → Bool
any p [] = false
any p (n ∷ ns) = p n || any p ns

-- What a `FixtureDef` calls: a function, or the wrapper around one, with `has_runtime_arg` and
-- `has_request_arg`.
pub data Func : Type 0 where
  plain : ℕ → Func
  wrapper : ℕ → Bool → Bool → Func

pub record FixtureDef : Type 0 where
  pub func : Func
  pub argnames : List Name
  pub cached : ℕ

abbrev pub appended : (Name → Bool) → Name → List Name → List Name
appended p n ns = if any p ns then ns else ns ++ n ∷ []

-- What `pytest_fixture_setup` has set before it yields; the function is number `f`.
unfoldable pub prepare : ℕ → FixtureDef → FixtureDef
prepare f d =
    let with_runtime = appended is_runtime mt_asyncio_runtime d.argnames in
    record d {
      func = wrapper f (any is_runtime d.argnames) (any is_request with_runtime);
      argnames = appended is_request request with_runtime;
    }

-- The `finally`: the function and the names are put back.
unfoldable pub put_back : ℕ → List Name → FixtureDef → FixtureDef
put_back f argnames d = record d { func = plain f; argnames = argnames }

-- The hook around what pytest does, `inner`: `is_async` says that the function is a coroutine
-- function or an async generator function.
unfoldable pub fixture_setup :
    Bool → List Name → ℕ → (FixtureDef → FixtureDef) → FixtureDef → FixtureDef
unfolding prepare put_back
fixture_setup is_async fixturenames f inner d =
    if is_async && any is_runtime fixturenames
    then put_back f d.argnames (inner (prepare f d))
    else inner d

any-append : (p : Name → Bool) (xs ys : List Name) → any p (xs ++ ys) ≡ (any p xs || any p ys)
any-append p [] ys = refl
any-append p (x ∷ xs) ys = ground (arith, any-append p xs ys)

-- Whatever pytest does to the definition of an asynchronous fixture inside the hook, also where it
-- raises: while it does it, both arguments of the wrapper are asked for, and after it the function
-- and the names of the arguments are the old ones, and all else is as pytest left it.
pub fixture_setup_lem :
    (fixturenames : List Name) (f : ℕ) (inner : FixtureDef → FixtureDef) (d : FixtureDef)
    → any is_runtime fixturenames ≡ true
    → d.func ≡ plain f
    → (any is_runtime (prepare f d).argnames ≡ true)
      × (any is_request (prepare f d).argnames ≡ true)
      × (fixture_setup true fixturenames f inner d
          ≡ record d { cached = (inner (prepare f d)).cached })
unfolding fixture_setup prepare
fixture_setup_lem fixturenames f inner d r e =
    let ns = appended is_runtime mt_asyncio_runtime d.argnames in
    (
      ground (
        arith,
        any-append is_runtime d.argnames (mt_asyncio_runtime ∷ []),
        any-append is_runtime ns (request ∷ []),
      ),
      ground (arith, any-append is_request ns (request ∷ [])),
      ground (arith, r, e),
    )

-- What `pytest_pycollect_makeitem` looks at; `inner_coroutine` is about the inner test of hypothesis.
pub record Candidate : Type 0 where
  pub is_test_function : Bool
  pub has_hypothesis : Bool
  pub is_coroutine : Bool
  pub inner_coroutine : Bool
  pub closest_marker : Bool
  pub own_marker : Bool

-- Whether `usefixtures('mt_asyncio_runtime')` is applied to it.
unfoldable pub makeitem : Candidate → Bool
makeitem c =
    c.is_test_function
    && (if c.has_hypothesis then c.inner_coroutine else c.is_coroutine)
    && (c.closest_marker || c.own_marker)
