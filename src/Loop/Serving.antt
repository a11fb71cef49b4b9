-- ===== src/Loop/Serving.antt =====
-- Who reads the registrations of a loop beside it: `_SelectorShim.get_key` of mt_asyncio/asyncio/_loop.py, and
-- `NetworkMixin._stop_serving` of mt_asyncio/asyncio/_net.py.
use mt_asyncio.Prelude.{
  ℕ, ◌+◌, ◌≡◌, refl, ◌∙◌, false, Option, none, some, List, [], ◌∷◌, ◌++◌, arith, ◌==◌,
  if◌then◌else◌, ap,
}
use mathlib.Core.Path.{subst}
use mt_asyncio.Errors.{index_error, Result, ok, err}
use mt_asyncio.Loop.Registrations.{
  FdIo, Registry, empty, none_of, Event, removes, releases, remove_fd_callback, drop_registration,
  live, step, run, one_registration,
}
use mt_asyncio.Loop.LifeCycle.Closing.{run-append}

-- `selectors.EVENT_READ` and `selectors.EVENT_WRITE`.
abbrev pub events_of : Option FdIo → ℕ
events_of none = 0
events_of (some reg) = (if none_of reg.reader then 0 else 1) + (if none_of reg.writer then 0 else 2)

-- `get_key`, of a file descriptor: its events; `index_error` stands for the KeyError.
unfoldable pub get_key : ℕ → Registry → Result ℕ
get_key fd r = if events_of (r.sios fd) == 0 then err index_error else ok (events_of (r.sios fd))

-- `_stop_serving`, up to the closing of the socket.
unfoldable pub stop_serving : ℕ → Registry → Registry
unfolding remove_fd_callback drop_registration
stop_serving fd r = drop_registration fd (remove_fd_callback fd false r).1

-- Whatever was registered before, after `_stop_serving` the reactor has no registration of the descriptor, so
-- the next socket with its number starts afresh, and the selector reports no events for it.
pub stop_serving_releases :
    (es : List Event) (fd : ℕ)
    → let r = stop_serving fd (run empty es) in
      (r.registered fd ≡ 0) × (get_key fd r ≡ err index_error)
unfolding stop_serving get_key drop_registration run step
stop_serving_releases es fd =
    let whole : run empty (es ++ removes fd false ∷ releases fd ∷ [])
        ≡ stop_serving fd (run empty es) =
      run-append es (removes fd false ∷ releases fd ∷ []) empty in
    let gone : (stop_serving fd (run empty es)).sios fd ≡ none = ground arith in
    let single =
      subst (λ (r : Registry). r.registered fd ≡ live (r.sios fd)) whole
        (one_registration (es ++ removes fd false ∷ releases fd ∷ []) fd).0 in
    (single ∙ ap live gone, rw gone refl)
