-- ===== src/Loop/Registrations.antt =====
-- The registrations of file descriptors in mt_asyncio/asyncio/_loop.py (`_FdIO`, `EventLoop._sios`),
-- each operation under `_sios_lock`, on a loop that is not closed.
use mt_asyncio.Prelude.{
  ℕ, ◌+◌, ◌-◌, ◌<◌, ◌≡◌, refl, Bool, true, false, not, ◌&&◌, Option, none, some, List, [], ◌∷◌,
  arith, ◌==◌, if◌then◌else◌, update,
}

-- `sio` is the reactor's registration; the callbacks are numbers of handles, the owner one of a socket.
pub record FdIo : Type 0 where
  pub sio : ℕ
  pub reader : Option ℕ
  pub writer : Option ℕ
  pub pinned : Bool
  pub owner : Option ℕ

-- `_fd`, `_writer` and `_active` of an `_FdHandle`.
pub record FdHandle : Type 0 where
  pub fd : ℕ
  pub is_writer : Bool
  pub active : Bool

-- `registered` counts the live registrations of a descriptor in the reactor.
pub record Registry : Type 0 where
  pub sios : ℕ → Option FdIo
  pub handle : ℕ → FdHandle
  pub next_handle : ℕ
  pub next_sio : ℕ
  pub registered : ℕ → ℕ

abbrev pub empty : Registry
empty = record {
  sios = λ _. none;
  handle = λ _. record { fd = 0; is_writer = false; active = false };
  next_handle = 0;
  next_sio = 0;
  registered = λ _. 0;
}

abbrev found : ℕ → Option FdIo → Registry → FdIo × Registry
found fd (some reg) r = (reg, r)
found fd none r =
    let reg : FdIo = record {
      sio = r.next_sio;
      reader = none;
      writer = none;
      pinned = false;
      owner = none;
    } in
    (
      reg,
      record r {
        sios = update r.sios fd (some reg);
        next_sio = r.next_sio + 1;
        registered = update r.registered fd (r.registered fd + 1);
      },
    )

-- `_registration`
unfoldable pub registration : ℕ → Registry → FdIo × Registry
registration fd r = found fd (r.sios fd) r

-- `handle.cancel()`, if there is one.
abbrev pub cancel_handle : Option ℕ → Registry → Registry
cancel_handle none r = r
cancel_handle (some h) r = record r {
  handle = update r.handle h (record (r.handle h) { active = false });
}

abbrev drop : ℕ → Option FdIo → Registry → Registry
drop fd none r = r
drop fd (some reg) r =
    let r' = cancel_handle reg.writer (cancel_handle reg.reader r) in
    record r' {
      sios = update r'.sios fd none;
      registered = update r'.registered fd (r'.registered fd - 1);
    }

-- `_drop_registration`
unfoldable pub drop_registration : ℕ → Registry → Registry
drop_registration fd r = drop fd (r.sios fd) r

abbrev pub is_stale : ℕ → Option FdIo → Bool
is_stale sock none = false
is_stale sock (some reg) = elim reg.owner [ none ↦ false | some o ↦ not (o == sock) ]

-- `_sio`, of the socket with this descriptor.
unfoldable pub sio_of : ℕ → ℕ → Registry → ℕ × Registry
unfolding registration drop_registration
sio_of fd sock r =
    let r₁ = if is_stale sock (r.sios fd) then drop_registration fd r else r in
    let (reg, r₂) = registration fd r₁ in
    (
      reg.sio,
      record r₂ {
        sios = update r₂.sios fd (some (record reg { owner = some sock; pinned = true }));
      },
    )

abbrev pub slot : Bool → FdIo → Option ℕ
slot true reg = reg.writer
slot false reg = reg.reader

abbrev pub with_slot : Bool → Option ℕ → FdIo → FdIo
with_slot true h reg = record reg { writer = h }
with_slot false h reg = record reg { reader = h }

-- `_add_fd_callback` up to its `handle._arm()`.
unfoldable pub add_fd_callback : ℕ → Bool → Registry → Registry
unfolding registration
add_fd_callback fd writer r =
    let (reg, r₁) = registration fd r in
    let h = r₁.next_handle in
    cancel_handle (slot writer reg) (record r₁ {
      sios = update r₁.sios fd (some (with_slot writer (some h) reg));
      handle = update r₁.handle h (record { fd = fd; is_writer = writer; active = true });
      next_handle = h + 1;
    })

abbrev pub none_of : Option ℕ → Bool
none_of none = true
none_of (some h) = false

-- A registration that nobody uses.
abbrev pub is_unused : Option FdIo → Bool
is_unused none = false
is_unused (some reg) = none_of reg.reader && (none_of reg.writer && not reg.pinned)

abbrev remove_from : ℕ → Bool → Option FdIo → Registry → Bool × Registry
remove_from fd writer none r = (false, r)
remove_from fd writer (some reg) r =
    let reg' = with_slot writer none reg in
    let r₁ = cancel_handle (slot writer reg) (record r { sios = update r.sios fd (some reg') }) in
    if none_of (slot writer reg)
    then (false, r)
    else (true, if is_unused (some reg') then drop fd (some reg') r₁ else r₁)

-- `_remove_fd_callback`
unfoldable pub remove_fd_callback : ℕ → Bool → Registry → Bool × Registry
remove_fd_callback fd writer r = remove_from fd writer (r.sios fd) r

-- `releases` is `_release_fd`; `uses` is a `sock_*` helper.
pub data Event : Type 0 where
  adds removes : ℕ → Bool → Event
  uses : ℕ → ℕ → Event
  releases : ℕ → Event

unfoldable pub step : Registry → Event → Registry
unfolding add_fd_callback remove_fd_callback sio_of drop_registration
step r (adds fd writer) = add_fd_callback fd writer r
step r (removes fd writer) = (remove_fd_callback fd writer r).1
step r (uses fd sock) = (sio_of fd sock r).1
step r (releases fd) = drop_registration fd r

unfoldable pub run : Registry → List Event → Registry
run r [] = r
run r (e ∷ es) = run (step r e) es

abbrev pub live : Option FdIo → ℕ
live none = 0
live (some reg) = 1

-- The callback that the loop has for this direction of the descriptor.
abbrev pub current : Bool → Option FdIo → Option ℕ
current writer none = none
current writer (some reg) = slot writer reg

record Inv (r : Registry) : Type 0 where
  single : (fd : ℕ) → r.registered fd ≡ live (r.sios fd)
  used : (fd : ℕ) → is_unused (r.sios fd) ≡ false
  reachable :
      (h : ℕ)
      → (r.handle h).active ≡ true
      → current (r.handle h).is_writer (r.sios (r.handle h).fd) ≡ some h
  fresh : (h : ℕ) → (r.handle h).active ≡ true → h < r.next_handle

adds-Inv : (r : Registry) (fd : ℕ) (writer : Bool) → Inv r → Inv (step r (adds fd writer))
unfolding step registration
adds-Inv r fd writer inv = record {
  single = λ g. ground (arith, inv.single g);
  used = λ g. ground (arith, inv.used g);
  reachable = λ h a. ground (arith, inv.reachable h, inv.fresh h, a);
  fresh = λ h a. ground (arith, inv.fresh h, a);
}

removes-Inv : (r : Registry) (fd : ℕ) (writer : Bool) → Inv r → Inv (step r (removes fd writer))
unfolding step
removes-Inv r fd writer inv = record {
  single = λ g. ground (arith, inv.single g);
  used = λ g. ground (arith, inv.used g);
  reachable = λ h a. ground (arith, inv.reachable h, a);
  fresh = λ h a. ground (arith, inv.fresh h, a);
}

releases-Inv : (r : Registry) (fd : ℕ) → Inv r → Inv (step r (releases fd))
unfolding step
releases-Inv r fd inv = record {
  single = λ g. ground (arith, inv.single g);
  used = λ g. ground (arith, inv.used g);
  reachable = λ h a. ground (arith, inv.reachable h, a);
  fresh = λ h a. ground (arith, inv.fresh h, a);
}

uses-Inv : (r : Registry) (fd sock : ℕ) → Inv r → Inv (step r (uses fd sock))
unfolding step registration
uses-Inv r fd sock inv = record {
  single = λ g. ground (arith, inv.single g);
  used = λ g. ground (arith, inv.used g);
  reachable = λ h a. ground (arith, inv.reachable h, a);
  fresh = λ h a. ground (arith, inv.fresh h, a);
}

step-Inv : (r : Registry) (e : Event) → Inv r → Inv (step r e)
step-Inv r (adds fd writer) inv = adds-Inv r fd writer inv
step-Inv r (removes fd writer) inv = removes-Inv r fd writer inv
step-Inv r (uses fd sock) inv = uses-Inv r fd sock inv
step-Inv r (releases fd) inv = releases-Inv r fd inv

run-Inv : (es : List Event) (r : Registry) → Inv r → Inv (run r es)
unfolding run
run-Inv [] r inv = inv
run-Inv (e ∷ es) r inv = run-Inv es (step r e) (step-Inv r e inv)

empty-Inv : Inv empty
empty-Inv = record {
  single = λ fd. refl;
  used = λ fd. refl;
  reachable = λ h a. cc;
  fresh = λ h a. cc;
}

-- Over every history of added and removed callbacks, uses by `sock_*` helpers and releases, on any
-- descriptors: the reactor has one registration of a descriptor exactly while the loop has one, and
-- none otherwise (it is never registered twice and no registration leaks); and the loop keeps none
-- that has no callback and is not pinned.
pub one_registration :
    (es : List Event) (fd : ℕ)
    → let r = run empty es in (r.registered fd ≡ live (r.sios fd)) × (is_unused (r.sios fd) ≡ false)
one_registration es fd = let inv = run-Inv es empty empty-Inv in (inv.single fd, inv.used fd)

-- No callback is orphaned: over every such history a handle that is active is the one that the loop
-- has for its descriptor and direction, so a replaced, removed or released callback is cancelled.
pub no_orphan_callback :
    (es : List Event) (h : ℕ)
    → let r = run empty es in
      (r.handle h).active ≡ true → current (r.handle h).is_writer (r.sios (r.handle h).fd) ≡ some h
no_orphan_callback es h a = (run-Inv es empty empty-Inv).reachable h a
