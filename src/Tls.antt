-- ===== src/Tls.antt =====
-- mt_asyncio/asyncio/_tls.py: which invokes enter the state machine of CPython's SSL protocol, and
-- under what. With the methods of mt_asyncio/asyncio/_transports.py that take the same lock.
pub mod Threads
pub mod Locking
pub mod Interleaving
pub mod Records
pub mod Upgrade
use mt_asyncio.Prelude.{
  ℕ, ◌+◌, ◌-◌, Bool, true, false, Option, none, some, List, [], ◌∷◌, ◌++◌, ◌==◌, if◌then◌else◌,
}

-- `SSLProtocolState`
pub data SslState : Type 0 where
  unwrapped do_handshake wrapped flushing shutdown : SslState

-- The methods of `SSLProtocolTransport`.
pub data AppMethod : Type 0 where
  write writelines write_eof close abort pause_reading resume_reading set_protocol : AppMethod
  get_write_buffer_size set_write_buffer_limits set_read_buffer_limits force_close : AppMethod

-- The methods of `SocketTransport` that the protocol and its own code call.
pub data RawMethod : Type 0 where
  write writelines write_eof close abort pause_reading resume_reading set_protocol : RawMethod
  get_write_buffer_size set_write_buffer_limits fatal_error force_close : RawMethod
  call_connection_lost make_empty_waiter reset_empty_waiter : RawMethod

-- The methods of `SocketTransport` that the reactor and the loop enter.
pub data RawCallback : Type 0 where
  startup locked_write_ready read_ready : RawCallback

-- The methods of `SSLProtocol` that handles and timers enter.
pub data Deferred : Type 0 where
  do_read resume_reading_locked check_handshake_timeout check_shutdown_timeout : Deferred
  on_handshake_complete on_shutdown_complete : Deferred

pub data Entry : Type 0 where
  app : AppMethod → Entry
  raw : RawMethod → Entry
  entered : RawCallback → Entry
  protocol : Deferred → Entry

-- CPython's methods: what `super()` of an entry has, `_do_flush` and `_do_shutdown`.
pub data Inherited : Type 0 where
  parent : Entry → Inherited
  do_flush do_shutdown : Inherited

-- What a method does around its work: nothing, `with self._lock`, or `with defer_wakes(),
-- self._lock`.
pub data Guard : Type 0 where
  unguarded locked deferring_locked : Guard

-- The guards of the methods of `SSLProtocolTransport`.
unfoldable pub app_guard : AppMethod → Guard
app_guard AppMethod.write = locked
app_guard AppMethod.writelines = locked
app_guard AppMethod.write_eof = locked
app_guard AppMethod.close = locked
app_guard AppMethod.abort = locked
app_guard AppMethod.pause_reading = locked
app_guard AppMethod.resume_reading = locked
app_guard AppMethod.set_protocol = locked
app_guard AppMethod.get_write_buffer_size = locked
app_guard AppMethod.set_write_buffer_limits = locked
app_guard set_read_buffer_limits = locked
app_guard AppMethod.force_close = locked

-- What a method of `SocketTransport` has around the call that may enter the protocol.
unfoldable pub raw_guard : RawMethod → Guard
raw_guard RawMethod.write = locked
raw_guard RawMethod.writelines = locked
raw_guard RawMethod.write_eof = locked
raw_guard RawMethod.close = locked
raw_guard RawMethod.abort = locked
raw_guard RawMethod.pause_reading = locked
raw_guard RawMethod.resume_reading = locked
raw_guard RawMethod.set_protocol = locked
raw_guard RawMethod.get_write_buffer_size = locked
raw_guard RawMethod.set_write_buffer_limits = locked
raw_guard fatal_error = locked
raw_guard RawMethod.force_close = locked
raw_guard call_connection_lost = deferring_locked
raw_guard make_empty_waiter = locked
raw_guard reset_empty_waiter = locked

unfoldable pub callback_guard : RawCallback → Guard
callback_guard startup = deferring_locked
callback_guard locked_write_ready = deferring_locked
callback_guard read_ready = deferring_locked

-- The guards of the methods of `SSLProtocol`.
unfoldable pub protocol_guard : Deferred → Guard
protocol_guard do_read = deferring_locked
protocol_guard resume_reading_locked = deferring_locked
protocol_guard check_handshake_timeout = deferring_locked
protocol_guard check_shutdown_timeout = deferring_locked
protocol_guard on_handshake_complete = deferring_locked
protocol_guard on_shutdown_complete = deferring_locked

-- What an inherited method does, one action after the other. `produces` adds a record to the
-- outgoing BIO, `process_outgoing` is `_process_outgoing`, which takes what the BIO has and then
-- writes it; `moves` sets `_state`, `pauses` sets `_app_reading_paused`, `resumes` calls
-- `_resume_reading`, `schedules` gives a method to `call_soon` or `call_later`.
pub data Act : Type 0 where
  produces : ℕ → Act
  process_outgoing pauses resumes : Act
  moves : SslState → Act
  invokes : Entry → Act
  schedules : Entry → Act

-- What CPython's methods do, each given `_state` at its call.
abbrev pub Upstream : Type 0
Upstream = Inherited → SslState → List Act

-- The work of a method: an action, the call of the inherited method, or the test of `_state` in
-- `_resume_reading_locked`.
pub data Op : Type 0 where
  act : Act → Op
  super : Inherited → Op
  dispatches : Op

-- The guard of a method.
unfoldable pub guard_of : Entry → Guard
unfolding app_guard raw_guard callback_guard protocol_guard
guard_of (app m) = app_guard m
guard_of (raw m) = raw_guard m
guard_of (entered m) = callback_guard m
guard_of (protocol m) = protocol_guard m

unfoldable pub work_of : Entry → List Op
work_of (protocol resume_reading_locked) = dispatches ∷ []
work_of e = super (parent e) ∷ []

-- The branches of `_resume_reading_locked`.
unfoldable pub resume_branch : SslState → List Op
resume_branch wrapped = act (invokes (protocol do_read)) ∷ []
resume_branch flushing = super do_flush ∷ []
resume_branch shutdown = super do_shutdown ∷ []
resume_branch unwrapped = []
resume_branch do_handshake = []

-- `threading.RLock`
pub record RLock : Type 0 where
  pub owner : Option ℕ
  pub depth : ℕ

abbrev pub owned_by : ℕ → Option ℕ → Bool
owned_by t none = false
owned_by t (some u) = u == t

-- Whether `t` can take the lock now; otherwise it waits.
unfoldable pub can_acquire : ℕ → RLock → Bool
can_acquire t l = if l.depth == 0 then true else owned_by t l.owner

unfoldable pub acquire : ℕ → RLock → RLock
acquire t l = record { owner = some t; depth = l.depth + 1 }

unfoldable pub release : RLock → RLock
release l =
    if l.depth == 1 then record { owner = none; depth = 0 } else record l { depth = l.depth - 1 }
