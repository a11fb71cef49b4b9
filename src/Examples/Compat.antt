-- ===== src/Examples/Compat.antt =====
-- The shim: the theorems of `Compat` at a small process.
use Prim.Native.String.{String}
use text.Mathlib.Text.{◌==◌ as str_eq}
use mt_asyncio.Prelude.{ℕ, ◌≡◌, refl, ◌&&◌, ◌||◌, Option, none, some, if◌then◌else◌}
use mt_asyncio.Compat.{Process, install, uninstall}
use mt_asyncio.Compat.Restore.{uninstall-install}

-- The attributes `run` and `sleep` of `mt_asyncio.asyncio`.
abbrev ours : String → Option ℕ
ours n = if str_eq n "run" then some 7 else if str_eq n "sleep" then some 8 else none

-- `asyncio` has both, and `socket` has a `run` of its own.
abbrev before : Process
before = record {
  loaded = λ m. str_eq m "asyncio" || str_eq m "socket";
  attr = λ m n.
      if str_eq n "run"
      then some 1
      else if str_eq m "asyncio" && str_eq n "sleep"
      then some 2
      else none;
  installed = none;
}

uninstall-install_example :
    ((uninstall (install ours before)).attr "asyncio" "run" ≡ some 1)
    × ((uninstall (install ours before)).installed ≡ none)
    × (install ours (install ours before) ≡ install ours before)
uninstall-install_example = uninstall-install ours before "asyncio" "run" refl
