-- ===== src/Compat.antt =====
-- mt_asyncio/asyncio/_compat.py: the names of the stdlib's asyncio modules, rebound and restored. A module
-- is its name in `sys.modules`, an object is a number.
pub mod Names
pub mod Restore
use Prim.Native.String.{String}
use text.Mathlib.Text.{◌==◌ as str_eq}
use mathlib.Core.List.{reverse}
use mt_asyncio.Prelude.{
  ℕ, Bool, true, false, ◌&&◌, Option, none, some, List, [], ◌∷◌, ◌++◌, if◌then◌else◌,
}
use mt_asyncio.Compat.Names.{shadowed, target_modules}

-- The attributes of all modules.
abbrev pub Namespace : Type 0
Namespace = String → String → Option ℕ

-- An entry of `saved`: a module, a name, what it was bound to.
pub record Saved : Type 0 where
  pub mod_name : String
  pub name : String
  pub original : ℕ

-- `installed` is the global `_installed`.
pub record Process : Type 0 where
  pub loaded : String → Bool
  pub attr : Namespace
  pub installed : Option (List Saved)

-- `setattr(mod, name, obj)`
abbrev pub set_attr : String → String → ℕ → Namespace → Namespace
set_attr m n o a m' n' = if str_eq m m' && str_eq n n' then some o else a m' n'

-- The body of the inner loop of `install`, at what `getattr(_mt, name, None)` and the module hold.
abbrev rebind :
    String → String → Option ℕ → Option ℕ → Namespace × List Saved → Namespace × List Saved
rebind m n (some o) (some old) (a, saved) =
    (set_attr m n o a, saved ++ record { mod_name = m; name = n; original = old } ∷ [])
rebind m n (some o) none r = r
rebind m n none old r = r

-- The loop over the names, in one module; `ours` gives the attributes of `mt_asyncio.asyncio`.
unfoldable pub shadow_names :
    (String → Option ℕ) → String → List String → Namespace × List Saved → Namespace × List Saved
shadow_names ours m [] r = r
shadow_names ours m (n ∷ ns) r = shadow_names ours m ns (rebind m n (ours n) (r.0 m n) r)

-- The loop over the modules.
unfoldable pub shadow_modules :
    (String → Option ℕ)
    → (String → Bool)
    → List String
    → List String
    → Namespace × List Saved
    → Namespace × List Saved
unfolding shadow_names
shadow_modules ours loaded [] ns r = r
shadow_modules ours loaded (m ∷ ms) ns r =
    shadow_modules ours loaded ms ns (if loaded m then shadow_names ours m ns r else r)

abbrev install_over : (String → Option ℕ) → Option (List Saved) → Process → Process
install_over ours (some saved) p = p
install_over ours none p =
    let (a, saved) = shadow_modules ours p.loaded target_modules shadowed (p.attr, []) in
    record p { attr = a; installed = some saved }

unfoldable pub install : (String → Option ℕ) → Process → Process
install ours p = install_over ours p.installed p

-- The loop of `uninstall`.
unfoldable pub restore : List Saved → Namespace → Namespace
restore [] a = a
restore (s ∷ saved) a = restore saved (set_attr s.mod_name s.name s.original a)

abbrev uninstall_from : Option (List Saved) → Process → Process
uninstall_from none p = p
uninstall_from (some saved) p = record p { attr = restore (reverse saved) p.attr; installed = none }

unfoldable pub uninstall : Process → Process
uninstall p = uninstall_from p.installed p
