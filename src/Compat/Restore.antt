-- ===== src/Compat/Restore.antt =====
-- What `install` and `uninstall` of mt_asyncio/asyncio/_compat.py leave in the stdlib's modules.
use Prim.Native.String.{String}
use text.Mathlib.Text.{◌==◌ as str_eq}
use text.Mathlib.TextEquality.{eq_iff}
use mathlib.Core.List.{reverse, reverse-append}
use mt_asyncio.Prelude.{
  ℕ, ◌≡◌, refl, ◌∙◌, Bool, true, false, ◌&&◌, ◌||◌, Option, none, some, List, [], ◌∷◌, arith,
  if◌then◌else◌, ap,
}
use mt_asyncio.Compat.Names.{shadowed, target_modules}
use mt_asyncio.Compat.{
  Namespace, Saved, Process, set_attr, rebind, shadow_names, shadow_modules, install, restore,
  uninstall,
}

-- Restoring reads the namespace pointwise.
restore-agree :
    (saved : List Saved) (a b : Namespace)
    → ((m n : String) → a m n ≡ b m n)
    → (m n : String) → restore saved a m n ≡ restore saved b m n
unfolding restore
restore-agree [] a b h m n = h m n
restore-agree (s ∷ saved) a b h m n =
    restore-agree saved (set_attr s.mod_name s.name s.original a)
      (set_attr s.mod_name s.name s.original b) (λ j k. ground (arith, h j k)) m n

-- A write that puts back what a first write replaced.
set_back :
    (a : Namespace) (m n : String) (o old : ℕ)
    → a m n ≡ some old
    → (j k : String) → set_attr m n old (set_attr m n o a) j k ≡ a j k
set_back a m n o old e j k = ground (arith, e, eq_iff m j, eq_iff n k)

-- `saved` leads back to `original`.
abbrev Undoes : Namespace → Namespace × List Saved → Type 0
Undoes original r = (m n : String) → restore (reverse r.1) r.0 m n ≡ original m n

rebind-Undoes :
    (original a : Namespace) (saved : List Saved) (m n : String) (mine old : Option ℕ)
    → a m n ≡ old
    → Undoes original (a, saved)
    → Undoes original (rebind m n mine old (a, saved))
unfolding restore
rebind-Undoes original a saved m n none old e h j k = h j k
rebind-Undoes original a saved m n (some o) none e h j k = h j k
rebind-Undoes original a saved m n (some o) (some old) e h j k =
    rw (reverse-append saved (record { mod_name = m; name = n; original = old } ∷ [])) (
      restore-agree (reverse saved) (set_attr m n old (set_attr m n o a)) a (set_back a m n o old e)
        j k
      ∙ h j k)

shadow_names-Undoes :
    (ours : String → Option ℕ) (original : Namespace) (m : String) (ns : List String)
    (r : Namespace × List Saved)
    → Undoes original r
    → Undoes original (shadow_names ours m ns r)
unfolding shadow_names
shadow_names-Undoes ours original m [] r h = h
shadow_names-Undoes ours original m (n ∷ ns) (a, saved) h =
    shadow_names-Undoes ours original m ns (rebind m n (ours n) (a m n) (a, saved))
      (rebind-Undoes original a saved m n (ours n) (a m n) refl h)

if-Undoes :
    (original : Namespace) (b : Bool) (r r' : Namespace × List Saved)
    → Undoes original r
    → Undoes original r'
    → Undoes original (if b then r else r')
if-Undoes original true r r' h h' = h
if-Undoes original false r r' h h' = h'

shadow_modules-Undoes :
    (ours : String → Option ℕ) (loaded : String → Bool) (original : Namespace) (ms ns : List String)
    (r : Namespace × List Saved)
    → Undoes original r
    → Undoes original (shadow_modules ours loaded ms ns r)
unfolding shadow_modules
shadow_modules-Undoes ours loaded original [] ns r h = h
shadow_modules-Undoes ours loaded original (m ∷ ms) ns r h =
    shadow_modules-Undoes ours loaded original ms ns
      (if loaded m then shadow_names ours m ns r else r)
      (if-Undoes original (loaded m) (shadow_names ours m ns r) r
        (shadow_names-Undoes ours original m ns r h) h)

-- `uninstall` takes `install` back: where the names were not rebound, every attribute of every module is
-- again what it was, nothing counts as installed, and a second `install` in between changed nothing.
pub uninstall-install :
    (ours : String → Option ℕ) (p : Process) (m n : String)
    → p.installed ≡ none
    → ((uninstall (install ours p)).attr m n ≡ p.attr m n)
      × ((uninstall (install ours p)).installed ≡ none)
      × (install ours (install ours p) ≡ install ours p)
unfolding install uninstall restore
uninstall-install ours p m n e = rw e (
  shadow_modules-Undoes ours p.loaded p.attr target_modules shadowed (p.attr, []) (λ j k. refl) m n,
  refl,
  refl,
)

-- A module's name stands in the list.
abbrev pub among : String → List String → Bool
among a [] = false
among a (x ∷ xs) = str_eq x a || among a xs

abbrev pub is_some : Option ℕ → Bool
is_some none = false
is_some (some o) = true

abbrev pub or_else : Option ℕ → Option ℕ → Option ℕ
or_else none b = b
or_else (some o) b = some o

-- What an attribute reads as, if it is rebound.
abbrev pub rebound : Bool → Option ℕ → Option ℕ → Option ℕ
rebound false mine old = old
rebound true mine none = none
rebound true mine (some o) = or_else mine (some o)

rebound_again :
    (b c : Bool) (mine old : Option ℕ)
    → rebound b mine (rebound c mine old) ≡ rebound (c || b) mine old
rebound_again false c mine old = ground arith
rebound_again true c mine old = ground arith

rebind-attr :
    (ours : String → Option ℕ) (a : Namespace) (saved : List Saved) (m n j k : String)
    (mine old : Option ℕ)
    → ours n ≡ mine
    → a m n ≡ old
    → (rebind m n mine old (a, saved)).0 j k ≡ rebound (str_eq m j && str_eq n k) (ours k) (a j k)
rebind-attr ours a saved m n j k none old e h = ground (arith, e, h, eq_iff m j, eq_iff n k)
rebind-attr ours a saved m n j k (some o) none e h = ground (arith, e, h, eq_iff m j, eq_iff n k)
rebind-attr ours a saved m n j k (some o) (some old) e h =
    ground (arith, e, h, eq_iff m j, eq_iff n k)

shadow_names_lem :
    (ours : String → Option ℕ) (m : String) (ns : List String) (r : Namespace × List Saved)
    (j k : String)
    → (shadow_names ours m ns r).0 j k ≡ rebound (str_eq m j && among k ns) (ours k) (r.0 j k)
unfolding shadow_names
shadow_names_lem ours m [] r j k = ground arith
shadow_names_lem ours m (n ∷ ns) (a, saved) j k =
    shadow_names_lem ours m ns (rebind m n (ours n) (a m n) (a, saved)) j k
    ∙ ap (rebound (str_eq m j && among k ns) (ours k))
        (rebind-attr ours a saved m n j k (ours n) (a m n) refl refl)
    ∙ rebound_again (str_eq m j && among k ns) (str_eq m j && str_eq n k) (ours k) (a j k)
    ∙ ground arith

shadow_modules_lem :
    (ours : String → Option ℕ) (loaded : String → Bool) (ms ns : List String)
    (r : Namespace × List Saved) (j k : String)
    → (shadow_modules ours loaded ms ns r).0 j k
      ≡ rebound (loaded j && (among j ms && among k ns)) (ours k) (r.0 j k)
unfolding shadow_modules
shadow_modules_lem ours loaded [] ns r j k = ground arith
shadow_modules_lem ours loaded (m ∷ ms) ns r j k =
    let next : Namespace × List Saved = if loaded m then shadow_names ours m ns r else r in
    let here : next.0 j k ≡ rebound (loaded m && (str_eq m j && among k ns)) (ours k) (r.0 j k) =
      ground (arith, shadow_names_lem ours m ns r j k) in
    shadow_modules_lem ours loaded ms ns next j k
    ∙ ap (rebound (loaded j && (among j ms && among k ns)) (ours k)) here
    ∙ rebound_again (loaded j && (among j ms && among k ns))
        (loaded m && (str_eq m j && among k ns)) (ours k) (r.0 j k)
    ∙ ground (arith, eq_iff m j)

-- What `install` rebinds: exactly the attributes with a shadowed name that a loaded target module has and
-- for which `mt_asyncio.asyncio` has its own; they read as its own. All others read as before.
pub install_lem :
    (ours : String → Option ℕ) (p : Process) (m n : String)
    → p.installed ≡ none
    → (install ours p).attr m n
      ≡ rebound (p.loaded m && (among m target_modules && among n shadowed)) (ours n) (p.attr m n)
unfolding install
install_lem ours p m n e =
    rw e (shadow_modules_lem ours p.loaded target_modules shadowed (p.attr, []) m n)
