-- ===== src/Resolver/State.antt =====
-- crates/murl-core/src/resolver.rs: `State`, with what the cache and the fetcher keep, and computations
-- on it. The state comes back after an error too.
use m_url.Base.{ℕ, Bool, true, false, List, [], ◌∷◌, ◌++◌, Result, ok, err}
use m_url.Base.Text.{Bytes}
use m_url.Cache.{Files}
use m_url.Resolver.Types.{ResolvedNode, PlannedResource, Warning, ResolveFault, Request}

-- The stack has the last identity first. `files` is the cache directory, and `requests` are those
-- made so far, the last one first.
pub record State : Type 0 where
  pub nodes : List ResolvedNode
  pub resources : List PlannedResource
  pub warnings : List Warning
  pub stack : List Bytes
  pub visited : List Bytes
  pub dedup : List (Bytes × Bytes)
  pub manifests : ℕ
  pub files : Files
  pub requests : List Request

-- `State::default()`, on the files of the cache.
abbrev pub fresh_state : Files → State
fresh_state files = record {
  nodes = [];
  resources = [];
  warnings = [];
  stack = [];
  visited = [];
  dedup = [];
  manifests = 0;
  files = files;
  requests = [];
}

abbrev pub Action : Type 0 → Type 0
Action A = State → Result ResolveFault A × State

module _ {A : Type 0} where
  abbrev pub done : A → Action A
  done a st = (ok a, st)

  abbrev pub raise : ResolveFault → Action A
  raise e st = (err e, st)

  -- `result.map_err(f)?`
  abbrev pub lift : {E : Type 0} → (E → ResolveFault) → Result E A → Action A
  lift f (ok a) = done a
  lift f (err e) = raise (f e)

abbrev pub after :
    {A B : Type 0} → (A → Action B) → Result ResolveFault A × State → Result ResolveFault B × State
after f (ok a, st) = f a st
after f (err e, st) = (err e, st)

infixl 5 ◌>>=◌ ◌>>◌
abbrev pub ◌>>=◌ : {A B : Type 0} → Action A → (A → Action B) → Action B
◌>>=◌ m f st = after f (m st)

abbrev pub ◌>>◌ : {B : Type 0} → Action (Unit {0}) → Action B → Action B
m >> k = m >>= λ u. k

abbrev pub raise_if : Bool → ResolveFault → Action (Unit {0})
raise_if true e = raise e
raise_if false e = done tt

abbrev pub modify : (State → State) → Action (Unit {0})
modify f st = (ok tt, f st)

abbrev pub with_state : {A : Type 0} → (State → Action A) → Action A
with_state f st = f st st

abbrev pub add_warning : Warning → State → State
add_warning w st = record st { warnings = st.warnings ++ w ∷ [] }

abbrev pub add_warnings : List Warning → State → State
add_warnings ws st = record st { warnings = st.warnings ++ ws }

abbrev pub warn : Warning → Action (Unit {0})
warn w = modify (add_warning w)

abbrev pub warn_if : Bool → Warning → Action (Unit {0})
warn_if true w = warn w
warn_if false w = done tt
