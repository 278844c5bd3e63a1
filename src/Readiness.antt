-- ===== src/Readiness.antt =====
-- internal/virtual/filteredapiexport/builder/build.go: the post-start hook that starts the API reconciler,
-- and the ready check of the virtual workspace.
pub mod Ready
mod Tests
use mathlib.Core.List.{Memᴰ}
use contrib_filteredapiexpor.Prelude.{
  String, Bool, true, false, Option, none, some, List, [], ◌∷◌, ◌≡◌, if◌then◌else◌,
}
use contrib_filteredapiexpor.Error.{Error, errorf}

-- The informers for which the hook waits.
abbrev pub informers : List String
informers =
    "apiresourceschemas" ∷ "apiexports" ∷ "apibindings" ∷ "filteredapiexportendpointslices" ∷ []

-- Where the hook stands: in its loop, with the informers that are left, or past its end.
pub data Hook : Type 0 where
  waiting : (names : List String) → Hook
  returned : Hook

-- The server: the informers that have synced, whether the hook's context is done, the hook, whether
-- `readyCh` is closed and whether the API reconciler has been started.
pub record Server : Type 0 where
  pub synced : List String
  pub is_done : Bool
  pub hook : Hook
  pub ready_closed : Bool
  pub started : Bool

-- The server before the hook's loop, over the informers in the order of a map.
abbrev pub new_server : List String → Server
new_server order = record {
  synced = [];
  is_done = false;
  hook = waiting order;
  ready_closed = false;
  started = false;
}

-- The end of the hook, with the deferred `close(readyCh)`.
abbrev pub return_from : Server → Server
return_from s = record s { hook = returned; ready_closed = true }

-- What happens, in any order: an informer syncs, the server is stopped, and the hook's loop goes on.
-- WaitForNamedCacheSync returns true once the informer has synced, and false only when the context is
-- done.
pub data Step (s : Server) : Server → Type 0 where
  syncs : (name : String) → Step s (record s { synced = name ∷ s.synced })
  stops : Step s (record s { is_done = true })
  goes_on :
      (name : String) (names : List String)
      → s.hook ≡ waiting (name ∷ names)
      → Memᴰ name s.synced
      → Step s (record s { hook = waiting names })
  gives_up :
      (name : String) (names : List String)
      → s.hook ≡ waiting (name ∷ names)
      → s.is_done ≡ true
      → Step s (return_from s)
  starts : s.hook ≡ waiting [] → Step s (return_from (record s { started = true }))

pub data IsReachable (order : List String) : Server → Type 0 where
  new : IsReachable order (new_server order)
  after : {s s' : Server} → IsReachable order s → Step s s' → IsReachable order s'

-- The ReadyChecker.
unfoldable pub ready_check : Server → Option Error
ready_check s =
    if s.ready_closed
    then none
    else some (errorf "filtered-apiexport virtual workspace controllers are not started" [])
