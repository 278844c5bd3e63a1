-- ===== src/ApiReconciler/Events.antt =====
-- apiexport_apireconciler_controller.go: the handlers that NewAPIReconciler adds to the informers.
use mathlib.Core.List.{Memᴰ, ◌++◌}
use contrib_filteredapiexpor.Prelude.{
  String, Bool, true, false, Option, none, some, List, [], ◌∷◌, ◌≡◌, refl, arith, All,
}
use contrib_filteredapiexpor.Error.{Result, ok}
use contrib_filteredapiexpor.Informers.{
  Delivered, object, deleted_final_state_unknown, Event, added, updated, deleted, is_missed_event,
  subject_of,
}
use contrib_filteredapiexpor.Api.{ApiExport, EndpointSlice}
use contrib_filteredapiexpor.ApiReconciler.Enqueue.{
  Call, add, Caches, enqueue_slice, enqueue_api_export, enqueue_api_resource_schema,
}

-- An APIResourceSchema: its name, and what DeletionHandlingMetaClusterNamespaceKeyFunc makes of it.
pub record ApiResourceSchema : Type 0 where
  pub name : String
  pub key : Result String

-- The events of the three informers.
pub data Notification : Type 0 where
  slice : Event EndpointSlice → Notification
  export : Event ApiExport → Notification
  schema : Event ApiResourceSchema → Notification

-- obj.(*T), `none` where it panics
unfoldable pub assert_type : {A : Type 0} → Delivered A → Option A
assert_type (object a) = some a
assert_type (deleted_final_state_unknown key last) = none

-- A handler of deletions: the assertion, and then the call.
unfoldable pub delete_func : {A : Type 0} → (A → List Call) → Delivered A → Option (List Call)
delete_func enqueue obj = elim (assert_type obj) [ none ↦ none | some a ↦ some (enqueue a) ]

module _ (caches : Caches) (export_key : ApiExport → Result String) where
  -- The handlers of the endpoint slices; `none` is a panic.
  unfoldable pub on_slice : Event EndpointSlice → Option (List Call)
  on_slice (added s) = some (enqueue_slice caches s)
  on_slice (updated old s) = some (enqueue_slice caches s)
  on_slice (deleted obj) = delete_func (enqueue_slice caches) obj

  -- The handlers of the exports.
  unfoldable pub on_export : Event ApiExport → Option (List Call)
  on_export (added e) = some (enqueue_api_export caches (export_key e) e.name)
  on_export (updated old e) = some (enqueue_api_export caches (export_key e) e.name)
  on_export (deleted obj) = delete_func (λ e. enqueue_api_export caches (export_key e) e.name) obj

  -- The handlers of the schemas, which have no UpdateFunc.
  unfoldable pub on_schema : Event ApiResourceSchema → Option (List Call)
  on_schema (added s) = some (enqueue_api_resource_schema caches s.key s.name)
  on_schema (updated old s) = some []
  on_schema (deleted obj) = delete_func (λ s. enqueue_api_resource_schema caches s.key s.name) obj

  unfoldable pub notify : Notification → Option (List Call)
  notify (slice e) = on_slice e
  notify (export e) = on_export e
  notify (schema e) = on_schema e

  -- A program that gets these notifications, one after the other: its calls, and whether it still runs. A
  -- panic of a handler ends it.
  unfoldable pub run : List Notification → List Call × Bool
  run [] = ([], true)
  run (n ∷ ns) =
      let (later, alive) = run ns in
      elim (notify n) [ none ↦ ([], false) | some calls ↦ (calls ++ later, alive) ]

-- The notification of a missed deletion.
abbrev pub is_missed : Notification → Bool
is_missed (slice e) = is_missed_event e
is_missed (export e) = is_missed_event e
is_missed (schema e) = is_missed_event e

delete_func-none :
    {A : Type 0} (enqueue : A → List Call) (e : Event A)
    → is_missed_event e ≡ true
    → (obj : Delivered A) × (e ≡ deleted obj) × (delete_func enqueue obj ≡ none)
unfolding delete_func assert_type
delete_func-none enqueue (added a) h = absurd (ground (arith, h))
delete_func-none enqueue (updated old a) h = absurd (ground (arith, h))
delete_func-none enqueue (deleted (object a)) h = absurd (ground (arith, h))
delete_func-none enqueue (deleted (deleted_final_state_unknown key last)) h = (_, refl, refl)

module _ (caches : Caches) (export_key : ApiExport → Result String) where
  -- A handler panics exactly at a missed deletion.
  notify_missed : (n : Notification) → is_missed n ≡ true → notify caches export_key n ≡ none
  unfolding notify on_slice on_export on_schema
  notify_missed (slice e) h =
      let (obj, is_deleted, p) = delete_func-none (enqueue_slice caches) e h in rw is_deleted p
  notify_missed (export e) h =
      let (obj, is_deleted, p) =
        delete_func-none (λ x. enqueue_api_export caches (export_key x) x.name) e h in
      rw is_deleted p
  notify_missed (schema e) h =
      let (obj, is_deleted, p) =
        delete_func-none (λ x. enqueue_api_resource_schema caches x.key x.name) e h in
      rw is_deleted p

  notify_seen :
      (n : Notification)
      → is_missed n ≡ false
      → (calls : List Call) × (notify caches export_key n ≡ some calls)
  unfolding notify on_slice on_export on_schema delete_func assert_type
  notify_seen (slice (added s)) h = (_, refl)
  notify_seen (slice (updated old s)) h = (_, refl)
  notify_seen (slice (deleted (object s))) h = (_, refl)
  notify_seen (slice (deleted (deleted_final_state_unknown key s))) h = absurd (ground (arith, h))
  notify_seen (export (added s)) h = (_, refl)
  notify_seen (export (updated old s)) h = (_, refl)
  notify_seen (export (deleted (object s))) h = (_, refl)
  notify_seen (export (deleted (deleted_final_state_unknown key s))) h = absurd (ground (arith, h))
  notify_seen (schema (added s)) h = (_, refl)
  notify_seen (schema (updated old s)) h = (_, refl)
  notify_seen (schema (deleted (object s))) h = (_, refl)
  notify_seen (schema (deleted (deleted_final_state_unknown key s))) h = absurd (ground (arith, h))

  -- Notifications without a missed deletion are all handled. The first missed deletion after them ends
  -- the program: no call is made for it, nor for anything that follows it.
  pub run-missed :
      (before after : List Notification) (n : Notification)
      → All (λ m. is_missed m ≡ false) before
      → is_missed n ≡ true
      → ((run caches export_key before).1 ≡ true)
        × (run caches export_key (before ++ n ∷ after) ≡ ((run caches export_key before).0, false))
  unfolding run
  run-missed [] after n seen missed = (refl, rw (notify_missed n missed, run) refl)
  run-missed (m ∷ before) after n (first, seen) missed =
      let (calls, e) = notify_seen m first in
      let (alive, ends) = run-missed before after n seen missed in
      (rw (e, run) alive, rw (e, run) (rw ends refl))

-- The event of an endpoint slice, unless it is a missed deletion, queues the slice's own key.
pub run_queues :
    (caches : Caches) (export_key : ApiExport → Result String) (e : Event EndpointSlice)
    (k : String)
    → is_missed_event e ≡ false
    → caches.deletion_key (subject_of e) ≡ ok k
    → Memᴰ (add k) (run caches export_key (slice e ∷ [])).0
unfolding run notify on_slice delete_func assert_type enqueue_slice
run_queues caches export_key (added s) k seen keyed = rw (keyed, enqueue_slice) (Memᴰ.head refl)
run_queues caches export_key (updated old s) k seen keyed =
    rw (keyed, enqueue_slice) (Memᴰ.head refl)
run_queues caches export_key (deleted (object s)) k seen keyed =
    rw (keyed, enqueue_slice) (Memᴰ.head refl)
run_queues caches export_key (deleted (deleted_final_state_unknown key s)) k seen keyed =
    absurd (ground (arith, seen))
