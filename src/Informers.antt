-- ===== src/Informers.antt =====
-- The events of client-go's informers, as the controllers' handlers get them.
use contrib_filteredapiexpor.Prelude.{String, Bool, true, false}

-- What a handler of deletions is given: the object, or, where the watch has missed the deletion, a
-- cache.DeletedFinalStateUnknown with the last object that was seen.
pub data Delivered (A : Type 0) : Type 0 where
  object : A → Delivered A
  deleted_final_state_unknown : (key : String) (last : A) → Delivered A

-- The events of an informer.
pub data Event (A : Type 0) : Type 0 where
  added : A → Event A
  updated : (old new : A) → Event A
  deleted : Delivered A → Event A

-- A deletion that the watch has missed.
abbrev pub is_missed_event : {A : Type 0} → Event A → Bool
is_missed_event (deleted (deleted_final_state_unknown key last)) = true
is_missed_event _ = false

-- The object of a delivery, as the watch saw it last.
abbrev pub last_seen : {A : Type 0} → Delivered A → A
last_seen (object a) = a
last_seen (deleted_final_state_unknown key last) = last

-- The object of an event, as the watch saw it last.
abbrev pub subject_of : {A : Type 0} → Event A → A
subject_of (added a) = a
subject_of (updated old a) = a
subject_of (deleted d) = last_seen d
