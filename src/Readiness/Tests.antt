-- ===== src/Readiness/Tests.antt =====
-- A server whose informers sync in the order of the hook's loop.
use mathlib.Core.List.{Memᴰ}
use contrib_filteredapiexpor.Prelude.{String, true, none, ◌∷◌, [], ◌≡◌, ◌⊎◌, refl}
use contrib_filteredapiexpor.Readiness.{
  informers, waiting, Server, new_server, syncs, goes_on, starts, return_from, IsReachable, new,
  after, ready_check,
}
use contrib_filteredapiexpor.Readiness.Ready.{ready_check_sound}

abbrev all_synced : Server
all_synced = record (new_server informers) {
  synced =
      "filteredapiexportendpointslices" ∷ "apibindings" ∷ "apiexports" ∷ "apiresourceschemas" ∷ [];
}

abbrev running : Server
running = return_from (record all_synced { hook = waiting []; started = true })

reached : IsReachable informers running
reached =
    after
      (after
        (after
          (after
            (after
              (after
                (after (after (after new (syncs "apiresourceschemas")) (syncs "apiexports"))
                  (syncs "apibindings"))
                (syncs "filteredapiexportendpointslices"))
              (goes_on "apiresourceschemas" _ refl
                (Memᴰ.tail (Memᴰ.tail (Memᴰ.tail (Memᴰ.head refl))))))
            (goes_on "apiexports" _ refl (Memᴰ.tail (Memᴰ.tail (Memᴰ.head refl)))))
          (goes_on "apibindings" _ refl (Memᴰ.tail (Memᴰ.head refl))))
        (goes_on "filteredapiexportendpointslices" _ refl (Memᴰ.head refl)))
      (starts refl)

ready : ready_check running ≡ none
unfolding ready_check
ready = refl

ready_check_sound_example :
    ((running.started ≡ true) × ((n : String) → Memᴰ n informers → Memᴰ n running.synced))
    ⊎ (running.is_done ≡ true)
ready_check_sound_example = ready_check_sound informers running (λ n m. m) reached ready
