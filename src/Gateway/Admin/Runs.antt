-- ===== src/Gateway/Admin/Runs.antt =====
-- Creations, updates and deletions one after another, through one gateway.
use ryuk_dpq.Base.{◌≡◌, ◌≢◌, String, Bool, some, List, [], ◌∷◌}
use ryuk_dpq.Base.Dict.{lookup}
use ryuk_dpq.Gateway.Moves.{unsure}
use ryuk_dpq.Gateway.Owners.{Cluster}
use ryuk_dpq.Gateway.Admin.{Settings, Tables, no_owners, evict}
use ryuk_dpq.Gateway.Admin.Operations.{
  Creation, CreateOutcomes, UpdateOutcomes, DeleteOutcomes, create_queue, update_queue,
  delete_queue,
}
use ryuk_dpq.Gateway.Admin.Links.{links, Stands, IsSound}
use ryuk_dpq.Gateway.Admin.Creating.{evict-IsSound, create_queue-IsSound}
use ryuk_dpq.Gateway.Admin.Changing.{update_queue-IsSound}
use ryuk_dpq.Gateway.Admin.Removing.{delete_queue-IsSound}

module _ {F : Type 0} (same_float : F → F → Bool) where
  -- What happens: a request, or an entry of the cache that runs out.
  pub data Request : Type 0 where
    create : Cluster → CreateOutcomes → Creation F → Request
    change : UpdateOutcomes → String → Settings F → Request
    remove : Cluster → DeleteOutcomes → String → Request
    expire : String → Request

  abbrev pub serve : Tables F → Request → Tables F
  serve t (create c o r) = (create_queue same_float c o r t).1
  serve t (change o name s) = (update_queue o name s t).1
  serve t (remove c o name) = (delete_queue c o name t).1
  serve t (expire name) = evict name t

  abbrev pub run : Tables F → List Request → Tables F
  run t [] = t
  run t (r ∷ rs) = run (serve t r) rs

  -- No answer to a change of settings got lost.
  abbrev pub AreSure : List Request → Type 0
  AreSure [] = Unit
  AreSure (change o name s ∷ rs) = (o.update ≢ unsure) × AreSure rs
  AreSure (r ∷ rs) = AreSure rs

  abbrev pub empty_tables : Tables F
  empty_tables = record { queues = []; placement = λ q. no_owners; cache = [] }

  empty-IsSound : IsSound empty_tables
  unfolding lookup
  empty-IsSound = record { linked = λ k s e. absurd cc; known = λ k x e. absurd cc }

  run-IsSound : (t : Tables F) (rs : List Request) → AreSure rs → IsSound t → IsSound (run t rs)
  run-IsSound t [] h v = v
  run-IsSound t (create c o r ∷ rs) h v =
      run-IsSound (serve t (create c o r)) rs h (create_queue-IsSound same_float c o r t v)
  run-IsSound t (change o name s ∷ rs) (sure, h) v =
      run-IsSound (serve t (change o name s)) rs h (update_queue-IsSound o name s t sure v)
  run-IsSound t (remove c o name ∷ rs) h v =
      run-IsSound (serve t (remove c o name)) rs h (delete_queue-IsSound c o name t v)
  run-IsSound t (expire name ∷ rs) h v =
      run-IsSound (serve t (expire name)) rs h (evict-IsSound name t v)

  -- Whatever queues are created, changed and deleted through one gateway, one request after another,
  -- whatever fails on the way and whichever entries of the cache run out, while no answer to a change of
  -- settings gets lost: the dead-letter queue of every queue is in the table.
  pub dead_letter_queues_exist :
      (rs : List Request)
      → AreSure rs
      → (name : String) (s : Settings F) → links (run empty_tables rs) name ≡ some s
      → Stands (links (run empty_tables rs)) s.dead_letter_queue
  dead_letter_queues_exist rs h = (run-IsSound empty_tables rs h empty-IsSound).linked
