-- ===== src/Search/Again.antt =====
-- `recoverInterruptedRuntime` of go/runtime_recovery.go leaves nothing that a later start would change.
use erdai_agent.Prelude.{
  Bool, not, ◌&&◌, str_eq, List, [], ◌∷◌, map, ◌≡◌, refl, inl, inr, Bool-cases, ap, ap₂,
}
use erdai_agent.Core.{Stamp}
use erdai_agent.Tasks.Store.{Receipt}
use erdai_agent.Search.Store.{Query, TaskRun, SearchDb, delete_queries}
use erdai_agent.Search.Recover.{
  recover_interrupted_runtime, move_receipts, still_running, requeued, has_input, suspended,
  is_generation, is_media_checkpoint,
}

delete-delete :
    (drop : Query → Bool) (qs : List Query)
    → delete_queries drop (delete_queries drop qs) ≡ delete_queries drop qs
unfolding delete_queries
delete-delete drop [] = refl
delete-delete drop (q ∷ qs) = elim (Bool-cases (drop q)) [
  | inl y ↦ rw y (delete-delete drop qs)
  | inr n ↦ rw n (rw n (ap (◌∷◌ q) (delete-delete drop qs)))
]

map-map {ℓ} :
    {A : Type ℓ} (f g : A → A)
    → ((x : A) → f (g x) ≡ g x)
    → (xs : List A) → map f (map g xs) ≡ map g xs
map-map f g h [] = refl
map-map f g h (x ∷ xs) = ap₂ ◌∷◌ (h x) (map-map f g h xs)

requeued-requeued : (t t' : Stamp) (r : TaskRun) → requeued t' (requeued t r) ≡ requeued t r
requeued-requeued t t' r =
    elim (Bool-cases (str_eq r.state "running" && has_input r.input_cipher)) [
      | inl y ↦ rw y refl
      | inr n ↦ rw n (rw n refl)
    ]

suspended-suspended : (t t' : Stamp) (s : Receipt) → suspended t' (suspended t s) ≡ suspended t s
unfolding suspended
suspended-suspended t t' s =
    elim (Bool-cases (
      str_eq s.status "running"
      && not (is_generation s.name)
      && not (is_media_checkpoint s.name))) [ inl y ↦ rw y refl | inr n ↦ rw n (rw n refl) ]

-- A second recovery, at any later time, changes nothing: what the first one moved, cleared, queued and
-- suspended is not resurrected by the next restart.
pub recover-recover :
    (t t' : Stamp) (db : SearchDb)
    → recover_interrupted_runtime t' (recover_interrupted_runtime t db)
      ≡ recover_interrupted_runtime t db
unfolding recover_interrupted_runtime move_receipts
recover-recover t t' db =
    rw
      (
        delete-delete still_running (move_receipts db.legacy db.queries),
        map-map (requeued t') (requeued t) (requeued-requeued t t') db.runs,
        map-map (suspended t') (suspended t) (suspended-suspended t t') db.steps,
      )
      refl
