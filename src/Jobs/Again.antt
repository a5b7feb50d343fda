-- ===== src/Jobs/Again.antt =====
-- `createDurableJob` of go/durable_jobs.go under an idempotency key: asking again finds the job.
use erdai_agent.Prelude.{
  Bool, true, false, String, none, some, ◌≡◌, arith, List, [], ◌∷◌, ◌++◌, inl, inr, str_eq, subst,
  sym, ◌∙◌,
}
use text.Mathlib.TextPositions.{eq_refl}
use erdai_agent.Core.{Env, ok}
use erdai_agent.Jobs.Store.{Job, Store, find_job}
use erdai_agent.Jobs.Create.{
  CreatePayload, Draft, create_job, create_in, new_job, normalize_payload, check_next_run, find_key,
  find_existing, same_key,
}
use erdai_agent.Jobs.Effects.{create_job-in, create_in-jobs, new_job-key}

-- the checks read no more of the world than the parser of times
normalize_payload-parse :
    (e e' : Env) (input : CreatePayload)
    → e.parse_time ≡ e'.parse_time
    → normalize_payload e input ≡ normalize_payload e' input
unfolding normalize_payload check_next_run
normalize_payload-parse e e' input p = λ i. normalize_payload (record e { parse_time = p i }) input

find_key-snoc :
    (owner workspace key : String) (js : List Job) (j : Job)
    → find_key owner workspace key js ≡ none
    → same_key owner workspace key j ≡ true
    → find_key owner workspace key (js ++ j ∷ []) ≡ some j
unfolding find_key
find_key-snoc owner workspace key [] j h y = rw y
find_key-snoc owner workspace key (k ∷ js) j h y =
    ground (arith, find_key-snoc owner workspace key js j)

find_existing-again :
    (e : Env) (input : CreatePayload) (d : Draft) (id cipher : String) (js : List Job)
    → str_eq input.idempotency_key "" ≡ false
    → find_existing d.owner d.workspace input.idempotency_key js ≡ none
    → find_existing d.owner d.workspace input.idempotency_key
        (js ++ new_job e input d id cipher ∷ [])
      ≡ some (new_job e input d id cipher)
unfolding find_existing
find_existing-again e input d id cipher js n h =
    let (_, o, w, y) = new_job-key e input d id cipher in
    rw n (
      find_key-snoc d.owner d.workspace input.idempotency_key js (new_job e input d id cipher)
        (ground arith)
        (rw (o, w, y, eq_refl d.owner, eq_refl d.workspace, eq_refl input.idempotency_key)))

create_in-existing :
    (e : Env) (t : Store) (input : CreatePayload) (d : Draft) (id cipher : String) (j k : Job)
    → find_existing d.owner d.workspace input.idempotency_key t.jobs ≡ some j
    → find_job j.id t.jobs ≡ some k
    → create_in e t input d id cipher ≡ ok (t, k, true)
unfolding create_in
create_in-existing e t input d id cipher j k p q = ground arith

create_job-of :
    (e : Env) (t : Store) (input : CreatePayload) (d : Draft) (id c : String)
    → normalize_payload e input ≡ ok d
    → e.aead ≡ true
    → e.encrypt d.goal ≡ some c
    → e.new_id ≡ some id
    → create_job e t input ≡ create_in e t input d id c
unfolding create_job
create_job-of e t input d id c q a y i = simp (q, a, y, i)

-- Creating a job with an idempotency key, and then asking again with the same input, at any later
-- time and whatever the new identifier and cipher text would be, returns the same job, reports that
-- it was there and changes nothing.
pub create_again :
    (e e' : Env) (s : Store) (input : CreatePayload) (id : String) {t : Store} {k : Job} {b : Bool}
    → create_job e s input ≡ ok (t, k, b)
    → str_eq input.idempotency_key "" ≡ false
    → e.parse_time ≡ e'.parse_time
    → e'.aead ≡ true
    → ((goal : String) → (c : String) × (e'.encrypt goal ≡ some c))
    → e'.new_id ≡ some id
    → create_job e' t input ≡ ok (t, k, true)
create_again e e' s input id {t} {k} h n p a c i =
    let (d, id₁, cipher, q, _, h') = create_job-in e s input h in
    let q' : normalize_payload e' input ≡ ok d = sym (normalize_payload-parse e e' input p) ∙ q in
    let (c', y) = c d.goal in
    create_job-of e' t input d id c' q' a y i ∙ (elim (create_in-jobs e s input d id₁ cipher h') [
      | inl (same, j, f, g) ↦
          create_in-existing e' t input d id c' j k
            (subst (λ u. find_existing d.owner d.workspace input.idempotency_key u.jobs ≡ some j)
              (sym same) f)
            (subst (λ u. find_job j.id u.jobs ≡ some k) (sym same) g)
      | inr (f, _, r, g, _) ↦
          create_in-existing e' t input d id c' (new_job e input d id₁ cipher) k
            (subst
              (λ js.
                find_existing d.owner d.workspace input.idempotency_key js
                ≡ some (new_job e input d id₁ cipher))
              (sym r) (find_existing-again e input d id₁ cipher s.jobs n f))
            (rw (new_job-key e input d id₁ cipher).0 g)
    ])
