-- ===== src/Jobs/Moved.antt =====
-- What a round of go/durable_jobs.go makes of the row that it claims, where no other row has its
-- identifier.
use erdai_agent.Prelude.{
  ℕ, suc, ◌+◌, Bool, true, false, String, Option, none, some, str_eq, List, [], ◌∷◌, ◌≡◌, refl,
  arith, sym, subst, ap, ◌∙◌, map, eq_iff, Bool-cases, inl, inr,
}
use text.Mathlib.TextPositions.{eq_refl}
use erdai_agent.Core.{Env, ok}
use erdai_agent.Jobs.Status.{leased, running, is}
use erdai_agent.Jobs.Store.{Job, Store, update_where, count_where}
use erdai_agent.Jobs.Worker.{held_by, claimable, leased_row, running_row, heartbeat_row, heartbeat}
use erdai_agent.Jobs.Identity.{Key, key_of, map-update_where}
use erdai_agent.Jobs.Finish.{RunError, Outcome, outcome, finished_row, finish_job}
use erdai_agent.Jobs.WorkerLoop.{Tables, worker_id, heartbeats, finish_round}
use erdai_agent.Jobs.Only.{Only, Only-update, Only-other, Only-id, count-update, one_if}
use erdai_agent.Jobs.Statements.{Encrypts, running_sub, finish-Only}

-- The row `j` of the list became the row `k`; no key changed, and the other rows stayed.
pub record Moved (id : String) (j k : Job) (js ks : List Job) : Type 0 where
  pub only : Only id k ks
  pub keys : map key_of ks ≡ map key_of js
  pub counts : (p : Job → Bool) → count_where p ks + one_if (p j) ≡ count_where p js + one_if (p k)
  pub rest :
      (other : String) (i : Job) → str_eq id other ≡ false → Only other i js → Only other i ks

pub Moved-trans :
    {id : String} {j k l : Job} {js ks ls : List Job}
    → Moved id j k js ks
    → Moved id k l ks ls
    → Moved id j l js ls
Moved-trans m n = record {
  only = n.only;
  keys = n.keys ∙ m.keys;
  counts = λ p. let a = m.counts p in let b = n.counts p in omega arith;
  rest = λ other i h o. n.rest other i h (m.rest other i h o);
}

Moved-refl : {id : String} {j : Job} {js : List Job} → Only id j js → Moved id j j js js
Moved-refl h = record { only = h; keys = refl; counts = λ p. refl; rest = λ other i n o. o }

module _ (id : String) (test : Job → Bool)
    (sub : (k : Job) → test k ≡ true → str_eq k.id id ≡ true) where
  unselected_other :
      (other : String) (i : Job) (js : List Job)
      → str_eq id other ≡ false
      → Only other i js
      → test i ≡ false
  unselected_other other i js n o = elim (Bool-cases (test i)) [
    | inr z ↦ z
    | inl y ↦
        let a : i.id ≡ id = (eq_iff i.id id).0 (sub i y) in
        let b = ap (λ key. str_eq key other) (sym a) ∙ Only-id other i js o in absurd (ground arith)
  ]

  pub Moved-update :
      (f : Job → Job) (j : Job) (js ks : List Job)
      → ((k : Job) → key_of (f k) ≡ key_of k)
      → test j ≡ true
      → Only id j js
      → ks ≡ update_where test f js
      → Moved id j (f j) js ks
  Moved-update f j js ks same t h q =
      let i : str_eq (f j).id id ≡ true = ap (λ k. str_eq k.id id) (same j) ∙ sub j t in
      subst (Moved id j (f j) js) (sym q) (record {
        only = Only-update id test sub f j js t i h;
        keys = map-update_where test f same js;
        counts = λ p. count-update id test sub p f j js t h;
        rest = λ other i n o.
            Only-other other test f i (λ k. ap (λ (y : Key). y.id) (same k))
              (unselected_other other i js n o) js o;
      })

heartbeat-held :
    (e : Env) (id w : String) (j : Job)
    → held_by id running w j ≡ true
    → held_by id running w (heartbeat_row e j) ≡ true
unfolding heartbeat_row
heartbeat-held e id w j h = h

heartbeat-key : (e : Env) (j : Job) → key_of (heartbeat_row e j) ≡ key_of j
unfolding heartbeat_row
heartbeat-key e j = refl

-- the row that a running round holds, in its `n`-th attempt
abbrev pub Running : String → ℕ → Job → Type 0
Running id n k = (held_by id running worker_id k ≡ true) × (k.attempts ≡ n)

pub heartbeats-Only :
    (es : List Env) (id : String) (n : ℕ) (s : Store) (j : Job)
    → Running id n j
    → Only id j s.jobs
    → (k : Job) × Running id n k × Moved id j k s.jobs (heartbeats es id s).jobs
unfolding heartbeats heartbeat heartbeat_row
heartbeats-Only [] id n s j r h = (j, r, Moved-refl h)
heartbeats-Only (e ∷ es) id n s j r h =
    let m =
      Moved-update id (held_by id running worker_id) (running_sub id worker_id) (heartbeat_row e) j
        s.jobs _ (heartbeat-key e) r.0 h refl in
    let (k, r', m') =
      heartbeats-Only es id n (heartbeat e s id worker_id) (heartbeat_row e j) r m.only in
    (k, r', Moved-trans m m')

-- a row that no worker holds, that none claims, and that has had its attempt
pub record Settled (n : ℕ) (k : Job) : Type 0 where
  pub released :
      (is k.status leased ≡ false) × (is k.status running ≡ false) × (k.lease_owner ≡ none)
  pub unclaimed : (now : ℕ) → claimable now k ≡ false
  pub counted : k.attempts ≡ n

finished_row-Settled :
    (e : Env) (job : Job) (x : Option RunError) (j : Job)
    → Settled j.attempts (finished_row e job (outcome e job x) j)
unfolding finished_row outcome claimable
finished_row-Settled e job x j = record {
  released = ground arith;
  unclaimed = λ now. ground arith;
  counted = refl;
}

finished_row-key :
    (e : Env) (job : Job) (o : Outcome) (j : Job) → key_of (finished_row e job o j) ≡ key_of j
unfolding finished_row
finished_row-key e job o j = refl

pub finish_round-Settled :
    (e : Env) (job : Job) (run : Option String) (reply : String) (x : Option RunError) (t : Tables)
    (n : ℕ) (j : Job)
    → Encrypts e
    → Running job.id n j
    → Only job.id j t.store.jobs
    → (k : Job) × Settled n k
      × Moved job.id j k t.store.jobs (finish_round e job run reply x t).store.jobs
finish_round-Settled e job run reply x t n j a r h =
    let (s, p, q) = finish-Only e t.store job worker_id reply x j a r.0 h in
    let k = finished_row e job (outcome e job x) j in
    let m =
      Moved-update job.id (held_by job.id running worker_id) (running_sub job.id worker_id)
        (finished_row e job (outcome e job x)) j t.store.jobs s.jobs
        (finished_row-key e job (outcome e job x)) r.0 h q in
    (
      k,
      subst (λ i. Settled i k) r.1 (finished_row-Settled e job x j),
      subst (λ js. Moved job.id j k t.store.jobs js) (sym (jobs_of run s p)) m,
    )
  where
    jobs_of :
        (o : Option String) (s : Store)
        → finish_job e t.store job worker_id reply x ≡ ok s
        → (finish_round e job o reply x t).store.jobs ≡ s.jobs
    jobs_of none s p = rw p refl
    jobs_of (some id) s p = rw p refl

pub leased_row-key : (e : Env) (w : String) (j : Job) → key_of (leased_row e w j) ≡ key_of j
unfolding leased_row
leased_row-key e w j = refl

pub leased_row-held :
    (e : Env) (w : String) (j : Job) → held_by j.id leased w (leased_row e w j) ≡ true
unfolding leased_row
leased_row-held e w j = rw (eq_refl j.id, eq_refl w) refl

pub running_row-key : (e : Env) (j : Job) → key_of (running_row e j) ≡ key_of j
unfolding running_row
running_row-key e j = refl

pub running_row-Running :
    (e : Env) (j : Job) → Running j.id (suc j.attempts) (running_row e (leased_row e worker_id j))
unfolding leased_row running_row
running_row-Running e j = (rw (eq_refl j.id) refl, refl)
