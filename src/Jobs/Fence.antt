-- ===== src/Jobs/Fence.antt =====
-- A lease of go/durable_jobs.go fences its holder: one claim hands a job out, one finish settles it,
-- and an expired lease settles nothing.
use erdai_agent.Prelude.{
  Bool, false, String, some, ◌≡◌, ◌≢◌, refl, arith, List, [], ◌∷◌, All, inl, inr, Bool-cases,
  str_eq, eq_iff, subst, sym, ap, ◌∙◌,
}
use erdai_agent.Core.{Env, ok}
use erdai_agent.Jobs.Status.{queued}
use erdai_agent.Jobs.Store.{Job, Store, find_job, update_where, count_where}
use erdai_agent.Jobs.Worker.{with_status, leased_row, claim_job}
use erdai_agent.Jobs.Rows.{All-mem}
use erdai_agent.Jobs.Effects.{claim_job-jobs}
use erdai_agent.Jobs.Claim.{pick-claimable, claimable-queued}

pub count_none :
    (test : Job → Bool) (js : List Job) → All (λ j. test j ≡ false) js → count_where test js ≡ 0
unfolding count_where
count_none test [] h = refl
count_none test (j ∷ js) h = ground (arith, count_none test js h.1)

-- an update whose rows leave the test leaves no row of the test
pub emptied :
    (test : Job → Bool) (f : Job → Job)
    → ((j : Job) → test (f j) ≡ false)
    → (js : List Job) → All (λ j. test j ≡ false) (update_where test f js)
unfolding update_where
emptied test f h [] = tt
emptied test f h (j ∷ js) =
    (elim (Bool-cases (test j)) [ inl y ↦ rw y (h j) | inr n ↦ rw n n ], emptied test f h js)

pub find-id : (id : String) (js : List Job) {j : Job} → find_job id js ≡ some j → j.id ≡ id
unfolding find_job
find-id id [] h = cc
find-id id (k ∷ js) {j} h = elim (Bool-cases (str_eq k.id id)) [
  | inl y ↦ let e : k ≡ j = ground arith in ap (λ i. i.id) (sym e) ∙ (eq_iff k.id id).0 y
  | inr n ↦ find-id id js {j = j} (ground arith)
]

leased_row-not_queued :
    (e : Env) (w id : String) (j : Job) → with_status id queued (leased_row e w j) ≡ false
unfolding leased_row
leased_row-not_queued e w id j = ground arith

-- Two claims in a row hand out two jobs.
claim_twice :
    (e e' : Env) (s : Store) (w w' : String) {t u : Store} {k k' : Job}
    → claim_job e s w ≡ ok (t, some k)
    → claim_job e' t w' ≡ ok (u, some k')
    → k'.id ≢ k.id
claim_twice e e' s w w' {t} {u} {k} {k'} h h' same =
    let (j, p, _, q, f) = claim_job-jobs e s w h in
    let (j', p', _, _, f') = claim_job-jobs e' t w' h' in
    let (m, y) = pick-claimable e'.now t.jobs p' in
    let (y', _) = claimable-queued e'.now j' y in
    let gone : All (λ i. with_status j.id queued i ≡ false) t.jobs =
      subst (All (λ i. with_status j.id queued i ≡ false)) (sym q) (
        emptied (with_status j.id queued) (leased_row e w) (leased_row-not_queued e w j.id)
          s.jobs) in
    let no = All-mem (λ i. with_status j.id queued i ≡ false) t.jobs m gone in
    let i : j'.id ≡ j.id = sym (find-id j'.id _ f') ∙ same ∙ find-id j.id _ f in
    let no' = subst (λ n. with_status n queued j' ≡ false) (sym i) no in cc
