-- ===== src/Health/Samples.antt =====
-- The routing of go/provider_health.go as a function of the samples that were taken.
use text.Mathlib.TextPositions.{eq_refl}
use erdai_agent.Prelude.{
  ℕ, suc, ◌≤◌, leb, Bool, true, false, not, if◌then◌else◌, String, Option, some, ◌≡◌, refl, arith,
  List, [], ◌∷◌, inl, inr, ◌⊎◌, Bool-cases, subst, sym, ap, ◌∙◌, str_eq, eq_iff, leb→le, if_true,
  if_false,
}
use erdai_agent.Core.{Stamp}
use erdai_agent.Health.Store.{
  HealthRow, Sample, HealthDb, find_health, last_sample, row_healthy, row_failures, was_healthy,
  next_failures, next_healthy, put_health, record_health,
}

-- the samples of an endpoint, newest first
unfoldable pub samples_of : String → List Sample → List Bool
samples_of id [] = []
samples_of id (s ∷ ss) =
    let rest = samples_of id ss in if str_eq s.endpoint_id id then s.healthy ∷ rest else rest

-- the failures since the last success
unfoldable pub failing : List Bool → ℕ
failing [] = 0
failing (true ∷ bs) = 0
failing (false ∷ bs) = suc (failing bs)

abbrev pub latest : List Bool → Bool
latest [] = false
latest (b ∷ bs) = b

-- three failures in a row were seen, and no two successes in a row since
abbrev pub Tripped : List Bool → Type 0
Tripped [] = ⊥
Tripped (true ∷ bs) = (latest bs ≡ false) × Tripped bs
Tripped (false ∷ bs) = (2 ≤ failing bs) ⊎ Tripped bs

find-put :
    (r : HealthRow) (rs : List HealthRow) → find_health r.endpoint_id (put_health r rs) ≡ some r
unfolding find_health put_health
find-put r [] = rw (eq_refl r.endpoint_id) refl
find-put r (q ∷ qs) = elim (Bool-cases (str_eq q.endpoint_id r.endpoint_id)) [
  | inl y ↦ rw y (rw (eq_refl r.endpoint_id) refl)
  | inr n ↦ rw n (rw n (find-put r qs))
]

find-put_other :
    (id : String) (r : HealthRow)
    → str_eq r.endpoint_id id ≡ false
    → (rs : List HealthRow) → find_health id (put_health r rs) ≡ find_health id rs
unfolding find_health put_health
find-put_other id r n [] = rw n refl
find-put_other id r n (q ∷ qs) = elim (Bool-cases (str_eq q.endpoint_id r.endpoint_id)) [
  | inl y ↦
      let e = (eq_iff q.endpoint_id r.endpoint_id).0 y in
      let m : str_eq q.endpoint_id id ≡ false = subst (λ i. str_eq i id ≡ false) (sym e) n in
      rw y (rw (n, m) refl)
  | inr z ↦ rw z (rw (find-put_other id r n qs) refl)
]

last-samples :
    (id : String) (ss : List Sample) → was_healthy (last_sample id ss) ≡ latest (samples_of id ss)
unfolding last_sample samples_of
last-samples id [] = refl
last-samples id (s ∷ ss) = elim (Bool-cases (str_eq s.endpoint_id id)) [
  | inl y ↦ rw y refl
  | inr n ↦ rw n (last-samples id ss)
]

-- what the tables hold for an endpoint, against its samples
abbrev Agrees : Option HealthRow → List Bool → Type 0
Agrees o bs =
    (row_failures o ≡ failing bs)
    × ((row_healthy o ≡ false → Tripped bs) × (Tripped bs → row_healthy o ≡ false))

-- one check of the endpoint
agrees_next :
    (b routing : Bool) (f : ℕ) (o : Option Bool) (bs : List Bool)
    → f ≡ failing bs
    → was_healthy o ≡ latest bs
    → (routing ≡ false → Tripped bs)
    → (Tripped bs → routing ≡ false)
    → (next_failures b f ≡ failing (b ∷ bs))
      × ((next_healthy b routing (next_failures b f) o ≡ false → Tripped (b ∷ bs))
          × (Tripped (b ∷ bs) → next_healthy b routing (next_failures b f) o ≡ false))
unfolding failing
agrees_next true true f o bs p q u v = (refl, (λ h. cc, λ t. v t.1))
agrees_next true false f o bs p q u v = (refl, (λ h. (sym q ∙ h, u refl), λ t. q ∙ t.0))
agrees_next false routing f o bs p q u v = elim (Bool-cases (leb 3 (suc f))) [
  | inl y ↦
      let l = leb→le 3 (suc f) y in
      let m : 2 ≤ failing bs = omega arith in (ap suc p, (λ h. inl m, λ t. rw y refl))
  | inr n ↦
      let few : (2 ≤ failing bs) → ⊥ = λ l. absurd (ground arith) in
      (
        ap suc p,
        (rw n (λ h. inr (u h)), rw n (λ t. elim t [ inl l ↦ absurd (few l) | inr t' ↦ v t' ])),
      )
]

pub data HealthReach : HealthDb → Type 0 where
  opens : HealthReach (record { rows = []; samples = [] })
  checks :
      {db : HealthDb} (now : Stamp) (id : String) (healthy : Bool) (latency : ℕ) (message : String)
      → HealthReach db
      → HealthReach (record_health now db id healthy latency message)

record_health-Agrees :
    (now : Stamp) (db : HealthDb) (k : String) (b : Bool) (latency : ℕ) (message : String)
    → Agrees (find_health k db.rows) (samples_of k db.samples)
    → Agrees
        (find_health k (record_health now db k b latency message).rows)
        (samples_of k (record_health now db k b latency message).samples)
unfolding record_health samples_of
record_health-Agrees now db k b latency message (p, (u, v)) =
    let row = find_health k db.rows in
    let next : HealthRow = record {
      endpoint_id = k;
      healthy =
          next_healthy b (row_healthy row) (next_failures b (row_failures row))
            (last_sample k db.samples);
      latency_ms = latency;
      errs = not b;
      consecutive_failures = next_failures b (row_failures row);
      status_message = message;
      checked_at = now;
    } in
    let bs = samples_of k db.samples in
    subst (λ o. Agrees o (if str_eq k k then b ∷ bs else bs)) (sym (find-put next db.rows))
      (subst (Agrees (some next)) (sym (if_true (str_eq k k) (b ∷ bs) bs (eq_refl k))) (
        agrees_next b (row_healthy row) (row_failures row) (last_sample k db.samples) bs p
          (last-samples k db.samples) u v))

record_health-other :
    (now : Stamp) (db : HealthDb) (k id : String) (b : Bool) (latency : ℕ) (message : String)
    → str_eq k id ≡ false
    → Agrees (find_health id db.rows) (samples_of id db.samples)
    → Agrees
        (find_health id (record_health now db k b latency message).rows)
        (samples_of id (record_health now db k b latency message).samples)
unfolding record_health samples_of
record_health-other now db k id b latency message n v =
    let bs = samples_of id db.samples in
    subst (λ o. Agrees o (if str_eq k id then b ∷ bs else bs)) (sym (find-put_other id _ n db.rows))
      (subst (Agrees (find_health id db.rows)) (sym (if_false (str_eq k id) (b ∷ bs) bs n)) v)

HealthReach-Agrees :
    {db : HealthDb}
    → HealthReach db
    → (id : String) → Agrees (find_health id db.rows) (samples_of id db.samples)
unfolding samples_of find_health failing
HealthReach-Agrees opens id = (refl, (λ h. cc, λ t. absurd t))
HealthReach-Agrees (checks {db} now k b latency message r) id = elim (Bool-cases (str_eq k id)) [
  | inl y ↦
      subst
        (λ i.
          Agrees (find_health i (record_health now db k b latency message).rows)
            (samples_of i (record_health now db k b latency message).samples))
        ((eq_iff k id).0 y)
        (record_health-Agrees now db k b latency message (HealthReach-Agrees r k))
  | inr n ↦ record_health-other now db k id b latency message n (HealthReach-Agrees r id)
]

-- In every history of checks, of any endpoints, an endpoint is out of the routing exactly while three
-- failures in a row were seen and no two successes in a row since.
pub HealthReach-Tripped :
    {db : HealthDb}
    → HealthReach db
    → (id : String)
    → (row_healthy (find_health id db.rows) ≡ false → Tripped (samples_of id db.samples))
      × (Tripped (samples_of id db.samples) → row_healthy (find_health id db.rows) ≡ false)
HealthReach-Tripped r id = (HealthReach-Agrees r id).1
