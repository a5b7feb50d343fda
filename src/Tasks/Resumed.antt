-- ===== src/Tasks/Resumed.antt =====
-- The whole life of a step of a language model in go/task_model_checkpoint.go: begun, finished, and
-- asked for again after a restart.
use text.Mathlib.TextPositions.{eq_refl}
use erdai_agent.Prelude.{
  ℕ, ◌==◌, true, false, String, none, some, str_eq, List, [], ◌∷◌, ◌≡◌, refl, arith, inl, inr,
  Bool-cases, sym, ap, ◌∙◌, if_true,
}
use erdai_agent.Core.{Result, ok, err, ◌>>=◌, >>=-eq-ok, or_fail, or_fail-eq-ok, guard, failed}
use erdai_agent.Tasks.Store.{
  Receipt, TaskDb, find_step, put_step, update_step, count_step, started_row, restarted_row,
  ended_row,
}
use erdai_agent.Tasks.Operation.{TaskEnv, begin_task_step, finish_encoded}
use erdai_agent.Tasks.Checkpoint.{
  ModelInput, Completion, Target, ModelOutput, ModelEnv, checkpoint_version, is_model_step,
  model_rows, target_index, no_choices, saved_input, restored, answered, from_saved, begun_step,
  from_rows, prepare_model_step, wrapped, finish_model_step,
}

-- what the codecs of the first process promise to the second, for an input and an output
pub record Codec (e e' : ModelEnv) (input : ModelInput) (output : ModelOutput) : Type 0 where
  pub opens : (t c : String) → e.task.encrypt t ≡ some c → e'.decrypt c ≡ some t
  pub inputs : (t : String) → e.encode_input input ≡ some t → e'.decode_input t ≡ some input
  pub outputs : e'.decode_output (e.encode_output output) ≡ some output

abbrev pub output_of : Completion → Target → ModelOutput
output_of completion target = record {
  version = checkpoint_version;
  completion = completion;
  target = target;
}

-- a row that is new under its identifier stands last, alone of its step, and is found by an update
module _ (run : String) (step : ℕ) (id : String) (fresh : Receipt) (f g : Receipt → Receipt)
    (same : fresh.id ≡ id) where
  count-new :
      (ss : List Receipt) → find_step id ss ≡ none → count_step id (put_step id fresh f ss) ≡ 1
  unfolding find_step put_step count_step
  count-new [] h =
      let y : str_eq fresh.id id ≡ true = ap (λ i. str_eq i id) same ∙ eq_refl id in rw y refl
  count-new (s ∷ ss) h = elim (Bool-cases (str_eq s.id id)) [
    | inl y ↦ absurd (ground arith)
    | inr n ↦ let rest : find_step id ss ≡ none = ground arith in rw n (rw n (count-new ss rest))
  ]

  rows-new :
      (ss : List Receipt)
      → is_model_step run step (g fresh) ≡ true
      → find_step id ss ≡ none
      → model_rows run step ss ≡ []
      → model_rows run step (update_step id g (put_step id fresh f ss)) ≡ g fresh ∷ []
  unfolding find_step put_step update_step model_rows
  rows-new [] m h z =
      let y : str_eq fresh.id id ≡ true = ap (λ i. str_eq i id) same ∙ eq_refl id in
      rw y (rw m refl)
  rows-new (s ∷ ss) m h z = elim (Bool-cases (str_eq s.id id)) [
    | inl y ↦ absurd (ground arith)
    | inr n ↦
        let rest : find_step id ss ≡ none = ground arith in
        elim (Bool-cases (is_model_step run step s)) [
          | inl k ↦ absurd (ground arith)
          | inr k ↦
              let z' : model_rows run step ss ≡ [] = ground arith in
              rw n (rw n (rw k (rows-new ss m rest z')))
        ]
  ]

model_step_self :
    (run id model : String) (step : ℕ) (s : Receipt)
    → s.run_id ≡ run
    → s.kind ≡ "model"
    → s.step_index ≡ step
    → is_model_step run step s ≡ true
model_step_self run id model step s p q r =
    let a : str_eq s.run_id run ≡ true = ap (λ x. str_eq x run) p ∙ eq_refl run in
    let b : str_eq s.kind "model" ≡ true = ap (λ x. str_eq x "model") q in
    let c : (s.step_index == step) ≡ true = same_number s.step_index step r in rw (a, b, c) refl
  where
    same_number : (m n : ℕ) → m ≡ n → (m == n) ≡ true
    same_number m n e = ground arith

-- the tables after a step was begun
begin-new :
    (e : TaskEnv) (db : TaskDb) (run model : String) (step : ℕ) (encoded : String) {db' : TaskDb}
    {id : String}
    → begin_task_step e db run "" "model" model step encoded ≡ ok (db', id)
    → (c : String) × (e.encrypt encoded ≡ some c)
      × (db'.steps
          ≡ put_step id
              (started_row e.now id run "" step "model" model c)
              (restarted_row e.now)
              db.steps)
unfolding begin_task_step
begin-new e db run model step encoded {db'} {id} h =
    let (c, p, q) = >>=-eq-ok (or_fail (e.encrypt encoded) (failed "encryption")) _ h in
    (c, or_fail-eq-ok (e.encrypt encoded) _ p, ground (arith, q))

finish-new :
    (e : TaskEnv) (db : TaskDb) (id encoded : String) {db' : TaskDb}
    → finish_encoded e db id "succeeded" "" encoded ≡ ok db'
    → (c : String) × (e.encrypt encoded ≡ some c)
      × (db'.steps ≡ update_step id (ended_row e.now "succeeded" "" (some c)) db.steps)
finish-new e db id encoded h =
    let (c, p, q) = >>=-eq-ok (or_fail (e.encrypt encoded) (failed "encryption")) _ h in
    let (_, _, r) =
      >>=-eq-ok (guard (count_step id db.steps == 1) (failed "task receipt row is missing")) _ q in
    (c, or_fail-eq-ok (e.encrypt encoded) _ p, ground (arith, r))

wrapped-ok : (r : Result TaskDb) {db : TaskDb} → wrapped r ≡ ok db → r ≡ ok db
wrapped-ok (ok x) h = h
wrapped-ok (err x) h = cc

-- what a second process reads from a row that succeeded
module _ (e' : ModelEnv) (input input' : ModelInput) (targets : List Target)
    (completion : Completion) (target : Target) (i : ℕ) (s : Receipt) (plain c encoded : String)
    (q₁ : e'.decrypt s.input_cipher ≡ some plain) (q₂ : e'.decode_input plain ≡ some input)
    (q₃ : s.output_cipher ≡ some c) (q₄ : e'.decrypt c ≡ some encoded)
    (q₅ : e'.decode_output encoded ≡ some (output_of completion target))
    (v : (input.version == checkpoint_version) ≡ true)
    (same : str_eq input.contract input'.contract ≡ true)
    (hist : str_eq input.history input'.history ≡ true)
    (full : no_choices completion.choices ≡ false)
    (aim : target_index target 0 targets ≡ some i) where
  saved_input-read : saved_input e' input' s ≡ ok input
  unfolding saved_input
  saved_input-read = rw (q₁, q₂, v, same, saved_input) refl

  restored-read : restored e' input' targets input s ≡ ok (completion, i)
  unfolding restored
  restored-read = rw (q₃, q₄, q₅, hist, full, aim, restored) refl

  from_rows-read :
      (db : TaskDb) (run : String) (step : ℕ) (model : String)
      → str_eq s.status "succeeded" ≡ true
      → from_rows e' db run step model input' targets (s ∷ []) ≡ ok (db, s.id, some (completion, i))
  unfolding from_rows from_saved
  from_rows-read db run step model y =
      ap (λ m. m >>= from_saved e' db input' targets s) saved_input-read
      ∙ if_true _ _ _ y
      ∙ ap (λ m. m >>= answered db s.id) restored-read

-- A step of a model that was begun under a new identifier and finished is answered from its receipt
-- when it is prepared again, by another process too and with another preferred model: the same
-- answer, and the index of its target among the targets of the second call. The second call has to
-- be of the same contract and history, the answer has to have a choice, and the codecs have to agree.
pub finish_model_step-prepare :
    (e e' : ModelEnv) (db : TaskDb) (run : String) (step : ℕ) (model model' : String)
    (input input' : ModelInput) (targets targets' : List Target) (completion : Completion)
    (target : Target) (i : ℕ) {db₁ db₂ : TaskDb} {id : String}
    → Codec e e' input (output_of completion target)
    → (input.version == checkpoint_version) ≡ true
    → str_eq input.contract input'.contract ≡ true
    → str_eq input.history input'.history ≡ true
    → no_choices completion.choices ≡ false
    → target_index target 0 targets' ≡ some i
    → model_rows run step db.steps ≡ []
    → find_step id db.steps ≡ none
    → prepare_model_step e db true run step model input targets ≡ ok (db₁, id, none)
    → finish_model_step e db₁ true id completion target ≡ ok db₂
    → prepare_model_step e' db₂ true run step model' input' targets'
      ≡ ok (db₂, id, some (completion, i))
unfolding prepare_model_step finish_model_step from_rows
finish_model_step-prepare e e' db run step model model' input input' targets targets' completion
      target i {db₁} {db₂} {id} codec v same hist full aim none_there new h k =
    let h₀ : from_rows e db run step model input targets [] ≡ ok (db₁, id, none) =
      ap (from_rows e db run step model input targets) (sym none_there) ∙ h in
    let (encoded, p, h₁) = >>=-eq-ok (or_fail (e.encode_input input) (failed "json")) _ h₀ in
    let ((dbᵦ, idᵦ), b, h₂) =
      >>=-eq-ok (begin_task_step e.task db run "" "model" model step encoded) begun_step h₁ in
    let b' : begin_task_step e.task db run "" "model" model step encoded ≡ ok (db₁, id) =
      ground (arith, b, h₂) in
    let (c, p₁, steps₁) = begin-new e.task db run model step encoded b' in
    let output = output_of completion target in
    let (c', p₂, steps₂) = finish-new e.task db₁ id (e.encode_output output) (wrapped-ok _ k) in
    let fresh = started_row e.task.now id run "" step "model" model c in
    let g = ended_row e.task.now "succeeded" "" (some c') in
    let rows : model_rows run step db₂.steps ≡ g fresh ∷ [] =
      ap (model_rows run step) (steps₂ ∙ ap (update_step id g) steps₁)
      ∙ rows-new run step id fresh (restarted_row e.task.now) g refl db.steps
          (model_step_self run id model step (g fresh) refl refl refl) new none_there in
    ap (from_rows e' db₂ run step model' input' targets') rows
    ∙ from_rows-read e' input input' targets' completion target i (g fresh) encoded c'
        (e.encode_output output) (codec.opens encoded c p₁)
        (codec.inputs encoded (or_fail-eq-ok (e.encode_input input) _ p)) refl
        (codec.opens (e.encode_output output) c' p₂) codec.outputs v same hist full aim db₂ run step
        model' refl
