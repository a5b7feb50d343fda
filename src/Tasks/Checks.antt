-- ===== src/Tasks/Checks.antt =====
-- The checks of `executePersistentToolCall` of go/task_graph.go that stand before a receipt starts, and
-- the table once it has started.
use erdai_agent.Prelude.{
  ℕ, Bool, true, false, not, ◌&&◌, if◌then◌else◌, String, Option, none, some, ◌≡◌, refl, arith, inl,
  inr, ◌⊎◌, Bool-cases, subst, sym, ap, ◌∙◌, if_true, if_false, ◌≢◌,
}
use erdai_agent.Core.{Result, ok, err, >>=-eq-ok, or_fail, failed}
use erdai_agent.Tasks.Store.{
  Receipt, TaskDb, find_step, put_step, run_exists, started_row, resumed_row,
}
use erdai_agent.Tasks.Operation.{
  ToolResult, TaskEnv, costly_operation, is_video, media_id, id_or, first_of_medium,
  persistent_operation_id, existing_operation_id, begin_costly, begin_persistent_operation,
  read_tool_result, uncertain_operation,
}
use erdai_agent.Tasks.Call.{
  ToolCall, Around, Decision, replies, unrecorded, starts, plain_reply, persistence_failure,
  step_of, encoded_input, operation_id, begun, start_call, unless_uncertain, from_receipt,
  is_claimed, check_receipt, prepare_call,
}
use erdai_agent.Tasks.Rows.{Keeps, medium-put, put-find}

-- the identifier of a costly operation depends on the run and the medium only
abbrev pub costly_id : TaskDb → String → Bool → String
costly_id db run video = id_or (first_of_medium run video db.steps) (media_id run video)

pub operation_id-costly :
    (e : TaskEnv) (db : TaskDb) (run : String) (step : ℕ) (call : ToolCall)
    → costly_operation call.name ≡ true
    → operation_id e db run step call ≡ costly_id db run (is_video call.name)
unfolding existing_operation_id persistent_operation_id
operation_id-costly e db run step call h = rw h refl

pub begun-starts :
    (db : TaskDb) (m : Result (TaskDb × String)) {db' : TaskDb} {id : String}
    → begun db m ≡ (db', starts id)
    → m ≡ ok (db', id)
begun-starts db (ok (d, i)) {db'} {id} h =
    let p : d ≡ db' = ap (λ x. x.0) h in
    let q : i ≡ id = cc in ap (λ x. ok (x, i)) p ∙ ap (λ x. ok (db', x)) q
begun-starts db (err x) h = cc

unless_uncertain-starts :
    (db : TaskDb) (m : Result (Unit {0})) (go : TaskDb × Decision) {db' : TaskDb} {id : String}
    → unless_uncertain db m go ≡ (db', starts id)
    → go ≡ (db', starts id)
unless_uncertain-starts db (ok u) go h = h
unless_uncertain-starts db (err x) go h = cc

from_receipt-starts :
    (db : TaskDb) (run i : String) (m : Result (Option ToolResult)) (go : TaskDb × Decision)
    {db' : TaskDb} {id : String}
    → from_receipt db run i m go ≡ (db', starts id)
    → go ≡ (db', starts id)
from_receipt-starts db run i (ok none) go h = h
from_receipt-starts db run i (ok (some r)) go h = cc
from_receipt-starts db run i (err x) go h = cc

pub both_held : (a b : Bool) → a ≡ true → b ≡ true → (a && b) ≡ true
both_held a b p q = ground arith

pub both_failed : (a b : Bool) → b ≡ false → (a && b) ≡ false
both_failed a b q = ground arith

pub test_failed : (b : Bool) → b ≡ false → not b ≡ true
test_failed b h = ground arith

pub test_held : (b : Bool) → b ≡ true → not b ≡ false
test_held b h = ground arith

no_start :
    (db db' : TaskDb) (r : ToolResult) (id : String) (m : TaskDb × Decision)
    → m ≡ (db, replies r)
    → m ≢ (db', starts id)
no_start db db' r id m p h = cc

check_receipt-starts :
    (e : TaskEnv) (db : TaskDb) (around : Around) (run parent : String) (step : ℕ) (call : ToolCall)
    {db' : TaskDb} {id : String}
    → costly_operation call.name ≡ true
    → check_receipt e db around run parent step call ≡ (db', starts id)
    → start_call e db run parent step call ≡ (db', starts id)
unfolding check_receipt
check_receipt-starts e db around run parent step call {db'} {id} c h =
    let i = operation_id e db run step call in
    let go = start_call e db run parent step call in
    elim (Bool-cases (is_claimed i around.claimed)) [
      | inl y ↦ absurd (
          no_start db db' (plain_reply "{\"ok\":false,\"error\":\"task_execution_in_progress\"}") id
            (check_receipt e db around run parent step call)
            (if_true _ _ _
              (both_held (costly_operation call.name) (is_claimed i around.claimed) c y))
            h)
      | inr n ↦
          let h₁ =
            from_receipt-starts db run i (read_tool_result e db i)
              (if costly_operation call.name
                then unless_uncertain db (uncertain_operation db i) go
                else go)
              (sym (
                  if_false _ _ _
                    (both_failed (costly_operation call.name) (is_claimed i around.claimed) n))
                ∙ h) in
          unless_uncertain-starts db (uncertain_operation db i) go
            (sym (if_true _ (unless_uncertain db (uncertain_operation db i) go) go c) ∙ h₁)
    ]

-- the outcome of the checks that stand before the receipt
pub prepare_call-cases :
    (e : TaskEnv) (db : TaskDb) (around : Around) (run parent : String) (step : ℕ) (call : ToolCall)
    → costly_operation call.name ≡ true
    → ((r : ToolResult) × (prepare_call e db around run parent step call ≡ (db, replies r)))
      ⊎ ((run_exists run db.runs ≡ false)
          × (prepare_call e db around run parent step call ≡ (db, unrecorded)))
      ⊎ ((run_exists run db.runs ≡ true)
          × (prepare_call e db around run parent step call
              ≡ check_receipt e db around run parent step call))
unfolding prepare_call
prepare_call-cases e db around run parent step call c = elim (Bool-cases around.intent_stored) [
  | inr n ↦ inl (
    persistence_failure,
    if_true _ _ _ (
        both_held (costly_operation call.name) (not around.intent_stored) c
          (test_failed around.intent_stored n)),
  )
  | inl y ↦
      let p = if_false (costly_operation call.name && not around.intent_stored) _ _ (
        both_failed (costly_operation call.name) (not around.intent_stored)
          (test_held around.intent_stored y)) in
      elim (Bool-cases around.current) [
        | inr n ↦ inl (
          plain_reply "{\"ok\":false,\"error\":\"task_revision_superseded\"}",
          p ∙ if_true _ _ _ (test_failed around.current n),
        )
        | inl z ↦
            let q = p ∙ if_false (not around.current) _ _ (test_held around.current z) in
            elim (Bool-cases (run_exists run db.runs)) [
              | inr n ↦ inr (inl (n, q ∙ if_true _ _ _ (test_failed (run_exists run db.runs) n)))
              | inl w ↦ inr (inr (w, q ∙ if_false _ _ _ (test_held (run_exists run db.runs) w)))
            ]
      ]
]

pub prepare_call-starts :
    (e : TaskEnv) (db : TaskDb) (around : Around) (run parent : String) (step : ℕ) (call : ToolCall)
    {db' : TaskDb} {id : String}
    → costly_operation call.name ≡ true
    → prepare_call e db around run parent step call ≡ (db', starts id)
    → (run_exists run db.runs ≡ true) × (start_call e db run parent step call ≡ (db', starts id))
prepare_call-starts e db around run parent step call {db'} {id} c h =
    elim (prepare_call-cases e db around run parent step call c) [
      | inl (r, p) ↦
          absurd (no_start db db' r id (prepare_call e db around run parent step call) p h)
      | inr (inl (_, p)) ↦ let q = sym p ∙ h in cc
      | inr (inr (w, p)) ↦ (w, check_receipt-starts e db around run parent step call c (sym p ∙ h))
    ]

-- the table after a costly operation has begun
pub start_call-costly :
    (e : TaskEnv) (db : TaskDb) (run parent : String) (step : ℕ) (call : ToolCall) {db' : TaskDb}
    {id : String}
    → costly_operation call.name ≡ true
    → start_call e db run parent step call ≡ (db', starts id)
    → (id ≡ costly_id db run (is_video call.name))
      × (db'.runs ≡ db.runs)
      × (costly_id db' run (is_video call.name) ≡ id)
      × (x : Receipt) × (find_step id db'.steps ≡ some x)
      × (x.status ≡ "running")
unfolding start_call begin_persistent_operation begin_costly
start_call-costly e db run parent step call {db'} {id} c h =
    let video = is_video call.name in
    let i = operation_id e db run step call in
    let h₁ =
      begun-starts db
        (begin_persistent_operation e db run parent call.name (step_of call.name step)
          (encoded_input e call))
        h in
    let h₂ : begin_costly e db run parent call.name (step_of call.name step) (encoded_input e call)
        ≡ ok (db', id) =
      sym (if_true _ _ _ c) ∙ h₁ in
    let (cipher, _, h₃) =
      >>=-eq-ok (or_fail (e.encrypt (encoded_input e call)) (failed "encryption")) _ h₂ in
    let fresh = started_row e.now i run parent (step_of call.name step) "tool" call.name cipher in
    let k : Keeps (resumed_row e.now) = record {
      id = λ s. refl;
      run = λ s. refl;
      name = λ s. refl;
    } in
    let p : i ≡ id = ground arith in
    let q : record db { steps = put_step i fresh (resumed_row e.now) db.steps } ≡ db' =
      ground arith in
    let o = operation_id-costly e db run step call c in
    let (x, f, r) = put-find i fresh (resumed_row e.now) k refl refl (λ s. refl) db.steps in
    let m = medium-put run video (media_id run video) fresh (resumed_row e.now) k db.steps o in
    (
      sym p ∙ o,
      ap (λ d. d.runs) (sym q),
      ap (λ d. costly_id d run video) (sym q)
          ∙ ap
              (λ j.
                id_or (first_of_medium run video (put_step j fresh (resumed_row e.now) db.steps))
                  (media_id run video))
              o
          ∙ m
          ∙ sym o
          ∙ p,
      x,
      subst (λ j. find_step j db'.steps ≡ some x) p (subst (λ d. find_step i d.steps ≡ some x) q f),
      r,
    )
