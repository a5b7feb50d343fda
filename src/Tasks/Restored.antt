-- ===== src/Tasks/Restored.antt =====
-- A step of a language model in go/task_model_checkpoint.go that succeeded is restored and not asked
-- again, and nothing else is restored for it.
use erdai_agent.Prelude.{ℕ, true, String, some, str_eq, List, [], ◌∷◌, get_elem?, ◌≡◌}
use erdai_agent.Tasks.Store.{Receipt}
use erdai_agent.Tasks.Checkpoint.{
  ModelInput, Completion, Target, ModelOutput, ModelEnv, same_target,
}

-- what justifies a restored answer: the one receipt of the step succeeded, its input is of the same
-- contract and history, and its output holds the answer and names the target at the index
pub record Restores (e : ModelEnv) (input : ModelInput) (targets : List Target)
    (rows : List Receipt) (id : String) (c : Completion) (i : ℕ) : Type 0 where
  pub receipt : Receipt
  pub saved : ModelInput
  pub output : ModelOutput
  pub plain : String
  pub sole : rows ≡ receipt ∷ []
  pub same_id : receipt.id ≡ id
  pub succeeded : str_eq receipt.status "succeeded" ≡ true
  pub decoded : e.decode_output plain ≡ some output
  pub same_contract : str_eq saved.contract input.contract ≡ true
  pub same_history : str_eq saved.history input.history ≡ true
  pub same_answer : output.completion ≡ c
  pub aimed : (u : Target) × (get_elem? targets i ≡ some u) × (same_target u output.target ≡ true)
