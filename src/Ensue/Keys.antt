-- ===== src/Ensue/Keys.antt =====
-- The key paths of the shared memory: shared/src/constants.ts.
use delibera_xyz.Prelude.{String, List, map}
use delibera_xyz.Prelude.Text.{◌<>◌}

abbrev pub coordinator_tally : String
coordinator_tally = "coordination/coordinator/tally"

abbrev pub coordinator_status : String
coordinator_status = "coordination/coordinator/status"

abbrev pub coordinator_proposal_id : String
coordinator_proposal_id = "coordination/coordinator/proposal_id"

abbrev pub config_task_definition : String
config_task_definition = "coordination/config/task_definition"

-- getWorkerKeys(workerId)
pub record WorkerKeys : Type 0 where
  pub status : String
  pub result : String
  pub timestamp : String
  pub error : String
  pub verification_proof : String

abbrev pub worker_path : String → String → String
worker_path id leaf = "coordination/tasks/" <> (id <> leaf)

abbrev pub worker_keys : String → WorkerKeys
worker_keys id = record {
  status = worker_path id "/status";
  result = worker_path id "/result";
  timestamp = worker_path id "/timestamp";
  error = worker_path id "/error";
  verification_proof = worker_path id "/verification_proof";
}

abbrev pub all_worker_status_keys : List String → List String
all_worker_status_keys ids = map (λ id. (worker_keys id).status) ids

abbrev pub all_worker_result_keys : List String → List String
all_worker_result_keys ids = map (λ id. (worker_keys id).result) ids

-- getProposalKeys(proposalId)
pub record ProposalKeys : Type 0 where
  pub config : String
  pub status : String
  pub tally : String

abbrev pub proposal_path : String → String → String
proposal_path id leaf = "coordination/proposals/" <> (id <> leaf)

abbrev pub proposal_keys : String → ProposalKeys
proposal_keys id = record {
  config = proposal_path id "/config";
  status = proposal_path id "/status";
  tally = proposal_path id "/tally";
}

-- getProposalWorkerKeys(proposalId, workerId)
pub record ProposalWorkerKeys : Type 0 where
  pub result : String
  pub timestamp : String

abbrev pub proposal_worker_keys : String → String → ProposalWorkerKeys
proposal_worker_keys id worker = record {
  result = proposal_path id ("/workers/" <> (worker <> "/result"));
  timestamp = proposal_path id ("/workers/" <> (worker <> "/timestamp"));
}

abbrev pub proposal_index_key : String
proposal_index_key = "coordination/proposals/_index"

-- getCoordinatorSnapshotKey(proposalId), on the text of the id.
abbrev pub coordinator_snapshot_key : String → String
coordinator_snapshot_key id = "coordination/coordinator/worker_snapshot_" <> id

-- The key of a worker's display name, `agent/{did}/display_name`.
abbrev pub display_name_key : String → String
display_name_key did = "agent/" <> (did <> "/display_name")

pub record AgentRegistryKeys : Type 0 where
  pub endpoint : String
  pub type : String
  pub cvm_id : String
  pub dashboard_url : String
  pub updated_at : String

abbrev pub agent_registry_path : String → String → String
agent_registry_path id leaf = "coordination/agents/" <> (id <> leaf)

abbrev pub agent_registry_keys : String → AgentRegistryKeys
agent_registry_keys id = record {
  endpoint = agent_registry_path id "/endpoint";
  type = agent_registry_path id "/type";
  cvm_id = agent_registry_path id "/cvm_id";
  dashboard_url = agent_registry_path id "/dashboard_url";
  updated_at = agent_registry_path id "/updated_at";
}
