-- ===== src/Provision/Compose.antt =====
-- The Docker Compose files of protocol-api/src/routes/provision.ts.
use delibera_xyz.Prelude.{String}

-- workerComposeContent
abbrev pub worker_compose_content : String
worker_compose_content =
    "services:\n  worker:\n    image: leomanza/delibera-worker:latest\n    platform: linux/amd64\n    ports:\n      - \"3001:3001\"\n    environment:\n      - PORT=3001\n      - NEAR_NETWORK\n      - ENSUE_API_KEY\n      - ENSUE_TOKEN\n      - NEAR_API_KEY\n      - STORACHA_AGENT_PRIVATE_KEY\n      - STORACHA_DELEGATION_PROOF\n      - STORACHA_SPACE_DID\n      - COORDINATOR_DID\n      - REGISTRY_CONTRACT_ID\n      - WORKER_ENDPOINT_URL\n      - NEAR_ACCOUNT_ID\n      - NEAR_SEED_PHRASE\n      - PHALA_CVM_ID\n      - LIT_NETWORK\n      - WORKER_DISPLAY_NAME\n    volumes:\n      - /var/run/dstack.sock:/var/run/dstack.sock\n    restart: always\n"

-- coordinatorComposeContent
abbrev pub coordinator_compose_content : String
coordinator_compose_content =
    "services:\n  coordinator:\n    image: leomanza/delibera-coordinator:latest\n    platform: linux/amd64\n    ports:\n      - \"3000:3000\"\n    environment:\n      - PORT=3000\n      - LOCAL_MODE\n      - COORDINATOR_STORACHA_PRIVATE_KEY\n      - COORDINATOR_STORACHA_SPACE_DID\n      - COORDINATOR_STORACHA_DELEGATION_BASE64\n      - COORDINATOR_DID\n      - NEAR_ACCOUNT_ID\n      - NEAR_NETWORK\n      - NEAR_RPC_URL\n      - REGISTRY_CONTRACT_ID\n      - MIN_WORKERS\n      - MAX_WORKERS\n      - ENSUE_API_KEY\n      - ENSUE_ORG_NAME\n      - NEXT_PUBLIC_contractId\n    volumes:\n      - /var/run/dstack.sock:/var/run/dstack.sock\n    restart: always\n"
