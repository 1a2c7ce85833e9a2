-- ===== src/Configuration/Registry.antt =====
-- The catalog of settings: runtime/config-registry.ts.
use celery_insights.Common.{Bool, true, false, Option, some, none, List, [], ◌∷◌, String}
use celery_insights.Configuration.Values.{Kind, of_text, of_number, of_boolean, of_object}

pub record Setting : Type 0 where
  pub path : String
  pub key : String
  pub kind : Kind
  pub env : Option String
  pub legacy : Option String
  pub secret : Bool
  pub file_path : Bool

-- `SETTINGS`.
abbrev pub settings : List Setting
settings =
    record {
      path = "search.indexing.enabled";
      key = "searchIndexingEnabled";
      kind = of_boolean;
      env = some "CELERY_INSIGHTS_SEARCH_INDEXING_ENABLED";
      legacy = some "SEARCH_INDEXING_ENABLED";
      secret = false;
      file_path = false;
    }
    ∷ record {
      path = "server.port";
      key = "port";
      kind = of_number;
      env = some "CELERY_INSIGHTS_PORT";
      legacy = some "PORT";
      secret = false;
      file_path = false;
    }
    ∷ record {
      path = "server.url_prefix";
      key = "urlPrefix";
      kind = of_text;
      env = some "CELERY_INSIGHTS_URL_PREFIX";
      legacy = some "URL_PREFIX";
      secret = false;
      file_path = false;
    }
    ∷ record {
      path = "mcp.cursor_secret";
      key = "mcpCursorSecret";
      kind = of_text;
      env = some "CELERY_INSIGHTS_MCP_CURSOR_SECRET";
      legacy = some "MCP_TOKEN";
      secret = true;
      file_path = false;
    }
    ∷ record {
      path = "mcp.allowed_hosts";
      key = "mcpAllowedHosts";
      kind = of_text;
      env = none;
      legacy = some "MCP_ALLOWED_HOSTS";
      secret = false;
      file_path = false;
    }
    ∷ record {
      path = "database.observation.url";
      key = "surrealdbUrl";
      kind = of_text;
      env = some "CELERY_INSIGHTS_DATABASE_URL";
      legacy = some "SURREALDB_URL";
      secret = true;
      file_path = false;
    }
    ∷ record {
      path = "database.observation.root_password";
      key = "surrealdbRootPass";
      kind = of_text;
      env = some "CELERY_INSIGHTS_DATABASE_ROOT_PASSWORD";
      legacy = none;
      secret = true;
      file_path = false;
    }
    ∷ record {
      path = "database.observation.ingester_password";
      key = "surrealdbIngesterPass";
      kind = of_text;
      env = some "CELERY_INSIGHTS_DATABASE_INGESTER_PASSWORD";
      legacy = some "SURREALDB_INGESTER_PASS";
      secret = true;
      file_path = false;
    }
    ∷ record {
      path = "database.observation.namespace";
      key = "surrealdbNamespace";
      kind = of_text;
      env = none;
      legacy = some "SURREALDB_NAMESPACE";
      secret = false;
      file_path = false;
    }
    ∷ record {
      path = "database.observation.database";
      key = "surrealdbDatabase";
      kind = of_text;
      env = none;
      legacy = some "SURREALDB_DATABASE";
      secret = false;
      file_path = false;
    }
    ∷ record {
      path = "database.observation.embedded.storage";
      key = "surrealdbStorage";
      kind = of_text;
      env = some "CELERY_INSIGHTS_DATABASE_STORAGE";
      legacy = some "SURREALDB_STORAGE";
      secret = false;
      file_path = false;
    }
    ∷ record {
      path = "database.observation.embedded.port";
      key = "surrealdbPort";
      kind = of_number;
      env = none;
      legacy = some "SURREALDB_PORT";
      secret = false;
      file_path = false;
    }
    ∷ record {
      path = "ingestion.enabled";
      key = "ingestionEnabled";
      kind = of_boolean;
      env = some "CELERY_INSIGHTS_INGESTION_ENABLED";
      legacy = some "INGESTION_ENABLED";
      secret = false;
      file_path = false;
    }
    ∷ record {
      path = "ingestion.leader_election.enabled";
      key = "ingestionLeaderElection";
      kind = of_boolean;
      env = none;
      legacy = some "INGESTION_LEADER_ELECTION";
      secret = false;
      file_path = false;
    }
    ∷ record {
      path = "ingestion.leader_election.ttl_seconds";
      key = "ingestionLockTtlSeconds";
      kind = of_number;
      env = none;
      legacy = some "INGESTION_LOCK_TTL_SECONDS";
      secret = false;
      file_path = false;
    }
    ∷ record {
      path = "ingestion.leader_election.heartbeat_seconds";
      key = "ingestionLockHeartbeatSeconds";
      kind = of_number;
      env = none;
      legacy = some "INGESTION_LOCK_HEARTBEAT_SECONDS";
      secret = false;
      file_path = false;
    }
    ∷ record {
      path = "retention.cleanup_interval_seconds";
      key = "cleanupIntervalSeconds";
      kind = of_number;
      env = none;
      legacy = some "CLEANUP_INTERVAL_SECONDS";
      secret = false;
      file_path = false;
    }
    ∷ record {
      path = "retention.tasks.max_count.value";
      key = "taskMaxCount";
      kind = of_number;
      env = none;
      legacy = some "TASK_MAX_COUNT";
      secret = false;
      file_path = false;
    }
    ∷ record {
      path = "retention.tasks.max_age_hours.value";
      key = "taskRetentionHours";
      kind = of_number;
      env = none;
      legacy = some "TASK_RETENTION_HOURS";
      secret = false;
      file_path = false;
    }
    ∷ record {
      path = "retention.workers.max_age_hours.value";
      key = "deadWorkerRetentionHours";
      kind = of_number;
      env = none;
      legacy = some "DEAD_WORKER_RETENTION_HOURS";
      secret = false;
      file_path = false;
    }
    ∷ record {
      path = "ingestion.batch_interval_ms";
      key = "ingestionBatchIntervalMs";
      kind = of_number;
      env = none;
      legacy = some "INGESTION_BATCH_INTERVAL_MS";
      secret = false;
      file_path = false;
    }
    ∷ record {
      path = "celery.broker_url";
      key = "brokerUrl";
      kind = of_text;
      env = some "CELERY_INSIGHTS_BROKER_URL";
      legacy = some "BROKER_URL";
      secret = true;
      file_path = false;
    }
    ∷ record {
      path = "celery.result_backend";
      key = "resultBackend";
      kind = of_text;
      env = some "CELERY_INSIGHTS_RESULT_BACKEND";
      legacy = some "RESULT_BACKEND";
      secret = true;
      file_path = false;
    }
    ∷ record {
      path = "celery.legacy_python_config_file";
      key = "configFile";
      kind = of_text;
      env = none;
      legacy = some "CONFIG_FILE";
      secret = false;
      file_path = true;
    }
    ∷ record {
      path = "diagnostics.replay_bundle_file";
      key = "debugBundlePath";
      kind = of_text;
      env = some "CELERY_INSIGHTS_REPLAY_BUNDLE_FILE";
      legacy = some "DEBUG_BUNDLE_PATH";
      secret = false;
      file_path = true;
    }
    ∷ record {
      path = "celery.timezone";
      key = "timezone";
      kind = of_text;
      env = none;
      legacy = some "TIMEZONE";
      secret = false;
      file_path = false;
    }
    ∷ record {
      path = "server.debug";
      key = "debug";
      kind = of_boolean;
      env = none;
      legacy = some "DEBUG";
      secret = false;
      file_path = false;
    }
    ∷ record {
      path = "logging.format";
      key = "logFormat";
      kind = of_text;
      env = some "CELERY_INSIGHTS_LOG_FORMAT";
      legacy = some "LOG_FORMAT";
      secret = false;
      file_path = false;
    }
    ∷ record {
      path = "logging.level";
      key = "logLevel";
      kind = of_text;
      env = some "CELERY_INSIGHTS_LOG_LEVEL";
      legacy = some "LOG_LEVEL";
      secret = false;
      file_path = false;
    }
    ∷ record {
      path = "server.api.host";
      key = "apiHost";
      kind = of_text;
      env = none;
      legacy = some "HOST";
      secret = false;
      file_path = false;
    }
    ∷ record {
      path = "server.api.port";
      key = "apiPort";
      kind = of_number;
      env = none;
      legacy = none;
      secret = false;
      file_path = false;
    }
    ∷ record {
      path = "installation.public_url";
      key = "publicUrl";
      kind = of_text;
      env = some "CELERY_INSIGHTS_PUBLIC_URL";
      legacy = none;
      secret = false;
      file_path = false;
    }
    ∷ record {
      path = "ui.demo_available";
      key = "demoAvailable";
      kind = of_boolean;
      env = none;
      legacy = none;
      secret = false;
      file_path = false;
    }
    ∷ record {
      path = "ui.defaults.theme";
      key = "uiTheme";
      kind = of_text;
      env = none;
      legacy = none;
      secret = false;
      file_path = false;
    }
    ∷ record {
      path = "ui.defaults.hide_welcome_banner";
      key = "uiHideWelcomeBanner";
      kind = of_boolean;
      env = none;
      legacy = none;
      secret = false;
      file_path = false;
    }
    ∷ record {
      path = "ui.defaults.raw_events_limit";
      key = "uiRawEventsLimit";
      kind = of_number;
      env = none;
      legacy = none;
      secret = false;
      file_path = false;
    }
    ∷ record {
      path = "authentication.session.secret";
      key = "authSessionSecret";
      kind = of_text;
      env = some "CELERY_INSIGHTS_SESSION_SECRET";
      legacy = none;
      secret = true;
      file_path = false;
    }
    ∷ record {
      path = "authentication.session.max_age_seconds";
      key = "authSessionSeconds";
      kind = of_number;
      env = none;
      legacy = none;
      secret = false;
      file_path = false;
    }
    ∷ record {
      path = "authentication.oidc.issuer";
      key = "oidcIssuer";
      kind = of_text;
      env = none;
      legacy = none;
      secret = false;
      file_path = false;
    }
    ∷ record {
      path = "authentication.oidc.client_id";
      key = "oidcClientId";
      kind = of_text;
      env = none;
      legacy = none;
      secret = false;
      file_path = false;
    }
    ∷ record {
      path = "authentication.oidc.client_secret";
      key = "oidcClientSecret";
      kind = of_text;
      env = some "CELERY_INSIGHTS_OIDC_CLIENT_SECRET";
      legacy = none;
      secret = true;
      file_path = false;
    }
    ∷ record {
      path = "authentication.oidc.scopes";
      key = "oidcScopes";
      kind = of_text;
      env = none;
      legacy = none;
      secret = false;
      file_path = false;
    }
    ∷ record {
      path = "authentication.oidc.role_mappings";
      key = "oidcRoleMappings";
      kind = of_object;
      env = none;
      legacy = none;
      secret = false;
      file_path = false;
    }
    ∷ record {
      path = "authorization.opa.decision_url";
      key = "opaDecisionUrl";
      kind = of_text;
      env = none;
      legacy = none;
      secret = false;
      file_path = false;
    }
    ∷ record {
      path = "authorization.opa.timeout_ms";
      key = "opaTimeoutMs";
      kind = of_number;
      env = none;
      legacy = none;
      secret = false;
      file_path = false;
    }
    ∷ record {
      path = "authorization.opa.bearer_token";
      key = "opaBearerToken";
      kind = of_text;
      env = some "CELERY_INSIGHTS_OPA_BEARER_TOKEN";
      legacy = none;
      secret = true;
      file_path = false;
    }
    ∷ record {
      path = "authentication.mode";
      key = "authMode";
      kind = of_text;
      env = none;
      legacy = none;
      secret = false;
      file_path = false;
    }
    ∷ record {
      path = "authentication.accounts";
      key = "authAccounts";
      kind = of_object;
      env = none;
      legacy = none;
      secret = true;
      file_path = false;
    }
    ∷ []
