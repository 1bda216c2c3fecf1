-- ===== src/Engine.antt =====
-- crates/konflux-substrate/src/engine.rs: the configuration of the engine. The registries behind
-- its locks are tables that the executor is given.
mod Tests
use konf.Shared.{
  ℕ, zero, suc, ◌*◌, ◌++◌, Bool, true, false, List, [], ◌∷◌, if◌then◌else◌, ◌==◌, Text, text,
  Result, ok, err, ◌>>◌,
}

pub record EngineConfig : Type 0 where
  pub max_steps : ℕ
  pub default_timeout_ms : ℕ
  pub max_workflow_timeout_ms : ℕ
  pub stream_buffer : ℕ
  pub finished_channel_size : ℕ
  pub default_retry_backoff_ms : ℕ
  pub max_yaml_size : ℕ
  pub max_concurrent_nodes : ℕ
  pub default_retry_base_delay_ms : ℕ
  pub default_retry_max_delay_ms : ℕ

abbrev pub default_config : EngineConfig
default_config = record {
  max_steps = 1_000;
  default_timeout_ms = 30_000;
  max_workflow_timeout_ms = 300_000;
  stream_buffer = 256;
  finished_channel_size = 100;
  default_retry_backoff_ms = 250;
  max_yaml_size = 10 * 1024 * 1024;
  max_concurrent_nodes = 50;
  default_retry_base_delay_ms = 1_000;
  default_retry_max_delay_ms = 30_000;
}

-- `if self.field == 0 { return Err(…) }`
abbrev pub positive : ℕ → Text → Result (Unit {0}) Text
positive n field = if n == 0 then err (field ++ text " must be > 0") else ok tt

-- `EngineConfig::validate`
unfoldable pub validate_config : EngineConfig → Result (Unit {0}) Text
validate_config self =
    positive self.max_steps (text "max_steps")
    >> (positive self.default_timeout_ms (text "default_timeout_ms")
        >> (positive self.stream_buffer (text "stream_buffer")
            >> (positive self.finished_channel_size (text "finished_channel_size")
                >> (positive self.max_yaml_size (text "max_yaml_size")
                    >> (positive self.max_concurrent_nodes (text "max_concurrent_nodes")
                        >> (positive self.default_retry_base_delay_ms
                              (text "default_retry_base_delay_ms")
                            >> positive self.default_retry_max_delay_ms
                                (text "default_retry_max_delay_ms")))))))
