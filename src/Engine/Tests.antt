-- ===== src/Engine/Tests.antt =====
-- Runs of `EngineConfig::validate`.
use konf.Shared.{◌≡◌, refl, text, ok, err}
use konf.Engine.{default_config, validate_config}

default_accepted : validate_config default_config ≡ ok tt
unfolding validate_config
default_accepted = refl

no_steps_refused :
    validate_config (record default_config { max_steps = 0 }) ≡ err (text "max_steps must be > 0")
unfolding validate_config
no_steps_refused = refl
