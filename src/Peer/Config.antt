-- ===== src/Peer/Config.antt =====
-- internal/peerlink/config.go. The int and time.Duration fields are int64 bit patterns; a duration
-- counts nanoseconds.
use eventmesh_go.Prelude.{
  ℕ, ◌*◌, ◌<◌, Str, is_empty, ◌||◌, Option, none, some, ◌≡◌, if◌then◌else◌, ◌==◌, arith,
}
use eventmesh_go.Prelude.Words.{is_negative, two63}

pub record Config : Type 0 where
  pub node_id : Str
  pub listen_address : Str
  pub send_queue_size : ℕ
  pub send_timeout : ℕ
  pub max_send_attempts : ℕ
  pub heartbeat_interval : ℕ
  pub missed_heartbeat_limit : ℕ
  pub max_message_size : ℕ

pub data ConfigError : Type 0 where
  empty_node_id empty_listen_address : ConfigError

-- Validate
unfoldable pub validate : Config → Option ConfigError
validate c =
    if is_empty c.node_id
    then some empty_node_id
    else if is_empty c.listen_address
    then some empty_listen_address
    else none

abbrev pub second : ℕ
second = 1000000000

-- `if x <= 0 { x = d }`
abbrev pub default_to : ℕ → ℕ → ℕ
default_to d x = if is_negative x || x == 0 then d else x

-- SetDefaults
unfoldable pub set_defaults : Config → Config
set_defaults c = record c {
  send_queue_size = default_to 100 c.send_queue_size;
  send_timeout = default_to (1 * second) c.send_timeout;
  max_send_attempts = default_to 3 c.max_send_attempts;
  heartbeat_interval = default_to (5 * second) c.heartbeat_interval;
  missed_heartbeat_limit = default_to 3 c.missed_heartbeat_limit;
  max_message_size = default_to (1024 * 1024) c.max_message_size;
}

-- Every number is positive as a signed int64.
pub record IsPositive (c : Config) : Type 0 where
  pub send_queue_size : (0 < c.send_queue_size) × (c.send_queue_size < two63)
  pub send_timeout : (0 < c.send_timeout) × (c.send_timeout < two63)
  pub max_send_attempts : (0 < c.max_send_attempts) × (c.max_send_attempts < two63)
  pub heartbeat_interval : (0 < c.heartbeat_interval) × (c.heartbeat_interval < two63)
  pub missed_heartbeat_limit : (0 < c.missed_heartbeat_limit) × (c.missed_heartbeat_limit < two63)
  pub max_message_size : (0 < c.max_message_size) × (c.max_message_size < two63)

default_to_positive :
    (d x : ℕ) → 0 < d → d < two63 → (0 < default_to d x) × (default_to d x < two63)
default_to_positive d x h k = ground arith

default_to_twice : (d x : ℕ) → 0 < d → d < two63 → default_to d (default_to d x) ≡ default_to d x
default_to_twice d x h k = ground arith

-- After SetDefaults every number of the configuration is positive as an int64, whatever it was before.
pub set_defaults-IsPositive : (c : Config) → IsPositive (set_defaults c)
unfolding set_defaults
set_defaults-IsPositive c = record {
  send_queue_size = default_to_positive 100 c.send_queue_size (omega arith) (omega arith);
  send_timeout = default_to_positive (1 * second) c.send_timeout (omega arith) (omega arith);
  max_send_attempts = default_to_positive 3 c.max_send_attempts (omega arith) (omega arith);
  heartbeat_interval =
      default_to_positive (5 * second) c.heartbeat_interval (omega arith) (omega arith);
  missed_heartbeat_limit =
      default_to_positive 3 c.missed_heartbeat_limit (omega arith) (omega arith);
  max_message_size =
      default_to_positive (1024 * 1024) c.max_message_size (omega arith) (omega arith);
}
