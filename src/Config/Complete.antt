-- ===== src/Config/Complete.antt =====
-- config/config.go: every configuration that is loaded is complete.
use idena_test_go.Prelude.{
  ◌≡◌, ◌≢◌, ◌⊎◌, inl, inr, refl, Bool, [], ◌∷◌, Option, none, some, Bytes, if◌then◌else◌, arith,
}
use idena_test_go.Prelude.Int.{ℤ, pos, negsuc, ◌<ℤ◌}
use idena_test_go.Prelude.Result.{ok}
use idena_test_go.Config.{
  Config, positive_or, some_or, text_or, merge, default_config, load_from_file_with_defaults,
}

-- The settings that the program needs are there: the counts, times, ports and sizes are positive, and
-- the texts are not empty.
pub record IsComplete (F : Type 0) (c : Config F) : Type 0 where
  pub has_verbosity : pos 0 <ℤ c.verbosity
  pub has_node_verbosity : pos 0 <ℤ c.node_verbosity
  pub has_max_net_delay : c.max_net_delay ≢ none
  pub has_work_dir : c.work_dir ≢ []
  pub has_command : c.command ≢ []
  pub has_rpc_addr : c.rpc_addr ≢ []
  pub has_node_start_waiting_sec : pos 0 <ℤ c.node_start_waiting_sec
  pub has_node_start_pause_ms : pos 0 <ℤ c.node_start_pause_ms
  pub has_node_stop_waiting_sec : pos 0 <ℤ c.node_stop_waiting_sec
  pub has_first_rpc_port : pos 0 <ℤ c.first_rpc_port
  pub has_first_ipfs_port : pos 0 <ℤ c.first_ipfs_port
  pub has_first_port : pos 0 <ℤ c.first_port
  pub has_min_flip_size : pos 0 <ℤ c.min_flip_size
  pub has_max_flip_size : pos 0 <ℤ c.max_flip_size
  pub has_validation_timeout_extra_minutes : pos 0 <ℤ c.validation_timeout_extra_minutes

positive_or_lem : (from to : ℤ) → pos 0 <ℤ to → pos 0 <ℤ positive_or from to
positive_or_lem (pos n) to h = ground arith
positive_or_lem (negsuc n) to h = ground arith

some_or_lem : (from to : Option ℤ) → to ≢ none → some_or from to ≢ none
some_or_lem none to h = h
some_or_lem (some n) to h = λ bad. cc

text_or_lem : (from to : Bytes) → to ≢ [] → text_or from to ≢ []
text_or_lem [] to h = h
text_or_lem (b ∷ from) to h = λ bad. cc

module _ {F : Type 0} where
  merge-IsComplete : (from to : Config F) → IsComplete F to → IsComplete F (merge from to)
  unfolding merge
  merge-IsComplete from to h = record {
    has_verbosity = positive_or_lem from.verbosity to.verbosity h.has_verbosity;
    has_node_verbosity = positive_or_lem from.node_verbosity to.node_verbosity h.has_node_verbosity;
    has_max_net_delay = some_or_lem from.max_net_delay to.max_net_delay h.has_max_net_delay;
    has_work_dir = text_or_lem from.work_dir to.work_dir h.has_work_dir;
    has_command = text_or_lem from.command to.command h.has_command;
    has_rpc_addr = text_or_lem from.rpc_addr to.rpc_addr h.has_rpc_addr;
    has_node_start_waiting_sec =
        positive_or_lem from.node_start_waiting_sec to.node_start_waiting_sec
          h.has_node_start_waiting_sec;
    has_node_start_pause_ms =
        positive_or_lem from.node_start_pause_ms to.node_start_pause_ms h.has_node_start_pause_ms;
    has_node_stop_waiting_sec =
        positive_or_lem from.node_stop_waiting_sec to.node_stop_waiting_sec
          h.has_node_stop_waiting_sec;
    has_first_rpc_port = positive_or_lem from.first_rpc_port to.first_rpc_port h.has_first_rpc_port;
    has_first_ipfs_port =
        positive_or_lem from.first_ipfs_port to.first_ipfs_port h.has_first_ipfs_port;
    has_first_port = positive_or_lem from.first_port to.first_port h.has_first_port;
    has_min_flip_size = positive_or_lem from.min_flip_size to.min_flip_size h.has_min_flip_size;
    has_max_flip_size = positive_or_lem from.max_flip_size to.max_flip_size h.has_max_flip_size;
    has_validation_timeout_extra_minutes =
        positive_or_lem from.validation_timeout_extra_minutes to.validation_timeout_extra_minutes
          h.has_validation_timeout_extra_minutes;
  }

  default_config-IsComplete :
      (zero : F) (dir : Bytes) → dir ≢ [] → IsComplete F (default_config zero dir)
  unfolding default_config
  default_config-IsComplete zero dir h = record {
    has_verbosity = omega arith;
    has_node_verbosity = omega arith;
    has_max_net_delay = λ bad. cc;
    has_work_dir = h;
    has_command = λ bad. cc;
    has_rpc_addr = λ bad. cc;
    has_node_start_waiting_sec = omega arith;
    has_node_start_pause_ms = omega arith;
    has_node_stop_waiting_sec = omega arith;
    has_first_rpc_port = omega arith;
    has_first_ipfs_port = omega arith;
    has_first_port = omega arith;
    has_min_flip_size = omega arith;
    has_max_flip_size = omega arith;
    has_validation_timeout_extra_minutes = omega arith;
  }

-- The two flags of the command line change nothing that this is about.
abbrev flagged : {F : Type 0} → Config F → Bool → ℤ → Config F
flagged merged god_bot_mode port_offset = record merged {
  god_mode = if god_bot_mode then god_bot_mode else merged.god_mode;
  port_offset = positive_or port_offset merged.port_offset;
}

flagged-IsComplete :
    {F : Type 0} (c : Config F) (god_bot_mode : Bool) (port_offset : ℤ)
    → IsComplete F c
    → IsComplete F (flagged c god_bot_mode port_offset)
flagged-IsComplete c god_bot_mode port_offset h = record {
  has_verbosity = h.has_verbosity;
  has_node_verbosity = h.has_node_verbosity;
  has_max_net_delay = h.has_max_net_delay;
  has_work_dir = h.has_work_dir;
  has_command = h.has_command;
  has_rpc_addr = h.has_rpc_addr;
  has_node_start_waiting_sec = h.has_node_start_waiting_sec;
  has_node_start_pause_ms = h.has_node_start_pause_ms;
  has_node_stop_waiting_sec = h.has_node_stop_waiting_sec;
  has_first_rpc_port = h.has_first_rpc_port;
  has_first_ipfs_port = h.has_first_ipfs_port;
  has_first_port = h.has_first_port;
  has_min_flip_size = h.has_min_flip_size;
  has_max_flip_size = h.has_max_flip_size;
  has_validation_timeout_extra_minutes = h.has_validation_timeout_extra_minutes;
}

-- A configuration is loaded without a path, and with one whose file can be read and decoded; and whatever
-- the file says, it is complete: the counts, times, ports and sizes that the program needs are positive,
-- there is a network delay, and the texts that it needs are not empty. This holds where the working
-- directory is known and has a name.
pub load_from_file_with_defaults-IsComplete :
    {F : Type 0} (zero : F) (dir : Bytes) (load : Bytes → Option (Config F)) (path : Bytes)
    (god_bot_mode : Bool) (port_offset : ℤ)
    → dir ≢ []
    → (path ≡ []) ⊎ ((from : Config F) × (load path ≡ some from))
    → (c : Config F) × (load_from_file_with_defaults zero
          (some dir)
          load
          path
          god_bot_mode
          port_offset
        ≡ ok c)
      × IsComplete F c
unfolding load_from_file_with_defaults
load_from_file_with_defaults-IsComplete zero dir load [] god_bot_mode port_offset named h =
    (default_config zero dir, refl, default_config-IsComplete zero dir named)
load_from_file_with_defaults-IsComplete zero dir load (b ∷ path) god_bot_mode port_offset named
      (inl h) =
    cc
load_from_file_with_defaults-IsComplete zero dir load (b ∷ path) god_bot_mode port_offset named
      (inr (from, e)) =
    let complete =
      merge-IsComplete from (default_config zero dir) (default_config-IsComplete zero dir named) in
    let c = flagged (merge from (default_config zero dir)) god_bot_mode port_offset in
    (
      c,
      rw (load_from_file_with_defaults, e) refl,
      flagged-IsComplete (merge from (default_config zero dir)) god_bot_mode port_offset complete,
    )
