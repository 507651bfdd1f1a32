-- ===== src/World/Samples.antt =====
-- A server with one instance, for the tests of the modules around it.
use sockethub.Base.{true, false, [], ◌∷◌, none, some, Text, codes}
use sockethub.ConnectionScope.{empty_scopes}
use sockethub.World.{Instance, World, Process, delivered, idle}

abbrev pub alive : Process
alive = record {
  pid = 7;
  exited = false;
  signal = delivered;
  connected = true;
  killed = false;
  listening = true;
}

abbrev pub dead : Process
dead = record alive { exited = true }

abbrev pub irc_id : Text
irc_id = codes "irc-1"

abbrev pub irc : Instance
irc = record {
  id = irc_id;
  name = codes "irc";
  actor = some (codes "jim");
  is_global = false;
  flagged_for_termination = false;
  initialized = true;
  replaced = false;
  shutdown_result = idle;
  queue = some irc_id;
  completed_job_handlers = [];
  completed_job_handler_timestamps = [];
  sessions = codes "s1" ∷ codes "s2" ∷ [];
  session_ips = [];
  persist = true;
  require_credentials = codes "credentials" ∷ [];
  context_url = none;
  heartbeat_last_seen = 0;
  heartbeat_failure_handled = false;
  process = alive;
}

-- Reference 0 is the instance. Socket s2 is gone.
abbrev pub world_of : Instance → World
world_of i = record {
  heap = (0, i) ∷ [];
  next_ref = 1;
  platform_instances = (irc_id, 0) ∷ [];
  scopes = empty_scopes;
  sockets = codes "s1" ∷ [];
  http_sessions = [];
  queues = (irc_id, record { paused = false; jobs = codes "job-1" ∷ [] }) ∷ [];
  outbox = [];
}
