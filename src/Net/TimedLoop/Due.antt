-- ===== src/Net/TimedLoop/Due.antt =====
-- The round in which the timerfd is ready.
use trantor_net.Tool.Timestamp.{Timestamp}
use trantor_net.Net.Pipe.{Pipe}
use trantor_net.Net.TimedLoop.{TimedLoop}
