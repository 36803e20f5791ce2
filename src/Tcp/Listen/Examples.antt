-- ===== src/Tcp/Listen/Examples.antt =====
-- The loops of the connections of a concrete server.
use trantor_net.Base.{ℕ, ◌≡◌, refl, true, none, List, [], ◌∷◌}
use trantor_net.Tcp.Server.{Server}
use trantor_net.Tcp.Listen.{new_host, enable_accept, new_acceptor, host_start}

-- The descriptors of three sockets with their identifiers.
abbrev three_sockets : List (ℕ × ℕ)
three_sockets = (7, 101) ∷ (8, 102) ∷ (9, 103) ∷ []

-- Without `init` there is no acceptor to follow.
start_without_init : host_start (new_host true) ≡ none
unfolding host_start
start_without_init = refl

-- Reading cannot be enabled before the acceptor has a pipe.
enable_without_pipe : enable_accept new_acceptor ≡ none
unfolding enable_accept
enable_without_pipe = refl
