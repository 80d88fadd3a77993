-- ===== src/NetworkModel/TcpConnection/Stale.antt =====
-- What a connection does after `read` once had nothing to read.
use unixtar.Prelude.{true, List, [], Option, none, some, ◌≡◌}
use unixtar.NetworkModel.TcpConnection.{Read, ApplicationProtocolParser, ConnectionProfile, receive}

-- The first of three.
abbrev called : {A B C : Type 0} → Option (A × B × C) → Option B
called none = none
called (some (a, b, c)) = some b

module _ {P : Type 0} (ops : ApplicationProtocolParser P) where
  -- Calls of `Receive`, one for each event, that return 0 and use the results of `read` up.
  pub data Receives : List Read → ConnectionProfile P → ConnectionProfile P → Type 0 where
    no_event : (c : ConnectionProfile P) → Receives [] c c
    event :
        (reads rest : List Read) (c d e : ConnectionProfile P)
        → receive ops reads c ≡ some (true, d, rest)
        → Receives rest d e
        → Receives reads c e
