-- ===== src/Tcp/Receive/Ends.antt =====
-- A postcondition on the outcome of a step: it ran to its end with `P`, or it waits for the mutex;
-- it neither panicked nor ran out of fuel.
use ip_tcp.Base.{List}
use ip_tcp.Tcp.Socket.{NormalSocket, Effect, Outcome, runs, blocked, out_of_fuel, panics}
use ip_tcp.Tcp.Receive.{◌>>=◌}

abbrev pub Ends : (NormalSocket → Type 0) → Outcome → Type 0
Ends P (runs s fx) = P s
Ends P blocked = Unit
Ends P out_of_fuel = ⊥
Ends P panics = ⊥

-- The rule for a chain.
pub Ends->>= :
    (P Q : NormalSocket → Type 0) (o : Outcome) (f : NormalSocket → List Effect → Outcome)
    → Ends P o
    → ((s : NormalSocket) (fx : List Effect) → P s → Ends Q (f s fx))
    → Ends Q (o >>= f)
Ends->>= P Q (runs s fx) f h k = k s fx h
Ends->>= P Q blocked f h k = tt
Ends->>= P Q out_of_fuel f h k = absurd h
Ends->>= P Q panics f h k = absurd h

-- A weaker postcondition.
pub Ends-map :
    (P Q : NormalSocket → Type 0) (o : Outcome)
    → Ends P o
    → ((s : NormalSocket) → P s → Q s)
    → Ends Q o
Ends-map P Q (runs s fx) h k = k s h
Ends-map P Q blocked h k = tt
Ends-map P Q out_of_fuel h k = absurd h
Ends-map P Q panics h k = absurd h
