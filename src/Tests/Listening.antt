-- ===== src/Tests/Listening.antt =====
-- A client that listens to a relay which sends one cell; no code of the repository.
use go_ptor.Common.{refl, arith, [], ◌∷◌, inl, replicate}
use go_ptor.Wire.Asked.{asked}
use go_ptor.Client.World.{World, Services}
use go_ptor.Client.Circuit.{conn}
use go_ptor.Client.Use.Receive.{recv_rounds}
use go_ptor.Client.Use.Receive.Ends.{Ended, recv_rounds-ends}
use go_ptor.Tests.Setting.{to_text}
use go_ptor.Tests.Steps.{talking, talking-EndsAfter}
use go_ptor.Tests.Client.{services, world}

abbrev listening : Services
listening = record services { env = talking }

-- One stream is open.
abbrev with_stream : World
with_stream = record world { streams = (5, 8) ∷ [] }

recv_rounds-ends_example :
    Ended (recv_rounds listening (λ w. w) 3 (to_text (replicate 16 9)) with_stream)
unfolding asked conn
recv_rounds-ends_example =
    recv_rounds-ends listening (λ w. w) (to_text (replicate 16 9)) 1 528 talking-EndsAfter 2
      with_stream (λ w. ([], refl)) (λ w reads. reads) (λ cid p named known. inl refl) (omega arith)
