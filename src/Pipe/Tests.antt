-- ===== src/Pipe/Tests.antt =====
-- Runs of a pipe.
use os_project_mlfqschedulin.Base.{refl, false, [], ◌∷◌, arith}
use os_project_mlfqschedulin.Pipe.{Pipe, pipe_init, put, pipewrite, piperead}
use os_project_mlfqschedulin.Pipe.Fifo.{
  Contents, Writes, Reads, put-Contents, pipewrite-Writes, piperead-Reads,
}

-- A new pipe.
fresh : Pipe
fresh = pipe_init (λ i. 0)

fresh-Contents : Contents fresh []
unfolding fresh pipe_init
fresh-Contents = record { small = omega arith; few = omega arith; end = refl; ring = tt }

-- A pipe with one byte.
one_byte : Pipe
one_byte = put 5 fresh

one_byte-Contents : Contents one_byte (5 ∷ [])
unfolding one_byte
one_byte-Contents = put-Contents fresh [] 5 fresh-Contents (omega arith)

pipewrite-Writes_example :
    Writes false (6 ∷ 7 ∷ []) (5 ∷ []) one_byte (pipewrite false (6 ∷ 7 ∷ []) one_byte)
pipewrite-Writes_example = pipewrite-Writes false (6 ∷ 7 ∷ []) (5 ∷ []) one_byte one_byte-Contents

piperead-Reads_example : Reads false 3 (5 ∷ []) one_byte (piperead false 3 one_byte)
piperead-Reads_example = piperead-Reads false 3 (5 ∷ []) one_byte one_byte-Contents
