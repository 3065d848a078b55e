-- ===== src/Mpi/Memory/Defs.antt =====
-- Memory as a function, and lists of displacements.
use oshmpi.Prelude.{ℕ, zero, suc, ◌+◌, List, [], ◌∷◌, ◌++◌, ◌==◌, if◌then◌else◌}

abbrev pub Memory : Type 0
Memory = ℕ → ℕ

-- The displacements 0 … n - 1, from `start`.
unfoldable pub span : ℕ → ℕ → List ℕ
span start zero = []
span start (suc n) = start ∷ span (start + 1) n

abbrev pub shift : ℕ → List ℕ → List ℕ
shift d [] = []
shift d (o ∷ os) = (d + o) ∷ shift d os

unfoldable pub gather : Memory → ℕ → List ℕ → List ℕ
gather m a [] = []
gather m a (o ∷ os) = m (a + o) ∷ gather m a os

abbrev pub write : Memory → ℕ → ℕ → Memory
write m a v b = if a == b then v else m b

-- Bytes are written in order; what is left over of the longer list is ignored.
unfoldable pub scatter : Memory → ℕ → List ℕ → List ℕ → Memory
scatter m a [] vs = m
scatter m a (o ∷ os) [] = m
scatter m a (o ∷ os) (v ∷ vs) = scatter (write m (a + o) v) a os vs

-- `n` copies of a type map, each `e` bytes behind the one before.
unfoldable pub tile : ℕ → ℕ → List ℕ → List ℕ
tile zero e os = []
tile (suc n) e os = os ++ shift e (tile n e os)
