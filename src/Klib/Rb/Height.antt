-- ===== src/Klib/Rb/Height.antt =====
-- How deep a red-black tree of lib/rb.c is.
use phoenix_rtos_kernel.Base.{Option, none, some, ℕ, suc, ◌+◌, max}
use phoenix_rtos_kernel.Klib.Rb.{red, Tree, leaf, node, Way, length_of}

abbrev pub size : Tree → ℕ
size leaf = 0
size (node c l x r) = suc (size l + size r)

-- The nodes on the longest way down
abbrev pub depth : Tree → ℕ
depth leaf = 0
depth (node c l x r) = suc (max (depth l) (depth r))

abbrev redness : Tree → ℕ
redness (node red l x r) = 1
redness _ = 0

-- The nodes above, or 0 where the search has found an equal node
abbrev above_of : Option Way → ℕ
above_of none = 0
above_of (some p) = length_of p
