-- ===== src/Multicast/Group/Cells.antt =====
-- Handles in an array of dn/skynet-src/skynet_multicast.c.
use dn_server.Common.{ℕ, ◌≤◌, ◌<◌, ◌≡◌, ◌≢◌, refl, List, get_or, eq→==, ne→==}
use dn_server.Multicast.Group.{put}

-- A handle stands in the array, between two indices.
abbrev pub InCells : (ℕ → ℕ) → ℕ → ℕ → ℕ → Type 0
InCells cells a b x = (i : ℕ) × (a ≤ i) × (i < b) × (cells i ≡ x)

abbrev pub Ascends : (ℕ → ℕ) → ℕ → ℕ → Type 0
Ascends cells a b = (i j : ℕ) → a ≤ i → i < j → j < b → cells i < cells j

-- A handle is among the first of the queue.
abbrev pub InFirst : List ℕ → ℕ → ℕ → Type 0
InFirst q i x = (k : ℕ) × (k < i) × (get_or q k 0 ≡ x)

pub put_self : (cells : ℕ → ℕ) (i v : ℕ) → put cells i v i ≡ v
put_self cells i v = rw (eq→== i i refl) refl

pub put_other : (cells : ℕ → ℕ) (i v k : ℕ) → k ≢ i → put cells i v k ≡ cells k
put_other cells i v k h = rw (ne→== k i h) refl
