-- ===== src/Packet/Chunk/Loop.antt =====
-- internal/packet/path.go: the packing loop of ChunkRoutes.
use xk6_bgp.Base.{ℕ, ◌+◌, List, [], ◌∷◌, ◌++◌, if◌then◌else◌, ltb, Result, ok, err}
use xk6_bgp.Packet.Update.Attrs.{UpdateError}

pub data ChunkError : Type 0 where
  -- routes[i]: NLRI size exceeds the budget
  nlri_too_large : ℕ → ℕ → ℕ → ChunkError
  no_room : ℕ → ℕ → ChunkError
  build_failed : UpdateError → ChunkError
  serialize_failed : ChunkError

module _ {A : Type 0} (size : A → ℕ) (budget : ℕ) where
  -- `chunks` are the slices cut so far, `cur` is routes[start:i], and `used` its size.
  unfoldable pub pack : List (List A) → List A → ℕ → ℕ → List A → Result ChunkError (List (List A))
  pack chunks cur used i [] = ok (chunks ++ cur ∷ [])
  pack chunks cur used i (r ∷ rs) =
      let sz = size r in
      let cut = pack (chunks ++ cur ∷ []) (r ∷ []) sz (i + 1) rs in
      let keep = pack chunks (cur ++ r ∷ []) (used + sz) (i + 1) rs in
      if ltb budget sz
      then err (nlri_too_large i sz budget)
      else if ltb budget (used + sz)
      then cut
      else keep
