-- ===== src/Includes/Parser/Measure.antt =====
-- The files that a search has not entered yet, which bounds the depth of src/includes_rework.cpp's recursion.
use dist_build_sys.Base.{
  ℕ, ◌+◌, ◌≤◌, ◌<◌, [], ◌∷◌, ◌≡◌, true, false, some, Bytes, bytes_eq_iff, length, if◌then◌else◌,
  arith,
}
use dist_build_sys.Base.Dict.{
  Dict, lookup, insert, contains, lookup-insert, contains-insert, contains-insert_self,
}

module _ {ℓ κ} {V : Type ℓ} {W : Type κ} where
  unfoldable pub unvisited : Dict V → Dict W → ℕ
  unvisited [] seen = 0
  unvisited ((p, v) ∷ files) seen = (if contains p seen then 0 else 1) + unvisited files seen

  -- A larger set of entered paths leaves fewer files.
  pub unvisited_anti :
      (files : Dict V) (seen later : Dict W)
      → ((p : Bytes) → contains p seen ≡ true → contains p later ≡ true)
      → unvisited files later ≤ unvisited files seen
  unfolding unvisited
  unvisited_anti [] seen later grown = omega arith
  unvisited_anti ((p, v) ∷ files) seen later grown =
      ground (arith, grown p, unvisited_anti files seen later grown)

  pub unvisited-le-length : (files : Dict V) (seen : Dict W) → unvisited files seen ≤ length files
  unfolding unvisited
  unvisited-le-length [] seen = omega arith
  unvisited-le-length ((p, v) ∷ files) seen = ground (arith, unvisited-le-length files seen)

  -- To enter a file that was not entered leaves strictly fewer.
  pub unvisited-insert :
      (files : Dict V) (seen : Dict W) (k : Bytes) (v : V) (w : W)
      → lookup k files ≡ some v
      → contains k seen ≡ false
      → unvisited files (insert k w seen) < unvisited files seen
  unfolding unvisited lookup
  unvisited-insert [] seen k v w h new = cc
  unvisited-insert ((p, u) ∷ files) seen k v w h new = ground (
    arith,
    bytes_eq_iff p k,
    lookup-insert k p w seen,
    contains-insert_self k w seen,
    contains-insert k p w seen,
    unvisited_anti files seen (insert k w seen) (λ j e. contains-insert k j w seen e),
    unvisited-insert files seen k v w,
  )
