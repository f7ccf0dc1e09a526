-- ===== src/Store/Secret/Packing.antt =====
-- Packing the document and unpacking it (internal/store/secret.go).
use devops_tools.Prelude.{
  ℕ, ◌≤◌, Text, ◌≡◌, arith, true, false, some, length, ltb, inl, inr, Option-cases, Bool-cases,
}
use devops_tools.Store.Secret.{Gzip, compressed, pack, unpack, max_unpacked, pack_above}

-- The documented behaviour of gzip: its signature, and reading back what was written, if the bound
-- on what is read lets it through.
pub record GzipLaws (gzip : Gzip) : Type 0 where
  pub signature :
      (bytes packed : Text) → gzip.deflate bytes ≡ some packed → compressed packed ≡ true
  pub read_back :
      (n : ℕ) (bytes packed : Text)
      → gzip.deflate bytes ≡ some packed
      → length bytes ≤ n
      → gzip.inflate n packed ≡ some bytes

-- What a document packs to unpacks to the document, if it is not itself compressed and not longer
-- than the bound on what is unpacked.
pub unpack-pack :
    (gzip : Gzip) (laws : GzipLaws gzip) (bytes : Text)
    → compressed bytes ≡ false
    → length bytes ≤ max_unpacked
    → unpack gzip (pack gzip bytes) ≡ some bytes
unfolding pack unpack
unpack-pack gzip laws bytes plain small = elim (Bool-cases (ltb (length bytes) pack_above)) [
  | inl e ↦ ground arith
  | inr e ↦ elim (Option-cases (gzip.deflate bytes)) [
    | inl d ↦ ground arith
    | inr (packed, d) ↦
        ground
          (arith, laws.signature bytes packed d, laws.read_back max_unpacked bytes packed d small)
  ]
]
