-- ===== src/Updates/Verified.antt =====
-- What `apply` of master/src/update.rs installs.
use text.Mathlib.TextEquality.{eq_iff}
use Prim.Native.String.{String}
use honey.Prelude.{true, Option, none, some, Bool-cases, inl, inr, ◌≡◌, refl, arith}
use honey.Updates.{
  Release, ReleaseAsset, is_newer, pick_asset, expected_hash, Applied, installed, verify, download,
  with_hash, with_listing, with_checksums, with_asset, apply, first_checksums,
}

module _ {B : Type 0} (current os arch : String) (fetch_text : String → Option String)
    (fetch_bytes : String → Option B) (sha256 : B → String) where
  -- Where installed bytes come from.
  pub record IsVerified (release : Release) (tag : String) (bytes : B) : Type 0 where
    pub asset : ReleaseAsset
    pub sums : ReleaseAsset
    pub listing : String
    pub newer : is_newer current release.tag ≡ true
    pub tagged : tag ≡ release.tag
    pub picked : pick_asset os arch release.assets ≡ some asset
    pub published : first_checksums release.assets ≡ some sums
    pub listed : fetch_text sums.url ≡ some listing
    pub fetched : fetch_bytes asset.url ≡ some bytes
    pub hashed : expected_hash listing asset.name ≡ some (sha256 bytes)

  abbrev run_verify : String → String → B → Applied B
  run_verify = verify current os arch fetch_text fetch_bytes sha256

  verify-installed :
      (tag t expected : String) (b bytes : B)
      → run_verify tag expected b ≡ installed t bytes
      → (t ≡ tag) × (b ≡ bytes) × (expected ≡ sha256 bytes)
  unfolding verify
  verify-installed tag t expected b bytes h = ground (arith, h, eq_iff (sha256 b) expected)

  -- The steps of `apply`, each with what its call returned.
  module _ (release : Release) (t : String) (bytes : B)
      (newer : is_newer current release.tag ≡ true) where
    from_download :
        (asset sums : ReleaseAsset) (listing expected : String) (o : Option B)
        → pick_asset os arch release.assets ≡ some asset
        → first_checksums release.assets ≡ some sums
        → fetch_text sums.url ≡ some listing
        → expected_hash listing asset.name ≡ some expected
        → fetch_bytes asset.url ≡ o
        → download current os arch fetch_text fetch_bytes sha256 release.tag asset expected o
          ≡ installed t bytes
        → IsVerified release t bytes
    from_download asset sums listing expected none p q r e f h = absurd (cc)
    from_download asset sums listing expected (some b) p q r e f h =
        let same = verify-installed release.tag t expected b bytes h in
        record {
          asset = asset;
          sums = sums;
          listing = listing;
          newer = newer;
          tagged = same.0;
          picked = p;
          published = q;
          listed = r;
          fetched = ground (arith, f, same.1);
          hashed = ground (arith, e, same.2);
        }

    from_hash :
        (asset sums : ReleaseAsset) (listing : String) (o : Option String)
        → pick_asset os arch release.assets ≡ some asset
        → first_checksums release.assets ≡ some sums
        → fetch_text sums.url ≡ some listing
        → expected_hash listing asset.name ≡ o
        → with_hash current os arch fetch_text fetch_bytes sha256 release.tag asset o
          ≡ installed t bytes
        → IsVerified release t bytes
    from_hash asset sums listing none p q r e h = absurd (cc)
    from_hash asset sums listing (some expected) p q r e h =
        from_download asset sums listing expected (fetch_bytes asset.url) p q r e refl h

    from_listing :
        (asset sums : ReleaseAsset) (o : Option String)
        → pick_asset os arch release.assets ≡ some asset
        → first_checksums release.assets ≡ some sums
        → fetch_text sums.url ≡ o
        → with_listing current os arch fetch_text fetch_bytes sha256 release.tag asset o
          ≡ installed t bytes
        → IsVerified release t bytes
    from_listing asset sums none p q r h = absurd (cc)
    from_listing asset sums (some listing) p q r h =
        from_hash asset sums listing (expected_hash listing asset.name) p q r refl h

    from_checksums :
        (asset : ReleaseAsset) (o : Option ReleaseAsset)
        → pick_asset os arch release.assets ≡ some asset
        → first_checksums release.assets ≡ o
        → with_checksums current os arch fetch_text fetch_bytes sha256 release.tag asset o
          ≡ installed t bytes
        → IsVerified release t bytes
    from_checksums asset none p q h = absurd (cc)
    from_checksums asset (some sums) p q h =
        from_listing asset sums (fetch_text sums.url) p q refl h

    from_asset :
        (o : Option ReleaseAsset)
        → pick_asset os arch release.assets ≡ o
        → with_asset current os arch fetch_text fetch_bytes sha256 release o ≡ installed t bytes
        → IsVerified release t bytes
    from_asset none p h = absurd (cc)
    from_asset (some asset) p h = from_checksums asset (first_checksums release.assets) p refl h

  -- `apply` installs nothing but a release that is newer than the running version, the bytes of the
  -- asset that it picks for the platform, and only if their digest is the one that a checksums asset of
  -- the same release lists for it.
  pub installed-IsVerified :
      (release : Release) (t : String) (bytes : B)
      → apply current os arch fetch_text fetch_bytes sha256 release ≡ installed t bytes
      → IsVerified release t bytes
  unfolding apply
  installed-IsVerified release t bytes h = elim (Bool-cases (is_newer current release.tag)) [
    | inl e ↦ from_asset release t bytes e (pick_asset os arch release.assets) refl (rw e at h)
    | inr e ↦ absurd (ground (arith, e, h))
  ]
